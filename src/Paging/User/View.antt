-- ===== src/Paging/User/View.antt =====
-- The address space of a user program, as the processor sees it through the program's directory. The
-- walks read the tables in memory: the translations that the processor keeps are not modelled.
use seli_os.Memory.{bitmap_size}
use seli_os.Memory.Frames.{used}
use seli_os.Paging.Map.{OneTable, resolve}
use seli_os.Paging.User.{Space}
use seli_os.Prelude.{
  ℕ, ◌+◌, ◌*◌, ◌/◌, ◌%◌, ◌^◌, ◌<◌, ◌≡◌, ◌≢◌, ◌⊎◌, inl, inr, refl, Option, none, some, length, true,
  arith, ◌==◌, if◌then◌else◌,
}

-- The word of the directory in frame `d` for its entry `i`.
abbrev pub entry : (ℕ → ℕ) → ℕ → ℕ → ℕ
entry memory d i = memory (d * 2 ^ 12 + 4 * i)

-- Where a program finds an address, at the lowest privilege: the entry of the directory in frame `d`
-- and the entry of the table that it leads to are present, writable and open to the user.
abbrev pub walk : (ℕ → ℕ) → ℕ → ℕ → Option ℕ
walk memory d address =
    let table = entry memory d (address / 2 ^ 22) in
    let page = entry memory (table / 2 ^ 12) (address / 2 ^ 12 % 2 ^ 10) in
    if table % 2 ^ 3 == 7
    then if page % 2 ^ 3 == 7 then some (page / 2 ^ 12 * 2 ^ 12 + address % 2 ^ 12) else none
    else none

-- Where the kernel finds it: the two entries are present.
abbrev pub kernel_walk : (ℕ → ℕ) → ℕ → ℕ → Option ℕ
kernel_walk memory d address =
    let table = entry memory d (address / 2 ^ 22) in
    let page = entry memory (table / 2 ^ 12) (address / 2 ^ 12 % 2 ^ 10) in
    if table % 2 == 1
    then if page % 2 == 1 then some (page / 2 ^ 12 * 2 ^ 12 + address % 2 ^ 12) else none
    else none

-- What a program may use the kernel may.
pub kernel_walk-walk :
    (memory : ℕ → ℕ) (d address a : ℕ)
    → walk memory d address ≡ some a
    → kernel_walk memory d address ≡ some a
kernel_walk-walk memory d address a e =
    opened (entry memory d (address / 2 ^ 22))
      (entry memory (entry memory d (address / 2 ^ 22) / 2 ^ 12) (address / 2 ^ 12 % 2 ^ 10))
      (some (
        entry memory (entry memory d (address / 2 ^ 22) / 2 ^ 12) (address / 2 ^ 12 % 2 ^ 10)
          / 2 ^ 12
          * 2 ^ 12
        + address % 2 ^ 12))
      e
  where
    opened :
        (table page : ℕ) (found : Option ℕ)
        → (if table % 2 ^ 3 == 7 then if page % 2 ^ 3 == 7 then found else none else none) ≡ some a
        → (if table % 2 == 1 then if page % 2 == 1 then found else none else none) ≡ some a
    opened table page found e = ground arith

-- What the kernel does not find a program does not either.
pub walk-kernel_walk :
    (memory : ℕ → ℕ) (d address : ℕ)
    → kernel_walk memory d address ≡ none
    → walk memory d address ≡ none
walk-kernel_walk memory d address e = elim (Option-cases (walk memory d address)) [
  | inl absent ↦ absent
  | inr (a, found) ↦
      let there : kernel_walk memory d address ≡ some a =
        kernel_walk-walk memory d address a found in
      absurd (cc)
]
  where
    Option-cases : (o : Option ℕ) → (o ≡ none) ⊎ (a : ℕ) × (o ≡ some a)
    Option-cases none = inl refl
    Option-cases (some a) = inr (a, refl)

-- An address space with one more page.
abbrev pub with_page : ℕ → ℕ → (ℕ → Option ℕ) → ℕ → Option ℕ
with_page page physical view address =
    if address / 2 ^ 12 == page then some (physical + address % 2 ^ 12) else view address

-- A word of the directory for user addresses leads to a frame that is in use, or to none.
abbrev pub Leads : Space → ℕ → ℕ → Type 0
Leads s d word =
    (word % 2 ≡ 0)
    ⊎ (t : ℕ) × (word ≡ t * 2 ^ 12 + 7) × (used s.bitmap t ≡ true) × (t < 2 ^ 20) × (t ≢ d)

-- The directory in frame `d` stands at 0xC0500000, each of its entries for user addresses is absent or
-- leads to a table of its own, and the directory and the tables are frames in use.
pub record IsUserDirectory (s : Space) (d : ℕ) : Type 0 where
  pub one : OneTable s.paging
  pub size : length s.bitmap ≡ bitmap_size
  pub window :
      (j : ℕ) → j < 1024 → resolve s.paging (0xC0500000 + 4 * j) ≡ some (d * 2 ^ 12 + 4 * j)
  pub taken : used s.bitmap d ≡ true
  pub leads : (i : ℕ) → i < 768 → Leads s d (entry s.memory d i)
  pub apart :
      (i j : ℕ)
      → i < 768
      → j < 768
      → entry s.memory d i % 2 ≡ 1
      → entry s.memory d i ≡ entry s.memory d j
      → i ≡ j

-- Frame `f` is in use, but neither as the directory nor as one of its tables.
pub record IsPrivate (s : Space) (d f : ℕ) : Type 0 where
  pub taken : used s.bitmap f ≡ true
  pub not_d : f ≢ d
  pub no_table : (i : ℕ) → i < 768 → entry s.memory d i ≢ f * 2 ^ 12 + 7
