-- ===== src/Paging/User/Page.antt =====
-- `set_page`: the entry of a page whose table is there.
use seli_os.Paging.{put, pd_index, pt_index, map_page, Paging}
use seli_os.Paging.Map.{
  OneTable, resolve, resolve-map_page, resolve-map_page_other, map_page-OneTable, pt_index_lem,
}
use seli_os.Paging.User.{Space, store_word, load_word, set_page}
use seli_os.Paging.User.Window.{put_self, put_other}
use seli_os.Paging.User.View.{entry, walk, with_page, IsUserDirectory}
use seli_os.Prelude.{
  ℕ, ◌+◌, ◌*◌, ◌-◌, ◌/◌, ◌%◌, ◌^◌, ◌<◌, ◌≡◌, ◌≢◌, refl, sym, ap, ◌∙◌, inl, inr, Option, some, none,
  arith, bit_and, bit_or, ◌==◌, if◌then◌else◌, ◌>>=◌, Bool-cases, ==_iff, ==_self, ==_of_ne,
}
use seli_os.Prelude.Bits.{bit_and-ones, bit_and-shifted, bit_or-shifted}

-- `& 0xFFFFF000` strips the flags.
pub bit_and-flags : (t : ℕ) → t < 2 ^ 20 → bit_and (t * 2 ^ 12 + 7) 0xFFFFF000 ≡ t * 2 ^ 12
bit_and-flags t small =
    bit_and-shifted 12 (t * 2 ^ 12 + 7) (2 ^ 20 - 1)
    ∙ ap (λ k. k * 2 ^ 12) (bit_and-ones 20 ((t * 2 ^ 12 + 7) / 2 ^ 12) ∙ omega arith)

pub bit_or-flags : (f : ℕ) → bit_or (f * 2 ^ 12) 7 ≡ f * 2 ^ 12 + 7
bit_or-flags f = bit_or-shifted 12 f 7 (omega arith)

-- Words of two frames are apart.
pub slots_apart :
    (t d a b : ℕ) → t ≢ d → a < 1024 → b < 1024 → t * 2 ^ 12 + 4 * a ≢ d * 2 ^ 12 + 4 * b
slots_apart t d a b ne small small' e = ne (omega arith)

-- The second page of the kernel leaves the first one where it is.
pub window_kept :
    (p : Paging) (d t : ℕ)
    → OneTable p
    → ((j : ℕ) → j < 1024 → resolve p (0xC0500000 + 4 * j) ≡ some (d * 2 ^ 12 + 4 * j))
    → (j : ℕ) → j < 1024
    → resolve (map_page 0xC0600000 (t * 2 ^ 12) p) (0xC0500000 + 4 * j) ≡ some (d * 2 ^ 12 + 4 * j)
window_kept p d t one window j small =
    resolve-map_page_other p one 0xC0600000 t (0xC0500000 + 4 * j) (d * 2 ^ 12 + 4 * j)
      (λ e. omega arith) (window j small)

pub workbench_table :
    (p : Paging) (t k : ℕ)
    → OneTable p
    → k < 1024
    → resolve (map_page 0xC0600000 (t * 2 ^ 12) p) (0xC0600000 + 4 * k) ≡ some (t * 2 ^ 12 + 4 * k)
workbench_table p t k one small =
    resolve-map_page p one 0xC0600000 t (0xC0600000 + 4 * k) (inl (omega arith)) (omega arith)
    ∙ ap (λ k. some (t * 2 ^ 12 + k)) {x = (0xC0600000 + 4 * k) % 2 ^ 12} {y = 4 * k} (omega arith)

load_word_run :
    (s : Space) (address physical : ℕ)
    → resolve s.paging address ≡ some physical
    → load_word address s ≡ some (s.memory physical)
unfolding load_word
load_word_run s address physical e = ap (λ o. o >>= λ a. some (s.memory a)) e

pub store_word_run :
    (s : Space) (address value physical : ℕ)
    → resolve s.paging address ≡ some physical
    → store_word address value s ≡ some (record s { memory = put s.memory physical value })
unfolding store_word
store_word_run s address value physical e =
    ap (λ o. o >>= λ a. some (record s { memory = put s.memory a value })) e

pub entry_run :
    (s : Space) (d v : ℕ)
    → IsUserDirectory s d
    → v < 2 ^ 32
    → load_word (0xC0500000 + 4 * (v / 2 ^ 22)) s ≡ some (entry s.memory d (v / 2 ^ 22))
entry_run s d v is small =
    load_word_run s (0xC0500000 + 4 * (v / 2 ^ 22)) (d * 2 ^ 12 + 4 * (v / 2 ^ 22))
      (is.window (v / 2 ^ 22) (omega arith))

-- The space that `set_page` leaves for a page of table `t`.
abbrev pub with_entry : Space → (v f t : ℕ) → Space
with_entry s v f t = record s {
  paging = map_page 0xC0600000 (t * 2 ^ 12) s.paging;
  memory = put s.memory (t * 2 ^ 12 + 4 * (v / 2 ^ 12 % 2 ^ 10)) (f * 2 ^ 12 + 7);
}

-- What an entry of a table says.
abbrev pub leaf : ℕ → ℕ → Option ℕ
leaf page w = if page % 2 ^ 3 == 7 then some (page / 2 ^ 12 * 2 ^ 12 + w % 2 ^ 12) else none

leaf-present : (f w : ℕ) → leaf (f * 2 ^ 12 + 7) w ≡ some (f * 2 ^ 12 + w % 2 ^ 12)
leaf-present f w = ground arith

-- The walk through a table that is there, and through one that is not.
pub walk_at :
    (memory : ℕ → ℕ) (d w t : ℕ)
    → entry memory d (w / 2 ^ 22) ≡ t * 2 ^ 12 + 7
    → walk memory d w ≡ leaf (entry memory t (w / 2 ^ 12 % 2 ^ 10)) w
walk_at memory d w t e =
    let open_flags : (t * 2 ^ 12 + 7) % 2 ^ 3 ≡ 7 = omega arith in
    let table : (t * 2 ^ 12 + 7) / 2 ^ 12 ≡ t = omega arith in rw (e, open_flags, table) refl

pub walk_absent :
    (memory : ℕ → ℕ) (d w : ℕ) → entry memory d (w / 2 ^ 22) % 2 ≡ 0 → walk memory d w ≡ none
walk_absent memory d w even =
    rw (==_of_ne (entry memory d (w / 2 ^ 22) % 2 ^ 3) 7 (λ e. omega arith)) refl

-- A page is known by its entry in the directory and its entry in the table.
with_page_here :
    (v physical w : ℕ) (view : ℕ → Option ℕ)
    → w / 2 ^ 22 ≡ v / 2 ^ 22
    → w / 2 ^ 12 % 2 ^ 10 ≡ v / 2 ^ 12 % 2 ^ 10
    → with_page (v / 2 ^ 12) physical view w ≡ some (physical + w % 2 ^ 12)
with_page_here v physical w view high low =
    let same : w / 2 ^ 12 ≡ v / 2 ^ 12 = omega arith in rw (same, ==_self (v / 2 ^ 12)) refl

with_page_apart :
    (v physical w : ℕ) (view : ℕ → Option ℕ)
    → w / 2 ^ 12 ≢ v / 2 ^ 12
    → with_page (v / 2 ^ 12) physical view w ≡ view w
with_page_apart v physical w view ne = rw (==_of_ne (w / 2 ^ 12) (v / 2 ^ 12) ne) refl

module _ (s : Space) (d v f t : ℕ) (is : IsUserDirectory s d) (user : v < 0xC0000000)
    (there : entry s.memory d (v / 2 ^ 22) ≡ t * 2 ^ 12 + 7) where
  abbrev write : ℕ → Option Space
  write e =
      store_word (0xC0600000 + 4 * pt_index v) (bit_or (f * 2 ^ 12) 7)
        (record s { paging = map_page 0xC0600000 (bit_and e 0xFFFFF000) s.paging })

  pub set_page_run : t < 2 ^ 20 → set_page 0xC0500000 v (f * 2 ^ 12) s ≡ some (with_entry s v f t)
  unfolding set_page pd_index
  set_page_run small =
      ap (λ o. o >>= write) (entry_run s d v is (omega arith))
      ∙ ap write there
      ∙ rw (pt_index_lem v, bit_or-flags f, bit_and-flags t small)
          (store_word_run (record s { paging = map_page 0xC0600000 (t * 2 ^ 12) s.paging })
            (0xC0600000 + 4 * (v / 2 ^ 12 % 2 ^ 10)) (f * 2 ^ 12 + 7)
            (t * 2 ^ 12 + 4 * (v / 2 ^ 12 % 2 ^ 10))
            (workbench_table s.paging t (v / 2 ^ 12 % 2 ^ 10) is.one (omega arith)))

  abbrev slot : ℕ
  slot = t * 2 ^ 12 + 4 * (v / 2 ^ 12 % 2 ^ 10)

  module _ (apart : t ≢ d) where
    pub entry_kept : (i : ℕ) → i < 1024 → entry (with_entry s v f t).memory d i ≡ entry s.memory d i
    entry_kept i small =
        put_other s.memory slot (d * 2 ^ 12 + 4 * i) (f * 2 ^ 12 + 7)
          (slots_apart t d (v / 2 ^ 12 % 2 ^ 10) i apart (omega arith) small)

    page_here : entry (with_entry s v f t).memory t (v / 2 ^ 12 % 2 ^ 10) ≡ f * 2 ^ 12 + 7
    page_here = put_self s.memory slot (f * 2 ^ 12 + 7)

    page_beside :
        (k : ℕ)
        → k < 1024
        → k ≢ v / 2 ^ 12 % 2 ^ 10
        → entry (with_entry s v f t).memory t k ≡ entry s.memory t k
    page_beside k small ne =
        put_other s.memory slot (t * 2 ^ 12 + 4 * k) (f * 2 ^ 12 + 7) (λ e. ne (omega arith))

    pub page_elsewhere :
        (u k : ℕ) → k < 1024 → t ≢ u → entry (with_entry s v f t).memory u k ≡ entry s.memory u k
    page_elsewhere u k small ne =
        put_other s.memory slot (u * 2 ^ 12 + 4 * k) (f * 2 ^ 12 + 7)
          (slots_apart t u (v / 2 ^ 12 % 2 ^ 10) k ne (omega arith) small)

    walk_same :
        (w : ℕ)
        → w / 2 ^ 22 ≡ v / 2 ^ 22
        → walk (with_entry s v f t).memory d w
          ≡ with_page (v / 2 ^ 12) (f * 2 ^ 12) (walk s.memory d) w
    walk_same w high =
        let before = ap (entry s.memory d) high ∙ there in
        let after = entry_kept (w / 2 ^ 22) (omega arith) ∙ before in
        walk_at (with_entry s v f t).memory d w t after
        ∙ elim (Bool-cases (w / 2 ^ 12 % 2 ^ 10 == v / 2 ^ 12 % 2 ^ 10)) [
          | inl same ↦
              let low = (==_iff (w / 2 ^ 12 % 2 ^ 10) (v / 2 ^ 12 % 2 ^ 10)).0 same in
              ap (λ k. leaf (entry (with_entry s v f t).memory t k) w) low
              ∙ ap (λ p. leaf p w) page_here
              ∙ leaf-present f w
              ∙ sym (with_page_here v (f * 2 ^ 12) w (walk s.memory d) high low)
          | inr other ↦
              let ne : w / 2 ^ 12 % 2 ^ 10 ≢ v / 2 ^ 12 % 2 ^ 10 = λ e. ground arith in
              ap (λ p. leaf p w) (page_beside (w / 2 ^ 12 % 2 ^ 10) (omega arith) ne)
              ∙ sym (walk_at s.memory d w t before)
              ∙ sym (with_page_apart v (f * 2 ^ 12) w (walk s.memory d) (λ e. ne (omega arith)))
        ]

    walk_other :
        (w : ℕ)
        → w < 0xC0000000
        → w / 2 ^ 22 ≢ v / 2 ^ 22
        → walk (with_entry s v f t).memory d w
          ≡ with_page (v / 2 ^ 12) (f * 2 ^ 12) (walk s.memory d) w
    walk_other w small ne =
        let kept = entry_kept (w / 2 ^ 22) (omega arith) in
        elim (is.leads (w / 2 ^ 22) (omega arith)) [
          | inl even ↦
              walk_absent (with_entry s v f t).memory d w (ap (λ e. e % 2) kept ∙ even)
              ∙ sym (walk_absent s.memory d w even)
          | inr (u, leads, in_use, inside, not_d) ↦
              let distinct : t ≢ u = λ e. ne (
                is.apart (w / 2 ^ 22) (v / 2 ^ 22) (omega arith) (omega arith) (omega arith)
                  (omega arith)) in
              walk_at (with_entry s v f t).memory d w u (kept ∙ leads)
              ∙ ap (λ p. leaf p w) (page_elsewhere u (w / 2 ^ 12 % 2 ^ 10) (omega arith) distinct)
              ∙ sym (walk_at s.memory d w u leads)
        ]
        ∙ sym (with_page_apart v (f * 2 ^ 12) w (walk s.memory d) (λ e. ne (omega arith)))

    pub walk-set_page :
        (w : ℕ)
        → w < 0xC0000000
        → walk (with_entry s v f t).memory d w
          ≡ with_page (v / 2 ^ 12) (f * 2 ^ 12) (walk s.memory d) w
    walk-set_page w small = elim (Bool-cases (w / 2 ^ 22 == v / 2 ^ 22)) [
      | inl same ↦ walk_same w ((==_iff (w / 2 ^ 22) (v / 2 ^ 22)).0 same)
      | inr other ↦ walk_other w small (λ e. ground arith)
    ]

    pub with_entry-IsUserDirectory : IsUserDirectory (with_entry s v f t) d
    with_entry-IsUserDirectory = record {
      one = map_page-OneTable s.paging is.one 0xC0600000 t;
      size = is.size;
      window = window_kept s.paging d t is.one is.window;
      taken = is.taken;
      leads = λ i user. rw (entry_kept i (omega arith)) (is.leads i user);
      apart = λ i j small small'.
          rw (entry_kept i (omega arith), entry_kept j (omega arith)) (is.apart i j small small');
    }
