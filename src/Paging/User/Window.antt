-- ===== src/Paging/User/Window.antt =====
-- Words that are written through a page of the kernel that leads to a frame.
use seli_os.Paging.User.{Space, store_word, fill_words}
use seli_os.Paging.{Paging, put, map_page}
use seli_os.Paging.Map.{OneTable, resolve, resolve-map_page}
use seli_os.Prelude.{
  ℕ, zero, suc, ◌+◌, ◌*◌, ◌%◌, ◌^◌, ◌≤◌, ◌<◌, ◌≡◌, ◌≢◌, refl, sym, ap, ◌∙◌, inl, inr, some, arith,
  false, ltb, ◌==◌, Bool-cases, ==_iff, ==_self, ==_of_ne,
}
use mathlib.Core.Path.{subst}

pub put_self : (table : ℕ → ℕ) (i v : ℕ) → put table i v i ≡ v
put_self table i v = let same = ==_self i in rw same refl

pub put_other : (table : ℕ → ℕ) (i j v : ℕ) → i ≢ j → put table i v j ≡ table j
put_other table i j v ne = let other = ==_of_ne i j ne in rw other refl

module _ (s : Space) (value : ℕ → ℕ) (ptr frame : ℕ)
    (mapped : (j : ℕ)
      → j < 1024
      → resolve s.paging (ptr + 4 * j) ≡ some (frame * 2 ^ 12 + 4 * j)) where
  -- The words from `i` up to `i + left` of the frame are filled, and no others.
  pub fill_words_lem :
      (left i : ℕ) (memory : ℕ → ℕ)
      → i + left ≤ 1024
      → (memory' : ℕ → ℕ) × (fill_words left i value ptr (record s { memory = memory })
          ≡ some (record s { memory = memory' }))
        × ((j : ℕ) → i ≤ j → j < i + left → memory' (frame * 2 ^ 12 + 4 * j) ≡ value j)
        × ((a : ℕ)
            → ((j : ℕ) → i ≤ j → j < i + left → a ≢ frame * 2 ^ 12 + 4 * j)
            → memory' a ≡ memory a)
  unfolding fill_words store_word
  fill_words_lem zero i memory room =
      (memory, refl, (λ j lo hi. absurd (omega arith)), λ a apart. refl)
  fill_words_lem (suc left) i memory room =
      let here = mapped i (omega arith) in
      let stored = put memory (frame * 2 ^ 12 + 4 * i) (value i) in
      let (memory', run, filled, kept) = fill_words_lem left (i + 1) stored (omega arith) in
      (
        memory',
        rw here run,
        (λ j lo hi. elim (Bool-cases (i == j)) [
          | inl same ↦
              subst (λ k. memory' (frame * 2 ^ 12 + 4 * k) ≡ value k) ((==_iff i j).0 same)
                (kept (frame * 2 ^ 12 + 4 * i) (λ k lo' hi' e. omega arith)
                  ∙ put_self memory (frame * 2 ^ 12 + 4 * i) (value i))
          | inr later ↦ filled j (ground arith) (omega arith)
        ]),
        λ a apart.
            kept a (λ j lo hi. apart j (omega arith) (omega arith))
            ∙ put_other memory (frame * 2 ^ 12 + 4 * i) a (value i)
                (λ e. apart i (omega arith) (omega arith) (sym e)),
      )

pub ltb-le : (a b : ℕ) → ltb a b ≡ false → b ≤ a
ltb-le a b h = ground arith

pub workbench :
    (p : Paging) (f : ℕ)
    → OneTable p
    → (j : ℕ) → j < 1024
    → resolve (map_page 0xC0500000 (f * 2 ^ 12) p) (0xC0500000 + 4 * j) ≡ some (f * 2 ^ 12 + 4 * j)
workbench p f one j small =
    resolve-map_page p one 0xC0500000 f (0xC0500000 + 4 * j) (inl (omega arith)) (omega arith)
    ∙ ap (λ k. some (f * 2 ^ 12 + k)) {x = (0xC0500000 + 4 * j) % 2 ^ 12} {y = 4 * j} (omega arith)
