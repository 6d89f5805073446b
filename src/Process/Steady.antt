-- ===== src/Process/Steady.antt =====
-- Writes to the pages of a program leave its tables alone.
use seli_os.Paging.User.{Space}
use seli_os.Paging.User.View.{entry, walk, IsUserDirectory}
use seli_os.Paging.User.Page.{walk_at, walk_absent, leaf, slots_apart}
use seli_os.Process.Program.{IsLoaded}
use seli_os.Prelude.{ℕ, ◌+◌, ◌*◌, ◌/◌, ◌%◌, ◌^◌, ◌≤◌, ◌<◌, ◌≡◌, ◌≢◌, sym, ap, ◌∙◌, inl, inr, arith}

-- The directory and its tables say what a program sees.
walk_same :
    (s : Space) (d : ℕ) (memory : ℕ → ℕ)
    → IsUserDirectory s d
    → ((k : ℕ) → k < 1024 → entry memory d k ≡ entry s.memory d k)
    → ((i t k : ℕ)
        → i < 768
        → entry s.memory d i ≡ t * 2 ^ 12 + 7
        → k < 1024
        → entry memory t k ≡ entry s.memory t k)
    → (w : ℕ) → w < 0xC0000000
    → walk memory d w ≡ walk s.memory d w
walk_same s d memory is directory tables w user =
    let same = directory (w / 2 ^ 22) (omega arith) in
    elim (is.leads (w / 2 ^ 22) (omega arith)) [
      | inl even ↦
          walk_absent memory d w (ap (λ e. e % 2) same ∙ even) ∙ sym (walk_absent s.memory d w even)
      | inr (t, at, taken, in_range, not_d) ↦
          walk_at memory d w t (same ∙ at)
          ∙ ap (λ p. leaf p w)
              (tables (w / 2 ^ 22) t (w / 2 ^ 12 % 2 ^ 10) (omega arith) at (omega arith))
          ∙ sym (walk_at s.memory d w t at)
    ]

-- Where byte `i` of the program stands.
abbrev pub place : (ℕ → ℕ) → ℕ → ℕ
place frame i = frame (i / 2 ^ 12) * 2 ^ 12 + i % 2 ^ 12

word_of : (f i : ℕ) → (f * 2 ^ 12 + i % 2 ^ 12) / 4 * 4 ≡ f * 2 ^ 12 + 4 * (i % 2 ^ 12 / 4)
word_of f i = omega arith

module _ (s0 s : Space) (d n size : ℕ) (loaded : IsLoaded s0 d n s) (fits : size ≤ n * 4096) where
  pages_apart :
      (u k i : ℕ)
      → k < 1024
      → i < size
      → ((j : ℕ) → j < n → loaded.frame j ≢ u)
      → place loaded.frame i / 4 * 4 ≢ u * 2 ^ 12 + 4 * k
  pages_apart u k i small inside ne e =
      slots_apart (loaded.frame (i / 2 ^ 12)) u (i % 2 ^ 12 / 4) k (ne (i / 2 ^ 12) (omega arith))
        (omega arith) small (sym (word_of (loaded.frame (i / 2 ^ 12)) i) ∙ e)

  pub pages-steady :
      (memory : ℕ → ℕ)
      → ((a : ℕ) → ((i : ℕ) → i < size → place loaded.frame i / 4 * 4 ≢ a) → memory a ≡ s.memory a)
      → (w : ℕ) → w < 0xC0000000
      → walk memory d w ≡ walk s.memory d w
  pages-steady memory outside =
      walk_same s d memory loaded.extends.directory
        (λ k small.
          outside (d * 2 ^ 12 + 4 * k)
            (λ i inside. pages_apart d k i small inside (λ j page. (loaded.private j page).not_d)))
        (λ i t k user at small. outside (t * 2 ^ 12 + 4 * k) (λ j inside.
          pages_apart t k j small inside (λ m page same.
            (loaded.private m page).no_table i user (at ∙ ap (λ x. x * 2 ^ 12 + 7) (sym same)))))

  pub place-distinct :
      (i j : ℕ) → i < size → j < size → place loaded.frame i ≡ place loaded.frame j → i ≡ j
  place-distinct i j hi hj e =
      let page =
        loaded.distinct (i / 2 ^ 12) (j / 2 ^ 12) (omega arith) (omega arith) (omega arith) in
      omega arith
