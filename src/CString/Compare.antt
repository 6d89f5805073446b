-- ===== src/CString/Compare.antt =====
-- `strcmp` decides equality of the texts and gives their order.
use seli_os.CString.{strcmp}
use seli_os.CString.Text.{text, text_uncons}
use seli_os.Prelude.{
  ℕ, zero, suc, ◌<◌, ◌≡◌, refl, ap, ◌↔◌, ◌≢◌, ◌⊎◌, inl, inr, Option, some, List, [], ◌∷◌, arith,
  leb, ◌==◌, Bool-cases, ==_iff,
}
use seli_os.Prelude.Int.{ℤ, pos, negsuc, sub_ℕ}

-- The order of texts: a proper prefix comes first, else the first differing byte decides.
abbrev pub Before : List ℕ → List ℕ → Type 0
Before s [] = ⊥
Before [] (b ∷ t) = Unit {0}
Before (a ∷ s) (b ∷ t) = (a < b) ⊎ ((a ≡ b) × Before s t)

abbrev pub IsNegative : ℤ → Type 0
IsNegative (pos n) = ⊥
IsNegative (negsuc n) = Unit {0}

pub record IsOrder (s t : List ℕ) (r : Option ℤ) : Type 0 where
  pub difference : ℤ
  pub returns : r ≡ some difference
  pub equal : (difference ≡ pos 0) ↔ (s ≡ t)
  pub before : IsNegative difference ↔ Before s t

IsOrder-cons :
    {s t : List ℕ} {r : Option ℤ} (c : ℕ) → IsOrder s t r → IsOrder (suc c ∷ s) (suc c ∷ t) r
IsOrder-cons c is = record {
  difference = is.difference;
  returns = is.returns;
  equal = (λ e. ap (λ l. suc c ∷ l) (is.equal.0 e), λ e. is.equal.1 (cc));
  before = (
    λ n. inr (refl, is.before.0 n),
    λ b. elim b [ inl less ↦ absurd (omega arith) | inr (same, rest) ↦ is.before.1 rest ],
  );
}

sub_ℕ-IsNegative : (a b : ℕ) → IsNegative (sub_ℕ a b) ↔ (a < b)
sub_ℕ-IsNegative a b = elim (Bool-cases (leb b a)) [
  | inl ge ↦ rw ge ((λ n. absurd n, λ h. absurd (ground arith)))
  | inr less ↦ rw less ((λ n. ground arith, λ h. tt))
]

IsOrder-ne :
    (a b : ℕ) (s t : List ℕ)
    → a ≢ b
    → IsOrder (suc a ∷ s) (suc b ∷ t) (some (sub_ℕ (suc a) (suc b)))
IsOrder-ne a b s t ne = record {
  difference = sub_ℕ (suc a) (suc b);
  returns = refl;
  equal = (λ e. absurd (ne (ground arith)), λ e. absurd (ne (cc)));
  before = (
    λ n. inl ((sub_ℕ-IsNegative (suc a) (suc b)).0 n),
    λ h. elim h [
      | inl less ↦ (sub_ℕ-IsNegative (suc a) (suc b)).1 less
      | inr (same, rest) ↦ absurd (ne (omega arith))
    ],
  );
}

strcmp_differ : (a b : ℕ) (x y : List ℕ) → a ≢ b → strcmp (a ∷ x) (b ∷ y) ≡ some (sub_ℕ a b)
unfolding strcmp
strcmp_differ a b x y ne = ground arith

strcmp_same : (a b : ℕ) (x y : List ℕ) → a ≡ b → strcmp (suc a ∷ x) (suc b ∷ y) ≡ strcmp x y
unfolding strcmp
strcmp_same a b x y e = ground arith

-- On two terminated strings `strcmp` stays inside both arrays; its result is 0 exactly when the
-- texts are equal, and negative exactly when the first comes before the second in byte order.
pub strcmp-IsOrder :
    (x y s t : List ℕ) → text x ≡ some s → text y ≡ some t → IsOrder s t (strcmp x y)
unfolding strcmp
strcmp-IsOrder [] y s t p q = absurd (cc)
strcmp-IsOrder (a ∷ x) [] s t p q = absurd (cc)
strcmp-IsOrder (zero ∷ x) (zero ∷ y) s t p q =
    let s_empty : s ≡ [] = cc in
    let t_empty : t ≡ [] = cc in
    rw (s_empty, t_empty)
      (record {
        difference = pos 0;
        returns = refl;
        equal = (λ _. refl, λ _. refl);
        before = (λ n. absurd n, λ h. absurd h);
      })
strcmp-IsOrder (zero ∷ x) (suc b ∷ y) s t p q =
    let s_empty : s ≡ [] = cc in
    let (t', q', e) = text_uncons b y t q in
    rw (s_empty, e)
      (record {
        difference = sub_ℕ 0 (suc b);
        returns = refl;
        equal = (λ h. absurd (ground arith), λ h. cc);
        before = (λ n. tt, λ h. (sub_ℕ-IsNegative 0 (suc b)).1 (omega arith));
      })
strcmp-IsOrder (suc a ∷ x) (zero ∷ y) s t p q =
    let (s', p', e) = text_uncons a x s p in
    let t_empty : t ≡ [] = cc in
    rw (t_empty, e)
      (record {
        difference = sub_ℕ (suc a) 0;
        returns = strcmp_differ (suc a) 0 x y (omega arith);
        equal = (λ h. absurd (ground arith), λ h. cc);
        before = (λ n. absurd (ground (arith, (sub_ℕ-IsNegative (suc a) 0).0 n)), λ h. absurd h);
      })
strcmp-IsOrder (suc a ∷ x) (suc b ∷ y) s t p q =
    let (s', p', e) = text_uncons a x s p in
    let (t', q', e') = text_uncons b y t q in
    rw (e, e')
      (elim (Bool-cases (a == b)) [
        | inl same ↦
            let ab : a ≡ b = (==_iff a b).0 same in
            rw (strcmp_same a b x y ab, ab) (IsOrder-cons b (strcmp-IsOrder x y s' t' p' q'))
        | inr other ↦
            rw (strcmp_differ (suc a) (suc b) x y (ground arith))
              (IsOrder-ne a b s' t' (ground arith))
      ])
