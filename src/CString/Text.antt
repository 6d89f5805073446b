-- ===== src/CString/Text.antt =====
-- The text that a `char` array holds, independently of the code that walks it.
use Prim.Native.Char.{code}
use Prim.Native.String.{String}
use seli_os.Prelude.Strings.{c_str}
use seli_os.Prelude.{
  ℕ, zero, suc, ◌≡◌, refl, Option, none, some, List, [], ◌∷◌, ◌++◌, arith, length, set?, get_elem?,
  Option-cases, inl, inr,
}

-- The bytes before the first zero byte; `none` if there is no zero byte.
abbrev pub text : List ℕ → Option (List ℕ)
text [] = none
text (zero ∷ xs) = some []
text (suc c ∷ xs) = elim (text xs) [ none ↦ none | some s ↦ some (suc c ∷ s) ]

-- At most `n` bytes of it.
abbrev pub text_take : ℕ → List ℕ → List ℕ
text_take zero xs = []
text_take (suc n) [] = []
text_take (suc n) (zero ∷ xs) = []
text_take (suc n) (suc c ∷ xs) = suc c ∷ text_take n xs

-- Walking over at most `n` bytes of the text stays inside the array.
abbrev pub Readable : ℕ → List ℕ → Type 0
Readable zero xs = Unit {0}
Readable (suc n) [] = ⊥
Readable (suc n) (zero ∷ xs) = Unit {0}
Readable (suc n) (suc c ∷ xs) = Readable n xs

pub text_uncons :
    (c : ℕ) (xs s : List ℕ)
    → text (suc c ∷ xs) ≡ some s
    → (s' : List ℕ) × (text xs ≡ some s') × (s ≡ suc c ∷ s')
text_uncons c xs s e = elim (Option-cases (text xs)) [
  | inl open_end ↦ absurd (ground arith)
  | inr (s', e') ↦ (s', e', ground arith)
]

pub Readable_of_text : (n : ℕ) (xs s : List ℕ) → text xs ≡ some s → Readable n xs
Readable_of_text zero xs s e = tt
Readable_of_text (suc n) [] s e = cc
Readable_of_text (suc n) (zero ∷ xs) s e = tt
Readable_of_text (suc n) (suc c ∷ xs) s e =
    let (s', e', same) = text_uncons c xs s e in Readable_of_text n xs s' e'

-- A store just behind a prefix.
pub set?-append :
    (pre : List ℕ) (x v : ℕ) (post : List ℕ) (i : ℕ)
    → i ≡ length pre
    → set? (pre ++ (x ∷ post)) i v ≡ some (pre ++ (v ∷ post))
set?-append [] x v post zero e = refl
set?-append [] x v post (suc i) e = absurd (omega arith)
set?-append (p ∷ pre) x v post zero e = absurd (omega arith)
set?-append (p ∷ pre) x v post (suc i) e = ground (arith, set?-append pre x v post i)

pub set?-past : (pre : List ℕ) (v i : ℕ) → i ≡ length pre → set? pre i v ≡ none
set?-past [] v i e = refl
set?-past (p ∷ pre) v zero e = absurd (omega arith)
set?-past (p ∷ pre) v (suc i) e = ground (arith, set?-past pre v i)

pub get_elem?-append :
    (pre : List ℕ) (x : ℕ) (post : List ℕ) (i : ℕ)
    → i ≡ length pre
    → get_elem? (pre ++ (x ∷ post)) i ≡ some x
get_elem?-append [] x post zero e = refl
get_elem?-append [] x post (suc i) e = absurd (omega arith)
get_elem?-append (p ∷ pre) x post zero e = absurd (omega arith)
get_elem?-append (p ∷ pre) x post (suc i) e = get_elem?-append pre x post i (omega arith)

-- What stands before a zero byte is the text, if it was taken from a text.
pub text-text_take :
    (n : ℕ) (xs rest : List ℕ) → text (text_take n xs ++ (0 ∷ rest)) ≡ some (text_take n xs)
text-text_take zero xs rest = refl
text-text_take (suc n) [] rest = refl
text-text_take (suc n) (zero ∷ xs) rest = refl
text-text_take (suc n) (suc c ∷ xs) rest = rw (text-text_take n xs rest)

pub text-suc : (c : ℕ) (xs s : List ℕ) → text xs ≡ some s → text (suc c ∷ xs) ≡ some (suc c ∷ s)
text-suc c xs s e = rw e

pub text_again : (xs s rest : List ℕ) → text xs ≡ some s → text (s ++ (0 ∷ rest)) ≡ some s
text_again [] s rest e = absurd (cc)
text_again (zero ∷ xs) s rest e = let empty : s ≡ [] = cc in rw (empty) refl
text_again (suc c ∷ xs) s rest e =
    let (s', e', same) = text_uncons c xs s e in
    rw same (text-suc c (s' ++ (0 ∷ rest)) s' (text_again xs s' rest e'))

-- A byte in front of a terminated string leaves it terminated.
pub text_cons :
    (c : ℕ) (xs s : List ℕ) → text xs ≡ some s → (s' : List ℕ) × (text (c ∷ xs) ≡ some s')
text_cons zero xs s e = ([], refl)
text_cons (suc c) xs s e = (suc c ∷ s, text-suc c xs s e)

-- An array with a zero byte is terminated.
pub text_of_zero :
    (xs : List ℕ) (i : ℕ) → get_elem? xs i ≡ some 0 → (s : List ℕ) × (text xs ≡ some s)
text_of_zero [] i e = absurd (cc)
text_of_zero (x ∷ xs) zero e = let zero_here : x ≡ 0 = cc in ([], rw zero_here refl)
text_of_zero (x ∷ xs) (suc i) e = let (s, e') = text_of_zero xs i e in text_cons x xs s e'

-- A string literal is terminated.
pub c_str-text : (s : String) → (u : List ℕ) × (text (c_str s) ≡ some u)
c_str-text String.[] = ([], refl)
c_str-text (String.◌∷◌ c s) = let (u, e) = c_str-text s in text_cons (code c) (c_str s) u e
