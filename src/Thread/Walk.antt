-- ===== src/Thread/Walk.antt =====
-- Walks along the pointers from thread to thread.
use seli_os.Thread.{Thread}
use seli_os.Prelude.{
  ℕ, zero, suc, ◌<◌, ◌≡◌, refl, sym, ◌∙◌, ◌≢◌, inl, inr, Option, some, List, [], ◌∷◌, ◌++◌, arith,
  length, get_elem?, set, get_elem?-set_self, get_elem?-set_ne, ◌>>=◌, ◌==◌, Bool-cases, ==_iff,
}

abbrev pub next_of : List Thread → ℕ → Option ℕ
next_of h i = get_elem? h i >>= λ thread. thread.next_thread

-- From `i` the pointers lead over `rest` to `end`.
abbrev pub Walk : List Thread → ℕ → List ℕ → ℕ → Type 0
Walk h i [] end = next_of h i ≡ some end
Walk h i (j ∷ rest) end = (next_of h i ≡ some j) × Walk h j rest end

abbrev pub NotIn : ℕ → List ℕ → Type 0
NotIn i [] = Unit {0}
NotIn i (j ∷ js) = (i ≢ j) × NotIn i js

abbrev pub Distinct : List ℕ → Type 0
Distinct [] = Unit {0}
Distinct (i ∷ is) = NotIn i is × Distinct is

-- A pointer that can be followed leads from a thread that exists.
pub found :
    (h : List Thread) (i j : ℕ)
    → next_of h i ≡ some j
    → (thread : Thread) × (get_elem? h i ≡ some thread)
      × (thread.next_thread ≡ some j)
      × (i < length h)
found [] i j e = absurd (cc)
found (x ∷ h) zero j e = (x, refl, e, omega arith)
found (x ∷ h) (suc i) j e =
    let (thread, at, next, lt) = found h i j e in (thread, at, next, omega arith)

pub first :
    (h : List Thread) (i : ℕ) (rest : List ℕ) (end : ℕ)
    → Walk h i rest end
    → (j : ℕ) × (next_of h i ≡ some j)
first h i [] end w = (end, w)
first h i (j ∷ rest) end (e, w) = (j, e)

-- A walk only depends on the pointers of the threads that it leaves.
pub Walk-same :
    (h h' : List Thread) (i : ℕ) (rest : List ℕ) (end : ℕ)
    → ((j : ℕ) → j < length h → next_of h' j ≡ next_of h j)
    → Walk h i rest end
    → Walk h' i rest end
Walk-same h h' i [] end same e = let (thread, at, next, lt) = found h i end e in same i lt ∙ e
Walk-same h h' i (j ∷ rest) end same (e, w) =
    let (thread, at, next, lt) = found h i j e in (same i lt ∙ e, Walk-same h h' j rest end same w)

Walk-except :
    (h h' : List Thread) (c i : ℕ) (rest : List ℕ) (end : ℕ)
    → ((j : ℕ) → j < length h → c ≢ j → next_of h' j ≡ next_of h j)
    → c ≢ i
    → NotIn c rest
    → Walk h i rest end
    → Walk h' i rest end
Walk-except h h' c i [] end same ne out e =
    let (thread, at, next, lt) = found h i end e in same i lt ne ∙ e
Walk-except h h' c i (j ∷ rest) end same ne (ne', out) (e, w) =
    let (thread, at, next, lt) = found h i j e in
    (same i lt ne ∙ e, Walk-except h h' c j rest end same ne' out w)

pub Walk-snoc :
    (h : List Thread) (i : ℕ) (rest : List ℕ) (c d : ℕ)
    → Walk h i rest c
    → next_of h c ≡ some d
    → Walk h i (rest ++ (c ∷ [])) d
Walk-snoc h i [] c d e back = (e, back)
Walk-snoc h i (j ∷ rest) c d (e, w) back = (e, Walk-snoc h j rest c d w back)

NotIn-snoc : (i : ℕ) (js : List ℕ) (c : ℕ) → NotIn i js → i ≢ c → NotIn i (js ++ (c ∷ []))
NotIn-snoc i [] c h ne = (ne, tt)
NotIn-snoc i (j ∷ js) c (nj, h) ne = (nj, NotIn-snoc i js c h ne)

pub Distinct-rotate : (c : ℕ) (is : List ℕ) → Distinct (c ∷ is) → Distinct (is ++ (c ∷ []))
Distinct-rotate c [] h = h
Distinct-rotate c (i ∷ is) ((ne, out), (out', rest)) =
    (NotIn-snoc i is c out' (λ e. ne (sym e)), Distinct-rotate c is (out, rest))

pub next_of-saved :
    (h : List Thread) (c : ℕ) (thread saved : Thread) (j : ℕ)
    → get_elem? h c ≡ some thread
    → c < length h
    → saved.next_thread ≡ thread.next_thread
    → next_of (set h c saved) j ≡ next_of h j
next_of-saved h c thread saved j at lt pointer = elim (Bool-cases (c == j)) [
  | inl same ↦ let e = (==_iff c j).0 same in rw (← e, get_elem?-set_self h c saved lt, at) pointer
  | inr other ↦ rw (get_elem?-set_ne h c j saved (ground arith)) refl
]

pub get_elem?-append_left :
    (h : List Thread) (x : Thread) (j : ℕ)
    → j < length h
    → get_elem? (h ++ (x ∷ [])) j ≡ get_elem? h j
get_elem?-append_left [] x j lt = absurd (omega arith)
get_elem?-append_left (y ∷ h) x zero lt = refl
get_elem?-append_left (y ∷ h) x (suc j) lt = get_elem?-append_left h x j (omega arith)

pub get_elem?-last :
    (h : List Thread) (x : Thread) (n : ℕ) → n ≡ length h → get_elem? (h ++ (x ∷ [])) n ≡ some x
get_elem?-last [] x zero e = refl
get_elem?-last [] x (suc n) e = absurd (omega arith)
get_elem?-last (y ∷ h) x zero e = absurd (omega arith)
get_elem?-last (y ∷ h) x (suc n) e = get_elem?-last h x n (omega arith)

-- The threads of a walk exist, so that the next one is none of them.
pub Walk-NotIn :
    (h : List Thread) (i : ℕ) (rest : List ℕ) (end : ℕ) → Walk h i rest end → NotIn (length h) rest
Walk-NotIn h i [] end w = tt
Walk-NotIn h i (j ∷ rest) end (e, w) =
    let (k, e') = first h j rest end w in
    let (thread, at, pointer, lt) = found h j k e' in
    ((λ same. absurd (omega arith)), Walk-NotIn h j rest end w)

-- The walk behind `c` is the same in a heap where only the pointer of `c` differs.
pub Walk-tail :
    (h h' : List Thread) (c n : ℕ) (rest : List ℕ)
    → ((j : ℕ) → j < length h → c ≢ j → next_of h' j ≡ next_of h j)
    → next_of h' n ≡ next_of h c
    → NotIn c rest
    → Walk h c rest c
    → Walk h' n rest c
Walk-tail h h' c n [] same copied out e = copied ∙ e
Walk-tail h h' c n (j ∷ rest) same copied (ne, out) (e, w) =
    (copied ∙ e, Walk-except h h' c j rest c same ne out w)
