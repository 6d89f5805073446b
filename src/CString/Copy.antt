-- ===== src/CString/Copy.antt =====
-- What `strncpy`, `strcpy` and `memcpy` leave in the destination.
use mathlib.Core.List.{append_assoc}
use seli_os.CString.{strncpy_copy, strncpy_pad, strncpy, strcpy_loop, strcpy, memcpy_loop, memcpy}
use seli_os.CString.Text.{text, text_uncons, text_take, Readable, set?-append, get_elem?-append}
use seli_os.Prelude.{
  ℕ, zero, suc, ◌+◌, ◌-◌, ◌≤◌, ◌<◌, ◌≡◌, refl, sym, ◌∙◌, ap, ap₂, Option, none, some, List, [], ◌∷◌,
  ◌++◌, arith, length, drop, replicate, length-append, length-drop, get_or, get_elem?, set?, set,
  length-set, set?-eq-set, set?-outside, get_or-set_self, get_or-set_ne, ltb, leb, ◌&&◌,
  if◌then◌else◌, ◌>>=◌, suc-==-zero,
}

snoc {ℓ} :
    {A : Type ℓ} (pre : List A) (x : A) (post : List A)
    → pre ++ (x ∷ post) ≡ (pre ++ (x ∷ [])) ++ post
snoc pre x post = sym (append_assoc pre (x ∷ []) post)

some_pair :
    {l m : List ℕ} (j k : ℕ)
    → j ≡ k
    → l ≡ m
    → ◌≡◌ {A = Option (ℕ × List ℕ)} (some (j, l)) (some (k, m))
some_pair j k e f = ap₂ (λ (t : ℕ) (x : List ℕ). some (t, x)) e f

pub length-text_take-le : (n : ℕ) (xs : List ℕ) → length (text_take n xs) ≤ n
length-text_take-le zero xs = omega arith
length-text_take-le (suc n) [] = omega arith
length-text_take-le (suc n) (zero ∷ xs) = omega arith
length-text_take-le (suc n) (suc c ∷ xs) = omega (arith, length-text_take-le n xs)

strncpy_pad-replicate :
    (left i : ℕ) (pre post : List ℕ)
    → i ≡ length pre
    → left ≤ length post
    → strncpy_pad left i (pre ++ post) ≡ some (pre ++ (replicate left 0 ++ drop left post))
unfolding strncpy_pad
strncpy_pad-replicate zero i pre post e h = refl
strncpy_pad-replicate (suc left) i pre [] e h = absurd (omega arith)
strncpy_pad-replicate (suc left) i pre (x ∷ post) e h =
    rw (set?-append pre x 0 post i e, snoc pre 0 post)
      (strncpy_pad-replicate left (i + 1) (pre ++ (0 ∷ [])) post
          (omega (arith, length-append {0} pre (0 ∷ []))) (omega arith)
        ∙ ap some (append_assoc pre (0 ∷ []) _))

strncpy_copy-suc :
    (left i c : ℕ) (src dest dest' : List ℕ)
    → get_elem? src i ≡ some (suc c)
    → set? dest i (suc c) ≡ some dest'
    → strncpy_copy (suc left) i dest src ≡ strncpy_copy left (i + 1) dest' src
unfolding strncpy_copy
strncpy_copy-suc left i c src dest dest' p q = rw (p, ◌>>=◌, suc-==-zero, q)

strncpy_copy-text :
    (left i : ℕ) (pre src dest : List ℕ)
    → i ≡ length pre
    → Readable left src
    → left ≤ length dest
    → strncpy_copy left i (pre ++ dest) (pre ++ src)
      ≡ some (
        i + length (text_take left src),
        pre ++ (text_take left src ++ drop (length (text_take left src)) dest),
      )
unfolding strncpy_copy
strncpy_copy-text zero i pre src dest e r h = ap (λ k. some (k, pre ++ dest)) (omega arith)
strncpy_copy-text (suc left) i pre [] dest e r h = absurd r
strncpy_copy-text (suc left) i pre (zero ∷ src) dest e r h =
    rw (get_elem?-append pre 0 src i e) (ap (λ k. some (k, pre ++ dest)) (omega arith))
strncpy_copy-text (suc left) i pre (suc c ∷ src) [] e r h = absurd (omega arith)
strncpy_copy-text (suc left) i pre (suc c ∷ src) (d ∷ dest) e r h =
    strncpy_copy-suc left i c _ _ _ (get_elem?-append pre (suc c) src i e)
      (set?-append pre d (suc c) dest i e)
    ∙ ap₂ (λ s d. strncpy_copy left (i + 1) d s) (snoc pre (suc c) src) (snoc pre (suc c) dest)
    ∙ strncpy_copy-text left (i + 1) (pre ++ (suc c ∷ [])) src dest
        (omega (arith, length-append {0} pre (suc c ∷ []))) r (omega arith)
    ∙ some_pair _ _ (omega arith) (append_assoc pre (suc c ∷ []) _)

drop-nil : (n : ℕ) → drop {A = ℕ} n [] ≡ []
drop-nil zero = refl
drop-nil (suc n) = refl

drop-drop : (k n : ℕ) (xs : List ℕ) → k ≤ n → drop (n - k) (drop k xs) ≡ drop n xs
drop-drop zero n xs h = ap (λ t. drop t xs) {x = n - 0} {y = n} (omega arith)
drop-drop (suc k) zero xs h = absurd (omega arith)
drop-drop (suc k) (suc n) [] h = drop-nil (suc n - suc k)
drop-drop (suc k) (suc n) (x ∷ xs) h =
    ap (λ t. drop t (drop k xs)) {x = suc n - suc k} {y = n - k} (omega arith)
    ∙ drop-drop k n xs (omega arith)

-- `strncpy` with a readable source and room for `n` bytes stays inside both arrays: it writes the
-- text of the source cut to `n` bytes, fills up to `n` with zero bytes, and leaves the rest.
pub strncpy_lem :
    (dest src : List ℕ) (n : ℕ)
    → Readable n src
    → n ≤ length dest
    → strncpy dest src n
      ≡ some (text_take n src ++ (replicate (n - length (text_take n src)) 0 ++ drop n dest))
unfolding strncpy
strncpy_lem dest src n r h =
    ap (λ o. o >>= λ (i, copied). strncpy_pad (n - i) i copied)
      (strncpy_copy-text n 0 [] src dest refl r h)
    ∙ strncpy_pad-replicate (n - (0 + k)) (0 + k) (text_take n src) (drop k dest) (omega arith)
        (omega (arith, length-drop {0} k dest))
    ∙ ap some (ap₂ (λ m rest. text_take n src ++ (replicate m 0 ++ rest)) count tail)
  where
    k : ℕ
    k = length (text_take n src)

    count : n - (0 + k) ≡ n - k
    count = omega arith

    tail : drop (n - (0 + k)) (drop k dest) ≡ drop n dest
    tail = ap (λ t. drop t (drop k dest)) count ∙ drop-drop k n dest (length-text_take-le n src)

strcpy_loop-suc :
    (i c : ℕ) (src dest dest' : List ℕ)
    → set? dest i (suc c) ≡ some dest'
    → strcpy_loop i dest (suc c ∷ src) ≡ strcpy_loop (i + 1) dest' src
unfolding strcpy_loop
strcpy_loop-suc i c src dest dest' q = rw (strcpy_loop, suc-==-zero, q)

strcpy_loop-fault :
    (i c : ℕ) (src dest : List ℕ)
    → set? dest i (suc c) ≡ none
    → strcpy_loop i dest (suc c ∷ src) ≡ none
unfolding strcpy_loop
strcpy_loop-fault i c src dest q = rw (strcpy_loop, suc-==-zero, q)

strcpy_loop-text :
    (i : ℕ) (pre src s dest : List ℕ)
    → i ≡ length pre
    → text src ≡ some s
    → length s < length dest
    → strcpy_loop i (pre ++ dest) src ≡ some (pre ++ (s ++ (0 ∷ drop (length s + 1) dest)))
unfolding strcpy_loop
strcpy_loop-text i pre [] s dest e t h = absurd (cc)
strcpy_loop-text i pre (c ∷ src) s [] e t h = absurd (omega arith)
strcpy_loop-text i pre (zero ∷ src) s (d ∷ dest) e t h =
    let empty : s ≡ [] = cc in rw (set?-append pre d 0 dest i e, empty) refl
strcpy_loop-text i pre (suc c ∷ src) s (d ∷ dest) e t h =
    let (s', t', same) = text_uncons c src s t in
    rw same (
      strcpy_loop-suc i c src _ _ (set?-append pre d (suc c) dest i e)
      ∙ ap (λ x. strcpy_loop (i + 1) x src) (snoc pre (suc c) dest)
      ∙ strcpy_loop-text (i + 1) (pre ++ (suc c ∷ [])) src s' dest
          (omega (arith, length-append {0} pre (suc c ∷ []))) t'
          (omega (arith, ap (length {A = ℕ}) same))
      ∙ ap some (append_assoc pre (suc c ∷ []) _)
      ∙ ap (λ k. some (pre ++ (suc c ∷ (s' ++ (0 ∷ drop k (d ∷ dest)))))) {x = suc (length s' + 1)}
          {y = suc (length s') + 1} (omega arith))

strcpy_loop_overflow :
    (i : ℕ) (pre src s dest : List ℕ)
    → i ≡ length pre
    → text src ≡ some s
    → length dest ≤ length s
    → strcpy_loop i (pre ++ dest) src ≡ none
unfolding strcpy_loop
strcpy_loop_overflow i pre [] s dest e t h = absurd (cc)
strcpy_loop_overflow i pre (zero ∷ src) s dest e t h =
    let empty : s ≡ [] = cc in
    rw (strcpy_loop, set?-outside (pre ++ dest) i 0 (past (ap (length {A = ℕ}) empty)))
  where
    past : length s ≡ 0 → length (pre ++ dest) ≤ i
    past empty = omega (arith, length-append {0} pre dest)
strcpy_loop_overflow i pre (suc c ∷ src) s [] e t h =
    strcpy_loop-fault i c src _
      (set?-outside (pre ++ []) i (suc c) (omega (arith, length-append {0} pre [])))
strcpy_loop_overflow i pre (suc c ∷ src) s (d ∷ dest) e t h =
    let (s', t', same) = text_uncons c src s t in
    strcpy_loop-suc i c src _ _ (set?-append pre d (suc c) dest i e)
    ∙ ap (λ x. strcpy_loop (i + 1) x src) (snoc pre (suc c) dest)
    ∙ strcpy_loop_overflow (i + 1) (pre ++ (suc c ∷ [])) src s' dest
        (omega (arith, length-append {0} pre (suc c ∷ []))) t'
        (omega (arith, ap (length {A = ℕ}) same))

-- `strcpy` of a terminated string into an array without room for it and its zero byte writes past
-- the end of the array.
pub strcpy_overflow :
    (dest src s : List ℕ) → text src ≡ some s → length dest ≤ length s → strcpy dest src ≡ none
unfolding strcpy
strcpy_overflow dest src s t h = strcpy_loop_overflow 0 [] src s dest refl t h

-- `strcpy` of a terminated string into an array with room for it and its zero byte writes exactly
-- these and leaves the rest.
pub strcpy-text :
    (dest src s : List ℕ)
    → text src ≡ some s
    → length s < length dest
    → strcpy dest src ≡ some (s ++ (0 ∷ drop (length s + 1) dest))
unfolding strcpy
strcpy-text dest src s t h = strcpy_loop-text 0 [] src s dest refl t h

memcpy_loop-bytes :
    (src : ℕ → Option ℕ) (f : ℕ → ℕ) (left i n : ℕ) (dest : List ℕ)
    → ((j : ℕ) → j < n → src j ≡ some (f j))
    → i + left ≡ n
    → n ≤ length dest
    → (out : List ℕ) × (memcpy_loop left i dest src ≡ some out)
      × (length out ≡ length dest)
      × ((j : ℕ) → get_or out j 0 ≡ (if leb i j && ltb j n then f j else get_or dest j 0))
unfolding memcpy_loop
memcpy_loop-bytes src f zero i n dest reads e h = (dest, refl, refl, λ j. ground arith)
memcpy_loop-bytes src f (suc left) i n dest reads e h =
    let (out, run, same, bytes) =
      memcpy_loop-bytes src f left (i + 1) n (set dest i (f i)) reads (omega arith)
        (rw length-set h) in
    (
      out,
      rw (reads i (omega arith), set?-eq-set dest i (f i) (omega arith)) run,
      same ∙ length-set dest i (f i),
      λ j. ground (arith, bytes j, get_or-set_self dest i (f i) 0, get_or-set_ne dest i j (f i) 0),
    )

-- `memcpy` whose source reads do not fault, with room for `n` bytes, copies exactly the first `n`
-- bytes and leaves the rest and the size of the destination.
pub memcpy-bytes :
    (dest : List ℕ) (src : ℕ → Option ℕ) (f : ℕ → ℕ) (n : ℕ)
    → ((j : ℕ) → j < n → src j ≡ some (f j))
    → n ≤ length dest
    → (out : List ℕ) × (memcpy dest src n ≡ some out)
      × (length out ≡ length dest)
      × ((j : ℕ) → get_or out j 0 ≡ (if ltb j n then f j else get_or dest j 0))
unfolding memcpy
memcpy-bytes dest src f n reads h =
    let (out, run, same, bytes) = memcpy_loop-bytes src f n 0 n dest reads (omega arith) h in
    (out, run, same, λ j. ground (arith, bytes j))
