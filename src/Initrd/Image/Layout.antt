-- ===== src/Initrd/Image/Layout.antt =====
-- Where the fields of the image lie.
use mathlib.Core.List.{append_assoc, append-nil}
use seli_os.Initrd.{byte_at, bytes_from, load32}
use seli_os.Initrd.Image.{
  dump_chunks, dump_file_data, get_file_size, FileHeader, Files, header_bytes, word,
}
use seli_os.Prelude.{
  ℕ, zero, suc, ◌+◌, ◌-◌, ◌%◌, ◌^◌, ◌<◌, ◌≡◌, refl, sym, ap, ◌∙◌, inl, inr, Bool-cases, true,
  Option, none, some, List, [], ◌∷◌, ◌++◌, arith, length, length-take, length-drop, take, drop,
  take-append-drop, get_elem?, get_or, leb, ◌==◌, ◌>>=◌, ==_iff, ◌≢◌,
}

empty_of_length : (xs : List ℕ) → length xs ≡ 0 → xs ≡ []
empty_of_length [] e = refl
empty_of_length (x ∷ xs) e = absurd (omega arith)

-- With more rounds than bytes the loop moves the whole file.
dump_chunks_lem :
    (left : ℕ) (rest output : List ℕ)
    → length rest < left
    → dump_chunks left rest output ≡ output ++ rest
unfolding dump_chunks
dump_chunks_lem zero rest output h = absurd (omega arith)
dump_chunks_lem (suc left) rest output h = elim (Bool-cases (length (take 4096 rest) == 0)) [
  | inl done ↦
      let none_moved = (==_iff (length (take 4096 rest)) 0).0 done in
      let empty = empty_of_length rest (omega (arith, length-take 4096 rest)) in
      rw done (sym (ap (λ r. output ++ r) empty ∙ append-nil output))
  | inr more ↦
      let moved : length (take 4096 rest) ≢ 0 =
        λ e. cc (more, (==_iff (length (take 4096 rest)) 0).1 e) in
      let left_over : length (drop 4096 rest) < left =
        omega (arith, moved, length-take 4096 rest, length-drop 4096 rest) in
      rw more (
        dump_chunks_lem left (drop 4096 rest) (output ++ take 4096 rest) left_over
        ∙ append_assoc output (take 4096 rest) (drop 4096 rest)
        ∙ ap (λ r. output ++ r) (take-append-drop 4096 rest))
]

-- The content of a file; a file that cannot be opened counts as empty.
abbrev pub content_of : Option (List ℕ) → List ℕ
content_of none = []
content_of (some content) = content

abbrev pub file : Files → List ℕ → List ℕ
file files filename = content_of (files filename)

pub dump_file_data_lem :
    (files : Files) (filename output : List ℕ)
    → dump_file_data files filename output ≡ output ++ file files filename
unfolding dump_file_data
dump_file_data_lem files filename output = from (files filename)
  where
    from :
        (o : Option (List ℕ))
        → elim o [ none ↦ output | some content ↦ dump_chunks (length content + 1) content output ]
          ≡ output ++ content_of o
    from none = sym (append-nil output)
    from (some content) = dump_chunks_lem (length content + 1) content output (omega arith)

pub get_file_size_lem :
    (files : Files) (filename : List ℕ)
    → length (file files filename) < 2 ^ 32
    → get_file_size files filename ≡ length (file files filename)
unfolding get_file_size
get_file_size_lem files filename = from (files filename)
  where
    from :
        (o : Option (List ℕ))
        → length (content_of o) < 2 ^ 32
        → elim o [ none ↦ 0 | some content ↦ length content % 2 ^ 32 ] ≡ length (content_of o)
    from none h = refl
    from (some content) h = omega arith

pub drop-drop : (k j n : ℕ) (xs : List ℕ) → n ≡ k + j → drop n xs ≡ drop j (drop k xs)
drop-drop zero j n xs e = ap (λ m. drop m xs) {x = n} {y = j} (omega arith)
drop-drop (suc k) j zero xs e = absurd (omega arith)
drop-drop (suc k) zero (suc n) [] e = refl
drop-drop (suc k) (suc j) (suc n) [] e = refl
drop-drop (suc k) j (suc n) (x ∷ xs) e = drop-drop k j n xs (omega arith)

pub drop_past : (k : ℕ) (xs ys : List ℕ) → k ≡ length xs → drop k (xs ++ ys) ≡ ys
drop_past zero [] ys e = refl
drop_past zero (x ∷ xs) ys e = absurd (omega arith)
drop_past (suc k) [] ys e = absurd (omega arith)
drop_past (suc k) (x ∷ xs) ys e = drop_past k xs ys (omega arith)

get_elem?-drop : (k j n : ℕ) (xs : List ℕ) → n ≡ k + j → get_elem? xs n ≡ get_elem? (drop k xs) j
get_elem?-drop zero j n xs e = ap (get_elem? xs) {x = n} {y = j} (omega arith)
get_elem?-drop (suc k) j zero xs e = absurd (omega arith)
get_elem?-drop (suc k) j (suc n) [] e = refl
get_elem?-drop (suc k) j (suc n) (x ∷ xs) e = get_elem?-drop k j n xs (omega arith)

get_elem?-append_left :
    (xs ys : List ℕ) (j : ℕ) → j < length xs → get_elem? (xs ++ ys) j ≡ some (get_or xs j 0)
get_elem?-append_left [] ys j h = absurd (omega arith)
get_elem?-append_left (x ∷ xs) ys zero h = refl
get_elem?-append_left (x ∷ xs) ys (suc j) h = get_elem?-append_left xs ys j (omega arith)

module _ (base k : ℕ) (image : List ℕ) where
  byte_at-drop :
      (j address : ℕ)
      → address ≡ base + k + j
      → byte_at (record { base = base; bytes = image }) address ≡ get_elem? (drop k image) j
  byte_at-drop j address e =
      let above : leb base address ≡ true = ground arith in
      rw above (get_elem?-drop k j (address - base) image (omega arith))

  pub bytes_from-drop : bytes_from (record { base = base; bytes = image }) (base + k) ≡ drop k image
  bytes_from-drop =
      let above : leb base (base + k) ≡ true = ground arith in
      let index : base + k - base ≡ k = omega arith in rw (above, index) refl

  -- A number that `word` put at place `k` is read back.
  pub load32-word :
      (n : ℕ) (rest : List ℕ)
      → n < 2 ^ 32
      → drop k image ≡ word n ++ rest
      → load32 (record { base = base; bytes = image }) (base + k) ≡ some n
  unfolding load32
  load32-word n rest small at =
      let b0 = byte_at-drop 0 (base + k) (omega arith) ∙ ap (λ l. get_elem? l 0) at in
      let b1 = byte_at-drop 1 (base + k + 1) (omega arith) ∙ ap (λ l. get_elem? l 1) at in
      let b2 = byte_at-drop 2 (base + k + 2) (omega arith) ∙ ap (λ l. get_elem? l 2) at in
      let b3 = byte_at-drop 3 (base + k + 3) (omega arith) ∙ ap (λ l. get_elem? l 3) at in
      rw (b0, ◌>>=◌, b1, ◌>>=◌, b2, ◌>>=◌, b3) (ap some (omega arith))

  -- The bytes of a file at place `k`.
  pub byte_at-file :
      (content rest : List ℕ) (j : ℕ)
      → j < length content
      → drop k image ≡ content ++ rest
      → byte_at (record { base = base; bytes = image }) (base + k + j) ≡ some (get_or content j 0)
  byte_at-file content rest j inside at =
      byte_at-drop j (base + k + j) refl
      ∙ ap (λ l. get_elem? l j) at
      ∙ get_elem?-append_left content rest j inside

-- The fields of a header at place `k`, with what stands behind it.
pub record HeaderAt (image : List ℕ) (k : ℕ) (h : FileHeader) (rest : List ℕ) : Type 0 where
  pub length_at :
      drop (k + 4) image ≡ word h.file_length ++ (word h.starting_offset ++ (h.file_name ++ rest))
  pub offset_at : drop (k + 8) image ≡ word h.starting_offset ++ (h.file_name ++ rest)
  pub name_at : drop (k + 12) image ≡ h.file_name ++ rest
  pub end_at : drop (k + 140) image ≡ rest

pub drop-HeaderAt :
    (image : List ℕ) (k : ℕ) (h : FileHeader) (rest : List ℕ)
    → length h.file_name ≡ 128
    → drop k image ≡ header_bytes h ++ rest
    → HeaderAt image k h rest
drop-HeaderAt image k h rest size at = record {
  length_at = drop-drop k 4 (k + 4) image refl ∙ ap (drop 4) at;
  offset_at = drop-drop k 8 (k + 8) image refl ∙ ap (drop 8) at;
  name_at = drop-drop k 12 (k + 12) image refl ∙ ap (drop 12) at;
  end_at =
      drop-drop k 140 (k + 140) image refl
      ∙ ap (drop 140) at
      ∙ drop_past 128 h.file_name rest (sym size);
}
