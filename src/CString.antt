-- ===== src/CString.antt =====
-- src/kernel/string.c, and `memcpy` of src/kernel/memory.c. A `char` array is the list of its
-- bytes, read as `unsigned char`; a read or a write outside it is the fault `none`. Source and
-- destination do not overlap. A function that writes `*dest` returns the new array.
pub mod Text
pub mod Compare
pub mod Copy
mod Tests
use seli_os.Prelude.{
  ℕ, zero, suc, ◌+◌, ◌-◌, Bool, true, false, ◌&&◌, not, Option, none, some, List, [], ◌∷◌,
  get_elem?, set?, ◌==◌, if◌then◌else◌, ◌>>=◌, ◌>>◌,
}
use seli_os.Prelude.Int.{ℤ, sub_ℕ}

-- The first loop of `strncpy`, with `left` bytes to go: it stops at a zero byte of `src`, and
-- returns the index that it has reached.
pub strncpy_copy : ℕ → ℕ → List ℕ → List ℕ → Option (ℕ × List ℕ)
strncpy_copy zero i dest src = some (i, dest)
strncpy_copy (suc left) i dest src = do
  c ← get_elem? src i
  elim (c == 0) [
    | true ↦ some (i, dest)
    | false ↦ set? dest i c >>= λ dest'. strncpy_copy left (i + 1) dest' src
  ]

pub strncpy_pad : ℕ → ℕ → List ℕ → Option (List ℕ)
strncpy_pad zero i dest = some dest
strncpy_pad (suc left) i dest = do dest' ← set? dest i 0; strncpy_pad left (i + 1) dest'

pub strncpy : List ℕ → List ℕ → ℕ → Option (List ℕ)
unfolding strncpy_copy strncpy_pad
strncpy dest src n = do (i, copied) ← strncpy_copy n 0 dest src; strncpy_pad (n - i) i copied

-- The pointers advance together, so the lists are what is left of the strings.
pub strcmp : List ℕ → List ℕ → Option ℤ
strcmp [] s2 = none
strcmp (a ∷ s1) [] = none
strcmp (a ∷ s1) (b ∷ s2) = if not (a == 0) && a == b then strcmp s1 s2 else some (sub_ℕ a b)

-- The loop of `strcpy` at index `i`, over what is left of `src`.
pub strcpy_loop : ℕ → List ℕ → List ℕ → Option (List ℕ)
strcpy_loop i dest [] = none
strcpy_loop i dest (c ∷ src) = elim (c == 0) [
  | true ↦ set? dest i 0
  | false ↦ set? dest i c >>= λ dest'. strcpy_loop (i + 1) dest' src
]

pub strcpy : List ℕ → List ℕ → Option (List ℕ)
unfolding strcpy_loop
strcpy dest src = strcpy_loop 0 dest src

-- The source pointer is given by what it reads: `src i` is `s[i]`.
pub memcpy_loop : ℕ → ℕ → List ℕ → (ℕ → Option ℕ) → Option (List ℕ)
memcpy_loop zero i dest src = some dest
memcpy_loop (suc left) i dest src = do
  c ← src i
  dest' ← set? dest i c
  memcpy_loop left (i + 1) dest' src

pub memcpy : List ℕ → (ℕ → Option ℕ) → ℕ → Option (List ℕ)
unfolding memcpy_loop
memcpy dest src n = memcpy_loop n 0 dest src
