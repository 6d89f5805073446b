-- ===== src/Alloc/Back.antt =====
-- `free` of what `malloc` returned.
use seli_os.Alloc.{Heap, malloc, free}
use seli_os.Alloc.Free.{IsFreeList, free-IsFreeList}
use seli_os.Alloc.Insert.{covers}
use seli_os.Alloc.Malloc.{malloc_units}
use seli_os.Alloc.Walk.{any_fit}
use seli_os.Prelude.{
  ℕ, ◌+◌, ◌*◌, ◌/◌, ◌^◌, ◌≤◌, ◌<◌, ◌≡◌, sym, ◌∙◌, true, some, List, arith, length,
}

-- If some block of the free list is big enough, the base is not NULL and `nbytes + 7` does not wrap, then
-- `free` of the address that `malloc` returns, each with fuel for two rounds over the list, ends and
-- leaves a free list that covers exactly the bytes that it covered before the two calls.
pub free-malloc :
    (h : Heap) (fuel nbytes : ℕ) (rest : List ℕ)
    → IsFreeList h rest
    → 0 < h.base
    → nbytes + 7 < 2 ^ 32
    → any_fit h ((nbytes + 7) / 8 + 1) rest ≡ true
    → 2 * length rest + 2 ≤ fuel
    → (address : ℕ) × (h1 : Heap) × (h2 : Heap) × (list : List ℕ) × (malloc fuel nbytes h
        ≡ some (address, h1))
      × (free fuel address h1 ≡ some h2)
      × IsFreeList h2 list
      × ((x : ℕ) → covers h2 h2.base list x ≡ covers h h.base rest x)
free-malloc h fuel nbytes rest is somewhere small some_fits enough =
    let (h1, list, block, run, is1, size, covered, given) =
      malloc_units h fuel nbytes ((nbytes + 7) / 8 + 1) rest is somewhere (omega arith) some_fits
        enough in
    let base = given.base in
    let above = given.above in
    let word = given.word in
    let short = given.short in
    let (h2, list2, freed, is2, covered2) =
      free-IsFreeList h1 block fuel list is1 (omega arith) (omega arith) word given.clear
        (omega arith) in
    (block + 8, h1, h2, list2, run, freed, is2, λ x. covered2 x ∙ sym (covered x))
