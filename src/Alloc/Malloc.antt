-- ===== src/Alloc/Malloc.antt =====
-- `malloc` on a free list that has a block big enough.
use mathlib.Core.Path.{subst}
use seli_os.Alloc.{Heap, take_block, malloc_loop, start_list, malloc}
use seli_os.Alloc.Free.{IsFreeList}
use seli_os.Alloc.Insert.{SameFrames, Apart, Disjoint, covers, inside}
use seli_os.Alloc.Search.{Chain, Behind, Behind-le}
use seli_os.Alloc.Give.{take_block-Gives, take_block-SameFrames}
use seli_os.Alloc.Walk.{Takes, any_fit, malloc_loop-Takes}
use seli_os.Prelude.{
  ℕ, ◌+◌, ◌-◌, ◌*◌, ◌/◌, ◌%◌, ◌^◌, ◌≤◌, ◌<◌, ◌≡◌, ◌≢◌, sym, ap, ◌∙◌, true, false, ◌||◌, Option,
  some, List, arith, length, ◌==◌,
}

pub malloc_starts :
    (fuel nbytes n : ℕ) (h : Heap)
    → h.freep ≢ 0
    → (nbytes + 8 - 1) % 2 ^ 32 / 8 + 1 ≡ n
    → malloc fuel nbytes h ≡ malloc_loop fuel n h.freep (h.ptr h.freep) h
unfolding malloc start_list
malloc_starts fuel nbytes n h ne units =
    let started : (h.freep == 0) ≡ false = ground arith in
    rw started (ap (λ k. malloc_loop fuel k h.freep (h.ptr h.freep) h) units)

-- The block that a request has taken: it overlaps no block of the free list, which is no longer than
-- before and stands on the same base.
pub record IsGiven (h h' : Heap) (rest list : List ℕ) (block : ℕ) : Type 0 where
  pub base : h'.base ≡ h.base
  pub above : h.base < block
  pub word : block + 8 * h'.size block < 2 ^ 32
  pub clear : Disjoint h' block h'.base list
  pub short : length list ≤ length rest
  pub frames : SameFrames h h'

-- What is taken from a free list.
pub Takes-IsFreeList :
    (h : Heap) (n : ℕ) (rest : List ℕ) (o : Option (ℕ × Heap))
    → IsFreeList h rest
    → 0 < n
    → Takes h n h.base rest o
    → (h' : Heap) × (list : List ℕ) × (block : ℕ) × (o ≡ some (block + 8, h'))
      × IsFreeList h' list
      × (h'.size block ≡ n)
      × ((x : ℕ) → covers h h.base rest x ≡ covers h' h'.base list x || inside h' block x)
      × IsGiven h h' rest list block
Takes-IsFreeList h n rest o is some_units takes =
    let empty = is.empty in
    let gives = take_block-Gives h n some_units takes.place is.chain is.apart takes.big in
    let taken = gives.taken in
    let r = take_block n takes.prev takes.block h in
    let base = gives.base in
    (
      r.1,
      taken.list,
      gives.block,
      takes.result ∙ ap (λ a. some (a, r.1)) gives.address,
      record {
        chain = subst (λ a. Chain r.1 a taken.list) (sym base) taken.chain;
        apart = subst (λ a. Apart r.1 a taken.list) (sym base) taken.apart;
        later = taken.later;
        place =
            subst (λ a. Behind a taken.list r.1.freep taken.later) (sym base)
              (subst (λ p. Behind h.base taken.list p taken.later) (sym gives.freep) taken.place);
        empty = ap r.1.size base ∙ gives.kept ∙ empty;
      },
      taken.size,
      λ x.
          taken.covered x
          ∙ ap (λ a. covers r.1 a taken.list x || inside r.1 gives.block x) (sym base),
      record {
        base = base;
        above =
            (let over = Behind-le r.1 taken.place taken.chain in
              let beyond = taken.above in omega arith);
        word = (let size = taken.size in let end = taken.word in omega arith);
        clear = subst (λ a. Disjoint r.1 gives.block a taken.list) (sym base) taken.clear;
        short = taken.short;
        frames = take_block-SameFrames n takes.prev takes.block h;
      },
    )

-- A request for `n` units.
pub malloc_units :
    (h : Heap) (fuel nbytes n : ℕ) (rest : List ℕ)
    → IsFreeList h rest
    → 0 < h.base
    → (nbytes + 8 - 1) % 2 ^ 32 / 8 + 1 ≡ n
    → any_fit h n rest ≡ true
    → 2 * length rest + 2 ≤ fuel
    → (h' : Heap) × (list : List ℕ) × (block : ℕ) × (malloc fuel nbytes h ≡ some (block + 8, h'))
      × IsFreeList h' list
      × (h'.size block ≡ n)
      × ((x : ℕ) → covers h h.base rest x ≡ covers h' h'.base list x || inside h' block x)
      × IsGiven h h' rest list block
malloc_units h fuel nbytes n rest is somewhere units some_fits enough =
    let low = Behind-le h is.place is.chain in
    let empty = is.empty in
    let takes =
      malloc_loop-Takes h n rest is.later fuel is.chain is.place (omega arith) some_fits enough in
    let (h', list, block, run, is', size, covered, given) =
      Takes-IsFreeList h n rest (malloc_loop fuel n h.freep (h.ptr h.freep) h) is (omega arith)
        takes in
    (
      h',
      list,
      block,
      malloc_starts fuel nbytes n h (λ e. omega (arith, low)) units ∙ run,
      is',
      size,
      covered,
      given,
    )

-- If some block of the free list is big enough, the base is not NULL, and `nbytes + 7` does not wrap,
-- then `malloc`, with fuel for two rounds over the list, returns the address behind the header of a
-- block that has room for `nbytes` bytes. The block lies above the base and overlaps no block of the
-- free list that `malloc` leaves, and with that block this list covers exactly what the free list
-- covered before.
pub malloc-IsFreeList :
    (h : Heap) (fuel nbytes : ℕ) (rest : List ℕ)
    → IsFreeList h rest
    → 0 < h.base
    → nbytes + 7 < 2 ^ 32
    → any_fit h ((nbytes + 7) / 8 + 1) rest ≡ true
    → 2 * length rest + 2 ≤ fuel
    → (h' : Heap) × (list : List ℕ) × (block : ℕ) × (malloc fuel nbytes h ≡ some (block + 8, h'))
      × IsFreeList h' list
      × (8 + nbytes ≤ 8 * h'.size block)
      × ((x : ℕ) → covers h h.base rest x ≡ covers h' h'.base list x || inside h' block x)
      × (h.base < block)
      × Disjoint h' block h'.base list
malloc-IsFreeList h fuel nbytes rest is somewhere small some_fits enough =
    let (h', list, block, run, is', size, covered, given) =
      malloc_units h fuel nbytes ((nbytes + 7) / 8 + 1) rest is somewhere (omega arith) some_fits
        enough in
    (h', list, block, run, is', omega arith, covered, given.above, given.clear)

-- From 2^32 - 7 bytes on the rounding wraps: if the free list has any block, `malloc` does not return
-- NULL but a block of one unit, whose header leaves no byte to the caller.
pub malloc_wraps :
    (h : Heap) (fuel nbytes : ℕ) (rest : List ℕ)
    → IsFreeList h rest
    → 0 < h.base
    → nbytes < 2 ^ 32
    → 2 ^ 32 ≤ nbytes + 7
    → any_fit h 1 rest ≡ true
    → 2 * length rest + 2 ≤ fuel
    → (h' : Heap) × (block : ℕ) × (malloc fuel nbytes h ≡ some (block + 8, h'))
      × (h'.size block ≡ 1)
malloc_wraps h fuel nbytes rest is somewhere word wraps some_fits enough =
    let (h', list, block, run, is', size, covered, given) =
      malloc_units h fuel nbytes 1 rest is somewhere (omega arith) some_fits enough in
    (h', block, run, size)
