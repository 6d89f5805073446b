-- ===== src/Alloc/Tests.antt =====
-- A block that is freed right behind a free one.
use seli_os.Alloc.{Heap, set_field, free, malloc}
use seli_os.Alloc.Insert.{Disjoint, covers, inside}
use seli_os.Alloc.Search.{here}
use seli_os.Alloc.Malloc.{malloc-IsFreeList, malloc_wraps}
use seli_os.Alloc.Free.{IsFreeList, free-IsFreeList}
use seli_os.Alloc.Back.{free-malloc}
use seli_os.Alloc.Grow.{malloc-grows}
use seli_os.Alloc.Short.{malloc_short}
use seli_os.Alloc.Pages.{GrownBy}
use seli_os.Paging.Map.{OneTable}
use seli_os.Memory.{Bitmap}
use seli_os.Memory.Room.{free_frames}
use seli_os.Memory.Samples.{one_left, one_free, most_frames, seven_free}
use seli_os.Prelude.Bits.{digit}
use seli_os.Prelude.{
  leb, ltb, ◌&&◌, length-replicate, ℕ, ◌+◌, ◌*◌, ◌≤◌, ◌<◌, ◌≡◌, refl, inl, some, List, [], ◌∷◌,
  ◌||◌, replicate, arith,
}

abbrev heap : Heap
heap = record {
  ptr = set_field (set_field (λ x. 0) 0xC0110000 0xC0400000) 0xC0400000 0xC0110000;
  size = set_field (set_field (λ x. 0) 0xC0400000 512) 0xC0401000 512;
  base = 0xC0110000;
  freep = 0xC0110000;
  heap_end = 0xC0402000;
  bitmap = replicate 4096 0;
  paging = record { page_directory = λ i. 0; first_page_table = λ i. 0; table_physical = 0x104000 };
}

heap-IsFreeList : IsFreeList heap (0xC0400000 ∷ [])
heap-IsFreeList = record {
  chain = (refl, omega arith, refl);
  apart = (omega arith, omega arith);
  later = 0xC0400000 ∷ [];
  place = here;
  empty = refl;
}

free-IsFreeList_example :
    (h' : Heap) × (list : List ℕ) × (free 4 (0xC0401000 + 8) heap ≡ some h')
    × IsFreeList h' list
    × ((x : ℕ)
        → covers h' h'.base list x
          ≡ covers heap 0xC0110000 (0xC0400000 ∷ []) x || inside heap 0xC0401000 x)
free-IsFreeList_example =
    free-IsFreeList heap 0xC0401000 4 (0xC0400000 ∷ []) heap-IsFreeList (omega arith) (omega arith)
      (omega arith) (inl (omega arith, omega arith), inl (omega arith, omega arith)) (omega arith)

-- 100 bytes take 14 units off the end of the block.
malloc-IsFreeList_example :
    (h' : Heap) × (list : List ℕ) × (block : ℕ) × (malloc 4 100 heap ≡ some (block + 8, h'))
    × IsFreeList h' list
    × (8 + 100 ≤ 8 * h'.size block)
    × ((x : ℕ)
        → covers heap 0xC0110000 (0xC0400000 ∷ []) x
          ≡ covers h' h'.base list x || inside h' block x)
    × (0xC0110000 < block)
    × Disjoint h' block h'.base list
malloc-IsFreeList_example =
    malloc-IsFreeList heap 4 100 (0xC0400000 ∷ []) heap-IsFreeList (omega arith) (omega arith) refl
      (omega arith)

malloc_wraps_example :
    (h' : Heap) × (block : ℕ) × (malloc 4 0xFFFFFFFF heap ≡ some (block + 8, h'))
    × (h'.size block ≡ 1)
malloc_wraps_example =
    malloc_wraps heap 4 0xFFFFFFFF (0xC0400000 ∷ []) heap-IsFreeList (omega arith) (omega arith)
      (omega arith) refl (omega arith)

-- 5000 bytes do not fit, and take two frames.
abbrev growing : Bitmap → Heap
growing frames = record heap { bitmap = frames }

growing-IsFreeList : (frames : Bitmap) → IsFreeList (growing frames) (0xC0400000 ∷ [])
growing-IsFreeList frames = record {
  chain = (refl, omega arith, refl);
  apart = (omega arith, omega arith);
  later = 0xC0400000 ∷ [];
  place = here;
  empty = refl;
}

growing-OneTable : OneTable heap.paging
growing-OneTable = record { frame = 0x104; aligned = refl; entries = λ i. inl refl }

malloc-grows_example :
    (h : Heap) × (list : List ℕ) × (block : ℕ) × (malloc 8 5000 (growing most_frames)
      ≡ some (block + 8, h))
    × IsFreeList h list
    × (8 + 5000 ≤ 8 * h.size block)
    × ((x : ℕ)
        → covers heap 0xC0110000 (0xC0400000 ∷ []) x || (leb 0xC0402000 x && ltb x 0xC0404000)
          ≡ covers h h.base list x || inside h block x)
    × (0xC0110000 < block)
    × Disjoint h block h.base list
    × GrownBy (growing most_frames) 2 2 h.bitmap h.paging
    × (h.heap_end ≡ 0xC0404000)
unfolding digit
malloc-grows_example =
    malloc-grows (growing most_frames) 8 5000 2 2 (0xC0400000 ∷ []) (growing-IsFreeList most_frames)
      (omega arith) refl (omega arith, omega arith, (omega arith, omega arith)) (omega arith) refl
      growing-OneTable refl (omega arith) (omega (arith, length-replicate {A = ℕ} 4095 0)) refl
      (omega (arith, seven_free)) (omega arith)

malloc_short_example :
    (h : Heap) × (malloc 8 5000 (growing one_left) ≡ some (0, h))
    × (h.ptr ≡ heap.ptr)
    × (h.size ≡ heap.size)
    × (h.base ≡ 0xC0110000)
    × (h.freep ≡ 0xC0110000)
    × (free_frames h.bitmap ≡ 0)
    × (h.heap_end ≡ 0xC0402000 + 4096 * free_frames one_left)
    × GrownBy (growing one_left) 2 (free_frames one_left) h.bitmap h.paging
unfolding digit
malloc_short_example =
    malloc_short (growing one_left) 8 5000 2 2 (0xC0400000 ∷ []) (growing-IsFreeList one_left)
      (omega arith) refl (omega arith, omega arith, (omega arith, omega arith)) (omega arith) refl
      growing-OneTable refl (omega arith) (omega (arith, length-replicate {A = ℕ} 4095 255)) refl
      (omega (arith, one_free)) (omega arith)

free-malloc_example :
    (address : ℕ) × (h1 : Heap) × (h2 : Heap) × (list : List ℕ) × (malloc 4 100 heap
      ≡ some (address, h1))
    × (free 4 address h1 ≡ some h2)
    × IsFreeList h2 list
    × ((x : ℕ) → covers h2 h2.base list x ≡ covers heap 0xC0110000 (0xC0400000 ∷ []) x)
free-malloc_example =
    free-malloc heap 4 100 (0xC0400000 ∷ []) heap-IsFreeList (omega arith) (omega arith) refl
      (omega arith)
