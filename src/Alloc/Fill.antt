-- ===== src/Alloc/Fill.antt =====
-- The block that `morecore` makes of the new pages.
use seli_os.Alloc.{Heap, set_field}
use seli_os.Alloc.Search.{Chain}
use seli_os.Alloc.Insert.{Apart, Disjoint, covers}
use seli_os.Alloc.Free.{IsFreeList}
use seli_os.Alloc.Pages.{extended}
use seli_os.Memory.{Bitmap}
use seli_os.Paging.{Paging}
use seli_os.Prelude.{
  ℕ, ◌+◌, ◌*◌, ◌≤◌, ◌<◌, ◌≡◌, refl, ◌∙◌, inl, List, [], ◌∷◌, arith, ==_of_ne, ==_self,
}

-- Each block of the list lies below `e`.
abbrev pub AllBelow : Heap → ℕ → ℕ → List ℕ → Type 0
AllBelow h e a [] = (a < e) × (a + 8 * h.size a ≤ e)
AllBelow h e a (b ∷ rest) = (a < e) × (a + 8 * h.size a ≤ e) × AllBelow h e b rest

-- The heap with a block of `units` at the old end: its free list is that of before.
module _ (h : Heap) (units : ℕ) (b : Bitmap) (p : Paging) (e : ℕ) where
  abbrev pub filled : Heap
  filled = let g = extended h b p e in record g { size = set_field g.size h.heap_end units }

  size_below : (a : ℕ) → a < h.heap_end → filled.size a ≡ h.size a
  size_below a low = rw (==_of_ne a h.heap_end (λ same. omega arith)) refl

  pub size_here : filled.size h.heap_end ≡ units
  size_here = rw (==_self h.heap_end) refl

  filled-Chain : (a : ℕ) (rest : List ℕ) → Chain h a rest → Chain filled a rest
  filled-Chain a [] chain = chain
  filled-Chain a (c ∷ rest) (next, order, chain) = (next, order, filled-Chain c rest chain)

  filled-Apart :
      (a : ℕ) (rest : List ℕ) → AllBelow h h.heap_end a rest → Apart h a rest → Apart filled a rest
  filled-Apart a [] (low, end) apart = let same = size_below a low in omega arith
  filled-Apart a (c ∷ rest) (low, end, below) (before, apart) =
      let same = size_below a low in (omega arith, filled-Apart c rest below apart)

  pub covers-filled :
      (a : ℕ) (rest : List ℕ) (x : ℕ)
      → AllBelow h h.heap_end a rest
      → covers filled a rest x ≡ covers h a rest x
  covers-filled a [] x (low, end) = let same = size_below a low in rw same refl
  covers-filled a (c ∷ rest) x (low, end, below) =
      let same = size_below a low in rw (same, covers-filled c rest x below) refl

  pub filled-Disjoint :
      (a : ℕ) (rest : List ℕ) → AllBelow h h.heap_end a rest → Disjoint filled h.heap_end a rest
  filled-Disjoint a [] (low, end) = let same = size_below a low in inl (low, omega arith)
  filled-Disjoint a (c ∷ rest) (low, end, below) =
      let same = size_below a low in (inl (low, omega arith), filled-Disjoint c rest below)

  pub base_low : (rest : List ℕ) → AllBelow h h.heap_end h.base rest → h.base < h.heap_end
  base_low [] (low, end) = low
  base_low (c ∷ rest) (low, end, below) = low

  pub filled-IsFreeList :
      (rest : List ℕ)
      → IsFreeList h rest
      → AllBelow h h.heap_end h.base rest
      → IsFreeList filled rest
  filled-IsFreeList rest is below = record {
    chain = filled-Chain h.base rest is.chain;
    apart = filled-Apart h.base rest below is.apart;
    later = is.later;
    place = is.place;
    empty = size_below h.base (base_low rest below) ∙ is.empty;
  }
