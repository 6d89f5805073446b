-- ===== src/Alloc/Grow.antt =====
-- `morecore`: more frames for the heap.
use seli_os.Alloc.{Heap, header_plus, more_frames, morecore, malloc_loop, malloc, free}
use seli_os.Alloc.Search.{Behind-le}
use seli_os.Alloc.Insert.{Disjoint, covers, inside}
use seli_os.Alloc.Free.{IsFreeList, free_fits}
use seli_os.Alloc.Walk.{any_fit, malloc_loop-Takes}
use seli_os.Alloc.Malloc.{Takes-IsFreeList, malloc_starts}
use seli_os.Alloc.Pages.{extended, GrownBy, grown_none, grown_more, next}
use mathlib.Core.Path.{subst}
use seli_os.Paging.Map.{OneTable, map_page-OneTable}
use seli_os.Alloc.Fill.{
  AllBelow, filled, size_here, base_low, filled-IsFreeList, covers-filled, filled-Disjoint,
}
use seli_os.Alloc.Round.{grow_run, malloc_loop_round}
use seli_os.Memory.{Bitmap, bitmap_size, allocate_frame}
use seli_os.Memory.Frames.{used}
use seli_os.Memory.Room.{free_frames, allocate_frame_free, used-pos}
use seli_os.Paging.{Paging, map_page}
use seli_os.Prelude.{
  ℕ, zero, suc, ◌+◌, ◌-◌, ◌*◌, ◌/◌, ◌%◌, ◌^◌, ◌≤◌, ◌<◌, ◌≡◌, refl, sym, ap, ◌∙◌, Bool, true, false,
  ◌&&◌, ◌||◌, Option, some, List, arith, length, ltb, leb, ◌==◌, if◌then◌else◌, ◌>>=◌, ==_of_ne,
}
use native.Mathlib.Nat.{mod-eq_of_lt}

pub more_frames_step :
    (left f e : ℕ) (h : Heap) (b : Bitmap) (r : Option (Bool × Heap))
    → 0 < f
    → allocate_frame h.bitmap ≡ some (f * 4096, b)
    → h.heap_end + 4096 ≡ e
    → e < 2 ^ 32
    → more_frames left (extended h b (map_page h.heap_end (f * 4096) h.paging) e) ≡ r
    → more_frames (suc left) h ≡ r
unfolding more_frames
more_frames_step left f e h b r pos found at word rest =
    ap (λ o. o >>= after) found
    ∙ rw (==_of_ne (f * 4096) 0 (λ z. omega arith), at, mod-eq_of_lt word) rest
  where
    after : ℕ × Bitmap → Option (Bool × Heap)
    after (phys, bitmap) =
        let taken = record h { bitmap = bitmap } in
        let mapped = record taken {
          paging = map_page h.heap_end phys h.paging;
          heap_end = (h.heap_end + 4096) % 2 ^ 32;
        } in
        let more = more_frames left mapped in if phys == 0 then some (false, taken) else more

more_frames_lem :
    (n first e : ℕ) (h : Heap)
    → OneTable h.paging
    → h.heap_end ≡ 0xC0400000 + 4096 * first
    → first + n ≤ 256
    → length h.bitmap ≡ bitmap_size
    → used h.bitmap 0 ≡ true
    → n ≤ free_frames h.bitmap
    → h.heap_end + 4096 * n ≡ e
    → (b : Bitmap) × (p : Paging) × (more_frames n h ≡ some (true, extended h b p e))
      × GrownBy h first n b p
unfolding more_frames
more_frames_lem zero first e h one start low size zero_used room at =
    let same : h.heap_end ≡ e = omega arith in
    (
      h.bitmap,
      h.paging,
      ap (λ k. some (true, extended h h.bitmap h.paging k)) same,
      grown_none h first one,
    )
more_frames_lem (suc n) first e h one start low size zero_used room at =
    let (f, b, found, inside, unused, updated, one_less, below) =
      allocate_frame_free h.bitmap size (omega arith) in
    let pos : 0 < f = used-pos h.bitmap f zero_used unused in
    let still : used b 0 ≡ true =
      updated.frames 0
      ∙ ap (λ k. if k then true else used h.bitmap 0) (==_of_ne f 0 (λ z. omega arith))
      ∙ zero_used in
    let (b', p, run, later) =
      more_frames_lem n (first + 1) e
        (next h first f n b h.bitmap h.paging one start low unused updated one_less)
        (map_page-OneTable h.paging one h.heap_end f) (omega arith) (omega arith)
        (updated.same_length ∙ size) still (omega arith) (omega arith) in
    (
      b',
      p,
      more_frames_step n f (h.heap_end + 4096) h b (some (true, extended h b' p e)) pos found refl
          (omega arith) run,
      grown_more h first f n b b' p one start low unused updated one_less later,
    )

grown_on :
    (h : Heap) (first n : ℕ) (b : Bitmap) (p : Paging)
    → GrownBy h first n b p
    → {b' : Bitmap} {p' : Paging} → b ≡ b'
    → p ≡ p'
    → GrownBy h first n b' p'
grown_on h first n b p pages {b'} {p'} same same' =
    subst (λ c. GrownBy h first n c p') same (subst (GrownBy h first n b) same' pages)

morecore_run :
    (fuel n frames start e : ℕ) (h h' : Heap) (b : Bitmap) (p : Paging)
    → (n * 8 % 2 ^ 32 + 4095) % 2 ^ 32 / 4096 ≡ frames
    → frames * (4096 / 8) % 2 ^ 32 ≡ frames * 512
    → header_plus h.heap_end 1 ≡ start
    → more_frames frames h ≡ some (true, extended h b p e)
    → free fuel start (filled h (frames * 512) b p e) ≡ some h'
    → morecore fuel n h ≡ some (h'.freep, h')
unfolding morecore
morecore_run fuel n frames start e h h' b p count units at grown freed =
    rw (count, grown, ◌>>=◌, units, at, freed) refl

-- A request for `n` units, which takes `frames` frames.
pub morecore_lem :
    (h : Heap) (fuel n frames first : ℕ) (rest : List ℕ)
    → IsFreeList h rest
    → AllBelow h h.heap_end h.base rest
    → OneTable h.paging
    → h.heap_end ≡ 0xC0400000 + 4096 * first
    → first + frames ≤ 256
    → 0 < n
    → n * 8 + 4095 < 2 ^ 32
    → (n * 8 + 4095) / 4096 ≡ frames
    → length h.bitmap ≡ bitmap_size
    → used h.bitmap 0 ≡ true
    → frames ≤ free_frames h.bitmap
    → 2 * length rest + 2 ≤ fuel
    → (h' : Heap) × (list : List ℕ) × (morecore fuel n h ≡ some (h'.freep, h'))
      × IsFreeList h' list
      × ((x : ℕ)
          → covers h' h'.base list x
            ≡ covers h h.base rest x || (leb h.heap_end x && ltb x (h.heap_end + 4096 * frames)))
      × (any_fit h' n list ≡ true)
      × (h'.base ≡ h.base)
      × (length list ≤ suc (length rest))
      × GrownBy h first frames h'.bitmap h'.paging
      × (h'.heap_end ≡ h.heap_end + 4096 * frames)
morecore_lem h fuel n frames first rest is below one start low some_units small count size zero_used
      room enough =
    let (b, p, grown, pages) =
      more_frames_lem frames first (h.heap_end + 4096 * frames) h one start low size zero_used room
        refl in
    let e = h.heap_end + 4096 * frames in
    let g = filled h (frames * 512) b p e in
    let here : g.size h.heap_end ≡ frames * 512 = size_here h (frames * 512) b p e in
    let (h', list, freed, is', covered, fits, base, short, same) =
      free_fits g h.heap_end fuel rest (filled-IsFreeList h (frames * 512) b p e rest is below)
        (base_low h (frames * 512) b p e rest below) (omega arith) (omega arith)
        (filled-Disjoint h (frames * 512) b p e h.base rest below) enough in
    (
      h',
      list,
      morecore_run fuel n frames (h.heap_end + 8) e h h' b p (omega arith) (omega arith)
          (omega arith) grown freed,
      is',
      (λ x.
          covered x
          ∙ ap (λ c. c || inside g h.heap_end x)
              (covers-filled h (frames * 512) b p e h.base rest x below)
          ∙ ap (λ k. covers h h.base rest x || (leb h.heap_end x && ltb x k)) (omega arith)),
      fits n some_units (omega arith),
      base,
      short,
      grown_on h first frames b p pages (sym same.bitmap) (sym same.paging),
      same.heap_end,
    )

-- If no block of the free list is big enough, the base lies from 0xC0100000 on and the blocks below
-- the end of the heap, so that no header is on a page that is mapped anew, `nbytes` is below 2^32 - 4200, the kernel's directory entries are absent or lead to
-- its one table, the heap ends at a page from 0xC0400000 on and will end at 0xC0500000 at most, the
-- bitmap has its full length, frame 0 is in use and there are free frames for the request, then
-- `malloc`, with fuel for three rounds over the list, takes exactly those frames, each of which was
-- free, maps them in order behind the end of the heap and moves the end; every address of a page
-- that is not one of these in its 4 MiB resolves as before. `malloc` returns the address behind the
-- header of a block that lies above the base, has room for `nbytes` bytes and overlaps no block of
-- the free list that it leaves; this list, with that block, covers exactly what the free list covered
-- before and the new pages.
pub malloc-grows :
    (h : Heap) (fuel nbytes frames first : ℕ) (rest : List ℕ)
    → IsFreeList h rest
    → 0xC0100000 ≤ h.base
    → any_fit h ((nbytes + 7) / 8 + 1) rest ≡ false
    → AllBelow h h.heap_end h.base rest
    → nbytes + 4200 < 2 ^ 32
    → (((nbytes + 7) / 8 + 1) * 8 + 4095) / 4096 ≡ frames
    → OneTable h.paging
    → h.heap_end ≡ 0xC0400000 + 4096 * first
    → first + frames ≤ 256
    → length h.bitmap ≡ bitmap_size
    → used h.bitmap 0 ≡ true
    → frames ≤ free_frames h.bitmap
    → 3 * length rest + 5 ≤ fuel
    → (h' : Heap) × (list : List ℕ) × (block : ℕ) × (malloc fuel nbytes h ≡ some (block + 8, h'))
      × IsFreeList h' list
      × (8 + nbytes ≤ 8 * h'.size block)
      × ((x : ℕ)
          → covers h h.base rest x || (leb h.heap_end x && ltb x (h.heap_end + 4096 * frames))
            ≡ covers h' h'.base list x || inside h' block x)
      × (h.base < block)
      × Disjoint h' block h'.base list
      × GrownBy h first frames h'.bitmap h'.paging
      × (h'.heap_end ≡ h.heap_end + 4096 * frames)
malloc-grows h fuel nbytes frames first rest is somewhere none_fits below small count one start
      low_end size zero_used room enough =
    let n = (nbytes + 7) / 8 + 1 in
    let left = fuel - (length rest + 1) in
    let low = Behind-le h is.place is.chain in
    let (g, list, more, is_g, covered, fits, base, short, pages, end) =
      morecore_lem h left n frames first rest is below one start low_end (omega arith) (omega arith)
        count size zero_used room (omega arith) in
    let low_g = Behind-le g is_g.place is_g.chain in
    let empty = is_g.empty in
    let takes =
      malloc_loop-Takes g n list is_g.later left is_g.chain is_g.place (omega arith) fits
        (omega arith) in
    let (h', list', block, run, is', units, covered', given) =
      Takes-IsFreeList g n list (malloc_loop left n g.freep (g.ptr g.freep) g) is_g (omega arith)
        takes in
    let same = given.frames in
    (
      h',
      list',
      block,
      malloc_starts fuel nbytes n h (λ e. omega (arith, low)) (omega arith)
          ∙ malloc_loop_round h n left fuel rest is (omega arith) none_fits (omega arith)
          ∙ grow_run left n h g more (λ e. omega arith)
          ∙ run,
      is',
      omega arith,
      λ x. sym (covered x) ∙ covered' x,
      (let above = given.above in omega arith),
      given.clear,
      grown_on h first frames g.bitmap g.paging pages (sym same.bitmap) (sym same.paging),
      same.heap_end ∙ end,
    )
