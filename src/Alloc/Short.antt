-- ===== src/Alloc/Short.antt =====
-- `malloc` where the frames run out.
use seli_os.Alloc.{Heap, more_frames, morecore, malloc}
use seli_os.Alloc.Search.{Behind-le}
use seli_os.Alloc.Free.{IsFreeList}
use seli_os.Alloc.Walk.{any_fit}
use seli_os.Alloc.Malloc.{malloc_starts}
use seli_os.Alloc.Round.{grow_null, malloc_loop_round}
use seli_os.Alloc.Fill.{AllBelow}
use seli_os.Alloc.Grow.{more_frames_step}
use seli_os.Alloc.Pages.{extended, GrownBy, grown_none, grown_more, next}
use seli_os.Paging.Map.{OneTable, map_page-OneTable}
use seli_os.Memory.{Bitmap, bitmap_size}
use seli_os.Memory.Frames.{used}
use seli_os.Memory.Room.{free_frames, allocate_frame_free, allocate_frame_full, used-pos}
use seli_os.Paging.{Paging}
use seli_os.Prelude.{
  ℕ, zero, suc, ◌+◌, ◌-◌, ◌*◌, ◌/◌, ◌%◌, ◌^◌, ◌≤◌, ◌<◌, ◌≡◌, refl, ap, ◌∙◌, true, false, some, List,
  arith, length, if◌then◌else◌, ◌>>=◌, ==_of_ne,
}

no_frame :
    (left : ℕ) (h : Heap)
    → length h.bitmap ≡ bitmap_size
    → free_frames h.bitmap ≡ 0
    → more_frames (suc left) h ≡ some (false, h)
unfolding more_frames
no_frame left h size none_free =
    let full = allocate_frame_full h.bitmap size none_free in rw (full, ◌>>=◌) refl

-- All the frames that are left are taken and mapped before the missing one is noticed.
more_frames_short :
    (n k first : ℕ) (h : Heap)
    → OneTable h.paging
    → h.heap_end ≡ 0xC0400000 + 4096 * first
    → first + n ≤ 256
    → length h.bitmap ≡ bitmap_size
    → used h.bitmap 0 ≡ true
    → free_frames h.bitmap ≡ k
    → k < n
    → (b : Bitmap) × (p : Paging) × (more_frames n h
        ≡ some (false, extended h b p (h.heap_end + 4096 * k)))
      × GrownBy h first k b p
more_frames_short zero k first h one start low size zero_used room short = absurd (omega arith)
more_frames_short (suc n) zero first h one start low size zero_used room short =
    let same : h.heap_end ≡ h.heap_end + 4096 * 0 = omega arith in
    (
      h.bitmap,
      h.paging,
      no_frame n h size room ∙ ap (λ e. some (false, extended h h.bitmap h.paging e)) same,
      grown_none h first one,
    )
more_frames_short (suc n) (suc k) first h one start low size zero_used room short =
    let (f, b, found, inside, unused, updated, one_less, below) =
      allocate_frame_free h.bitmap size (omega arith) in
    let pos : 0 < f = used-pos h.bitmap f zero_used unused in
    let still : used b 0 ≡ true =
      updated.frames 0
      ∙ ap (λ k. if k then true else used h.bitmap 0) (==_of_ne f 0 (λ z. omega arith))
      ∙ zero_used in
    let low' : first + suc k ≤ 256 = omega arith in
    let (b', p, run, later) =
      more_frames_short n k (first + 1)
        (next h first f k b h.bitmap h.paging one start low' unused updated one_less)
        (map_page-OneTable h.paging one h.heap_end f) (omega arith) (omega arith)
        (updated.same_length ∙ size) still (omega arith) (omega arith) in
    let e = h.heap_end + 4096 * suc k in
    let end : h.heap_end + 4096 + 4096 * k ≡ e = omega arith in
    (
      b',
      p,
      more_frames_step n f (h.heap_end + 4096) h b (some (false, extended h b' p e)) pos found refl
          (omega arith) (run ∙ ap (λ e. some (false, extended h b' p e)) end),
      grown_more h first f k b b' p one start low' unused updated one_less later,
    )

morecore_short :
    (left n frames : ℕ) (h g : Heap)
    → (n * 8 % 2 ^ 32 + 4095) % 2 ^ 32 / 4096 ≡ frames
    → more_frames frames h ≡ some (false, g)
    → morecore left n h ≡ some (0, g)
unfolding morecore
morecore_short left n frames h g count short = rw (count, short, ◌>>=◌) refl

-- If no block of the free list is big enough, the base lies from 0xC0100000 on and the blocks below
-- the end of the heap, so that no header is on a page that is mapped anew, and there are fewer free
-- frames than the request takes, where the bitmap has its full length, frame 0 is in use,
-- `nbytes` is below 2^32 - 4200, the kernel's directory entries are absent or lead to its one
-- table, the heap ends at a page from 0xC0400000 on and would end at 0xC0500000 at most, then
-- `malloc`, with fuel for one round over the list, returns NULL. The free list is as it was, but
-- all free frames are gone: each is mapped behind the old end of the heap, in order, the end has
-- moved behind them, and every address of a page that is not one of these in its 4 MiB resolves
-- as before.
pub malloc_short :
    (h : Heap) (fuel nbytes frames first : ℕ) (rest : List ℕ)
    → IsFreeList h rest
    → 0xC0100000 ≤ h.base
    → any_fit h ((nbytes + 7) / 8 + 1) rest ≡ false
    → AllBelow h h.heap_end h.base rest
    → nbytes + 4200 < 2 ^ 32
    → (((nbytes + 7) / 8 + 1) * 8 + 4095) / 4096 ≡ frames
    → OneTable h.paging
    → h.heap_end ≡ 0xC0400000 + 4096 * first
    → first + frames ≤ 256
    → length h.bitmap ≡ bitmap_size
    → used h.bitmap 0 ≡ true
    → free_frames h.bitmap < frames
    → length rest + 1 ≤ fuel
    → (h' : Heap) × (malloc fuel nbytes h ≡ some (0, h'))
      × (h'.ptr ≡ h.ptr)
      × (h'.size ≡ h.size)
      × (h'.base ≡ h.base)
      × (h'.freep ≡ h.freep)
      × (free_frames h'.bitmap ≡ 0)
      × (h'.heap_end ≡ h.heap_end + 4096 * free_frames h.bitmap)
      × GrownBy h first (free_frames h.bitmap) h'.bitmap h'.paging
malloc_short h fuel nbytes frames first rest is somewhere none_fits below small count one start
      low_end size zero_used short enough =
    let n = (nbytes + 7) / 8 + 1 in
    let left = fuel - (length rest + 1) in
    let low = Behind-le h is.place is.chain in
    let k = free_frames h.bitmap in
    let (b, p, run, pages) =
      more_frames_short frames k first h one start low_end size zero_used refl short in
    let e = h.heap_end + 4096 * k in
    (
      extended h b p e,
      malloc_starts fuel nbytes n h (λ e. omega (arith, low)) (omega arith)
          ∙ malloc_loop_round h n left fuel rest is (omega arith) none_fits (omega arith)
          ∙ grow_null left n h (extended h b p e)
              (morecore_short left n frames h (extended h b p e) (omega arith) run),
      refl,
      refl,
      refl,
      refl,
      (let count = pages.count in omega arith),
      refl,
      pages,
    )
