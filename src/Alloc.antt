-- ===== src/Alloc.antt =====
-- src/kernel/alloc.c: the kernel's heap. A header takes 8 bytes at its address: its two fields are
-- functions from the address. What the owner of a block writes into it is not modelled.
pub mod Search
pub mod Insert
pub mod Free
pub mod Walk
pub mod Take
pub mod Give
pub mod Malloc
pub mod Round
pub mod Pages
pub mod Fill
pub mod Grow
pub mod Back
pub mod Short
pub mod Sample
mod Tests
use seli_os.Memory.{Bitmap, allocate_frame}
use seli_os.Paging.{Paging, map_page}
use seli_os.Prelude.{
  ℕ, zero, suc, ◌+◌, ◌-◌, ◌*◌, ◌/◌, ◌%◌, ◌^◌, Bool, true, false, ◌&&◌, ◌||◌, Option, none, some,
  ltb, leb, ◌==◌, if◌then◌else◌, ◌>>=◌,
}

-- The globals of alloc.c, with the frames and the page tables that `morecore` takes. `base` is the
-- address of the static header, and a `freep` of 0 is NULL. A header is known by its virtual address.
-- This is what the program sees until a page that holds a header is mapped anew: the heap's pages take
-- the entries of the kernel's one page table, so that from 0xC0500000 on they redirect the kernel's own
-- pages.
pub record Heap : Type 0 where
  pub ptr : ℕ → ℕ
  pub size : ℕ → ℕ
  pub base : ℕ
  pub freep : ℕ
  pub heap_end : ℕ
  pub bitmap : Bitmap
  pub paging : Paging

abbrev pub set_field : (ℕ → ℕ) → ℕ → ℕ → ℕ → ℕ
set_field field a v x = if x == a then v else field x

-- `p + n` on headers.
abbrev pub header_plus : ℕ → ℕ → ℕ
header_plus p n = (p + 8 * n) % 2 ^ 32

-- The loop of `free` at `p`: the block behind which the freed one goes. `none` if the fuel runs out.
pub search : ℕ → ℕ → ℕ → Heap → Option ℕ
search zero bp p h = none
search (suc left) bp p h =
    let next = search left bp (h.ptr p) h in
    if ltb p bp && ltb bp (h.ptr p)
    then some p
    else if leb (h.ptr p) p && (ltb p bp || ltb bp (h.ptr p))
    then some p
    else next

-- The block goes in front of the next one, or is joined with it.
pub join_upper : ℕ → ℕ → Heap → Heap
join_upper bp p h =
    let next = h.ptr p in
    if header_plus bp (h.size bp) == next
    then record h {
      size = set_field h.size bp ((h.size bp + h.size next) % 2 ^ 32);
      ptr = set_field h.ptr bp (h.ptr next);
    }
    else record h { ptr = set_field h.ptr bp next }

-- The block goes behind `p`, or is joined with it.
pub join_lower : ℕ → ℕ → Heap → Heap
join_lower bp p h =
    if header_plus p (h.size p) == bp
    then record h {
      size = set_field h.size p ((h.size p + h.size bp) % 2 ^ 32);
      ptr = set_field h.ptr p (h.ptr bp);
    }
    else record h { ptr = set_field h.ptr p bp }

pub free : ℕ → ℕ → Heap → Option Heap
unfolding search join_upper join_lower
free fuel ap h = do
  let bp = (ap + 2 ^ 32 - 8) % 2 ^ 32
  p ← search fuel bp h.freep h
  some (record (join_lower bp p (join_upper bp p h)) { freep = p })

-- The loop of `morecore`, with `left` frames to go: `false` if a frame is missing. The headers are as
-- before, which holds while the heap ends at 0xC0500000 at most.
pub more_frames : ℕ → Heap → Option (Bool × Heap)
more_frames zero h = some (true, h)
more_frames (suc left) h = do
  (phys, bitmap) ← allocate_frame h.bitmap
  let taken = record h { bitmap = bitmap }
  let mapped = record taken {
    paging = map_page h.heap_end phys h.paging;
    heap_end = (h.heap_end + 4096) % 2 ^ 32;
  }
  let more = more_frames left mapped
  if phys == 0 then some (false, taken) else more

-- The new `freep`, 0 for NULL.
pub morecore : ℕ → ℕ → Heap → Option (ℕ × Heap)
unfolding more_frames free
morecore fuel nunits h = do
  let nbytes = nunits * 8 % 2 ^ 32
  let frames = (nbytes + 4095) % 2 ^ 32 / 4096
  (enough, grown) ← more_frames frames h
  let start = h.heap_end
  let filled = record grown { size = set_field grown.size start (frames * (4096 / 8) % 2 ^ 32) }
  let given = (do freed ← free fuel (header_plus start 1) filled; some (freed.freep, freed))
  if enough then given else some (0, grown)

-- A block that is big enough is taken, or its tail end. The address behind the header is returned.
pub take_block : ℕ → ℕ → ℕ → Heap → ℕ × Heap
take_block nunits prevp p h =
    if h.size p == nunits
    then (header_plus p 1, record h { ptr = set_field h.ptr prevp (h.ptr p); freep = prevp })
    else (let left = h.size p - nunits in
        let tail = header_plus p left in
        (
          header_plus tail 1,
          record h { size = set_field (set_field h.size p left) tail nunits; freep = prevp },
        ))

-- The loop of `malloc` at `p`, behind `prevp`: the address, 0 for NULL.
pub malloc_loop : ℕ → ℕ → ℕ → ℕ → Heap → Option (ℕ × Heap)
malloc_loop zero nunits prevp p h = none
malloc_loop (suc left) nunits prevp p h =
    let next = malloc_loop left nunits p (h.ptr p) h in
    if leb nunits (h.size p)
    then some (take_block nunits prevp p h)
    else if p == h.freep
    then (do
      (q, grown) ← morecore left nunits h
      let again = malloc_loop left nunits q (grown.ptr q) grown
      if q == 0 then some (0, grown) else again)
    else next

-- The free list before the first call.
pub start_list : Heap → Heap
start_list h =
    if h.freep == 0
    then record h {
      ptr = set_field h.ptr h.base h.base;
      size = set_field h.size h.base 0;
      freep = h.base;
    }
    else h

pub malloc : ℕ → ℕ → Heap → Option (ℕ × Heap)
unfolding start_list malloc_loop
malloc fuel nbytes h =
    let nunits = (nbytes + 8 - 1) % 2 ^ 32 / 8 + 1 in
    let list = start_list h in malloc_loop fuel nunits list.freep (list.ptr list.freep) list
