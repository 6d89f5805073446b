-- ===== src/Memory/Tests.antt =====
-- The frame allocator at concrete bitmaps.
use seli_os.Memory.{
  Bitmap, allocate_frame, allocate_loop, test_bit, set_bit, init_memory, bitmap_size, free_frame,
}
use seli_os.Memory.Frames.{used}
use seli_os.Memory.Allocate.{Allocated, full, lowest, allocate_frame-Allocated, free_frame-allocate}
use seli_os.Memory.Init.{
  IsInit, IsSafe, init_memory-IsInit, init_memory_overrun, allocate_frame-init_memory,
}
use seli_os.Prelude.{
  ℕ, ◌*◌, ◌≡◌, ◌≢◌, refl, false, none, some, ◌∷◌, arith, length, replicate, length-replicate, ap,
  suc,
}

abbrev blank_bitmap : Bitmap
blank_bitmap = replicate 4096 0

blank_bitmap_size : length blank_bitmap ≡ bitmap_size
blank_bitmap_size = length-replicate {A = ℕ} 4096 0

allocate_frame-Allocated_example :
    Allocated blank_bitmap 0 (bitmap_size * 8) (allocate_frame blank_bitmap)
allocate_frame-Allocated_example = allocate_frame-Allocated blank_bitmap blank_bitmap_size

-- 16 MiB of RAM with the kernel in its second megabyte.
init_memory-IsInit_example :
    (b : Bitmap) × (init_memory 0x1000000 0x100000 0x1FFFFF blank_bitmap ≡ some b)
    × IsInit 0x1000000 0x100000 0x1FFFFF b
init_memory-IsInit_example =
    init_memory-IsInit 0x1000000 0x100000 0x1FFFFF blank_bitmap blank_bitmap_size (omega arith)
      (omega arith) (omega arith)

init_memory_overrun_example : init_memory 0x10000000 0x100000 0x1FFFFF blank_bitmap ≡ none
init_memory_overrun_example =
    init_memory_overrun 0x10000000 0x100000 0x1FFFFF blank_bitmap blank_bitmap_size (omega arith)

abbrev booted : Bitmap
booted = init_memory-IsInit_example.0

allocates :
    Allocated booted 0 (bitmap_size * 8) (allocate_frame booted)
    → (address : ℕ) × (b : Bitmap) × (allocate_frame booted ≡ some (address, b)) × (address ≢ 0)
allocates (full all e) =
    let free = (init_memory-IsInit_example.2).frames 1000 (omega arith) in
    absurd (ground (arith, all 1000 (omega arith) (omega arith)))
allocates (lowest f b lo hi free before is e) =
    let first = (init_memory-IsInit_example.2).frames 0 (omega arith) in
    (
      f * 4096,
      b,
      e,
      λ zero_address.
          let at_zero : f ≡ 0 = omega arith in
          let free_zero : used booted 0 ≡ false = rw at_zero at free in absurd (ground arith),
    )

allocate_frame-init_memory_example :
    IsSafe 0x1000000 0x100000 0x1FFFFF
      (allocates (allocate_frame-Allocated booted (init_memory-IsInit_example.2).same_length)).0
allocate_frame-init_memory_example =
    let (address, b, run, ne) =
      allocates (allocate_frame-Allocated booted (init_memory-IsInit_example.2).same_length) in
    allocate_frame-init_memory 0x1000000 0x100000 0x1FFFFF blank_bitmap booted b address
      blank_bitmap_size (omega arith) (omega arith) (omega arith) (init_memory-IsInit_example.1) run
      ne

abbrev one_used : Bitmap
one_used = 1 ∷ replicate 4095 0

allocate_one_used : allocate_frame one_used ≡ some (4096, 3 ∷ replicate 4095 0)
unfolding allocate_frame allocate_loop test_bit set_bit
allocate_one_used = refl

free_frame-allocate_example :
    (b : Bitmap) × (free_frame (3 ∷ replicate 4095 0) 4096 ≡ some b)
    × ((j : ℕ) → used b j ≡ used one_used j)
free_frame-allocate_example =
    free_frame-allocate one_used (3 ∷ replicate 4095 0) 4096
      (ap suc (length-replicate {A = ℕ} 4095 0)) (λ e. ground arith) allocate_one_used
