-- ===== src/Memory.antt =====
-- The physical page frame allocator of src/kernel/memory.c: one bit for each 4 KiB frame.
-- The bitmap is a C array, so an access outside it is a fault, `none`.
pub mod Frames
pub mod Allocate
pub mod Init
pub mod Room
pub mod Samples
mod Tests
use seli_os.Prelude.{
  ℕ, zero, suc, ◌+◌, ◌-◌, ◌*◌, ◌/◌, ◌%◌, ◌^◌, bit_and, bit_or, Bool, not, Option, none, some, List,
  get_elem?, set?, ◌==◌, if◌then◌else◌, ◌>>=◌, ◌>>◌,
}

abbrev pub bitmap_size : ℕ
bitmap_size = 4096

abbrev pub Bitmap : Type 0
Bitmap = List ℕ

pub set_bit : Bitmap → ℕ → Option Bitmap
set_bit bitmap index = do
  byte ← get_elem? bitmap (index / 8)
  set? bitmap (index / 8) (bit_or byte (2 ^ (index % 8)) % 2 ^ 8)

-- `~(1 << k)` is the complement of an `int`.
pub clear_bit : Bitmap → ℕ → Option Bitmap
clear_bit bitmap index = do
  byte ← get_elem? bitmap (index / 8)
  set? bitmap (index / 8) (bit_and byte (2 ^ 32 - 1 - 2 ^ (index % 8)) % 2 ^ 8)

pub test_bit : Bitmap → ℕ → Option Bool
test_bit bitmap index = do
  byte ← get_elem? bitmap (index / 8)
  some (not (bit_and byte (2 ^ (index % 8)) == 0))

-- The loop at frame `i`, with `left` rounds to go; a full bitmap gives address 0.
pub allocate_loop : ℕ → ℕ → Bitmap → Option (ℕ × Bitmap)
allocate_loop zero i bitmap = some (0, bitmap)
allocate_loop (suc left) i bitmap =
    let next = allocate_loop left (i + 1) bitmap in
    do
      used ← test_bit bitmap i
      if used then next else do bitmap' ← set_bit bitmap i; some (i * 4096 % 2 ^ 32, bitmap')

pub allocate_frame : Bitmap → Option (ℕ × Bitmap)
unfolding allocate_loop
allocate_frame bitmap = allocate_loop (bitmap_size * 8) 0 bitmap

pub free_frame : Bitmap → ℕ → Option Bitmap
free_frame bitmap frame_address = clear_bit bitmap (frame_address / 4096)

-- `for (; rounds; i++) op(i)`
pub for_bits : (Bitmap → ℕ → Option Bitmap) → ℕ → ℕ → Bitmap → Option Bitmap
for_bits op zero i bitmap = some bitmap
for_bits op (suc left) i bitmap = op bitmap i >>= for_bits op left (i + 1)

-- The four loops in order: all used, RAM free, the kernel used, the first megabyte used.
-- The third runs for `i <= kernel_end_frame`.
pub init_memory : ℕ → ℕ → ℕ → Bitmap → Option Bitmap
init_memory total_ram_bytes kernel_physical_start kernel_physical_end bitmap =
    let total_frames = total_ram_bytes / 4096 in
    let kernel_start_frame = kernel_physical_start / 4096 in
    let kernel_end_frame = (kernel_physical_end + 4095) % 2 ^ 32 / 4096 in
    do
      full ← for_bits set_bit (bitmap_size * 8) 0 bitmap
      ram ← for_bits clear_bit total_frames 0 full
      kernel ← for_bits set_bit (kernel_end_frame + 1 - kernel_start_frame) kernel_start_frame ram
      for_bits set_bit 256 0 kernel
