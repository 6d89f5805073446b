-- ===== src/Memory/Init.antt =====
-- `init_memory`: which frames it leaves free, what it may hand out, and when it writes outside
-- the bitmap.
use seli_os.Memory.{Bitmap, bitmap_size, set_bit, clear_bit, for_bits, init_memory, allocate_frame}
use seli_os.Memory.Frames.{
  used, IsUpdated, set_bit-IsUpdated, clear_bit-IsUpdated, clear_bit_outside,
}
use seli_os.Memory.Allocate.{Allocated, full, lowest, allocate_frame-Allocated}
use mathlib.Core.Path.{subst}
use seli_os.Prelude.{
  ℕ, zero, suc, ◌+◌, ◌-◌, ◌*◌, ◌/◌, ◌%◌, ◌^◌, ◌≤◌, ◌<◌, ◌≡◌, refl, ◌∙◌, ◌⊎◌, inl, inr, ◌≢◌, Bool,
  true, false, ◌&&◌, not, Option, none, some, arith, length, ltb, leb, ◌==◌, if◌then◌else◌,
  Bool-cases, ◌>>=◌,
}

-- `b'` is `b` with the frames from `lo` up to `hi` set to `now`.
record IsRange (b : Bitmap) (lo hi : ℕ) (now : Bool) (b' : Bitmap) : Type 0 where
  same_length : length b' ≡ length b
  frames : (j : ℕ) → used b' j ≡ (if leb lo j && ltb j hi then now else used b j)

module _ (op : Bitmap → ℕ → Option Bitmap) (now : Bool)
    (op-IsUpdated : (b : Bitmap) (i : ℕ)
      → i < length b * 8
      → (b' : Bitmap) × (op b i ≡ some b') × IsUpdated b i now b') where
  for_bits-IsRange :
      (left i hi : ℕ) (b : Bitmap)
      → i + left ≡ hi
      → hi ≤ length b * 8
      → (b' : Bitmap) × (for_bits op left i b ≡ some b') × IsRange b i hi now b'
  unfolding for_bits
  for_bits-IsRange zero i hi b e h =
      (b, refl, record { same_length = refl; frames = λ j. ground arith })
  for_bits-IsRange (suc left) i hi b e h =
      let (b1, e1, is1) = op-IsUpdated b i (omega arith) in
      let same = is1.same_length in
      let (b2, e2, is2) = for_bits-IsRange left (i + 1) hi b1 (omega arith) (rw same h) in
      (
        b2,
        rw (e1, ◌>>=◌) e2,
        record {
          same_length = is2.same_length ∙ same;
          frames = λ j. ground (arith, is1.frames j, is2.frames j);
        },
      )

-- `init_memory` leaves frame `j` free: it is RAM, outside the kernel's frames, above 1 MiB.
abbrev pub left_free : ℕ → ℕ → ℕ → ℕ → Bool
left_free total_ram_bytes kernel_start kernel_end j =
    ltb j (total_ram_bytes / 4096)
    && not (leb (kernel_start / 4096) j && leb j ((kernel_end + 4095) / 4096))
    && leb 256 j

pub record IsInit (total_ram_bytes kernel_start kernel_end : ℕ) (b : Bitmap) : Type 0 where
  pub same_length : length b ≡ bitmap_size
  pub frames :
      (j : ℕ)
      → j < bitmap_size * 8
      → used b j ≡ not (left_free total_ram_bytes kernel_start kernel_end j)

module _ (total_ram_bytes kernel_start kernel_end : ℕ) (b : Bitmap) (h : length b ≡ bitmap_size)
    (ram : total_ram_bytes / 4096 ≤ bitmap_size * 8) (order : kernel_start ≤ kernel_end)
    (kernel : (kernel_end + 4095) / 4096 < bitmap_size * 8) where
  abbrev kernel_end_frame : ℕ
  kernel_end_frame = (kernel_end + 4095) % 2 ^ 32 / 4096

  frames_kept :
      (b1 b2 b3 b4 : Bitmap)
      → IsRange b 0 (bitmap_size * 8) true b1
      → IsRange b1 0 (total_ram_bytes / 4096) false b2
      → IsRange b2 (kernel_start / 4096) (kernel_end_frame + 1) true b3
      → IsRange b3 0 256 true b4
      → (j : ℕ) → j < bitmap_size * 8
      → used b4 j ≡ not (left_free total_ram_bytes kernel_start kernel_end j)
  frames_kept b1 b2 b3 b4 is1 is2 is3 is4 j small =
      ground (arith, is1.frames j, is2.frames j, is3.frames j, is4.frames j)

  last_loop :
      (b1 b2 b3 : Bitmap)
      → for_bits set_bit (bitmap_size * 8) 0 b ≡ some b1
      → IsRange b 0 (bitmap_size * 8) true b1
      → for_bits clear_bit (total_ram_bytes / 4096) 0 b1 ≡ some b2
      → IsRange b1 0 (total_ram_bytes / 4096) false b2
      → for_bits set_bit (kernel_end_frame + 1 - kernel_start / 4096) (kernel_start / 4096) b2
        ≡ some b3
      → IsRange b2 (kernel_start / 4096) (kernel_end_frame + 1) true b3
      → (b' : Bitmap) × (init_memory total_ram_bytes kernel_start kernel_end b ≡ some b')
        × IsInit total_ram_bytes kernel_start kernel_end b'
  unfolding init_memory
  last_loop b1 b2 b3 e1 is1 e2 is2 e3 is3 =
      let same : length b3 ≡ bitmap_size =
        is3.same_length ∙ is2.same_length ∙ is1.same_length ∙ h in
      let (b4, e4, is4) =
        for_bits-IsRange set_bit true set_bit-IsUpdated 256 0 256 b3 (omega arith) (omega arith) in
      (
        b4,
        rw (e1, ◌>>=◌, e2, ◌>>=◌, e3, ◌>>=◌) e4,
        record {
          same_length = is4.same_length ∙ same;
          frames = frames_kept b1 b2 b3 b4 is1 is2 is3 is4;
        },
      )

  kernel_loop :
      (b1 b2 : Bitmap)
      → for_bits set_bit (bitmap_size * 8) 0 b ≡ some b1
      → IsRange b 0 (bitmap_size * 8) true b1
      → for_bits clear_bit (total_ram_bytes / 4096) 0 b1 ≡ some b2
      → IsRange b1 0 (total_ram_bytes / 4096) false b2
      → (b' : Bitmap) × (init_memory total_ram_bytes kernel_start kernel_end b ≡ some b')
        × IsInit total_ram_bytes kernel_start kernel_end b'
  kernel_loop b1 b2 e1 is1 e2 is2 =
      let same : length b2 ≡ bitmap_size = is2.same_length ∙ is1.same_length ∙ h in
      let (b3, e3, is3) =
        for_bits-IsRange set_bit true set_bit-IsUpdated (kernel_end_frame + 1 - kernel_start / 4096)
          (kernel_start / 4096) (kernel_end_frame + 1) b2 (omega arith) (omega arith) in
      last_loop b1 b2 b3 e1 is1 e2 is2 e3 is3

  ram_loop :
      (b1 : Bitmap)
      → for_bits set_bit (bitmap_size * 8) 0 b ≡ some b1
      → IsRange b 0 (bitmap_size * 8) true b1
      → (b' : Bitmap) × (init_memory total_ram_bytes kernel_start kernel_end b ≡ some b')
        × IsInit total_ram_bytes kernel_start kernel_end b'
  ram_loop b1 e1 is1 =
      let same : length b1 ≡ bitmap_size = is1.same_length ∙ h in
      let (b2, e2, is2) =
        for_bits-IsRange clear_bit false clear_bit-IsUpdated (total_ram_bytes / 4096) 0
          (total_ram_bytes / 4096) b1 (omega arith) (omega arith) in
      kernel_loop b1 b2 e1 is1 e2 is2

  -- With at most 128 MiB of RAM, and a kernel that does not end before it starts and ends inside
  -- the bitmap's frames, `init_memory` stays inside the bitmap, and leaves free exactly the
  -- frames of RAM that are neither in the first megabyte nor between the kernel's first frame and
  -- the frame of its rounded end, both included.
  pub init_memory-IsInit :
      (b' : Bitmap) × (init_memory total_ram_bytes kernel_start kernel_end b ≡ some b')
      × IsInit total_ram_bytes kernel_start kernel_end b'
  init_memory-IsInit =
      let (b1, e1, is1) =
        for_bits-IsRange set_bit true set_bit-IsUpdated (bitmap_size * 8) 0 (bitmap_size * 8) b
          (omega arith) (omega arith) in
      ram_loop b1 e1 is1

for_bits_overrun :
    (left i : ℕ) (b : Bitmap)
    → i ≤ length b * 8
    → length b * 8 < i + left
    → for_bits clear_bit left i b ≡ none
unfolding for_bits
for_bits_overrun zero i b h over = absurd (omega arith)
for_bits_overrun (suc left) i b h over = elim (Bool-cases (i == length b * 8)) [
  | inl end ↦ rw (clear_bit_outside b i (ground arith))
  | inr before ↦
      let (b1, e1, is1) = clear_bit-IsUpdated b i (ground arith) in
      let same = is1.same_length in
      rw (e1) (for_bits_overrun left (i + 1) b1 (rw same (ground arith)) (rw same (ground arith)))
]

-- With more RAM than the bitmap has bits for, 128 MiB, `init_memory` runs off the end of the
-- bitmap, wherever the kernel lies.
pub init_memory_overrun :
    (total_ram_bytes kernel_start kernel_end : ℕ) (b : Bitmap)
    → length b ≡ bitmap_size
    → bitmap_size * 8 < total_ram_bytes / 4096
    → init_memory total_ram_bytes kernel_start kernel_end b ≡ none
unfolding init_memory
init_memory_overrun total_ram_bytes kernel_start kernel_end b h over =
    let (b1, e1, is1) =
      for_bits-IsRange set_bit true set_bit-IsUpdated (bitmap_size * 8) 0 (bitmap_size * 8) b
        (omega arith) (omega arith) in
    let same1 : length b1 ≡ bitmap_size = is1.same_length ∙ h in
    rw (e1, ◌>>=◌, for_bits_overrun (total_ram_bytes / 4096) 0 b1 (omega arith) (omega arith))

-- The frame at `address` is RAM above 1 MiB that shares no byte with the kernel.
pub record IsSafe (total_ram_bytes kernel_start kernel_end address : ℕ) : Type 0 where
  pub aligned : address % 4096 ≡ 0
  pub above : 2 ^ 20 ≤ address
  pub in_ram : address + 4096 ≤ total_ram_bytes
  pub off_kernel : (address + 4096 ≤ kernel_start) ⊎ (kernel_end ≤ address)

IsSafe-frame :
    {total_ram_bytes kernel_start kernel_end : ℕ} {b b' : Bitmap} {r : Option (ℕ × Bitmap)}
    (address : ℕ)
    → IsInit total_ram_bytes kernel_start kernel_end b
    → address ≢ 0
    → r ≡ some (address, b')
    → Allocated b 0 (bitmap_size * 8) r
    → IsSafe total_ram_bytes kernel_start kernel_end address
IsSafe-frame address is ne e (full all e') = absurd (ne (cc))
IsSafe-frame {total_ram_bytes} {kernel_start} {kernel_end} address is ne e
      (lowest f b1 lo hi free below new e') =
    let at : address ≡ f * 4096 = cc in
    let frame = is.frames f hi in
    let open_frame : left_free total_ram_bytes kernel_start kernel_end f ≡ true = ground arith in
    record {
      aligned = omega arith;
      above = ground arith;
      in_ram = ground arith;
      off_kernel = ground arith;
    }

-- With at most 128 MiB of RAM, and a kernel that does not end before it starts and ends inside
-- the bitmap's frames, the first frame that `allocate_frame` hands out after `init_memory`, if it
-- hands one out, is page-aligned RAM above 1 MiB that shares no byte with the kernel image.
pub allocate_frame-init_memory :
    (total_ram_bytes kernel_start kernel_end : ℕ) (b b' b'' : Bitmap) (address : ℕ)
    → length b ≡ bitmap_size
    → total_ram_bytes / 4096 ≤ bitmap_size * 8
    → kernel_start ≤ kernel_end
    → (kernel_end + 4095) / 4096 < bitmap_size * 8
    → init_memory total_ram_bytes kernel_start kernel_end b ≡ some b'
    → allocate_frame b' ≡ some (address, b'')
    → address ≢ 0
    → IsSafe total_ram_bytes kernel_start kernel_end address
allocate_frame-init_memory total_ram_bytes kernel_start kernel_end b b' b'' address h ram order
      kernel e a ne =
    let (c, ec, is) =
      init_memory-IsInit total_ram_bytes kernel_start kernel_end b h ram order kernel in
    let same : c ≡ b' = cc in
    let is' = subst (IsInit total_ram_bytes kernel_start kernel_end) same is in
    IsSafe-frame address is' ne a (allocate_frame-Allocated b' is'.same_length)
