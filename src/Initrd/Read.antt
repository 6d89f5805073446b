-- ===== src/Initrd/Read.antt =====
-- `initrd_read`: what it copies, and what its length check lets through.
use seli_os.CString.{memcpy}
use seli_os.CString.Copy.{memcpy-bytes}
use seli_os.Fs.{FsNode}
use seli_os.Initrd.{Disk, byte_at, load32, header_address, read_size, read}
use seli_os.Prelude.{
  ℕ, ◌+◌, ◌-◌, ◌%◌, ◌^◌, ◌≤◌, ◌<◌, min, ◌≡◌, refl, ap, ◌∙◌, true, false, some, List, arith, length,
  get_or, get_or_ext, get_or_past, sym, ap₂, ltb, if◌then◌else◌, ◌>>=◌, Bool-cases, inl, inr,
}

-- The header of file `i` describes `content`, which lies whole in the blob.
pub record FileAt (d : Disk) (i : ℕ) (content : List ℕ) : Type 0 where
  pub offset : ℕ
  pub length_field : load32 d.blob (header_address d.blob_start i + 4) ≡ some (length content)
  pub offset_field : load32 d.blob (header_address d.blob_start i + 8) ≡ some offset
  pub fits : d.blob_start + offset + length content < 2 ^ 32
  pub bytes :
      (j : ℕ)
      → j < length content
      → byte_at d.blob (d.blob_start + offset + j) ≡ some (get_or content j 0)

read_size-min :
    (offset size n : ℕ)
    → offset ≤ n
    → offset + size < 2 ^ 32
    → read_size offset size n ≡ min size (n - offset)
unfolding read_size
read_size-min offset size n h small = ground arith

-- When `offset + size` passes 2^32 the sum wraps below the file's length, and the size to copy is
-- not cut to the end of the file: it stays the whole `size`, which is more than the file has from
-- `offset` on.
pub read_size_wraps :
    (offset size n : ℕ)
    → offset ≤ n
    → size < 2 ^ 32
    → 2 ^ 32 ≤ offset + size
    → n < 2 ^ 32
    → (read_size offset size n ≡ size) × (n - offset < size)
unfolding read_size
read_size_wraps offset size n inside word wraps fits = ground arith

read_past :
    {d : Disk} {content : List ℕ} (node : FsNode) (offset size : ℕ) (buffer : List ℕ)
    → FileAt d node.inode content
    → length content < offset
    → read d node offset size buffer ≡ some (0, buffer)
unfolding read
read_past {content} node offset size buffer at past =
    let e1 = at.length_field in
    let e2 = at.offset_field in
    let e3 : ltb (length content) offset ≡ true = ground arith in rw (e1, ◌>>=◌, e2, ◌>>=◌, e3) refl

-- Where the offset lies in the file, the code copies `read_size` bytes.
read_inside :
    {d : Disk} {content : List ℕ} (node : FsNode) (offset size : ℕ) (buffer : List ℕ)
    (at : FileAt d node.inode content)
    → offset ≤ length content
    → read d node offset size buffer ≡ (
        memcpy buffer
          (λ i. byte_at d.blob (d.blob_start + at.offset + offset + i))
          (read_size offset size (length content))
        >>= λ out. some (read_size offset size (length content), out))
unfolding read
read_inside {d} {content} node offset size buffer at inside =
    let e1 = at.length_field in
    let e2 = at.offset_field in
    let no_wrap = at.fits in
    let e3 : ltb (length content) offset ≡ false = ground arith in
    let e4 : ((d.blob_start + at.offset) % 2 ^ 32 + offset) % 2 ^ 32
        ≡ d.blob_start + at.offset + offset =
      omega arith in
    rw (e1, ◌>>=◌, e2, ◌>>=◌, e3, e4) refl

module _ {d : Disk} {content : List ℕ} (node : FsNode) (offset size : ℕ) (buffer : List ℕ)
    (at : FileAt d node.inode content) where
  -- With room for `size` bytes, and `offset + size` below 2^32, `initrd_read` copies the bytes of
  -- the file from `offset` on, as many as there are up to `size`, leaves the rest of the buffer
  -- and its size, and returns the number of bytes; past the end of the file that number is 0.
  pub read_lem :
      offset + size < 2 ^ 32
      → size ≤ length buffer
      → (out : List ℕ) × (read d node offset size buffer
          ≡ some (min size (length content - offset), out))
        × (length out ≡ length buffer)
        × ((j : ℕ)
            → get_or out j 0 ≡ (
                if ltb j (min size (length content - offset))
                then get_or content (offset + j) 0
                else get_or buffer j 0))
  read_lem small room = elim (Bool-cases (ltb (length content) offset)) [
    | inl past ↦
        let none_left : min size (length content - offset) ≡ 0 = ground arith in
        (
          buffer,
          rw none_left (read_past node offset size buffer at (ground arith)),
          refl,
          λ j. rw none_left (ground arith),
        )
    | inr inside ↦
        let within : offset ≤ length content = ground arith in
        let count = read_size-min offset size (length content) within small in
        let bytes = at.bytes in
        let (out, run, same, copied) =
          memcpy-bytes buffer (λ i. byte_at d.blob (d.blob_start + at.offset + offset + i))
            (λ i. get_or content (offset + i) 0) (min size (length content - offset))
            (λ j h.
              ap (byte_at d.blob) {x = d.blob_start + at.offset + offset + j}
                {y = d.blob_start + at.offset + (offset + j)} (omega arith)
              ∙ bytes (offset + j) (omega arith))
            (omega arith) in
        (
          out,
          read_inside node offset size buffer at within
              ∙ ap
                  (λ c.
                    memcpy buffer (λ i. byte_at d.blob (d.blob_start + at.offset + offset + i)) c
                    >>= λ b. some (c, b))
                  count
              ∙ ap (λ o. o >>= λ b. some (min size (length content - offset), b)) run,
          same,
          copied,
        )
  ]

filled :
    (content buffer : List ℕ) (n j : ℕ)
    → n ≡ length content
    → length buffer ≡ length content
    → (if ltb j n then get_or content (0 + j) 0 else get_or buffer j 0) ≡ get_or content j 0
filled content buffer n j e same = elim (Bool-cases (ltb j n)) [
  | inl inside ↦ rw inside (ap (λ k. get_or content k 0) {x = 0 + j} {y = j} (omega arith))
  | inr past ↦
      let beyond : n ≤ j = ground arith in
      rw past (get_or_past buffer j 0 (omega arith) ∙ sym (get_or_past content j 0 (omega arith)))
]

-- A buffer of the file's size is filled with the file.
pub read_whole :
    {d : Disk} {content : List ℕ} (node : FsNode) (buffer : List ℕ)
    → FileAt d node.inode content
    → length buffer ≡ length content
    → read d node 0 (length content) buffer ≡ some (length content, content)
read_whole {d} {content} node buffer at same =
    let fits = at.fits in
    let (out, run, long, bytes) =
      read_lem node 0 (length content) buffer at (omega arith) (omega arith) in
    let count : min (length content) (length content - 0) ≡ length content = omega arith in
    let whole : out ≡ content =
      get_or_ext 0 out content (long ∙ same)
        (λ j. bytes j ∙ filled content buffer _ j count same) in
    run ∙ ap₂ (λ n b. some (n, b)) count whole
