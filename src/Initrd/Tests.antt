-- ===== src/Initrd/Tests.antt =====
-- A RAM disk with one file, "a", that holds "Hi".
use seli_os.CString.Text.{text, Readable}
use seli_os.Fs.{FsNode, Dirent, initrd_read}
use seli_os.Initrd.{
  Region, Disk, byte_at, bytes_from, load32, header_address, read, finddir, initialize_initrd,
  read_size,
}
use seli_os.Initrd.Find.{IsNamed, Found, finddir-Found}
use seli_os.Initrd.Image.{FileHeader, Files, main}
use seli_os.Initrd.Image.RoundTrip.{Serves, main-Serves}
use seli_os.Initrd.Mount.{IsHeaders, IsFileNode, initialize_initrd-IsFileNode}
use seli_os.Initrd.Read.{FileAt, read_lem, read_size_wraps}
use seli_os.Prelude.{
  ℕ, zero, suc, ◌+◌, ◌-◌, ◌<◌, min, ◌≡◌, refl, true, none, some, List, [], ◌∷◌, ◌++◌, arith, length,
  replicate, get_or, get_elem?, ltb, if◌then◌else◌, ◌==◌,
}
use seli_os.Prelude.Strings.{letters}

abbrev hi : List ℕ
hi = b'H' ∷ b'i' ∷ []

abbrev blob : Region
blob = record {
  base = 0x1000;
  bytes =
      1
      ∷ 0
      ∷ 0
      ∷ 0
      ∷ 0xBF
      ∷ 0
      ∷ 0
      ∷ 0
      ∷ 2
      ∷ 0
      ∷ 0
      ∷ 0
      ∷ 144
      ∷ 0
      ∷ 0
      ∷ 0
      ∷ b'a'
      ∷ 0
      ∷ (replicate 126 0 ++ hi);
}

abbrev node : FsNode
node = record {
  name = b'a' ∷ 0 ∷ [];
  flags = 1;
  len = 2;
  inode = 0;
  read = some initrd_read;
  write = none;
  open_fn = none;
  close = none;
  readdir = none;
  finddir = none;
}

abbrev no_entry : Dirent
no_entry = record { name = replicate 128 0; inode = 0 }

abbrev disk : Disk
disk = record {
  blob = blob;
  blob_start = 0x1000;
  root = node;
  file_nodes = node ∷ [];
  num_files = 1;
  dirent = no_entry;
}

hi_bytes : (j : ℕ) → j < 2 → byte_at blob (0x1000 + 144 + j) ≡ some (get_or hi j 0)
hi_bytes zero h = refl
hi_bytes (suc zero) h = refl
hi_bytes (suc (suc j)) h = absurd (omega arith)

disk-FileAt : FileAt disk 0 hi
unfolding load32
disk-FileAt = record {
  offset = 144;
  length_field = refl;
  offset_field = refl;
  fits = omega arith;
  bytes = hi_bytes;
}

abbrev buffer : List ℕ
buffer = 7 ∷ 7 ∷ 7 ∷ []

read_lem_example :
    (out : List ℕ) × (read disk node 1 3 buffer ≡ some (min 3 (length hi - 1), out))
    × (length out ≡ length buffer)
    × ((j : ℕ)
        → get_or out j 0
          ≡ (if ltb j (min 3 (length hi - 1)) then get_or hi (1 + j) 0 else get_or buffer j 0))
read_lem_example = read_lem node 1 3 buffer disk-FileAt (omega arith) (omega arith)

read_size_wraps_example : (read_size 1 0xFFFFFFFF 2 ≡ 0xFFFFFFFF) × (2 - 1 < 0xFFFFFFFF)
read_size_wraps_example =
    read_size_wraps 1 0xFFFFFFFF 2 (omega arith) (omega arith) (omega arith) (omega arith)

abbrev names : ℕ → List ℕ
names j = b'a' ∷ []

disk-IsNamed : IsNamed disk names
disk-IsNamed = record { entry = entry }
  where
    entry :
        (j : ℕ)
        → j < 1
        → (n : FsNode) × (get_elem? disk.file_nodes j ≡ some n) × (text n.name ≡ some (names j))
    entry zero h = (node, refl, refl)
    entry (suc j) h = absurd (omega arith)

finddir-Found_example : Found names (b'b' ∷ []) 0 1 (finddir disk (b'b' ∷ 0 ∷ []))
finddir-Found_example = finddir-Found disk-IsNamed (b'b' ∷ 0 ∷ []) (b'b' ∷ []) refl

abbrev lens : ℕ → ℕ
lens i = 2

blob-IsHeaders : IsHeaders blob 0x1000 1 lens
unfolding load32
blob-IsHeaders = record { lengths = lengths; names = header_names }
  where
    lengths : (i : ℕ) → i < 1 → load32 blob (header_address 0x1000 i + 4) ≡ some (lens i)
    lengths zero h = refl
    lengths (suc i) h = absurd (omega arith)

    header_names : (i : ℕ) → i < 1 → Readable 127 (bytes_from blob (header_address 0x1000 i + 12))
    header_names zero h = tt
    header_names (suc i) h = absurd (omega arith)

abbrev cell : List ℕ
cell = replicate 128 9

initialize_initrd-IsFileNode_example :
    (d : Disk) × (initialize_initrd blob 0x1000 no_entry (some cell) (λ n. some (cell ∷ []))
      ≡ some d)
    × (d.num_files ≡ 1)
    × ((d.blob ≡ blob) × (d.blob_start ≡ 0x1000) × (d.dirent ≡ no_entry))
    × ((i : ℕ)
        → i < 1
        → (n : FsNode) × (get_elem? d.file_nodes i ≡ some n) × IsFileNode blob 0x1000 i (lens i) n)
unfolding load32
initialize_initrd-IsFileNode_example =
    initialize_initrd-IsFileNode blob-IsHeaders no_entry cell (λ n. some (cell ∷ [])) (cell ∷ [])
      refl refl refl refl (refl, tt)

abbrev header : FileHeader
header = record { magic_number = 77; file_length = 0; starting_offset = 0; file_name = cell }

-- rootfs/hello.txt holds "Hi", and rootfs/test.txt cannot be opened.
abbrev rootfs : Files
rootfs path = if length path == 17 then some hi else none

main-Serves_example :
    (bytes : List ℕ) × (main rootfs true header header ≡ some bytes)
    × (d : Disk) × (initialize_initrd
          (record { base = 0x1000; bytes = bytes })
          0x1000
          no_entry
          (some cell)
          (λ n. some (cell ∷ cell ∷ []))
        ≡ some d)
    × Serves d 0 (letters "hello.txt") hi (8 ∷ 9 ∷ [])
    × Serves d 1 (letters "test.txt") [] []
main-Serves_example =
    main-Serves rootfs header header 0x1000 no_entry cell (λ n. some (cell ∷ cell ∷ []))
      (cell ∷ cell ∷ []) (8 ∷ 9 ∷ []) [] refl refl (omega arith) refl refl refl (refl, (refl, tt))
      refl refl
