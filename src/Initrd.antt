-- ===== src/Initrd.antt =====
-- src/kernel/initrd.c and src/kernel/initrd.h: the RAM disk. The blob is the region of memory that
-- the boot loader filled, from its base address on; a read outside it is the fault `none`.
pub mod Read
pub mod Find
pub mod Mount
pub mod Image
mod Tests
use seli_os.CString.{strncpy, strcmp, strcpy, memcpy}
use seli_os.Fs.{FsNode, Dirent, initrd_read, initrd_readdir, initrd_finddir}
use seli_os.Prelude.{
  ℕ, zero, suc, ◌+◌, ◌-◌, ◌*◌, ◌%◌, ◌^◌, Bool, Option, none, some, List, [], ◌∷◌, ◌++◌, get_elem?,
  set?, drop, ltb, leb, if◌then◌else◌, ◌>>=◌, ◌>>◌,
}
use seli_os.Prelude.Int.{ℤ, pos, negsuc}

pub record Region : Type 0 where
  pub base : ℕ
  pub bytes : List ℕ

abbrev pub byte_at : Region → ℕ → Option ℕ
byte_at r address = if leb r.base address then get_elem? r.bytes (address - r.base) else none

-- What a `char *` to `address` can read.
abbrev pub bytes_from : Region → ℕ → List ℕ
bytes_from r address = if leb r.base address then drop (address - r.base) r.bytes else []

-- An `unsigned int`, least significant byte first.
pub load32 : Region → ℕ → Option ℕ
load32 r address = do
  b0 ← byte_at r address
  b1 ← byte_at r (address + 1)
  b2 ← byte_at r (address + 2)
  b3 ← byte_at r (address + 3)
  some (b0 + 2 ^ 8 * b1 + 2 ^ 16 * b2 + 2 ^ 24 * b3)

-- `main_header_t` takes 4 bytes and `file_header_t` 140: magic_number at 0, file_length at 4,
-- starting_offset at 8, file_name at 12.
abbrev pub header_address : ℕ → ℕ → ℕ
header_address location i = (location + 4 + 140 * i) % 2 ^ 32

-- The globals of initrd.c.
pub record Disk : Type 0 where
  pub blob : Region
  pub blob_start : ℕ
  pub root : FsNode
  pub file_nodes : List FsNode
  pub num_files : ℕ
  pub dirent : Dirent

-- The name of a node, in the 128 bytes that `malloc` returned.
pub node_name : List ℕ → List ℕ → Option (List ℕ)
node_name storage source = do name ← strncpy storage source 127; set? name 127 0

pub root_node : List ℕ → Option FsNode
unfolding node_name
root_node storage = do
  name ← node_name storage (b'i' ∷ b'n' ∷ b'i' ∷ b't' ∷ b'r' ∷ b'd' ∷ 0 ∷ [])
  some (record {
    name = name;
    flags = 2;
    len = 0;
    inode = 0;
    read = none;
    write = none;
    open_fn = none;
    close = none;
    readdir = some initrd_readdir;
    finddir = some initrd_finddir;
  })

pub file_node : Region → ℕ → ℕ → List ℕ → Option FsNode
unfolding node_name load32
file_node blob location i storage = do
  name ← node_name storage (bytes_from blob (header_address location i + 12))
  file_length ← load32 blob (header_address location i + 4)
  some (record {
    name = name;
    flags = 1;
    len = file_length;
    inode = i;
    read = some initrd_read;
    write = none;
    open_fn = none;
    close = none;
    readdir = none;
    finddir = none;
  })

-- The loop of `initialize_initrd` at file `i`, with `left` files to go; `storage` is what is left
-- of the array that `malloc` returned.
pub populate : Region → ℕ → ℕ → ℕ → List (List ℕ) → Option (List FsNode)
populate blob location zero i storage = some []
populate blob location (suc left) i [] = none
populate blob location (suc left) i (cell ∷ storage) = do
  node ← file_node blob location i cell
  rest ← populate blob location left (i + 1) storage
  some (node ∷ rest)

-- What the two calls of `malloc` return is a parameter: `none` is NULL, which the code writes
-- through, and otherwise the 128 name bytes of each fresh node.
pub initialize_initrd :
    Region → ℕ → Dirent → Option (List ℕ) → (ℕ → Option (List (List ℕ))) → Option Disk
unfolding root_node populate load32
initialize_initrd blob location old malloc_root malloc_files = do
  num_of_files ← load32 blob location
  root_storage ← malloc_root
  root ← root_node root_storage
  storage ← malloc_files num_of_files
  file_nodes ← populate blob location num_of_files 0 storage
  some (record {
    blob = blob;
    blob_start = location;
    root = root;
    file_nodes = file_nodes;
    num_files = num_of_files;
    dirent = old;
  })

-- The cut of `size` to the end of the file; the sum is an `unsigned int` and wraps.
pub read_size : ℕ → ℕ → ℕ → ℕ
read_size offset size file_length =
    if ltb file_length ((offset + size) % 2 ^ 32) then file_length - offset else size

-- The result with the buffer that the call leaves.
pub read : Disk → FsNode → ℕ → ℕ → List ℕ → Option (ℕ × List ℕ)
unfolding load32 read_size
read d node offset size buffer = do
  file_length ← load32 d.blob (header_address d.blob_start node.inode + 4)
  starting_offset ← load32 d.blob (header_address d.blob_start node.inode + 8)
  let start = (d.blob_start + starting_offset) % 2 ^ 32
  let count = read_size offset size file_length
  if ltb file_length offset then some (0, buffer) else do
    buffer' ← memcpy buffer (λ i. byte_at d.blob ((start + offset) % 2 ^ 32 + i)) count
    some (count, buffer')

-- The static `dirent`, if it is returned, and the globals after the call.
pub readdir : Disk → ℕ → Option (Option Dirent × Disk)
readdir d index = if leb d.num_files index then some (none, d) else do
  target ← get_elem? d.file_nodes index
  name ← strcpy d.dirent.name target.name
  let entry : Dirent = record { name = name; inode = target.inode }
  some (some entry, record d { dirent = entry })

abbrev pub is_zero_ℤ : ℤ → Bool
is_zero_ℤ (pos n) = leb n 0
is_zero_ℤ (negsuc n) = leb 1 0

-- The loop of `initrd_finddir` at file `i`, with `left` files to go: the index of the node that
-- the returned pointer points to.
pub finddir_loop : Disk → List ℕ → ℕ → ℕ → Option (Option ℕ)
finddir_loop d name zero i = some none
finddir_loop d name (suc left) i =
    let next = finddir_loop d name left (i + 1) in
    do
      node ← get_elem? d.file_nodes i
      r ← strcmp name node.name
      if is_zero_ℤ r then some (some i) else next

pub finddir : Disk → List ℕ → Option (Option ℕ)
unfolding finddir_loop
finddir d name = finddir_loop d name d.num_files 0
