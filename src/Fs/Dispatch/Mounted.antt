-- ===== src/Fs/Dispatch/Mounted.antt =====
-- A mounted RAM disk, on which no access through the file system faults.
use seli_os.CString.Text.{text}
use seli_os.Fs.{FsNode, Dirent, initrd_read, initrd_readdir, initrd_finddir}
use seli_os.Fs.Dispatch.{read_fs, readdir_fs, finddir_fs}
use seli_os.Initrd.{Disk, read}
use seli_os.Initrd.Find.{IsNamed, missing, first, finddir-Found, readdir_lem, readdir_end}
use seli_os.Initrd.Read.{FileAt, read_lem}
use seli_os.Prelude.{
  ℕ, ◌-◌, ◌≤◌, ◌<◌, ◌^◌, ◌≡◌, ◌⊎◌, refl, ◌∙◌, inl, inr, min, none, some, List, arith, length,
  get_elem?, leb, Bool-cases, Option-cases,
}

-- Every node has a terminated name that fits the directory entry, and a header for its content.
pub record IsMounted (d : Disk) : Type 0 where
  pub names : ℕ → List ℕ
  pub named : IsNamed d names
  pub short : (j : ℕ) → j < d.num_files → length (names j) < 128
  pub entry : length d.dirent.name ≡ 128
  pub content :
      (j : ℕ) (node : FsNode)
      → j < d.num_files
      → get_elem? d.file_nodes j ≡ some node
      → (content : List ℕ) × FileAt d node.inode content

-- What `readdir_fs` may leave: the disk with another directory entry, and an entry to print.
pub IsMounted-dirent :
    (d : Disk) (e : Dirent)
    → IsMounted d
    → length e.name ≡ 128
    → IsMounted (record d { dirent = e })
IsMounted-dirent d e m size = record {
  names = m.names;
  named = record { entry = λ j lt. m.named.entry j lt };
  short = m.short;
  entry = size;
  content = λ j node lt at.
      let (c, file) = m.content j node lt at in
      (
        c,
        record {
          offset = file.offset;
          length_field = file.length_field;
          offset_field = file.offset_field;
          fits = file.fits;
          bytes = file.bytes;
        },
      );
}

-- `readdir_fs` on a mounted disk answers, and answers NULL from the number of files on.
pub readdir_fs-IsMounted :
    (d : Disk) (root : FsNode) (index : ℕ)
    → IsMounted d
    → (readdir_fs d root index ≡ some (none, d))
      ⊎ ((entry : Dirent) × (s : List ℕ) × (text entry.name ≡ some s)
          × (index < d.num_files)
          × (readdir_fs d root index ≡ some (some entry, record d { dirent = entry }))
          × IsMounted (record d { dirent = entry }))
unfolding readdir_fs
readdir_fs-IsMounted d root index m = elim (Option-cases root.readdir) [
  | inl absent ↦ inl (rw absent)
  | inr (initrd_readdir, there) ↦ elim (Bool-cases (leb d.num_files index)) [
    | inl past ↦ inl (rw there (readdir_end d index (ground arith)))
    | inr inside ↦
        let size = m.entry in
        let fits = m.short index (ground arith) in
        let (entry, run, named, kept, node, at, number) =
          readdir_lem m.named index (ground arith) (omega arith) in
        inr (
          entry,
          m.names index,
          named,
          ground arith,
          rw there run,
          IsMounted-dirent d entry m (kept ∙ size),
        )
  ]
]

-- `finddir_fs` on a mounted disk answers, with a file of the disk if with any.
pub finddir_fs-IsMounted :
    (d : Disk) (root : FsNode) (name s : List ℕ)
    → IsMounted d
    → text name ≡ some s
    → (finddir_fs d root name ≡ some none)
      ⊎ ((j : ℕ) × (node : FsNode) × (j < d.num_files)
          × (finddir_fs d root name ≡ some (some j))
          × (get_elem? d.file_nodes j ≡ some node))
unfolding finddir_fs
finddir_fs-IsMounted d root name s m t = elim (Option-cases root.finddir) [
  | inl absent ↦ inl (rw absent)
  | inr (initrd_finddir, there) ↦ elim (finddir-Found m.named name s t) [
    | missing none_of e ↦ inl (rw there e)
    | first f lo hi is before e ↦
        let (node, at, named) = m.named.entry f hi in inr (f, node, hi, rw there e, at)
  ]
]

read_fs-read :
    (d : Disk) (node : FsNode) (offset size : ℕ) (buffer : List ℕ)
    → node.read ≡ some initrd_read
    → read_fs d node offset size buffer ≡ read d node offset size buffer
unfolding read_fs
read_fs-read d node offset size buffer there = ground arith

-- `read_fs` from the start of a file of a mounted disk fills no more than it is asked for.
pub read_fs-IsMounted :
    (d : Disk) (j : ℕ) (node : FsNode) (size : ℕ) (buffer : List ℕ)
    → IsMounted d
    → j < d.num_files
    → get_elem? d.file_nodes j ≡ some node
    → size < 2 ^ 32
    → size ≤ length buffer
    → (n : ℕ) × (out : List ℕ) × (read_fs d node 0 size buffer ≡ some (n, out))
      × (n ≤ size)
      × (length out ≡ length buffer)
unfolding read_fs
read_fs-IsMounted d j node size buffer m lt at word room = elim (Option-cases node.read) [
  | inl absent ↦ (0, buffer, rw absent, omega arith, refl)
  | inr (initrd_read, there) ↦
      let (content, file) = m.content j node lt at in
      let (out, run, same, bytes) = read_lem node 0 size buffer file (omega arith) room in
      (
        min size (length content - 0),
        out,
        read_fs-read d node 0 size buffer there ∙ run,
        omega arith,
        same,
      )
]
