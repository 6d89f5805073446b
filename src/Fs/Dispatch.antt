-- ===== src/Fs/Dispatch.antt =====
-- src/kernel/fs.c: the calls through the function pointers of a node. The functions that the labels
-- stand for are those of the RAM disk.
pub mod Mounted
use seli_os.Fs.{FsNode, Dirent, initrd_read, initrd_readdir, initrd_finddir}
use seli_os.Initrd.{Disk, read, readdir, finddir}
use seli_os.Prelude.{ℕ, Option, none, some, List}

-- The result with the buffer after the call.
pub read_fs : Disk → FsNode → ℕ → ℕ → List ℕ → Option (ℕ × List ℕ)
read_fs d node offset size buffer = elim node.read [
  | some initrd_read ↦ read d node offset size buffer
  | none ↦ some (0, buffer)
]

pub write_fs : FsNode → ℕ → ℕ → List ℕ → ℕ
write_fs node offset size buffer = elim node.write [ some f ↦ absurd f | none ↦ 0 ]

pub open_fs : FsNode → Disk → Disk
open_fs node d = elim node.open_fn [ some f ↦ absurd f | none ↦ d ]

pub close_fs : FsNode → Disk → Disk
close_fs node d = elim node.close [ some f ↦ absurd f | none ↦ d ]

-- The entry, if one is returned, with the globals after the call.
pub readdir_fs : Disk → FsNode → ℕ → Option (Option Dirent × Disk)
readdir_fs d node index = elim node.readdir [
  | some initrd_readdir ↦ readdir d index
  | none ↦ some (none, d)
]

-- The index of the file node that is returned, if one is.
pub finddir_fs : Disk → FsNode → List ℕ → Option (Option ℕ)
finddir_fs d node name = elim node.finddir [
  | some initrd_finddir ↦ finddir d name
  | none ↦ some none
]
