-- ===== src/Fs.antt =====
-- src/kernel/fs.h: the nodes of the virtual file system. A function pointer is `none` for NULL
-- and otherwise the label of the function that it points to. The kernel stores no function of its
-- own behind `write`, `open` and `close`, so those have no label.
pub mod Dispatch
use seli_os.Prelude.{ℕ, Option, List}

pub data ReadFn : Type 0 where
  initrd_read : ReadFn

pub data ReaddirFn : Type 0 where
  initrd_readdir : ReaddirFn

pub data FinddirFn : Type 0 where
  initrd_finddir : FinddirFn

pub record FsNode : Type 0 where
  pub name : List ℕ
  pub flags : ℕ
  pub len : ℕ
  pub inode : ℕ
  pub read : Option ReadFn
  pub write : Option ⊥
  pub open_fn : Option ⊥
  pub close : Option ⊥
  pub readdir : Option ReaddirFn
  pub finddir : Option FinddirFn

pub record Dirent : Type 0 where
  pub name : List ℕ
  pub inode : ℕ
