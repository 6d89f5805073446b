-- ===== src/Terminal/Samples.antt =====
-- A closed or open shell with an empty line and a disk without files, for tests.
use seli_os.Fs.{FsNode}
use seli_os.Fs.Dispatch.Mounted.{IsMounted}
use seli_os.Initrd.{Disk}
use seli_os.Screen.{Screen}
use seli_os.Terminal.{Terminal}
use seli_os.Terminal.Enter.{IsReady}
use seli_os.Prelude.{ℕ, refl, Bool, false, none, some, List, [], replicate, length-replicate, arith}

abbrev pub no_name : List ℕ
no_name = replicate 128 0

abbrev pub root : FsNode
root = record {
  name = no_name;
  flags = 2;
  len = 0;
  inode = 0;
  read = none;
  write = none;
  open_fn = none;
  close = none;
  readdir = none;
  finddir = none;
}

abbrev pub disk : Disk
disk = record {
  blob = record { base = 0; bytes = [] };
  blob_start = 0;
  root = root;
  file_nodes = [];
  num_files = 0;
  dirent = record { name = no_name; inode = 0 };
}

abbrev pub screen : Screen
screen = record {
  fb = λ i. 0;
  cursor_pos = 20;
  active_fg = 15;
  active_bg = 1;
  sent = [];
  serial_status = replicate 40 0x20;
}

-- A shell with an empty line.
abbrev pub shell : Bool → Terminal
shell active = record {
  shell_active = active;
  enter_pressed = active;
  matrix_active = false;
  input_buffer = replicate 256 0;
  buffer_len = 0;
  screen = screen;
  fs_root = some root;
  disk = disk;
  total_ram_bytes = 0;
  kernel_size = 0;
}

pub disk-IsMounted : IsMounted disk
disk-IsMounted = record {
  names = λ j. [];
  named = record { entry = λ j lt. absurd (omega arith) };
  short = λ j lt. absurd (omega arith);
  entry = length-replicate {A = ℕ} 128 0;
  content = λ j node lt at. absurd (omega arith);
}

pub shell-IsReady : (active : Bool) → IsReady (shell active)
shell-IsReady active = record {
  line = [];
  typed = record {
    shell = refl;
    rest = replicate 256 0;
    buffer = refl;
    size = length-replicate {A = ℕ} 256 0;
    count = refl;
    room = omega arith;
    no_zero = tt;
  };
  mounted = disk-IsMounted;
}
