-- ===== src/Terminal/Tests.antt =====
-- The shell at concrete keys and lines.
use seli_os.Fs.{FsNode}
use seli_os.Initrd.{Disk}
use seli_os.Screen.{Screen}
use seli_os.Terminal.{Terminal, handle_scan, run_command}
use seli_os.Terminal.Line.{IsEditing, edit, handle_scan-edit}
use seli_os.Terminal.Enter.{IsReady}
use seli_os.Terminal.Keys.{handle_scan-IsReady}
use seli_os.Terminal.Ready.{Keeps, run_command-Keeps}
use seli_os.Terminal.Samples
use seli_os.Prelude.{
  ℕ, ◌≡◌, refl, Bool, true, false, none, some, List, [], ◌∷◌, arith, replicate, length-replicate,
}
use seli_os.Prelude.Strings.{letters}

abbrev no_name : List ℕ
no_name = replicate 128 0

abbrev screen : Screen
screen = record {
  fb = λ i. 0;
  cursor_pos = 20;
  active_fg = 15;
  active_bg = 1;
  sent = [];
  serial_status = [];
}

abbrev root : FsNode
root = record {
  name = no_name;
  flags = 2;
  len = 0;
  inode = 0;
  read = none;
  write = none;
  open_fn = none;
  close = none;
  readdir = none;
  finddir = none;
}

abbrev disk : Disk
disk = record {
  blob = record { base = 0; bytes = [] };
  blob_start = 0;
  root = root;
  file_nodes = [];
  num_files = 0;
  dirent = record { name = no_name; inode = 0 };
}

-- A shell with "ls" typed.
abbrev shell : Bool → Terminal
shell running = record {
  shell_active = true;
  enter_pressed = true;
  matrix_active = running;
  input_buffer = b'l' ∷ b's' ∷ replicate 254 0;
  buffer_len = 2;
  screen = screen;
  fs_root = some root;
  disk = disk;
  total_ram_bytes = 0;
  kernel_size = 0;
}

shell-IsEditing : IsEditing (shell false) (b'l' ∷ b's' ∷ [])
shell-IsEditing = record {
  shell = refl;
  rest = replicate 254 0;
  buffer = refl;
  size = omega (arith, length-replicate {A = ℕ} 254 0);
  count = refl;
  room = omega arith;
  no_zero = ((λ e. ground arith), ((λ e. ground arith), tt));
}

handle_scan-edit_example :
    (t : Terminal) × (handle_scan [] 0x0E (shell false) ≡ some t)
    × IsEditing t (edit 0x0E (b'l' ∷ b's' ∷ []))
handle_scan-edit_example =
    handle_scan-edit [] 0x0E (shell false) (b'l' ∷ b's' ∷ []) shell-IsEditing refl (omega arith)
      (λ e. ground arith)

abbrev help_line : List ℕ
help_line = b'h' ∷ b'e' ∷ b'l' ∷ b'p' ∷ 0 ∷ 9 ∷ []

abbrev cat_line : List ℕ
cat_line = b'c' ∷ b'a' ∷ b't' ∷ b' ' ∷ b'a' ∷ 0 ∷ []

abbrev local : List ℕ
local = replicate 256 0

run_command-Keeps_example :
    (t : Terminal) × (run_command local cat_line (Samples.shell true) ≡ some t)
    × Keeps (Samples.shell true) t
run_command-Keeps_example =
    run_command-Keeps local cat_line (letters "cat a") (Samples.shell true)
      (length-replicate {A = ℕ} 256 0) Samples.disk-IsMounted refl

handle_scan-IsReady_example :
    (t : Terminal) × (handle_scan local 0x1C (Samples.shell true) ≡ some t) × IsReady t
handle_scan-IsReady_example =
    handle_scan-IsReady local 0x1C (Samples.shell true) (length-replicate {A = ℕ} 256 0)
      (omega arith) (Samples.shell-IsReady true)
