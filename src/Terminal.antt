-- ===== src/Terminal.antt =====
-- src/kernel/terminal.c: the line editor and the commands of the shell.
pub mod Line
pub mod Commands
pub mod Ready
pub mod Enter
pub mod Keys
pub mod Open
pub mod Samples
mod Tests
use seli_os.CString.{strcmp}
use seli_os.Fs.{FsNode, Dirent}
use seli_os.Fs.Dispatch.{read_fs, readdir_fs, finddir_fs}
use seli_os.Initrd.{Disk, is_zero_ℤ}
use seli_os.Screen.{
  Screen, device_fb, putchar, printf, print_hex, clear_screen, fb_write_cell, fb_move_cursor,
  default_fg, default_bg,
}
use seli_os.Prelude.{
  ℕ, zero, suc, ◌+◌, ◌-◌, ◌*◌, ◌%◌, ◌^◌, bit_and, Bool, true, false, not, ◌&&◌, ◌||◌, Option, none,
  some, List, [], ◌∷◌, get_elem?, get_or, set?, drop, ltb, leb, ◌==◌, if◌then◌else◌, ◌>>=◌,
}
use seli_os.Prelude.Strings.{c_str}
use Prim.Native.String.{String}

-- The globals of terminal.c with those that it shares: the screen, the mounted root, the RAM disk,
-- and the numbers that `memory` prints. An `int` that is only ever 0 or 1 is a Bool.
pub record Terminal : Type 0 where
  pub shell_active : Bool
  pub enter_pressed : Bool
  pub matrix_active : Bool
  pub input_buffer : List ℕ
  pub buffer_len : ℕ
  pub screen : Screen
  pub fs_root : Option FsNode
  pub disk : Disk
  pub total_ram_bytes : ℕ
  pub kernel_size : ℕ

-- The 58 entries written out; the array's other entries, up to 128, are 0.
abbrev pub kbd_map : List ℕ
kbd_map =
    0 ∷ 27 ∷ b'1' ∷ b'2' ∷ b'3' ∷ b'4' ∷ b'5' ∷ b'6' ∷ b'7' ∷ b'8' ∷ b'9' ∷ b'0' ∷ b'-' ∷ b'=' ∷ 8
    ∷ 9 ∷ b'q' ∷ b'w' ∷ b'e' ∷ b'r' ∷ b't' ∷ b'y' ∷ b'u' ∷ b'i' ∷ b'o' ∷ b'p' ∷ b'[' ∷ b']' ∷ 10 ∷ 0
    ∷ b'a' ∷ b's' ∷ b'd' ∷ b'f' ∷ b'g' ∷ b'h' ∷ b'j' ∷ b'k' ∷ b'l' ∷ b';' ∷ 39 ∷ 96 ∷ 0 ∷ 92 ∷ b'z'
    ∷ b'x' ∷ b'c' ∷ b'v' ∷ b'b' ∷ b'n' ∷ b'm' ∷ b',' ∷ b'.' ∷ b'/' ∷ 0 ∷ b'*' ∷ 0 ∷ b' ' ∷ []

pub translate : ℕ → ℕ
translate scancode = get_or kbd_map scancode 0

pub print : List ℕ → Terminal → Option Terminal
print str t = do s ← printf device_fb str t.screen; some (record t { screen = s })

pub print_all : List String → Terminal → Option Terminal
print_all [] t = some t
print_all (str ∷ strs) t = print (c_str str) t >>= print_all strs

pub print_number : ℕ → Terminal → Option Terminal
print_number n t = do s ← print_hex n t.screen; some (record t { screen = s })

pub clear : Terminal → Terminal
clear t = record t { screen = clear_screen t.screen }

pub prompt : Terminal → Option Terminal
prompt t = print (c_str "selith@SeliOS / # ") t

pub empty_line : Terminal → Option Terminal
empty_line t = do
  buffer ← set? t.input_buffer 0 0
  some (record t { buffer_len = 0; input_buffer = buffer })

pub init_terminal : Terminal → Option Terminal
init_terminal t = do
  shown ←
      print_all
        ("\u{e}Welcome to the SeliOS Interactive Shell Environment\n"
          ∷ "\u{b}Type 'help' to see the list of architectural system options.\n\n\u{7}"
          ∷ "selith@SeliOS / # " ∷ [])
        (clear t)
  empty_line shown

pub help_command : Terminal → Option Terminal
help_command = print_all (
    "Available commands:\n" ∷ "  \u{b}help\u{7}        - Display this command dictionary.\n"
    ∷ "  \u{b}clear\u{7}       - Clear the VGA display buffer.\n"
    ∷ "  \u{b}whoami\u{7}      - Reveal current system privileges.\n"
    ∷ "  \u{b}selifetch\u{7}   - Output modern system architecture stats.\n"
    ∷ "  \u{b}memory\u{7}      - Display physical RAM and Kernel footprint.\n"
    ∷ "  \u{b}ls\u{7}          - Scan and list files in the virtual RAM disk.\n"
    ∷ "  \u{b}cat <file>\u{7}  - Read and dump a file's payload to screen.\n"
    ∷ "  \u{b}matrix\u{7}      - Launch the preemptive concurrency engine.\n" ∷ [])

pub whoami_command : Terminal → Option Terminal
whoami_command = print_all ("root (Ring 0 - Full Kernel Clearances)\n" ∷ [])

pub memory_command : Terminal → Option Terminal
memory_command t = do
  t1 ←
      print_all ("\u{b}=== System Memory Intelligence ===\u{7}\n" ∷ "Total RAM Available : " ∷ []) t
  t2 ← print_number t.total_ram_bytes t1
  t3 ← print_all (" Bytes\n" ∷ "Kernel Footprint    : " ∷ []) t2
  t4 ← print_number t.kernel_size t3
  print_all (" Bytes\n\n" ∷ []) t4

pub selifetch_command : Terminal → Option Terminal
selifetch_command = print_all (
    "\n   ____       _ _  ___  ____   \u{7} Host: Lenovo Legion Pro 5"
    ∷ "\n  / ___|  ___| (_)/ _ \\/ ___|  \u{7} OS:   SeliOS x86 Microkernel"
    ∷ "\n  \\___ \\ / _ \\ | | | | \\___ \\  \u{7} Architecture: i686-elf"
    ∷ "\n   ___) |  __/ | | |_| |___) | \u{7} Target Environment: Ring 0 Kernel"
    ∷ "\n  |____/ \\___|_|_|\\___/|____/  \u{7} UI Framework: Text Mode 80x25\n\n" ∷ [])

-- One line of `ls`.
pub print_entry : Dirent → Terminal → Option Terminal
print_entry node t = do
  t1 ← print (c_str "  \u{b}") t
  t2 ← print node.name t1
  print (c_str "\u{7}\n") t2

-- The loop of `ls` at index `i`; it has run out of fuel if the result is `none`.
pub list_files : ℕ → ℕ → FsNode → Terminal → Option Terminal
list_files zero i root t = none
list_files (suc fuel) i root t = do
  (entry, disk) ← readdir_fs t.disk root i
  elim entry [
    | none ↦ some (record t { disk = disk })
    | some node ↦ print_entry node (record t { disk = disk }) >>= list_files fuel (i + 1) root
  ]

-- `ls` where `fs_root` holds the pointer given.
pub ls_from : Option FsNode → Terminal → Option Terminal
ls_from none t = print (c_str "\u{c}VFS not mounted.\u{7}\n") t
ls_from (some root) t = list_files (suc t.disk.num_files) 0 root t

pub ls_command : Terminal → Option Terminal
ls_command t = ls_from t.fs_root t

-- `local` is what the 256 bytes of `buffer` hold before they are written.
pub cat_file : List ℕ → FsNode → Terminal → Option Terminal
cat_file local node t = do
  (bytes_read, buffer) ← read_fs t.disk node 0 255 local
  capped ← set? buffer bytes_read 0
  shown ← print capped t
  print (c_str "\n") shown

-- What `cat` does with the answer of `finddir_fs`. The hexadecimal escape `\x0CE` of the C string
-- reaches over the `E` and is the byte 0xCE.
pub cat_found : List ℕ → List ℕ → Option ℕ → Terminal → Option Terminal
cat_found local filename (some i) t = do node ← get_elem? t.disk.file_nodes i; cat_file local node t
cat_found local filename none t = do
  t1 ← print (c_str "Îrror: File '") t
  t2 ← print filename t1
  print (c_str "' not found in root directory.\u{7}\n") t2

pub cat_from : Option FsNode → List ℕ → List ℕ → Terminal → Option Terminal
cat_from none local filename t = some t
cat_from (some root) local filename t = do
  found ← finddir_fs t.disk root filename
  cat_found local filename found t

pub cat_command : List ℕ → List ℕ → Terminal → Option Terminal
cat_command local filename t = cat_from t.fs_root local filename t

pub matrix_command : Terminal → Option Terminal
matrix_command t = do
  t' ←
      print_all
        ("\n\u{b}[ Initializing Preemptive Scheduler Showcase ]\u{7}\n"
          ∷ "Press 'q' to halt hardware execution...\n\n" ∷ [])
        t
  some (record t' { matrix_active = true })

pub unknown_command : List ℕ → Terminal → Option Terminal
unknown_command cmd t = do
  t1 ← print (c_str "\u{c}Error: Unknown command executable '") t
  t2 ← print cmd t1
  print (c_str "'.\n\u{7}") t2

-- `strcmp(cmd, name) == 0`
pub is_command : List ℕ → String → Option Bool
is_command cmd name = do r ← strcmp cmd (c_str name); some (is_zero_ℤ r)

-- `cmd[0] == p[0] && cmd[1] == p[1] && ...`
pub starts_with : List ℕ → List ℕ → Option Bool
starts_with cmd [] = some true
starts_with [] (p ∷ ps) = none
starts_with (c ∷ cmd) (p ∷ ps) = if c == p then starts_with cmd ps else some false

-- `else if` on a comparison that may fault.
infix 1 when◌then◌else◌
abbrev pub when◌then◌else◌ : Option Bool → Option Terminal → Option Terminal → Option Terminal
when none then a else b = none
when some true then a else b = a
when some false then a else b = b

pub run_command : List ℕ → List ℕ → Terminal → Option Terminal
run_command local cmd t =
    when is_command cmd "help"
    then help_command t
    else when is_command cmd "clear"
    then some (clear t)
    else when is_command cmd "whoami"
    then whoami_command t
    else when is_command cmd "memory"
    then memory_command t
    else when is_command cmd "selifetch"
    then selifetch_command t
    else when is_command cmd "ls"
    then ls_command t
    else when starts_with cmd (b'c' ∷ b'a' ∷ b't' ∷ b' ' ∷ [])
    then cat_command local (drop 4 cmd) t
    else when is_command cmd "matrix"
    then matrix_command t
    else unknown_command cmd t

-- A key while the matrix runs.
pub matrix_scan : ℕ → Terminal → Option Terminal
matrix_scan scancode t =
    if translate scancode == b'q'
    then (do
      t' ←
          print (c_str "\n\u{b}[ Concurrency Engine Halted ]\u{7}\n\n")
            (clear (record t { matrix_active = false }))
      if t'.shell_active then prompt t' else some t')
    else some t

-- Enter in the shell.
pub enter_line : List ℕ → Terminal → Option Terminal
enter_line local t = do
  s ← putchar device_fb b'\n' t.screen
  buffer ← set? t.input_buffer t.buffer_len 0
  let ended = record t { screen = s; input_buffer = buffer }
  ran ← if ltb 0 t.buffer_len then run_command local buffer ended else some ended
  shown ← if ran.shell_active then prompt ran else some ran
  empty_line shown

pub enter_scan : List ℕ → Terminal → Option Terminal
enter_scan local t =
    if t.shell_active
    then enter_line local t
    else some (record t { enter_pressed = true; shell_active = true })

-- `cursor_pos--` and the index of the cell wrap at 32 bits.
pub erase_cell : Screen → Screen
erase_cell s =
    let pos = (s.cursor_pos + 2 ^ 32 - 1) % 2 ^ 32 in
    fb_move_cursor
      (fb_write_cell (record s { cursor_pos = pos }) (pos * 2 % 2 ^ 32) b' ' default_fg default_bg)
      pos

pub backspace_scan : Terminal → Option Terminal
backspace_scan t =
    if ltb 0 t.buffer_len && t.shell_active
    then (do
      buffer ← set? t.input_buffer (t.buffer_len - 1) 0
      some (record t {
        buffer_len = t.buffer_len - 1;
        input_buffer = buffer;
        screen = erase_cell t.screen;
      }))
    else some t

pub character_scan : ℕ → Terminal → Option Terminal
character_scan scancode t =
    let ascii = translate scancode in
    if t.shell_active && not (ascii == 0) && ltb t.buffer_len 255
    then (do
      buffer ← set? t.input_buffer t.buffer_len ascii
      s ← putchar device_fb ascii t.screen
      some (record t { input_buffer = buffer; buffer_len = t.buffer_len + 1; screen = s }))
    else some t

-- `none` is a fault.
pub handle_scan : List ℕ → ℕ → Terminal → Option Terminal
handle_scan local scancode t =
    if not (bit_and scancode 0x80 == 0)
    then some t
    else if t.matrix_active
    then matrix_scan scancode t
    else if scancode == 0x1C
    then enter_scan local t
    else if scancode == 0x0E
    then backspace_scan t
    else character_scan scancode t
