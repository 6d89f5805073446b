-- ===== src/Process.antt =====
-- src/kernel/process.c: a process from a program that the boot loader left in memory.
pub mod Load
pub mod Pages
pub mod Program
pub mod Bytes
pub mod Copy
pub mod Steady
pub mod Create
pub mod Result
mod Tests
use seli_os.Alloc.{Heap, malloc}
use seli_os.Memory.{allocate_frame}
use seli_os.Paging.Map.{resolve}
use seli_os.Paging.User.{Space, create_user_page_directory, map_user_page}
use seli_os.Paging.User.View.{kernel_walk}
use seli_os.Paging.{put}
use seli_os.Prelude.{
  ℕ, zero, suc, ◌+◌, ◌-◌, ◌*◌, ◌/◌, ◌%◌, ◌^◌, Bool, true, false, ◌&&◌, Option, none, some, ltb,
  ◌==◌, if◌then◌else◌, ◌>>=◌,
}

-- The heap with the frames and the kernel's tables, the words of memory by their physical address, the
-- field `page_directory` of a `process_t` by its address, and CR3. No other field of a `process_t` is
-- written.
pub record Host : Type 0 where
  pub heap : Heap
  pub memory : ℕ → ℕ
  pub page_directory : ℕ → ℕ
  pub cr3 : ℕ

abbrev pub space_of : Host → Space
space_of h = record { paging = h.heap.paging; bitmap = h.heap.bitmap; memory = h.memory }

abbrev pub with_space : Space → Host → Host
with_space s h =
    let heap = h.heap in
    record h { heap = record heap { paging = s.paging; bitmap = s.bitmap }; memory = s.memory }

-- `mov cr3`: from here on the processor walks the new directory.
pub load_cr3 : ℕ → Host → Host
load_cr3 directory h = record h { cr3 = directory }

-- The loop over the pages of the program, with `left` rounds to go: `false` if a frame is missing.
pub map_code : ℕ → ℕ → Space → Option (Bool × Space)
map_code zero i s = some (true, s)
map_code (suc left) i s = do
  (frame, bitmap) ← allocate_frame s.bitmap
  let taken = record s { bitmap = bitmap }
  let more = (do
    mapped ← map_user_page 0xC0500000 (i * 4096 % 2 ^ 32) frame taken
    map_code left (i + 1) mapped)
  if frame == 0 then some (false, taken) else more

-- The stack's frame is taken as it comes.
pub map_stack : Space → Option Space
map_stack s = do
  (stack_frame, bitmap) ← allocate_frame s.bitmap
  map_user_page 0xC0500000 0xBFFFF000 stack_frame (record s { bitmap = bitmap })

-- The physical address behind an address that the kernel uses: the tables of the directory in CR3 below
-- 0xC0000000, the kernel's own tables above, which every directory is to share.
pub physical : ℕ → Space → ℕ → Option ℕ
physical cr3 s address =
    if ltb address 0xC0000000
    then kernel_walk s.memory (cr3 / 2 ^ 12) address
    else resolve s.paging address

abbrev pub byte_at : (ℕ → ℕ) → ℕ → ℕ
byte_at memory a = memory (a / 4 * 4) / 256 ^ (a % 4) % 256

-- The word with one byte of it replaced.
abbrev pub put_byte : (ℕ → ℕ) → ℕ → ℕ → ℕ → ℕ
put_byte memory a v =
    let word = memory (a / 4 * 4) in
    let low = 256 ^ (a % 4) in
    put memory (a / 4 * 4) (word / (low * 256) * (low * 256) + v * low + word % low)

-- `memcpy` of `left` more bytes, from byte `i` of the program on, to address `i`.
pub copy_program : ℕ → ℕ → ℕ → ℕ → Space → Option Space
copy_program zero i source cr3 s = some s
copy_program (suc left) i source cr3 s = do
  from ← physical cr3 s ((source + i) % 2 ^ 32)
  to ← physical cr3 s i
  copy_program left (i + 1) source cr3
      (record s { memory = put_byte s.memory to (byte_at s.memory from) })

-- The pages, the stack and the bytes of the program, once the directory is loaded.
pub load_program : ℕ → ℕ → ℕ → Space → Option (Bool × Space)
load_program module_phys_addr module_size cr3 s = do
  (enough, code) ← map_code ((module_size + 4095) % 2 ^ 32 / 4096) 0 s
  let loaded = (do
    mapped ← map_stack code
    copied ← copy_program module_size 0 ((module_phys_addr + 0xC0000000) % 2 ^ 32) cr3 mapped
    some (true, copied))
  if enough then loaded else some (false, code)

-- The address of the new `process_t`, 0 for NULL.
pub create_process : ℕ → ℕ → ℕ → Host → Option (ℕ × Host)
create_process fuel module_phys_addr module_size h = do
  (new_process, heap) ← malloc fuel 16 h.heap
  let started = record h { heap = heap }
  let made = (do
    (directory, space) ← create_user_page_directory (space_of started)
    let switched = load_cr3 directory (record (with_space space started) {
      page_directory = put started.page_directory new_process directory;
    })
    (enough, loaded) ← load_program module_phys_addr module_size directory (space_of switched)
    some (if enough then new_process else 0, with_space loaded switched))
  if new_process == 0 then some (0, started) else made
