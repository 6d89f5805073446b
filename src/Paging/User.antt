-- ===== src/Paging/User.antt =====
-- src/kernel/paging.c: the directory and the tables of a user program. They are frames that the kernel
-- writes through the two pages at 0xC0500000 and 0xC0600000; a write goes where the walk of the tables
-- leads, and an address that is not mapped is a fault. The kernel's own tables are variables beside
-- that memory. The processor's buffer of translations is not modelled: after `map_page` the next access
-- walks the new tables, on which the code relies without an `invlpg`.
pub mod Window
pub mod Create
pub mod View
pub mod Page
pub mod Extends
pub mod Table
pub mod Refine
pub mod Fresh
use seli_os.Memory.{Bitmap, bitmap_size, allocate_frame}
use seli_os.Paging.{Paging, put, pd_index, pt_index, map_page}
use seli_os.Paging.Map.{resolve}
use seli_os.Prelude.{
  ℕ, zero, suc, ◌+◌, ◌*◌, bit_and, bit_or, Option, some, ◌==◌, if◌then◌else◌, ◌>>=◌,
}

-- The kernel's tables, the frames in use, and the words of memory by their physical address.
pub record Space : Type 0 where
  pub paging : Paging
  pub bitmap : Bitmap
  pub memory : ℕ → ℕ

pub store_word : ℕ → ℕ → Space → Option Space
store_word address value s = do
  physical ← resolve s.paging address
  some (record s { memory = put s.memory physical value })

pub load_word : ℕ → Space → Option ℕ
load_word address s = do physical ← resolve s.paging address; some (s.memory physical)

-- `for (; rounds; i++) ptr[i] = value(i)`
pub fill_words : ℕ → ℕ → (ℕ → ℕ) → ℕ → Space → Option Space
fill_words zero i value ptr s = some s
fill_words (suc left) i value ptr s =
    store_word (ptr + 4 * i) (value i) s >>= fill_words left (i + 1) value ptr

-- The directory at 0xC0500000 is cleared, and the kernel's entries are copied.
pub clone_directory : Space → Option Space
clone_directory s = do
  zeroed ← fill_words 1024 0 (λ i. 0) 0xC0500000 s
  fill_words 256 768 zeroed.paging.page_directory 0xC0500000 zeroed

-- The physical address of the directory, 0 for no memory.
pub create_user_page_directory : Space → Option (ℕ × Space)
create_user_page_directory s = do
  (phys_dir_addr, bitmap) ← allocate_frame s.bitmap
  let taken = record s { bitmap = bitmap }
  let mapped = record taken { paging = map_page 0xC0500000 phys_dir_addr s.paging }
  let filled = (do cloned ← clone_directory mapped; some (phys_dir_addr, cloned))
  if phys_dir_addr == 0 then some (0, taken) else filled

-- A fresh table for an entry of the directory that has none.
pub add_table : ℕ → ℕ → Space → Option Space
add_table target_directory i s = do
  (new_table_phys, bitmap) ← allocate_frame s.bitmap
  zeroed ←
      fill_words 1024 0 (λ j. 0) 0xC0600000
        (record s { bitmap = bitmap; paging = map_page 0xC0600000 new_table_phys s.paging })
  store_word (target_directory + 4 * i) (bit_or new_table_phys 7) zeroed

-- The entry of the page, in the table that the directory's entry leads to.
pub set_page : ℕ → ℕ → ℕ → Space → Option Space
set_page target_directory virtual_address physical_address s = do
  entry ← load_word (target_directory + 4 * pd_index virtual_address) s
  let table_phys = bit_and entry 0xFFFFF000
  store_word (0xC0600000 + 4 * pt_index virtual_address) (bit_or physical_address 7)
      (record s { paging = map_page 0xC0600000 table_phys s.paging })

pub map_user_page : ℕ → ℕ → ℕ → Space → Option Space
map_user_page target_directory virtual_address physical_address s = do
  let i = pd_index virtual_address
  entry ← load_word (target_directory + 4 * i) s
  linked ← if bit_and entry 0x1 == 0 then add_table target_directory i s else some s
  set_page target_directory virtual_address physical_address linked
