-- ===== src/Paging.antt =====
-- src/kernel/paging.c: the page directory of the kernel and its one page table. Both are functions
-- from the index; the indices that the code computes are below 1024.
pub mod Map
pub mod Identity
pub mod User
mod Tests
use seli_os.Prelude.{
  ℕ, zero, suc, ◌+◌, ◌-◌, ◌*◌, ◌/◌, ◌%◌, ◌^◌, bit_and, bit_or, ◌==◌, if◌then◌else◌,
}

-- `table_physical` is the address of `first_page_table` less 0xC0000000, which the linker chooses.
pub record Paging : Type 0 where
  pub page_directory : ℕ → ℕ
  pub first_page_table : ℕ → ℕ
  pub table_physical : ℕ

abbrev pub put : (ℕ → ℕ) → ℕ → ℕ → ℕ → ℕ
put table i v j = if i == j then v else table j

pub pd_index : ℕ → ℕ
pd_index virtual_address = virtual_address / 2 ^ 22

pub pt_index : ℕ → ℕ
pt_index virtual_address = bit_and (virtual_address / 2 ^ 12) 0x03FF

pub map_page : ℕ → ℕ → Paging → Paging
map_page virtual_address physical_address p =
    let i = pd_index virtual_address in
    record p {
      page_directory =
          if bit_and (p.page_directory i) 0x1 == 0
          then put p.page_directory i (bit_or p.table_physical 3)
          else p.page_directory;
      first_page_table =
          put p.first_page_table (pt_index virtual_address) (bit_or physical_address 3);
    }

-- `for (; rounds; addr += 4096) map_page(addr + shift, addr)`
pub map_pages : ℕ → ℕ → ℕ → Paging → Paging
map_pages zero addr shift p = p
map_pages (suc left) addr shift p =
    map_pages left (addr + 4096) shift (map_page ((addr + shift) % 2 ^ 32) addr p)

-- The tables after `init_paging`, with the address that goes to CR3. The loop over the kernel runs
-- while the address, which does not wrap, is below `phys_end`.
pub init_paging : (phys_start phys_end directory_physical : ℕ) → Paging → Paging × ℕ
init_paging phys_start phys_end directory_physical p =
    let cleared = record p { page_directory = λ i. 0 } in
    let identity = map_pages 1024 0 0 cleared in
    let vga = map_page 0xC00B8000 0x000B8000 identity in
    (
      map_pages ((phys_end - phys_start + 4095) / 4096) phys_start 0xC0000000 vga,
      directory_physical,
    )
