-- ===== src/Gdt.antt =====
-- src/kernel/gdt.c: the segment descriptors. The address of the table and of the task segment are
-- parameters; `lgdt` and `ltr` are not modelled.
pub mod Laws
mod Tests
use seli_os.Prelude.{
  ℕ, zero, suc, ◌+◌, ◌-◌, ◌*◌, ◌/◌, ◌%◌, ◌^◌, bit_and, bit_or, Option, none, some, List, [], ◌∷◌,
  set?, ◌>>=◌,
}

pub record GdtEntry : Type 0 where
  pub limit_low : ℕ
  pub base_low : ℕ
  pub base_middle : ℕ
  pub access : ℕ
  pub granularity : ℕ
  pub base_high : ℕ

pub encode_entry : ℕ → ℕ → ℕ → ℕ → GdtEntry
encode_entry base limit access gran = record {
  limit_low = bit_and limit 0xFFFF;
  base_low = bit_and base 0xFFFF;
  base_middle = bit_and (base / 2 ^ 16) 0xFF;
  access = access;
  granularity = bit_or (bit_and (limit / 2 ^ 16) 0x0F) (bit_and gran 0xF0);
  base_high = bit_and (base / 2 ^ 24) 0xFF;
}

pub set_entry : List GdtEntry → ℕ → ℕ → ℕ → ℕ → ℕ → Option (List GdtEntry)
unfolding encode_entry
set_entry entries index base limit access gran =
    set? entries index (encode_entry base limit access gran)

-- `struct gdt`
pub record GdtPointer : Type 0 where
  pub size : ℕ
  pub address : ℕ

-- An entry takes 8 bytes, and `tss_entry_t` 104.
pub init_gdt : (table_address tss_address : ℕ) → List GdtEntry → Option (GdtPointer × List GdtEntry)
unfolding set_entry
init_gdt table_address tss_address entries = do
  e0 ← set_entry entries 0 0 0 0 0
  e1 ← set_entry e0 1 0 0xFFFFFFFF 0x9A 0xCF
  e2 ← set_entry e1 2 0 0xFFFFFFFF 0x92 0xCF
  e3 ← set_entry e2 3 0 0xFFFFFFFF 0xFA 0xCF
  e4 ← set_entry e3 4 0 0xFFFFFFFF 0xF2 0xCF
  e5 ← set_entry e4 5 tss_address (104 - 1) 0x89 0x00
  some (record { size = 8 * 6 - 1; address = table_address }, e5)
