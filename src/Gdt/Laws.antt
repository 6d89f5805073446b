-- ===== src/Gdt/Laws.antt =====
-- What the processor reads back from a descriptor.
use seli_os.Gdt.{GdtPointer, GdtEntry, encode_entry, init_gdt}
use seli_os.Prelude.{
  ℕ, ◌+◌, ◌*◌, ◌/◌, ◌%◌, ◌^◌, ◌<◌, ◌≡◌, refl, ◌∙◌, bit_and, bit_or, some, List, [], ◌∷◌, arith,
  length,
}
use seli_os.Prelude.Bits.{bit_and-ones, bit_and-shifted, bit_or-shifted, bit_or_comm}

-- The fields of a descriptor as the processor puts them together.
abbrev pub base_of : GdtEntry → ℕ
base_of e = e.base_low + 2 ^ 16 * e.base_middle + 2 ^ 24 * e.base_high

abbrev pub limit_of : GdtEntry → ℕ
limit_of e = e.limit_low + 2 ^ 16 * (e.granularity % 2 ^ 4)

abbrev pub flags_of : GdtEntry → ℕ
flags_of e = e.granularity / 2 ^ 4

granularity_of :
    (limit gran : ℕ)
    → bit_or (bit_and limit 0x0F) (bit_and gran 0xF0) ≡ gran / 16 % 16 * 16 + limit % 16
granularity_of limit gran =
    bit_or_comm (bit_and limit 0x0F) (bit_and gran 0xF0)
    ∙ rw (bit_and-shifted 4 gran 15, bit_and-ones 4 limit, bit_and-ones 4 (gran / 16))
        (bit_or-shifted 4 (gran / 16 % 16) (limit % 16) (omega arith))

-- `set_entry` loses nothing: the processor reads back the 32 bits of the base, the low 20 bits of
-- the limit, the access byte and the high four bits of the granularity byte.
pub encode_entry_lem :
    (base limit access gran : ℕ)
    → base < 2 ^ 32
    → gran < 2 ^ 8
    → (base_of (encode_entry base limit access gran) ≡ base)
      × (limit_of (encode_entry base limit access gran) ≡ limit % 2 ^ 20)
      × ((encode_entry base limit access gran).access ≡ access)
      × (flags_of (encode_entry base limit access gran) ≡ gran / 2 ^ 4)
unfolding encode_entry
encode_entry_lem base limit access gran h g = (
  omega
      (arith, bit_and-ones 16 base, bit_and-ones 8 (base / 2 ^ 16), bit_and-ones 8 (base / 2 ^ 24)),
  omega (arith, bit_and-ones 16 limit, granularity_of (limit / 2 ^ 16) gran),
  refl,
  omega (arith, granularity_of (limit / 2 ^ 16) gran),
)

-- `init_gdt` fills its six entries with the null descriptor, flat 4 GiB code and data segments for
-- rings 0 and 3, and the 104 bytes of the task segment, and changes nothing behind them.
pub init_gdt_lem :
    (table_address tss_address : ℕ) (a b c d e f : GdtEntry) (rest : List GdtEntry)
    → init_gdt table_address tss_address (a ∷ b ∷ c ∷ d ∷ e ∷ f ∷ rest)
      ≡ some (
        record { size = 47; address = table_address },
        encode_entry 0 0 0 0
            ∷ encode_entry 0 0xFFFFFFFF 0x9A 0xCF
            ∷ encode_entry 0 0xFFFFFFFF 0x92 0xCF
            ∷ encode_entry 0 0xFFFFFFFF 0xFA 0xCF
            ∷ encode_entry 0 0xFFFFFFFF 0xF2 0xCF
            ∷ encode_entry tss_address 103 0x89 0
            ∷ rest,
      )
unfolding init_gdt
init_gdt_lem table_address tss_address a b c d e f rest = refl

pub init_gdt_total :
    (table_address tss_address : ℕ) (entries : List GdtEntry)
    → length entries ≡ 6
    → (pointer : GdtPointer) × (table : List GdtEntry) × (init_gdt table_address tss_address entries
        ≡ some (pointer, table))
init_gdt_total p q [] h = absurd (omega arith)
init_gdt_total p q (a ∷ []) h = absurd (omega arith)
init_gdt_total p q (a ∷ b ∷ []) h = absurd (omega arith)
init_gdt_total p q (a ∷ b ∷ c ∷ []) h = absurd (omega arith)
init_gdt_total p q (a ∷ b ∷ c ∷ d ∷ []) h = absurd (omega arith)
init_gdt_total p q (a ∷ b ∷ c ∷ d ∷ e ∷ []) h = absurd (omega arith)
init_gdt_total p q (a ∷ b ∷ c ∷ d ∷ e ∷ f ∷ rest) h = (_, _, init_gdt_lem p q a b c d e f rest)
