-- ===== src/Gdt/Tests.antt =====
-- The descriptors of the kernel.
use seli_os.Gdt.{GdtEntry}

abbrev unset_entry : GdtEntry
unset_entry = record {
  limit_low = 1;
  base_low = 1;
  base_middle = 1;
  access = 1;
  granularity = 1;
  base_high = 1;
}
