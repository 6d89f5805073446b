-- ===== src/Idt/Tests.antt =====
-- The gates over a table of 256 unset ones.
use seli_os.Idt.{IdtEntry}

abbrev unset_gate : IdtEntry
unset_gate = record { base_low = 1; sel = 1; always0 = 0; flags = 0; base_high = 1 }
