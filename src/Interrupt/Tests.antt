-- ===== src/Interrupt/Tests.antt =====
-- An interrupt history on two threads and an empty disk.
use seli_os.Interrupt.{Event}
use seli_os.Interrupt.Handled.{AllExpected}
use seli_os.Prelude.{inl, inr, refl, List, [], ◌∷◌, arith}

-- A key, a yield by system call and a timer tick.
abbrev history : List Event
history =
    record { intr_no = 33; cpu = record { ebx = 0; eax = 0 }; scan_code = 0x1E }
    ∷ record { intr_no = 128; cpu = record { ebx = 0; eax = 3 }; scan_code = 0 }
    ∷ record { intr_no = 32; cpu = record { ebx = 0; eax = 0 }; scan_code = 0 }
    ∷ []

history-AllExpected : AllExpected history
history-AllExpected =
    ((inr (inl refl), omega arith), ((inr (inr refl), omega arith), ((inl refl, omega arith), tt)))
