-- ===== src/Serial/Tests.antt =====
-- The serial port at a concrete run.
use seli_os.Port.{outb}
use seli_os.Serial.{serial_com1_base, serial_is_transmit_fifo_empty, serial_write_string}
use seli_os.Serial.Output.{ready_count, serial_write_string-text}
use seli_os.Prelude.{ℕ, ◌+◌, ◌≡◌, refl, some, List, [], ◌∷◌, arith, length, map}

abbrev ok : List ℕ
ok = b'o' ∷ b'k' ∷ []

serial_write_string-text_example :
    (later : List ℕ) × (serial_write_string (b'o' ∷ b'k' ∷ 0 ∷ []) (0 ∷ 0x60 ∷ 0 ∷ 0x20 ∷ 0x20 ∷ [])
      ≡ some (map (outb serial_com1_base) (b'o' ∷ b'k' ∷ []), later))
    × (ready_count (0 ∷ 0x60 ∷ 0 ∷ 0x20 ∷ 0x20 ∷ []) ≡ length ok + ready_count later)
unfolding serial_is_transmit_fifo_empty
serial_write_string-text_example =
    serial_write_string-text (b'o' ∷ b'k' ∷ 0 ∷ []) (b'o' ∷ b'k' ∷ [])
      (0 ∷ 0x60 ∷ 0 ∷ 0x20 ∷ 0x20 ∷ []) refl (omega arith)
