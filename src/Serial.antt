-- ===== src/Serial.antt =====
-- src/kernel/serial.c: the first serial port. The status register is read as a list of the bytes
-- that successive reads give.
pub mod Output
mod Tests
use seli_os.Port.{Sent, outb}
use seli_os.Prelude.{
  ℕ, zero, suc, ◌+◌, ◌/◌, ◌^◌, bit_and, Option, none, some, List, [], ◌∷◌, ◌++◌, ◌==◌,
  if◌then◌else◌, ◌>>=◌,
}

abbrev pub serial_com1_base : ℕ
serial_com1_base = 0x3F8

pub serial_configure_baud_rate : ℕ → ℕ → List Sent
serial_configure_baud_rate port divisor =
    outb (port + 3) 0x80
    ∷ outb port (bit_and (divisor / 2 ^ 8) 0xFF)
    ∷ outb port (bit_and divisor 0xFF)
    ∷ []

pub serial_configure_line : ℕ → List Sent
serial_configure_line port = outb (port + 3) 0x03 ∷ []

pub serial_is_transmit_fifo_empty : ℕ → ℕ
serial_is_transmit_fifo_empty status = bit_and status 0x20

pub serial_configure_buffers : ℕ → List Sent
serial_configure_buffers port = outb (port + 2) 0xC7 ∷ []

pub serial_configure_modem : ℕ → List Sent
serial_configure_modem port = outb (port + 4) 0x0B ∷ []

pub serial_init : List Sent
unfolding serial_configure_baud_rate serial_configure_line serial_configure_modem
    serial_configure_buffers
serial_init =
    serial_configure_baud_rate serial_com1_base 3
    ++ (serial_configure_line serial_com1_base
        ++ (serial_configure_modem serial_com1_base ++ serial_configure_buffers serial_com1_base))

-- The wait for an empty queue takes status bytes off the list; `none` if they run out first.
pub serial_write_char : ℕ → List ℕ → Option (List Sent × List ℕ)
serial_write_char c [] = none
serial_write_char c (status ∷ later) =
    if serial_is_transmit_fifo_empty status == 0
    then serial_write_char c later
    else some (outb serial_com1_base c ∷ [], later)

-- Over what is left of the string.
pub serial_write_string : List ℕ → List ℕ → Option (List Sent × List ℕ)
serial_write_string [] statuses = none
serial_write_string (zero ∷ str) statuses = some ([], statuses)
serial_write_string (suc c ∷ str) statuses = do
  (sent, later) ← serial_write_char (suc c) statuses
  (rest, last) ← serial_write_string str later
  some (sent ++ rest, last)
