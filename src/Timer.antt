-- ===== src/Timer.antt =====
-- src/kernel/timer.c: the interval timer. The instructions that switch interrupts off and on
-- around the three writes are not modelled.
mod Tests
use native.Mathlib.Nat.{div-lt_iff_lt-mul, le-div_iff_mul-le}
use seli_os.Port.{Sent, outb}
use seli_os.Prelude.{
  ℕ, ◌+◌, ◌*◌, ◌/◌, ◌%◌, ◌^◌, ◌≤◌, ◌<◌, ◌≡◌, ◌↔◌, inl, inr, leb, Bool-cases, refl, ap, bit_and,
  Option, none, some, List, [], ◌∷◌, arith, ◌==◌, ◌&&◌, if◌then◌else◌, ==_of_ne,
}
use seli_os.Prelude.Bits.{bit_and-ones, bit_and-shifted}

pub set_pit_count : ℕ → List Sent
set_pit_count count =
    outb 0x43 0x36 ∷ outb 0x40 (bit_and count 0xFF) ∷ outb 0x40 (bit_and count 0xFF00 / 2 ^ 8) ∷ []

-- A frequency of 0 is a division by zero, `none`.
pub init_timer : ℕ → Option (List Sent)
init_timer frequency = if frequency == 0 then none else some (set_pit_count (1193180 / frequency))

-- The count that channel 0 of the timer takes: the command byte 0x36 goes to port 0x43, and then
-- the low byte and the high byte go to port 0x40. `none` for any other bytes or ports.
abbrev pub reload : List Sent → Option ℕ
reload ((control, command) ∷ (first, low) ∷ (second, high) ∷ []) =
    if control == 67 && command == 54 && first == 64 && second == 64
    then some (low + 2 ^ 8 * high)
    else none
reload _ = none

reload-set_pit_count : (count : ℕ) → reload (set_pit_count count) ≡ some (count % 2 ^ 16)
unfolding set_pit_count
reload-set_pit_count count = ap some (
    omega
      (arith, bit_and-ones 8 count, bit_and-shifted 8 count 255, bit_and-ones 8 (count / 2 ^ 8)))

-- The bytes sent set channel 0 of the timer (command byte 0x36 to port 0x43, then the low and the
-- high byte to port 0x40) to the divisor of the frequency exactly from 19 Hz on. Below, down to 1 Hz, the
-- divisor does not fit the 16 bits of the counter.
pub reload-init_timer :
    (frequency : ℕ)
    → 0 < frequency
    → (sent : List Sent) × (init_timer frequency ≡ some sent)
      × ((19 ≤ frequency) ↔ (reload sent ≡ some (1193180 / frequency)))
unfolding init_timer
reload-init_timer frequency h = (
  set_pit_count (1193180 / frequency),
  rw (==_of_ne frequency 0 (omega arith)) refl,
  (
    λ fast.
        let fits : 1193180 / frequency < 65536 =
          (div-lt_iff_lt-mul {k = frequency} {x = 1193180} {y = 65536} h).1 (omega arith) in
        ground (arith, reload-set_pit_count (1193180 / frequency)),
    λ same. elim (Bool-cases (leb 19 frequency)) [
      | inl fast ↦ ground arith
      | inr slow ↦
          let large : 65536 ≤ 1193180 / frequency =
            (le-div_iff_mul-le {k = frequency} {x = 65536} {y = 1193180} h).1 (ground arith) in
          absurd (ground (arith, reload-set_pit_count (1193180 / frequency)))
    ],
  ),
)
