-- ===== src/Serial/Output.antt =====
-- What reaches the serial port.
use seli_os.CString.Text.{text, text_uncons}
use seli_os.Port.{outb}
use seli_os.Serial.{
  serial_com1_base, serial_is_transmit_fifo_empty, serial_write_char, serial_write_string,
}
use seli_os.Prelude.{
  ℕ, zero, suc, ◌+◌, ◌≤◌, ◌<◌, ◌≡◌, refl, sym, ◌∙◌, ap, some, List, [], ◌∷◌, map, arith, length,
  replicate, ◌==◌, if◌then◌else◌, ◌>>=◌, Bool-cases, inl, inr,
}

-- How many status bytes report an empty queue.
abbrev pub ready_count : List ℕ → ℕ
ready_count [] = 0
ready_count (status ∷ later) =
    if serial_is_transmit_fifo_empty status == 0 then ready_count later else suc (ready_count later)

pub write_char_ready :
    (c : ℕ) (statuses : List ℕ)
    → 0 < ready_count statuses
    → (later : List ℕ) × (serial_write_char c statuses ≡ some (outb serial_com1_base c ∷ [], later))
      × (ready_count statuses ≡ suc (ready_count later))
unfolding serial_write_char
write_char_ready c [] h = absurd (omega arith)
write_char_ready c (status ∷ later) h =
    elim (Bool-cases (serial_is_transmit_fifo_empty status == 0)) [
      | inl busy ↦
          let (rest, sent, count) = write_char_ready c later (rw busy at h) in
          (rest, rw (busy) sent, rw busy count)
      | inr ready ↦ (later, rw ready refl, rw ready refl)
    ]

write_string_sends :
    (c : ℕ) (str statuses : List ℕ) {later last : List ℕ} (s : List ℕ)
    → serial_write_char (suc c) statuses ≡ some (outb serial_com1_base (suc c) ∷ [], later)
    → serial_write_string str later ≡ some (map (outb serial_com1_base) s, last)
    → serial_write_string (suc c ∷ str) statuses
      ≡ some (map (outb serial_com1_base) (suc c ∷ s), last)
unfolding serial_write_string
write_string_sends c str statuses s p q = rw (p, ◌>>=◌, q) refl

-- If the port reports an empty queue at least as often as the string has bytes,
-- `serial_write_string` ends, and has sent the bytes of the string to the data port in order, each
-- after one more report; the reports that it has not used are left.
pub serial_write_string-text :
    (str s statuses : List ℕ)
    → text str ≡ some s
    → length s ≤ ready_count statuses
    → (later : List ℕ) × (serial_write_string str statuses
        ≡ some (map (outb serial_com1_base) s, later))
      × (ready_count statuses ≡ length s + ready_count later)
unfolding serial_write_string
serial_write_string-text [] s statuses e h = absurd (cc)
serial_write_string-text (zero ∷ str) s statuses e h =
    let empty : s ≡ [] = cc in rw empty (statuses, refl, omega arith)
serial_write_string-text (suc c ∷ str) s statuses e h =
    let (s', e', same) = text_uncons c str s e in
    let long = ap (length {A = ℕ}) same in
    let (later, sent, one) = write_char_ready (suc c) statuses (omega arith) in
    let (last, rest, others) = serial_write_string-text str s' later e' (omega arith) in
    (
      last,
      write_string_sends c str statuses s' sent rest
          ∙ ap (λ l. some (map (outb serial_com1_base) l, last)) (sym same),
      omega arith,
    )

-- A port that is always ready.
pub ready_count-replicate : (n : ℕ) → ready_count (replicate n 0x20) ≡ n
unfolding serial_is_transmit_fifo_empty
ready_count-replicate zero = refl
ready_count-replicate (suc n) = ap suc (ready_count-replicate n)
