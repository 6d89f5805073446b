-- ===== src/Memory/Frames.antt =====
-- What the bit operations and `allocate_frame` do to the set of used frames.
use seli_os.Memory.{Bitmap, set_bit, clear_bit, test_bit}
use seli_os.Prelude.{
  ℕ, zero, suc, ◌-◌, ◌*◌, ◌/◌, ◌%◌, ◌^◌, ◌≤◌, ◌<◌, bit_and, bit_or, ◌≡◌, ap, inl, inr, Bool, true,
  false, not, none, some, arith, length, get_or, set, ◌==◌, if◌then◌else◌, Bool-cases,
  get_elem?-eq-get_or, set?-eq-set, get_or-set_self, get_or-set_ne, length-set, get_elem?-outside,
}
use seli_os.Prelude.Bits.{
  digit, digit-bit_or, digit-bit_and, digit-lt, digit-power, digit-complement, digit-mod,
  bit_and-power,
}
use native.Mathlib.Nat.{one-le-pow, pow-le-pow_right, one-mul}

-- Frame `i` is in use.
abbrev pub used : Bitmap → ℕ → Bool
used bitmap i = digit (i % 8) (get_or bitmap (i / 8) 0) == 1

-- The bitmaps that `set_bit` and `clear_bit` leave for a frame inside.
pub mark : Bitmap → ℕ → Bitmap
mark b i = set b (i / 8) (bit_or (get_or b (i / 8) 0) (2 ^ (i % 8)) % 2 ^ 8)

unmark : Bitmap → ℕ → Bitmap
unmark b i = set b (i / 8) (bit_and (get_or b (i / 8) 0) (2 ^ 32 - 1 - 2 ^ (i % 8)) % 2 ^ 8)

scaled_digit : (d p : ℕ) → d < 2 → 1 ≤ p → not (d * p == 0) ≡ (d == 1)
scaled_digit zero p h pos = ground arith
scaled_digit (suc zero) p h pos = rw one-mul (ground arith)
scaled_digit (suc (suc d)) p h pos = absurd (omega arith)

power_fits : (m : ℕ) → m < 8 → 2 ^ m < 2 ^ 32
power_fits m h = omega (arith, pow-le-pow_right {n = 2} (omega arith) {i = m} {j = 7} (omega arith))

module _ (byte m k : ℕ) (small : k < 8) where
  digit_of_or :
      (digit k (bit_or byte (2 ^ m) % 2 ^ 8) == 1) ≡ (if m == k then true else digit k byte == 1)
  digit_of_or =
      rw (digit-mod k 8 (bit_or byte (2 ^ m)) small, digit-bit_or, digit-power)
        (ground (arith, digit-lt k byte))

  digit_of_clear :
      m < 8
      → (digit k (bit_and byte (2 ^ 32 - 1 - 2 ^ m) % 2 ^ 8) == 1)
        ≡ (if m == k then false else digit k byte == 1)
  digit_of_clear small_m =
      rw (digit-mod k 8 (bit_and byte (2 ^ 32 - 1 - 2 ^ m)) small, digit-bit_and)
        (ground (
          arith,
          digit-lt k byte,
          digit-power k m,
          digit-complement k 32 (2 ^ m) (omega arith) (power_fits m small_m),
        ))

module _ (b : Bitmap) (i : ℕ) (inside : i < length b * 8) where
  pub set_bit-eq-mark : set_bit b i ≡ some (mark b i)
  unfolding set_bit mark
  set_bit-eq-mark =
      rw (get_elem?-eq-get_or b (i / 8) 0 (omega arith)) (set?-eq-set b (i / 8) _ (omega arith))

  clear_bit-eq-unmark : clear_bit b i ≡ some (unmark b i)
  unfolding clear_bit unmark
  clear_bit-eq-unmark =
      rw (get_elem?-eq-get_or b (i / 8) 0 (omega arith)) (set?-eq-set b (i / 8) _ (omega arith))

  pub test_bit-used : test_bit b i ≡ some (used b i)
  unfolding test_bit
  test_bit-used =
      rw (get_elem?-eq-get_or b (i / 8) 0 (omega arith), bit_and-power)
        (ap some (
          scaled_digit _ (2 ^ (i % 8)) (digit-lt (i % 8) (get_or b (i / 8) 0))
            (one-le-pow (i % 8) 2 (omega arith))))

  pub used-mark : (j : ℕ) → used (mark b i) j ≡ (if i == j then true else used b j)
  unfolding mark
  used-mark j = elim (Bool-cases (i / 8 == j / 8)) [
    | inl same ↦ ground (
      arith,
      get_or-set_self b (i / 8) (bit_or (get_or b (i / 8) 0) (2 ^ (i % 8)) % 2 ^ 8) 0,
      digit_of_or (get_or b (i / 8) 0) (i % 8) (j % 8),
    )
    | inr other ↦ ground (
      arith,
      get_or-set_ne b (i / 8) (j / 8) (bit_or (get_or b (i / 8) 0) (2 ^ (i % 8)) % 2 ^ 8) 0,
    )
  ]

  used-unmark : (j : ℕ) → used (unmark b i) j ≡ (if i == j then false else used b j)
  unfolding unmark
  used-unmark j = elim (Bool-cases (i / 8 == j / 8)) [
    | inl same ↦ ground (
      arith,
      get_or-set_self b (i / 8) (bit_and (get_or b (i / 8) 0) (2 ^ 32 - 1 - 2 ^ (i % 8)) % 2 ^ 8) 0,
      digit_of_clear (get_or b (i / 8) 0) (i % 8) (j % 8),
    )
    | inr other ↦ ground (
      arith,
      get_or-set_ne b (i / 8) (j / 8)
          (bit_and (get_or b (i / 8) 0) (2 ^ 32 - 1 - 2 ^ (i % 8)) % 2 ^ 8) 0,
    )
  ]

  pub length-mark : length (mark b i) ≡ length b
  unfolding mark
  length-mark = length-set b (i / 8) _

  length-unmark : length (unmark b i) ≡ length b
  unfolding unmark
  length-unmark = length-set b (i / 8) _

-- `b'` is `b` with the state of frame `i` set to `now`, and every other frame as it was.
pub record IsUpdated (b : Bitmap) (i : ℕ) (now : Bool) (b' : Bitmap) : Type 0 where
  pub same_length : length b' ≡ length b
  pub frames : (j : ℕ) → used b' j ≡ (if i == j then now else used b j)

pub set_bit-IsUpdated :
    (b : Bitmap) (i : ℕ)
    → i < length b * 8
    → (b' : Bitmap) × (set_bit b i ≡ some b') × IsUpdated b i true b'
set_bit-IsUpdated b i h = (
  mark b i,
  set_bit-eq-mark b i h,
  record { same_length = length-mark b i h; frames = used-mark b i h },
)

pub clear_bit-IsUpdated :
    (b : Bitmap) (i : ℕ)
    → i < length b * 8
    → (b' : Bitmap) × (clear_bit b i ≡ some b') × IsUpdated b i false b'
clear_bit-IsUpdated b i h = (
  unmark b i,
  clear_bit-eq-unmark b i h,
  record { same_length = length-unmark b i h; frames = used-unmark b i h },
)

pub set_bit_outside : (b : Bitmap) (i : ℕ) → length b * 8 ≤ i → set_bit b i ≡ none
unfolding set_bit
set_bit_outside b i h = rw (get_elem?-outside b (i / 8) (omega arith))

pub clear_bit_outside : (b : Bitmap) (i : ℕ) → length b * 8 ≤ i → clear_bit b i ≡ none
unfolding clear_bit
clear_bit_outside b i h = rw (get_elem?-outside b (i / 8) (omega arith))
