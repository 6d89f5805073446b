-- ===== src/Screen/Hex.antt =====
-- `print_hex` prints the number.
use seli_os.Screen.{hex_chars, hex_digits, hex_str}
use seli_os.Prelude.{
  ℕ, zero, suc, ◌+◌, ◌-◌, ◌*◌, ◌/◌, ◌%◌, ◌^◌, ◌<◌, ◌≡◌, refl, ◌∙◌, ap, Bool, true, false, ◌&&◌,
  Option, none, some, List, [], ◌∷◌, arith, leb, ◌==◌, if◌then◌else◌, ◌>>=◌, get_or, bit_and,
  length, sym, all_below, of_all_below,
}
use seli_os.Prelude.Bits.{bit_and-ones}
use native.Mathlib.Nat.{
  pow-succ', one-le-pow, add-mul-mod_self_left, mod-eq_of_lt, mod-lt, mod-add-div,
}

-- The value of an upper-case hexadecimal digit.
abbrev pub digit_value : ℕ → Option ℕ
digit_value c =
    if leb b'0' c && leb c b'9'
    then some (c - b'0')
    else if leb b'A' c && leb c b'F'
    then some (c - b'A' + 10)
    else none

-- The number that a string of digits up to its zero byte stands for, most significant digit first.
pub read_hex : ℕ → List ℕ → Option ℕ
read_hex acc [] = none
read_hex acc (zero ∷ str) = some acc
read_hex acc (suc c ∷ str) = do d ← digit_value (suc c); read_hex (16 * acc + d) str

-- Every digit, checked by evaluation.
abbrev is_digit_of : ℕ → ℕ → Bool
is_digit_of c d = elim (digit_value c) [ none ↦ false | some v ↦ v == d ]

all_sixteen : all_below 16 (λ d. is_digit_of (get_or hex_chars d 0) d) ≡ true
unfolding all_below
all_sixteen = refl

digit_of : (c d : ℕ) → is_digit_of c d ≡ true → (c' : ℕ) × (c ≡ suc c') × (digit_value c ≡ some d)
digit_of zero d h = absurd (cc)
digit_of (suc c) d h = (c, refl, ground arith)

read_hex-digit :
    (acc c d : ℕ) (rest : List ℕ)
    → is_digit_of c d ≡ true
    → read_hex acc (c ∷ rest) ≡ read_hex (16 * acc + d) rest
unfolding read_hex
read_hex-digit acc c d rest h =
    let (c', same, value) = digit_of c d h in
    ap (λ k. read_hex acc (k ∷ rest)) same
    ∙ ap (λ o. o >>= λ v. read_hex (16 * acc + v) rest) (ap digit_value (sym same) ∙ value)

split_mod : (a p : ℕ) → 0 < p → a % (16 * p) ≡ 16 * (a / 16 % p) + a % 16
split_mod a p h =
    ap (λ t. t % (16 * p)) parts
    ∙ add-mul-mod_self_left (16 * (a / 16 % p) + a % 16) (16 * p) (a / 16 / p)
    ∙ mod-eq_of_lt (omega (arith, mod-lt (a / 16) h))
  where
    parts : a ≡ 16 * (a / 16 % p) + a % 16 + 16 * p * (a / 16 / p)
    parts = omega (arith, mod-add-div (a / 16) p)

read_hex-hex_digits :
    (left num acc : ℕ) (rest : List ℕ)
    → read_hex acc (hex_digits left num rest) ≡ read_hex (16 ^ left * acc + num % 16 ^ left) rest
unfolding hex_digits
read_hex-hex_digits zero num acc rest = ap (λ a. read_hex a rest) (omega arith)
read_hex-hex_digits (suc left) num acc rest =
    read_hex-hex_digits left (num / 2 ^ 4) acc (get_or hex_chars (bit_and num 0x0F) 0 ∷ rest)
    ∙ read_hex-digit _ _ (bit_and num 0x0F) rest (
        of_all_below 16 (bit_and num 0x0F) (λ d. is_digit_of (get_or hex_chars d 0) d) all_sixteen
          (omega (arith, bit_and-ones 4 num)))
    ∙ ap (λ a. read_hex a rest)
        {x = 16 * (16 ^ left * acc + num / 2 ^ 4 % 16 ^ left) + bit_and num 0x0F}
        {y = 16 ^ suc left * acc + num % 16 ^ suc left}
        (omega (
          arith,
          bit_and-ones 4 num,
          pow-succ' 16 left,
          ap (λ (t : ℕ). t * acc) (pow-succ' 16 left),
          split_mod num (16 ^ left) (one-le-pow left 16 (omega arith)),
          ap (λ t. num % t) (pow-succ' 16 left),
        ))

length-hex_digits :
    (left num : ℕ) (rest : List ℕ) → length (hex_digits left num rest) ≡ left + length rest
unfolding hex_digits
length-hex_digits zero num rest = omega arith
length-hex_digits (suc left) num rest =
    omega
      (arith, length-hex_digits left (num / 2 ^ 4) (get_or hex_chars (bit_and num 0x0F) 0 ∷ rest))

-- The eight digits that `print_hex` writes behind "0x" read back as the number, for every 32-bit
-- number, and a zero byte follows them.
pub read_hex-hex_str :
    (num : ℕ)
    → num < 2 ^ 32
    → (digits : List ℕ) × (hex_str num ≡ b'0' ∷ b'x' ∷ digits)
      × (length digits ≡ 9)
      × (read_hex 0 digits ≡ some num)
unfolding hex_str read_hex
read_hex-hex_str num h = (
  hex_digits 8 num (0 ∷ []),
  refl,
  length-hex_digits 8 num (0 ∷ []),
  read_hex-hex_digits 8 num 0 (0 ∷ []) ∙ ap some (omega arith),
)
