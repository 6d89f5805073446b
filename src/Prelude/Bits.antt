-- ===== src/Prelude/Bits.antt =====
-- Binary digits of a number, and what `|`, `&` and the masks of the kernel do to them.
use Prim.Native.Nat.{
  ℕ, zero, suc, ◌+◌, ◌-◌, ◌*◌, ◌/◌, ◌%◌, ◌^◌, ◌≤◌, ◌<◌, min, max, bit_and, bit_or, digits, bitwise,
  bit_and-bitwise, bit_or-bitwise,
}
use mathlib.Core.Path.{◌≡◌, refl, sym, ap, ap₂, ◌∙◌}
use seli_os.Prelude.Tests.{◌==◌, if◌then◌else◌}
use native.Mathlib.Nat.{
  two-pow-succ, one-le-pow, mod-eq_of_lt, add-mul-mod_self_left, mod-lt, mod-add-div, mul-one,
  div-one, div-div-eq-div-mul,
}
use native.Mathlib.Omega.{arith}

-- The native operations stand for `bitwise`, which walks the digits on fuel: more fuel than digits
-- changes nothing, so the lowest digit comes off.
module _ (z : ℕ → ℕ) (f : ℕ → ℕ → ℕ) where
  extra_fuel : (n a b : ℕ) → a ≤ n → digits z f n a b ≡ digits z f (suc n) a b
  extra_fuel zero zero b h = refl
  extra_fuel zero (suc a) b h = absurd (omega arith)
  extra_fuel (suc n) zero b h = refl
  extra_fuel (suc n) (suc a) b h = rw (extra_fuel n (suc a / 2) (b / 2) (omega arith))

  enough_fuel : (k n m a b : ℕ) → a ≤ n → k + n ≡ m → digits z f n a b ≡ digits z f m a b
  enough_fuel zero n m a b h e = ap (λ t. digits z f t a b) {x = n} {y = m} (omega arith)
  enough_fuel (suc k) n m a b h e =
      enough_fuel k n (k + n) a b h refl
      ∙ extra_fuel (k + n) a b (omega arith)
      ∙ ap (λ t. digits z f t a b) {x = suc (k + n)} {y = m} (omega arith)

  bitwise-suc :
      (a b : ℕ)
      → bitwise z f (suc a) b ≡ f (suc a % 2) (b % 2) + bitwise z f (suc a / 2) (b / 2) * 2
  bitwise-suc a b = omega (
    arith,
    enough_fuel (a - suc a / 2) (suc a / 2) a (suc a / 2) (b / 2) (omega arith) (omega arith),
  )

pub bit_or_step : (a b : ℕ) → bit_or a b ≡ max (a % 2) (b % 2) + bit_or (a / 2) (b / 2) * 2
bit_or_step zero b = simp bit_or-bitwise (omega arith)
bit_or_step (suc a) b = simp bit_or-bitwise (bitwise-suc (λ y. y) max a b)

pub bit_and_step : (a b : ℕ) → bit_and a b ≡ min (a % 2) (b % 2) + bit_and (a / 2) (b / 2) * 2
bit_and_step zero b = simp bit_and-bitwise (omega arith)
bit_and_step (suc a) b = simp bit_and-bitwise (bitwise-suc (λ y. 0) min a b)

-- Digit `k` of `a`, least significant first.
unfoldable pub digit : ℕ → ℕ → ℕ
digit zero a = a % 2
digit (suc k) a = digit k (a / 2)

pub digit-bit_or : (k a b : ℕ) → digit k (bit_or a b) ≡ max (digit k a) (digit k b)
unfolding digit
digit-bit_or zero a b = omega (arith, bit_or_step a b)
digit-bit_or (suc k) a b =
    ap (digit k) (omega (arith, bit_or_step a b)) ∙ digit-bit_or k (a / 2) (b / 2)

pub digit-bit_and : (k a b : ℕ) → digit k (bit_and a b) ≡ min (digit k a) (digit k b)
unfolding digit
digit-bit_and zero a b = omega (arith, bit_and_step a b)
digit-bit_and (suc k) a b =
    ap (digit k) (omega (arith, bit_and_step a b)) ∙ digit-bit_and k (a / 2) (b / 2)

digit-zero : (k : ℕ) → digit k 0 ≡ 0
unfolding digit
digit-zero zero = refl
digit-zero (suc k) = digit-zero k

pub digit-lt : (k a : ℕ) → digit k a < 2
unfolding digit
digit-lt zero a = omega arith
digit-lt (suc k) a = digit-lt k (a / 2)

bit_and-zero : (k a : ℕ) → a ≤ k → bit_and a 0 ≡ 0
bit_and-zero zero zero h = refl
bit_and-zero zero (suc a) h = absurd (omega arith)
bit_and-zero (suc k) zero h = refl
bit_and-zero (suc k) (suc a) h =
    omega (arith, bit_and_step (suc a) 0, bit_and-zero k (suc a / 2) (omega arith))

bit_or-zero : (k a : ℕ) → a ≤ k → bit_or a 0 ≡ a
bit_or-zero zero zero h = refl
bit_or-zero zero (suc a) h = absurd (omega arith)
bit_or-zero (suc k) zero h = refl
bit_or-zero (suc k) (suc a) h =
    omega (arith, bit_or_step (suc a) 0, bit_or-zero k (suc a / 2) (omega arith))

-- `a & (1 << k)` is digit `k` at its place.
pub bit_and-power : (k a : ℕ) → bit_and a (2 ^ k) ≡ digit k a * 2 ^ k
unfolding digit
bit_and-power zero a = omega (arith, bit_and_step a 1, bit_and-zero (a / 2) (a / 2) (omega arith))
bit_and-power (suc k) a =
    grind (arith, two-pow-succ k, bit_and_step a (2 ^ suc k), bit_and-power k (a / 2))

-- `1 << j` has that one digit.
pub digit-power : (k j : ℕ) → digit k (2 ^ j) ≡ (if k == j then 1 else 0)
unfolding digit
digit-power zero zero = refl
digit-power zero (suc j) = ground (arith, two-pow-succ j)
digit-power (suc k) zero = digit-zero k ∙ ground arith
digit-power (suc k) (suc j) =
    ap (digit k) {x = 2 ^ suc j / 2} {y = 2 ^ j} (omega (arith, two-pow-succ j))
    ∙ digit-power k j
    ∙ ground arith

-- The complement of `m` in `n` digits.
pub digit-complement : (k n m : ℕ) → k < n → m < 2 ^ n → digit k (2 ^ n - 1 - m) + digit k m ≡ 1
unfolding digit
digit-complement k zero m h b = absurd (omega arith)
digit-complement zero (suc n) m h b = omega (arith, two-pow-succ n)
digit-complement (suc k) (suc n) m h b =
    rw (halved) (digit-complement k n (m / 2) (omega arith) (omega (arith, two-pow-succ n)))
  where
    halved : (2 ^ suc n - 1 - m) / 2 ≡ 2 ^ n - 1 - m / 2
    halved = omega (arith, two-pow-succ n)

double_mod : (a p : ℕ) → 0 < p → a % (p + p) ≡ a / 2 % p * 2 + a % 2
double_mod a p h =
    ap (λ t. t % (p + p)) split
    ∙ add-mul-mod_self_left (a / 2 % p * 2 + a % 2) (p + p) (a / 2 / p)
    ∙ mod-eq_of_lt (omega (arith, mod-lt (a / 2) h))
  where
    split : a ≡ a / 2 % p * 2 + a % 2 + (p + p) * (a / 2 / p)
    split = omega (arith, mod-add-div (a / 2) p)

-- `a & (2^k - 1)` is the remainder.
pub bit_and-ones : (k a : ℕ) → bit_and a (2 ^ k - 1) ≡ a % 2 ^ k
bit_and-ones zero a = omega (arith, bit_and-zero a a)
bit_and-ones (suc k) a = ground (
  arith,
  bit_and_step a (2 ^ suc k - 1),
  two-pow-succ k,
  one-le-pow k 2,
  bit_and-ones k (a / 2),
  double_mod a (2 ^ k),
)

shift_step :
    (a m p : ℕ)
    → bit_and (a / 2) (m * p) ≡ bit_and (a / 2 / p) m * p
    → bit_and a (m * (p + p)) ≡ bit_and (a / (p + p)) m * (p + p)
shift_step a m p ih =
    bit_and_step a (m * (p + p))
    ∙ ap (λ t. min (a % 2) (m * (p + p) % 2) + bit_and (a / 2) t * 2) {y = m * p} (omega arith)
    ∙ rw (ih, quotient) (omega arith)
  where
    quotient : a / 2 / p ≡ a / (p + p)
    quotient = div-div-eq-div-mul a 2 p ∙ ap (λ t. a / t) (omega arith)

-- A mask that stands `k` places up.
pub bit_and-shifted : (k a m : ℕ) → bit_and a (m * 2 ^ k) ≡ bit_and (a / 2 ^ k) m * 2 ^ k
bit_and-shifted zero a m = simp (mul-one, div-one)
bit_and-shifted (suc k) a m =
    rw (two-pow-succ k) (shift_step a m (2 ^ k) (bit_and-shifted k (a / 2) m))

-- `(q << k) | r` is a sum when `r` fits below.
pub bit_or-shifted : (k q r : ℕ) → r < 2 ^ k → bit_or (q * 2 ^ k) r ≡ q * 2 ^ k + r
bit_or-shifted zero q r h = ground (arith, bit_or-zero q q)
bit_or-shifted (suc k) q r h = ground (
  arith,
  bit_or_step (q * 2 ^ suc k) r,
  two-pow-succ k,
  ap (λ (t : ℕ). q * t) (two-pow-succ k),
  bit_or-shifted k q (r / 2),
)

-- The digits below `n` survive a cut to `n` digits.
pub digit-mod : (k n a : ℕ) → k < n → digit k (a % 2 ^ n) ≡ digit k a
unfolding digit
digit-mod k zero a h = absurd (omega arith)
digit-mod zero (suc n) a h =
    rw (two-pow-succ n) (omega (arith, double_mod a (2 ^ n) (one-le-pow n 2 (omega arith))))
digit-mod (suc k) (suc n) a h = ap (digit k) halved ∙ digit-mod k n (a / 2) (omega arith)
  where
    halved : a % 2 ^ suc n / 2 ≡ a / 2 % 2 ^ n
    halved =
        rw (two-pow-succ n) (omega (arith, double_mod a (2 ^ n) (one-le-pow n 2 (omega arith))))

bit_or_comm_below : (k a b : ℕ) → a ≤ k → b ≤ k → bit_or a b ≡ bit_or b a
bit_or_comm_below zero a b h g = let same : a ≡ b = omega arith in ap₂ bit_or same (sym same)
bit_or_comm_below (suc k) a b h g = omega (
  arith,
  bit_or_step a b,
  bit_or_step b a,
  bit_or_comm_below k (a / 2) (b / 2) (omega arith) (omega arith),
)

pub bit_or_comm : (a b : ℕ) → bit_or a b ≡ bit_or b a
bit_or_comm a b = bit_or_comm_below (a + b) a b (omega arith) (omega arith)
