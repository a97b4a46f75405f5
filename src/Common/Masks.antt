-- ===== src/Common/Masks.antt =====
-- `|` of shifted numbers and `&` with masks, as arithmetic.
use Prim.Native.Nat.{ℕ, zero, suc, ◌+◌, ◌-◌, ◌*◌, ◌/◌, ◌%◌, ◌^◌, ◌<◌, bit_and, bit_or}
use mathlib.Core.Path.{◌≡◌, refl, ap}
use native.Mathlib.Omega.{arith}
use lite_forth.Common.Bits.{
  bit_and_step, bit_or_step, zero-bit_and, pow_double, pow_pos, double, div_double, mod_double,
}

bit_or_zero : (k a : ℕ) → a < 2 ^ k → bit_or a 0 ≡ a
bit_or_zero zero zero p = refl
bit_or_zero zero (suc a) p = absurd (omega arith)
bit_or_zero (suc k) a p =
    omega (arith, bit_or_step a 0, bit_or_zero k (a / 2) (omega (arith, pow_double k)))

-- `|` of a number shifted left by k and one of k digits is their sum.
pub bit_or-shifted : (k q r : ℕ) → q < 2 ^ 64 → r < 2 ^ k → bit_or (q * 2 ^ k) r ≡ q * 2 ^ k + r
bit_or-shifted zero q zero b p =
    let e : q * 2 ^ 0 ≡ q = omega arith in rw e (omega (arith, bit_or_zero 64 q b))
bit_or-shifted zero q (suc r) b p = absurd (omega arith)
bit_or-shifted (suc k) q r b p = omega (
  arith,
  bit_or_step (q * 2 ^ suc k) r,
  double,
  ap (λ t. bit_or t (r / 2)) halve,
  bit_or-shifted k q (r / 2) b (omega (arith, pow_double k)),
)
  where
    double : q * 2 ^ suc k ≡ 2 * (q * 2 ^ k)
    double = omega (arith, ap (λ (t : ℕ). q * t) (pow_double k))

    halve : q * 2 ^ suc k / 2 ≡ q * 2 ^ k
    halve = omega (arith, double)

bit_and-none_below : (bound x : ℕ) → x < bound → bit_and x 0 ≡ 0
bit_and-none_below zero x h = absurd (omega arith)
bit_and-none_below (suc bound) zero h = zero-bit_and 0
bit_and-none_below (suc bound) (suc x) h =
    omega (arith, bit_and_step (suc x) 0, bit_and-none_below bound (suc x / 2) (omega arith))

bit_and-none : (x : ℕ) → bit_and x 0 ≡ 0
bit_and-none x = bit_and-none_below (suc x) x (omega arith)

-- `&` with a mask of k ones is the remainder by 2 ^ k.
pub bit_and-mask : (k a : ℕ) → bit_and a (2 ^ k - 1) ≡ a % 2 ^ k
bit_and-mask zero a = omega (arith, bit_and-none a)
bit_and-mask (suc k) a = omega (
  arith,
  bit_and_step a (2 ^ suc k - 1),
  pow_double k,
  pow_pos k,
  ap (bit_and (a / 2)) half,
  bit_and-mask k (a / 2),
  mod_double k a,
)
  where
    half : (2 ^ suc k - 1) / 2 ≡ 2 ^ k - 1
    half = omega (arith, pow_double k, pow_pos k)

-- `&` with k ones shifted left by s keeps those k digits.
pub bit_and-field : (s k a : ℕ) → bit_and a ((2 ^ k - 1) * 2 ^ s) ≡ a / 2 ^ s % 2 ^ k * 2 ^ s
bit_and-field zero k a =
    let e : (2 ^ k - 1) * 2 ^ 0 ≡ 2 ^ k - 1 = omega arith in
    let d : a / 2 ^ 0 ≡ a = omega arith in rw (e, d) (omega (arith, bit_and-mask k a))
bit_and-field (suc s) k a = omega (
  arith,
  bit_and_step a ((2 ^ k - 1) * 2 ^ suc s),
  double (2 ^ k - 1) s,
  double (a / 2 ^ suc s % 2 ^ k) s,
  ap (bit_and (a / 2)) half,
  bit_and-field s k (a / 2),
  ap (λ t. t % 2 ^ k * 2 ^ s) (div_double s a),
)
  where
    half : (2 ^ k - 1) * 2 ^ suc s / 2 ≡ (2 ^ k - 1) * 2 ^ s
    half = omega (arith, double (2 ^ k - 1) s)

-- `&` with ones everywhere but at k digits from p on keeps the p digits below and those above.
pub bit_and_clear :
    (p s k a : ℕ)
    → bit_and a ((2 ^ k - 1) * 2 ^ s * 2 ^ p + (2 ^ p - 1))
      ≡ (a / 2 ^ p / 2 ^ s % 2 ^ k * 2 ^ s) * 2 ^ p + a % 2 ^ p
bit_and_clear zero s k a =
    let e : (2 ^ k - 1) * 2 ^ s * 2 ^ 0 + (2 ^ 0 - 1) ≡ (2 ^ k - 1) * 2 ^ s = omega arith in
    let d : a / 2 ^ 0 ≡ a = omega arith in rw (e, d) (omega (arith, bit_and-field s k a))
bit_and_clear (suc p) s k a = omega (
  arith,
  bit_and_step a (above * 2 ^ suc p + (2 ^ suc p - 1)),
  pow_double p,
  pow_pos p,
  double above p,
  double (a / 2 ^ suc p / 2 ^ s % 2 ^ k * 2 ^ s) p,
  ap (bit_and (a / 2)) half,
  bit_and_clear p s k (a / 2),
  ap (λ t. (t / 2 ^ s % 2 ^ k * 2 ^ s) * 2 ^ p) (div_double p a),
  mod_double p a,
)
  where
    above : ℕ
    above = (2 ^ k - 1) * 2 ^ s

    half : (above * 2 ^ suc p + (2 ^ suc p - 1)) / 2 ≡ above * 2 ^ p + (2 ^ p - 1)
    half = omega (arith, double above p, pow_double p, pow_pos p)
