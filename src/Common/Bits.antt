-- ===== src/Common/Bits.antt =====
-- Laws of `&`, `|` and `^` at variables, from the law of the lowest binary digit.
use Prim.Native.Nat.{
  ℕ, zero, suc, ◌+◌, ◌*◌, ◌/◌, ◌%◌, ◌^◌, ◌≤◌, ◌<◌, min, max, bit_and, bit_or, bit_xor, digits,
  differ, bit_and-bitwise, bit_or-bitwise, bit_xor-bitwise,
}
use mathlib.Core.Path.{◌≡◌, refl, sym, ◌∙◌, ap}
use native.Mathlib.Nat.{pow-succ', one-le-pow, div-div-eq-div-mul}
use native.Mathlib.Omega.{arith}

-- The recursion on digits does not depend on its fuel, once that is enough.
module _ (z : ℕ → ℕ) (f : ℕ → ℕ → ℕ) where
  digits-enough : (m n a b : ℕ) → a ≤ m → a ≤ n → digits z f m a b ≡ digits z f n a b
  digits-enough m n zero b p q = stop m ∙ sym (stop n)
    where
      stop : (k : ℕ) → digits z f k 0 b ≡ z b
      stop zero = refl
      stop (suc k) = refl
  digits-enough zero n (suc a) b p q = absurd (omega arith)
  digits-enough (suc m) zero (suc a) b p q = absurd (omega arith)
  digits-enough (suc m) (suc n) (suc a) b p q =
      ap (λ t. t * 2 + f (suc a % 2) (b % 2))
        (digits-enough m n (suc a / 2) (b / 2) (omega arith) (omega arith))

  -- The lowest digit of the result comes from the lowest digits.
  digits_step :
      (x y : ℕ)
      → f (suc x % 2) (y % 2) + 2 * digits z f (suc x / 2) (suc x / 2) (y / 2)
        ≡ digits z f (suc x) (suc x) y
  digits_step x y =
      let e = digits-enough x (suc x / 2) (suc x / 2) (y / 2) (omega arith) (omega arith) in
      omega (arith, ap (λ t. t * 2 + f (suc x % 2) (y % 2)) e)

pub bit_xor_step : (x y : ℕ) → differ (x % 2) (y % 2) + 2 * bit_xor (x / 2) (y / 2) ≡ bit_xor x y
bit_xor_step zero y = simp bit_xor-bitwise (omega arith)
bit_xor_step (suc x) y = simp bit_xor-bitwise (digits_step (λ t. t) differ x y)

pub bit_and_step : (x y : ℕ) → min (x % 2) (y % 2) + 2 * bit_and (x / 2) (y / 2) ≡ bit_and x y
bit_and_step zero y = simp bit_and-bitwise (omega arith)
bit_and_step (suc x) y = simp bit_and-bitwise (digits_step (λ t. zero) min x y)

pub bit_or_step : (x y : ℕ) → max (x % 2) (y % 2) + 2 * bit_or (x / 2) (y / 2) ≡ bit_or x y
bit_or_step zero y = simp bit_or-bitwise (omega arith)
bit_or_step (suc x) y = simp bit_or-bitwise (digits_step (λ t. t) max x y)

-- `differ` on two digits
differ_digits : (x y : ℕ) → x < 2 → y < 2 → differ x y ≡ (x + y) % 2
differ_digits zero y p q = omega arith
differ_digits (suc zero) zero p q = refl
differ_digits (suc zero) (suc zero) p q = refl
differ_digits (suc zero) (suc (suc y)) p q = absurd (omega arith)
differ_digits (suc (suc x)) y p q = absurd (omega arith)

pub bit_xor_digit : (a b : ℕ) → bit_xor a b ≡ bit_xor (a / 2) (b / 2) * 2 + (a % 2 + b % 2) % 2
bit_xor_digit a b =
    omega (arith, bit_xor_step a b, differ_digits (a % 2) (b % 2) (omega arith) (omega arith))

pub pow_double : (k : ℕ) → 2 ^ suc k ≡ 2 * 2 ^ k
pow_double k = pow-succ' 2 k

pub pow_pos : (k : ℕ) → 0 < 2 ^ k
pow_pos k = one-le-pow k 2 (omega arith)

pub double : (q k : ℕ) → q * 2 ^ suc k ≡ 2 * (q * 2 ^ k)
double q k = omega (arith, ap (λ (t : ℕ). q * t) (pow_double k))

pub div_double : (k a : ℕ) → a / 2 ^ suc k ≡ a / 2 / 2 ^ k
div_double k a = rw (pow_double k) (sym (div-div-eq-div-mul a 2 (2 ^ k)))

pub mod_double : (k a : ℕ) → a % 2 ^ suc k ≡ 2 * (a / 2 % 2 ^ k) + a % 2
mod_double k a = omega (
  arith,
  pow_pos k,
  ap (λ (t : ℕ). 2 ^ suc k * t) (div_double k a),
  ap (λ (t : ℕ). t * (a / 2 / 2 ^ k)) (pow_double k),
)

-- `^` digit by digit: the digits from k on come from the digits from k on.
pub bit_xor-div : (k a b : ℕ) → bit_xor a b / 2 ^ k ≡ bit_xor (a / 2 ^ k) (b / 2 ^ k)
bit_xor-div zero a b = whole ∙ sym (ap (λ (t : ℕ). bit_xor t (b / 2 ^ 0)) p ∙ ap (bit_xor a) q)
  where
    whole : bit_xor a b / 2 ^ 0 ≡ bit_xor a b
    whole = omega arith

    p : a / 2 ^ 0 ≡ a
    p = omega arith

    q : b / 2 ^ 0 ≡ b
    q = omega arith
bit_xor-div (suc k) a b =
    div_double k (bit_xor a b)
    ∙ ap (λ (t : ℕ). t / 2 ^ k) half
    ∙ bit_xor-div k (a / 2) (b / 2)
    ∙ sym (
        ap (λ (t : ℕ). bit_xor t (b / 2 ^ suc k)) (div_double k a)
        ∙ ap (bit_xor (a / 2 / 2 ^ k)) (div_double k b))
  where
    half : bit_xor a b / 2 ≡ bit_xor (a / 2) (b / 2)
    half = omega (arith, bit_xor_digit a b)

-- Each operation on two numbers of k digits gives a number of k digits.
pub bit_xor-lt : (k a b : ℕ) → a < 2 ^ k → b < 2 ^ k → bit_xor a b < 2 ^ k
bit_xor-lt zero zero zero p q = omega arith
bit_xor-lt zero (suc a) b p q = absurd (omega arith)
bit_xor-lt zero zero (suc b) p q = absurd (omega arith)
bit_xor-lt (suc k) a b p q = omega (
  arith,
  bit_xor_digit a b,
  pow_double k,
  bit_xor-lt k (a / 2) (b / 2) (omega (arith, pow_double k)) (omega (arith, pow_double k)),
)

pub bit_or-lt : (k a b : ℕ) → a < 2 ^ k → b < 2 ^ k → bit_or a b < 2 ^ k
bit_or-lt zero zero zero p q = omega arith
bit_or-lt zero (suc a) b p q = absurd (omega arith)
bit_or-lt zero zero (suc b) p q = absurd (omega arith)
bit_or-lt (suc k) a b p q = omega (
  arith,
  bit_or_step a b,
  pow_double k,
  bit_or-lt k (a / 2) (b / 2) (omega (arith, pow_double k)) (omega (arith, pow_double k)),
)

pub zero-bit_and : (b : ℕ) → bit_and 0 b ≡ 0
zero-bit_and b = bit_and-bitwise 0 b

pub bit_and-le : (k a b : ℕ) → a < 2 ^ k → bit_and a b ≤ a
bit_and-le zero zero b p = omega (arith, zero-bit_and b)
bit_and-le zero (suc a) b p = absurd (omega arith)
bit_and-le (suc k) a b p =
    omega (arith, bit_and_step a b, bit_and-le k (a / 2) (b / 2) (omega (arith, pow_double k)))

-- `^` with the same number twice gives the first number back.
pub bit_xor_cancel : (k a b : ℕ) → a < 2 ^ k → b < 2 ^ k → bit_xor (bit_xor a b) b ≡ a
bit_xor_cancel zero zero zero p q = refl
bit_xor_cancel zero (suc a) b p q = absurd (omega arith)
bit_xor_cancel zero zero (suc b) p q = absurd (omega arith)
bit_xor_cancel (suc k) a b p q = omega (
  arith,
  bit_xor_digit a b,
  bit_xor_digit (bit_xor a b) b,
  ap (λ t. bit_xor t (b / 2)) half,
  bit_xor_cancel k (a / 2) (b / 2) (omega (arith, pow_double k)) (omega (arith, pow_double k)),
)
  where
    half : bit_xor a b / 2 ≡ bit_xor (a / 2) (b / 2)
    half = omega (arith, bit_xor_digit a b)

pub bit_or_comm : (k a b : ℕ) → a < 2 ^ k → b < 2 ^ k → bit_or a b ≡ bit_or b a
bit_or_comm zero zero zero p q = refl
bit_or_comm zero (suc a) b p q = absurd (omega arith)
bit_or_comm zero zero (suc b) p q = absurd (omega arith)
bit_or_comm (suc k) a b p q = omega (
  arith,
  bit_or_step a b,
  bit_or_step b a,
  bit_or_comm k (a / 2) (b / 2) (omega (arith, pow_double k)) (omega (arith, pow_double k)),
)

pub bit_xor_comm : (k a b : ℕ) → a < 2 ^ k → b < 2 ^ k → bit_xor a b ≡ bit_xor b a
bit_xor_comm zero zero zero p q = refl
bit_xor_comm zero (suc a) b p q = absurd (omega arith)
bit_xor_comm zero zero (suc b) p q = absurd (omega arith)
bit_xor_comm (suc k) a b p q = omega (
  arith,
  bit_xor_digit a b,
  bit_xor_digit b a,
  bit_xor_comm k (a / 2) (b / 2) (omega (arith, pow_double k)) (omega (arith, pow_double k)),
)
