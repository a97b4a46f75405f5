-- ===== src/Common/Fields.antt =====
-- Bit fields of a word at a variable place: taking one out, and putting one in.
use Prim.Native.Nat.{ℕ, zero, suc, ◌+◌, ◌-◌, ◌*◌, ◌/◌, ◌%◌, ◌^◌, ◌≤◌, ◌<◌, bit_and, bit_or}
use mathlib.Core.Path.{◌≡◌, sym, ◌∙◌, ap}
use native.Mathlib.Nat.{
  mul_comm, add-mul-div_right, add-mul-mod_self_right, mod-eq_of_lt, div-eq_of_lt, mod-lt,
  div-lt_iff_lt-mul, mul-le-mul_left, div-le_self, div-mul-le_self,
}
use native.Mathlib.Omega.{arith}
use lite_forth.Common.Masks.{bit_or-shifted, bit_and_clear}
use lite_forth.Common.Bits.{bit_or_step, bit_or_comm, pow_double, pow_pos, double}
use lite_forth.Common.Words.{not32}

pub pow_add : (a b : ℕ) → 2 ^ (a + b) ≡ 2 ^ a * 2 ^ b
pow_add zero b = let e : 0 + b ≡ b = omega arith in rw e (omega arith)
pow_add (suc a) b =
    let e : suc a + b ≡ suc (a + b) = omega arith in
    rw e (
      omega (
        arith,
        pow_double (a + b),
        pow_double a,
        pow_add a b,
        ap (λ (t : ℕ). t * 2 ^ b) (pow_double a),
      ))

-- `|` above p digits that only one side has.
pub bit_or_above :
    (p x y lo : ℕ) → lo < 2 ^ p → bit_or (x * 2 ^ p) (y * 2 ^ p + lo) ≡ bit_or x y * 2 ^ p + lo
bit_or_above zero x y lo h =
    let ex : x * 2 ^ 0 ≡ x = omega arith in
    let ey : y * 2 ^ 0 + lo ≡ y = omega arith in rw (ex, ey) (omega arith)
bit_or_above (suc p) x y lo h = omega (
  arith,
  bit_or_step (x * 2 ^ suc p) (y * 2 ^ suc p + lo),
  double x p,
  double y p,
  double (bit_or x y) p,
  ap (λ t. bit_or t ((y * 2 ^ suc p + lo) / 2)) half_x,
  ap (λ t. bit_or (x * 2 ^ p) t) half_y,
  bit_or_above p x y (lo / 2) (omega (arith, pow_double p)),
)
  where
    half_x : x * 2 ^ suc p / 2 ≡ x * 2 ^ p
    half_x = omega (arith, double x p)

    half_y : (y * 2 ^ suc p + lo) / 2 ≡ y * 2 ^ p + lo / 2
    half_y = omega (arith, double y p)

-- A word in three parts around a field of w digits from p on.
pub join : ℕ → ℕ → ℕ → ℕ → ℕ → ℕ
join p w high field low = (high * 2 ^ w + field) * 2 ^ p + low

module _ (p w high field low : ℕ) (l : low < 2 ^ p) where
  pub join-above : join p w high field low / 2 ^ p ≡ high * 2 ^ w + field
  unfolding join
  join-above =
      let turned : (high * 2 ^ w + field) * 2 ^ p + low ≡ low + (high * 2 ^ w + field) * 2 ^ p =
        omega arith in
      rw (turned, add-mul-div_right low (high * 2 ^ w + field) (pow_pos p), div-eq_of_lt l)
        (omega arith)

  pub join-low : join p w high field low % 2 ^ p ≡ low
  unfolding join
  join-low =
      let turned : (high * 2 ^ w + field) * 2 ^ p + low ≡ low + (high * 2 ^ w + field) * 2 ^ p =
        omega arith in
      rw (turned, add-mul-mod_self_right low (high * 2 ^ w + field) (2 ^ p)) (mod-eq_of_lt l)

  pub join-field : field < 2 ^ w → join p w high field low / 2 ^ p % 2 ^ w ≡ field
  join-field f =
      let turned : high * 2 ^ w + field ≡ field + high * 2 ^ w = omega arith in
      rw (join-above, turned, add-mul-mod_self_right field high (2 ^ w)) (mod-eq_of_lt f)

  pub join-high : field < 2 ^ w → join p w high field low / 2 ^ p / 2 ^ w ≡ high
  join-high f =
      let turned : high * 2 ^ w + field ≡ field + high * 2 ^ w = omega arith in
      rw (join-above, turned, add-mul-div_right field high (pow_pos w), div-eq_of_lt f)
        (omega arith)

-- The complement of w ones from p on, in a word of p + w + q digits.
mask_complement :
    (p w q : ℕ)
    → p + w + q ≡ 32
    → not32 ((2 ^ w - 1) * 2 ^ p) ≡ (2 ^ q - 1) * 2 ^ w * 2 ^ p + (2 ^ p - 1)
mask_complement p w q h =
    let one_w : 2 ^ w ≡ (2 ^ w - 1) + 1 = omega (arith, pow_pos w) in
    let one_q : 2 ^ q ≡ (2 ^ q - 1) + 1 = omega (arith, pow_pos q) in
    let whole : 2 ^ w * 2 ^ p * 2 ^ q ≡ 2 ^ 32 =
      ap (λ (t : ℕ). t * 2 ^ q) (mul_comm (2 ^ w) (2 ^ p) ∙ sym (pow_add p w))
      ∙ sym (pow_add (p + w) q)
      ∙ ap (λ (t : ℕ). 2 ^ t) h in
    omega (
      arith,
      whole,
      pow_pos p,
      ap (λ (t : ℕ). t * 2 ^ p) one_w,
      ap (λ (t : ℕ). t * (2 ^ w * 2 ^ p)) one_q,
    )

pow_le : (p w q : ℕ) → p + w + q ≡ 32 → 2 ^ w ≤ 2 ^ 32
pow_le p w q h =
    let rest : w + (p + q) ≡ 32 = omega arith in
    omega (
      arith,
      ap (λ (t : ℕ). 2 ^ t) rest,
      pow_add w (p + q),
      mul-le-mul_left (2 ^ w) (pow_pos (p + q)),
    )

high_lt : (p w q old : ℕ) → p + w + q ≡ 32 → old < 2 ^ 32 → old / 2 ^ p / 2 ^ w < 2 ^ q
high_lt p w q old h word = (div-lt_iff_lt-mul (pow_pos w)).1 (
    (div-lt_iff_lt-mul (pow_pos p)).1 (
      omega (
        arith,
        ap (λ (t : ℕ). 2 ^ t) h,
        pow_add (p + w) q,
        ap (λ (t : ℕ). t * 2 ^ q) (pow_add p w),
      )))

-- Putting a field in by `&` with the complement of its mask and `|`.
pub put_field :
    (p w q old v : ℕ)
    → p + w + q ≡ 32
    → old < 2 ^ 32
    → v < 2 ^ w
    → bit_or (v * 2 ^ p) (bit_and old (not32 ((2 ^ w - 1) * 2 ^ p)))
      ≡ join p w (old / 2 ^ p / 2 ^ w) v (old % 2 ^ p)
unfolding join
put_field p w q old v h word fits = rw (
  mask_complement p w q h,
  bit_and_clear p w q old,
  mod-eq_of_lt (high_lt p w q old h word),
  bit_or_above p v (high * 2 ^ w) (old % 2 ^ p) (mod-lt old (pow_pos p)),
  bit_or_comm 32 v (high * 2 ^ w) (omega (arith, pow_le p w q h)) low_high,
  bit_or-shifted w high v (omega (arith, high_le)) fits,
)
  where
    high : ℕ
    high = old / 2 ^ p / 2 ^ w

    high_le : high ≤ old
    high_le = omega (arith, div-le_self old (2 ^ p), div-le_self (old / 2 ^ p) (2 ^ w))

    low_high : high * 2 ^ w < 2 ^ 32
    low_high = omega (arith, div-le_self old (2 ^ p), div-mul-le_self (old / 2 ^ p) (2 ^ w))
