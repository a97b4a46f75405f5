-- ===== src/IoMap/Divide.antt =====
-- divide64by32 divides.
use native.Mathlib.Nat.{
  mod-lt, div-add-mod, div-add-mod', div-eq_of_lt-le, div-le_self, mod-eq_of_lt, div-eq_of_lt,
  div-div-eq-div-mul,
}
use lite_forth.Common.{
  ℕ, zero, suc, ◌+◌, ◌-◌, ◌*◌, ◌/◌, ◌%◌, ◌^◌, ◌≤◌, ◌<◌, ◌≡◌, sym, ap, ◌∙◌, arith, bit_or,
  bit_or-shifted, leb, u32, pow_pos, double, pow_double, Bool-cases, inl, inr,
}
use lite_forth.IoMap.{shift_in, divide_bit, divide_bits, divide64by32}

-- A quotient and a remainder are known by their equation.
quotient_lem : (n d q r : ℕ) → r < d → n ≡ q * d + r → (n / d ≡ q) × (n % d ≡ r)
quotient_lem n d q r small e =
    let quotient : n / d ≡ q = div-eq_of_lt-le d (omega arith) (grind arith) in
    (quotient, omega (arith, div-add-mod n d, ap (λ (t : ℕ). d * t) quotient, mul_swap))
  where
    mul_swap : d * q ≡ q * d
    mul_swap = grind arith

-- A quotient with one more bit.
add_bit : (q i : ℕ) → q < 2 ^ 64 → bit_or (q * 2 ^ suc i) (2 ^ i) ≡ (2 * q + 1) * 2 ^ i
add_bit q i small =
    bit_or-shifted (suc i) q (2 ^ i) small (omega (arith, pow_double i, pow_pos i))
    ∙ omega (arith, double q i, spread)
  where
    spread : (2 * q + 1) * 2 ^ i ≡ 2 * (q * 2 ^ i) + 2 ^ i
    spread = grind arith

no_bit : (q i : ℕ) → q * 2 ^ suc i ≡ 2 * q * 2 ^ i
no_bit q i = omega (arith, double q i, spread)
  where
    spread : 2 * q * 2 ^ i ≡ 2 * (q * 2 ^ i)
    spread = grind arith

-- What the remainder and the quotient are with the bits below i still to come.
record IsPartial (dividend divisor i rem q : ℕ) : Type 0 where
  remainder : rem ≡ dividend / 2 ^ i % divisor
  quotient : q ≡ dividend / 2 ^ i / divisor * 2 ^ i

module _ (dividend divisor : ℕ) (wide : dividend < 2 ^ 64) (nonzero : 0 < divisor)
    (word : divisor < 2 ^ 32) where
  next_digit : (i : ℕ) → dividend / 2 ^ i ≡ 2 * (dividend / 2 ^ suc i) + dividend / 2 ^ i % 2
  next_digit i =
      let power : 2 ^ suc i ≡ 2 ^ i * 2 = omega (arith, pow_double i) in
      let e : dividend / 2 ^ suc i ≡ dividend / 2 ^ i / 2 =
        ap (λ (t : ℕ). dividend / t) power ∙ sym (div-div-eq-div-mul dividend (2 ^ i) 2) in
      omega (arith, e)

  shift_in_lem :
      (i rem : ℕ) → rem < divisor → shift_in dividend i rem ≡ 2 * rem + dividend / 2 ^ i % 2
  shift_in_lem i rem small =
      let wrap : rem * 2 % 2 ^ 64 ≡ rem * 2 = omega arith in
      rw wrap
        (omega (arith, bit_or-shifted 1 rem (dividend / 2 ^ i % 2) (omega arith) (omega arith)))

  round-subtracts :
      (i q r : ℕ)
      → r < divisor
      → dividend / 2 ^ suc i ≡ q * divisor + r
      → divisor ≤ 2 * r + dividend / 2 ^ i % 2
      → (dividend / 2 ^ i / divisor ≡ 2 * q + 1)
        × (dividend / 2 ^ i % divisor ≡ 2 * r + dividend / 2 ^ i % 2 - divisor)
  round-subtracts i q r small e h =
      quotient_lem (dividend / 2 ^ i) divisor (2 * q + 1) (2 * r + dividend / 2 ^ i % 2 - divisor)
        (omega arith) (omega (arith, next_digit i, spread))
    where
      spread : (2 * q + 1) * divisor ≡ 2 * (q * divisor) + divisor
      spread = grind arith

  round-keeps :
      (i q r : ℕ)
      → dividend / 2 ^ suc i ≡ q * divisor + r
      → 2 * r + dividend / 2 ^ i % 2 < divisor
      → (dividend / 2 ^ i / divisor ≡ 2 * q)
        × (dividend / 2 ^ i % divisor ≡ 2 * r + dividend / 2 ^ i % 2)
  round-keeps i q r e h =
      quotient_lem (dividend / 2 ^ i) divisor (2 * q) (2 * r + dividend / 2 ^ i % 2) h
        (omega (arith, next_digit i, spread))
    where
      spread : 2 * q * divisor ≡ 2 * (q * divisor)
      spread = grind arith

  -- A round takes one more bit into account.
  divide_bit-IsPartial :
      (i : ℕ) (s : ℕ × ℕ)
      → i < 64
      → IsPartial dividend divisor (suc i) s.0 s.1
      → IsPartial dividend divisor i
          (divide_bit dividend divisor i s).0
          (divide_bit dividend divisor i s).1
  divide_bit-IsPartial i (rem, q) small h =
      let above = dividend / 2 ^ suc i in
      let start : rem < divisor = omega (arith, h.remainder, mod-lt above nonzero) in
      let split : above ≡ above / divisor * divisor + rem =
        omega (arith, h.remainder, div-add-mod' above divisor) in
      rw (shift_in_lem i rem start)
        (elim (Bool-cases (leb divisor (2 * rem + dividend / 2 ^ i % 2))) [
          | inl subtracts ↦
              (let (quotient, remainder) =
                  round-subtracts i (above / divisor) rem start split (ground arith) in
                rw (subtracts, h.quotient)
                  (record {
                    remainder = omega (arith, remainder);
                    quotient = rw quotient (
                        add_bit (above / divisor) i (
                          omega
                            (arith, div-le_self above divisor, div-le_self dividend (2 ^ suc i))));
                  }))
          | inr keeps ↦
              (let (quotient, remainder) =
                  round-keeps i (above / divisor) rem split (ground arith) in
                rw (keeps, h.quotient)
                  (record {
                    remainder = omega (arith, remainder);
                    quotient = rw quotient (no_bit (above / divisor) i);
                  }))
        ])

  divide_bits-IsPartial :
      (i : ℕ) (s : ℕ × ℕ)
      → i ≤ 64
      → IsPartial dividend divisor i s.0 s.1
      → IsPartial dividend divisor 0
          (divide_bits dividend divisor i s).0
          (divide_bits dividend divisor i s).1
  unfolding divide_bits
  divide_bits-IsPartial zero s small h = h
  divide_bits-IsPartial (suc i) s small h =
      divide_bits-IsPartial i (divide_bit dividend divisor i s) (omega arith)
        (divide_bit-IsPartial i s small h)

  start-IsPartial : IsPartial dividend divisor 64 0 0
  start-IsPartial =
      let e : dividend / 2 ^ 64 ≡ 0 = omega arith in
      record {
        remainder = sym (ap (λ (t : ℕ). t % divisor) e ∙ omega (arith, mod-eq_of_lt nonzero));
        quotient =
            sym (ap (λ (t : ℕ). t / divisor * 2 ^ 64) e ∙ omega (arith, div-eq_of_lt nonzero));
      }

  -- divide64by32 of a 64-bit number by a word that is not 0 gives the quotient and the remainder.
  pub divide64by32_lem : divide64by32 dividend divisor ≡ (dividend / divisor, dividend % divisor)
  unfolding divide64by32
  divide64by32_lem =
      let done = divide_bits-IsPartial 64 (0, 0) (omega arith) start-IsPartial in
      let whole : dividend / 2 ^ 0 ≡ dividend = omega arith in
      let q = done.quotient ∙ ap (λ (t : ℕ). t / divisor * 2 ^ 0) whole in
      let r = done.remainder ∙ ap (λ (t : ℕ). t % divisor) whole in
      let remainder : u32 (dividend % divisor) ≡ dividend % divisor =
        omega (arith, word, mod-lt dividend nonzero) in
      rw (q, r, remainder) (ap (λ (t : ℕ). (t, dividend % divisor)) (omega arith))
