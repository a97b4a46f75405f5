-- ===== src/IoMap/Product.antt =====
-- The math unit's products, against multiplication.
use native.Mathlib.Nat.{mul-le-mul, mul_comm, mod-lt}
use lite_forth.Common.{
  ℕ, ◌+◌, ◌-◌, ◌*◌, ◌/◌, ◌%◌, ◌^◌, ◌≤◌, ◌<◌, ◌≡◌, sym, ap, ◌∙◌, arith, true, false, leb, u32,
  IsWord, bit_xor, bit_xor-div, bit_xor-lt, bit_xor_digit, Bool-cases, inl, inr,
}
use lite_forth.IoMap.{Unit32, is_negative, negate64, differs, negate32, widen, product, multiply}

-- The product of words fits 64 bits.
pub product_bound : (a b : ℕ) → IsWord a → IsWord b → a * b < 2 ^ 64
product_bound a b p q =
    let top : a * b ≤ (2 ^ 32 - 1) * (2 ^ 32 - 1) =
      mul-le-mul {n₂ = 2 ^ 32 - 1} {m₂ = 2 ^ 32 - 1} (omega arith) (omega arith) in
    omega (arith, top)

-- The parts of a product of the unit put together again.
parts : (p : ℕ) → p < 2 ^ 64 → u32 p + u32 (p / 2 ^ 32) * 2 ^ 32 ≡ p
parts p h = omega arith

-- um* leaves the product of the unsigned operands in Y1:Y0.
pub multiply-unsigned :
    (tos : ℕ) (u : Unit32)
    → IsWord tos
    → IsWord u.a0
    → (multiply tos false u).y0 + (multiply tos false u).y1 * 2 ^ 32 ≡ u.a0 * tos
unfolding multiply product
multiply-unsigned tos u p q = parts (u.a0 * tos) (product_bound u.a0 tos q p)

-- The sign bit of `^` says whether the signs differ.
xor_signs : (a b : ℕ) → IsWord a → IsWord b → bit_xor a b / 2 ^ 31 ≡ (a / 2 ^ 31 + b / 2 ^ 31) % 2
xor_signs a b p q =
    let none : bit_xor (a / 2 ^ 31 / 2) (b / 2 ^ 31 / 2) ≡ 0 =
      omega (arith, bit_xor-lt 0 (a / 2 ^ 31 / 2) (b / 2 ^ 31 / 2) (omega arith) (omega arith)) in
    bit_xor-div 31 a b ∙ omega (arith, bit_xor_digit (a / 2 ^ 31) (b / 2 ^ 31), none)

-- The product of 64-bit patterns of which one, or each, is negative.
one_negative : (k a n : ℕ) → k + a ≡ 2 ^ 64 → a * n < 2 ^ 64 → k * n % 2 ^ 64 ≡ negate64 (a * n)
one_negative k a n e small = omega (arith, ap (λ (t : ℕ). t * n) e, spread)
  where
    spread : (k + a) * n ≡ k * n + a * n
    spread = grind arith

both_negative :
    (k a l b : ℕ) → k + a ≡ 2 ^ 64 → l + b ≡ 2 ^ 64 → a * b < 2 ^ 64 → k * l % 2 ^ 64 ≡ a * b
both_negative k a l b e f small =
    omega (arith, ap (λ (t : ℕ). k * t) f, ap (λ (t : ℕ). t * b) e, spread, spread')
  where
    spread : k * (l + b) ≡ k * l + k * b
    spread = grind arith

    spread' : (k + a) * b ≡ k * b + a * b
    spread' = grind arith

abbrev widen_negative : ℕ → ℕ
widen_negative v = v + (2 ^ 64 - 2 ^ 32)

complement : (v : ℕ) → IsWord v → is_negative v ≡ true → widen_negative v + negate32 v ≡ 2 ^ 64
complement v p negative = ground arith

module _ (m n : ℕ) (p : IsWord m) (q : IsWord n) where
  pub inverts : leb (2 ^ 31) (bit_xor m n) ≡ differs (is_negative m) (is_negative n)
  inverts = ground (arith, xor_signs m n p q)

  -- The code's signed product, from the magnitudes and the signs, is that of the widened operands.
  pub product_lem : product true m n ≡ widen m * widen n % 2 ^ 64
  unfolding product
  product_lem = elim (Bool-cases (is_negative m)) [
    | inl m_negative ↦ elim (Bool-cases (is_negative n)) [
      | inl n_negative ↦
          rw (inverts, m_negative, n_negative)
            (sym (
              both_negative (widen_negative m) (negate32 m) (widen_negative n) (negate32 n)
                (complement m p m_negative) (complement n q n_negative)
                (product_bound (negate32 m) (negate32 n) (omega arith) (omega arith))))
      | inr n_positive ↦
          rw (inverts, m_negative, n_positive)
            (sym (
              one_negative (widen_negative m) (negate32 m) n (complement m p m_negative)
                (product_bound (negate32 m) n (omega arith) q)))
    ]
    | inr m_positive ↦ elim (Bool-cases (is_negative n)) [
      | inl n_negative ↦
          rw (inverts, m_positive, n_negative)
            (sym (
              ap (λ (t : ℕ). t % 2 ^ 64) (mul_comm m (widen_negative n))
              ∙ one_negative (widen_negative n) (negate32 n) m (complement n q n_negative)
                  (product_bound (negate32 n) m (omega arith) p)
              ∙ ap (λ (t : ℕ). negate64 t) (mul_comm (negate32 n) m)))
      | inr n_positive ↦ rw (inverts, m_positive, n_positive) (omega (arith, product_bound m n p q))
    ]
  ]

-- m* leaves the 64-bit product of the signed operands in Y1:Y0, as its two's complement.
multiply-signed :
    (tos : ℕ) (u : Unit32)
    → IsWord tos
    → IsWord u.a0
    → (multiply tos true u).y0 + (multiply tos true u).y1 * 2 ^ 32 ≡ widen u.a0 * widen tos % 2 ^ 64
unfolding multiply
multiply-signed tos u p q =
    let e = product_lem u.a0 tos q p in rw e (parts _ (mod-lt _ (omega arith)))
