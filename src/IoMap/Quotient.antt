-- ===== src/IoMap/Quotient.antt =====
-- The math unit's divisions, against quotients and remainders.
use native.Mathlib.Nat.{mul-le-mul, zero-div, zero-mod, mod-lt, div-add-mod', div-le_self}
use lite_forth.Common.{
  ℕ, ◌+◌, ◌*◌, ◌/◌, ◌%◌, ◌^◌, ◌≤◌, ◌<◌, ◌≡◌, ◌≢◌, refl, sym, ap, ◌∙◌, arith, Bool, true, false, not,
  ◌&&◌, leb, ◌==◌, ==_iff, if◌then◌else◌, u32, IsWord, Bool-cases, inl, inr,
}
use lite_forth.IoMap.{
  Unit32, division_by_zero, is_negative, negate32, negate64, magnitude, differs, product,
  dividend_of, mudivmod, stardivmod,
}
use lite_forth.IoMap.Divide.{divide64by32_lem}
use lite_forth.IoMap.Product.{product_lem, inverts}

-- mu/mod, with a divisor that is not 0, succeeds: the quotient in Y1:Y0 times the divisor A1, and
-- the remainder in Y2, give A0:tos, and the remainder is below the divisor.
mudivmod_lem :
    (tos : ℕ) (u : Unit32)
    → IsWord tos
    → IsWord u.a0
    → IsWord u.a1
    → u.a1 ≢ 0
    → let (ior, v) = mudivmod tos u in
      (ior ≡ 0) × ((v.y0 + v.y1 * 2 ^ 32) * u.a1 + v.y2 ≡ u.a0 * 2 ^ 32 + tos) × (v.y2 < u.a1)
unfolding mudivmod
mudivmod_lem tos u p q r nonzero =
    let n = u.a0 * 2 ^ 32 + tos in
    let wide : n < 2 ^ 64 = omega arith in
    let test : (u.a1 == 0) ≡ false = ground arith in
    let joined : u32 (n / u.a1) + u32 (n / u.a1 / 2 ^ 32) * 2 ^ 32 ≡ n / u.a1 =
      omega (arith, div-le_self n u.a1) in
    rw (divide64by32_lem n u.a1 wide (omega arith) r, test, joined)
      (refl, div-add-mod' n u.a1, mod-lt n (omega arith))

-- A divisor of 0 starts neither operation.
pub division_by_zero_lem :
    (tos : ℕ) (u : Unit32)
    → u.a1 ≡ 0
    → (mudivmod tos u ≡ (division_by_zero, u)) × (stardivmod tos u ≡ (division_by_zero, u))
unfolding mudivmod stardivmod
division_by_zero_lem tos u e = let test : (u.a1 == 0) ≡ true = ground arith in rw test (refl, refl)

-- A number below 2 ^ 32 with a sign.
abbrev pub signed : Bool → ℕ → ℕ
signed negative v = if negative then negate32 (u32 v) else u32 v

magnitude-le : (v : ℕ) → IsWord v → magnitude v ≤ 2 ^ 31
magnitude-le v p = ground arith

magnitudes : (m n : ℕ) → IsWord m → IsWord n → magnitude m * magnitude n < 2 ^ 63
magnitudes m n p q =
    let top : magnitude m * magnitude n ≤ 2 ^ 31 * 2 ^ 31 =
      mul-le-mul (magnitude-le m p) (magnitude-le n q) in
    omega (arith, top)

signs :
    (inverted : Bool) (p d : ℕ)
    → p < 2 ^ 63
    → d ≡ (if inverted then negate64 p else p)
    → ((if leb (2 ^ 63) d then negate64 d else d) ≡ p) × (leb (2 ^ 63) d ≡ inverted && not (p == 0))
signs true p d small e = (ground arith, ground arith)
signs false p d small e = (ground arith, ground arith)

module _ (m n : ℕ) (p : IsWord m) (q : IsWord n) where
  dividend_lem : dividend_of m n ≡ (
      if differs (is_negative m) (is_negative n)
      then negate64 (magnitude m * magnitude n)
      else magnitude m * magnitude n)
  unfolding dividend_of product
  dividend_lem =
      sym (product_lem m n p q)
      ∙ ap
          (λ (t : Bool).
            if t then negate64 (magnitude m * magnitude n) else magnitude m * magnitude n)
          (inverts m n p q)

-- A sign makes no difference to 0.
signed_zero : (a b : Bool) (v : ℕ) → v ≡ 0 → signed a v ≡ signed b v
signed_zero true true v e = refl
signed_zero true false v e = omega arith
signed_zero false true v e = omega arith
signed_zero false false v e = refl

-- The sign of a product that is 0 does not matter to its quotient and remainder.
quotient_sign :
    (inverted negative : Bool) (p m : ℕ)
    → signed (differs (inverted && not (p == 0)) negative) (p / m)
      ≡ signed (differs inverted negative) (p / m)
quotient_sign true negative p m = elim (Bool-cases (p == 0)) [
  | inl none ↦
      signed_zero (differs (true && not (p == 0)) negative) (not negative) (p / m)
        (ap (λ (t : ℕ). t / m) ((==_iff p 0).0 none) ∙ zero-div m)
  | inr some ↦ rw some refl
]
quotient_sign false negative p m = refl

remainder_sign :
    (inverted : Bool) (p m : ℕ)
    → signed (inverted && not (p == 0)) (p % m) ≡ signed inverted (p % m)
remainder_sign true p m = elim (Bool-cases (p == 0)) [
  | inl none ↦
      signed_zero (true && not (p == 0)) true (p % m)
        (ap (λ (t : ℕ). t % m) ((==_iff p 0).0 none) ∙ zero-mod m)
  | inr some ↦ rw some refl
]
remainder_sign false p m = refl

-- Star-slash-mod, with a divisor that is not 0, succeeds and rounds to 0: Y0 is the low word of
-- |A0| * |tos| / |A1|, negated if an odd number of the three is negative, and Y2 the remainder,
-- negated if the signs of A0 and tos differ. Y1 stays.
pub stardivmod_lem :
    (tos : ℕ) (u : Unit32)
    → IsWord tos
    → IsWord u.a0
    → IsWord u.a1
    → u.a1 ≢ 0
    → let (ior, v) = stardivmod tos u in
      let p = magnitude u.a0 * magnitude tos in
      let negative = differs (is_negative u.a0) (is_negative tos) in
      (ior ≡ 0)
      × (v.y0 ≡ signed (differs negative (is_negative u.a1)) (p / magnitude u.a1))
      × (v.y2 ≡ signed negative (p % magnitude u.a1))
      × (v.y1 ≡ u.y1)
unfolding stardivmod
stardivmod_lem tos u p q r nonzero =
    let whole = magnitude u.a0 * magnitude tos in
    let small = magnitudes u.a0 tos q p in
    let inverted = differs (is_negative u.a0) (is_negative tos) in
    let d = dividend_lem u.a0 tos q p in
    let (absolute, sign) = signs inverted whole (dividend_of u.a0 tos) small d in
    let test : (u.a1 == 0) ≡ false = ground arith in
    let divisor : 0 < magnitude u.a1 = ground arith in
    let low : magnitude u.a1 ≤ 2 ^ 31 = magnitude-le u.a1 r in
    let quotient = divide64by32_lem whole (magnitude u.a1) (omega arith) divisor (omega arith) in
    let remainder : u32 (whole % magnitude u.a1) ≡ whole % magnitude u.a1 =
      omega (arith, mod-lt whole divisor) in
    rw (absolute, sign, quotient, test)
      (
        refl,
        quotient_sign inverted (is_negative u.a1) whole (magnitude u.a1),
        ap (λ (t : ℕ). if inverted && not (whole == 0) then negate32 t else t) (sym remainder)
            ∙ remainder_sign inverted whole (magnitude u.a1),
        refl,
      )
