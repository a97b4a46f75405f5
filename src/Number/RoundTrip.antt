-- ===== src/Number/RoundTrip.antt =====
-- A number that lfDotB prints is the number that lfParseNumber reads.
use native.Mathlib.Nat.{mod-lt, div-add-mod', mul-le-mul_left}
use lite_forth.Common.{
  ℕ, zero, suc, ◌+◌, ◌-◌, ◌*◌, ◌/◌, ◌%◌, ◌^◌, ◌<◌, ◌≤◌, ◌≡◌, refl, ap, ◌∙◌, arith, Bool, true,
  false, ◌&&◌, List, [], ◌∷◌, ◌⊎◌, some, ltb, leb, ◌==◌, Bool-cases, inl, inr, sub32, neg32,
  pow_double, IsWord,
}
use lite_forth.Number.{
  result, digit_char, dot_from, lf_dot_b, char2digit, Parse, parse_digit, parse_char, parse_from,
  parse_start, parsed, lf_parse_number,
}

-- A digit's character is the digit again, and neither a sign nor a point.
char2digit-digit_char :
    (d : ℕ)
    → d < 36
    → (char2digit (digit_char d) ≡ some d)
      × ((digit_char d == 45) ≡ false)
      × ((digit_char d == 46) ≡ false)
unfolding char2digit
char2digit-digit_char d h = elim (Bool-cases (ltb d 10)) [
  | inl small ↦
      (let low : leb 48 (48 + d) ≡ true = ground arith in
        let high : leb (48 + d) 57 ≡ true = ground (arith, small) in
        rw (small, low, high) (ap some (omega arith), ground arith, ground arith))
  | inr large ↦
      (let c = 65 + (d - 10) in
        let low : leb 48 c ≡ true = ground arith in
        let above : leb c 57 ≡ false = ground arith in
        let letter : leb 65 c ≡ true = ground arith in
        let high : leb c 90 ≡ true = ground (arith, h) in
        rw (large, low, above, letter, high)
          (ap some (ground (arith, large)), ground arith, ground arith))
]

-- The parser's state where there was no point.
abbrev reading : Bool → Bool → Bool → ℕ → Parse
reading first sign has_digits value = record {
  first = first;
  sign = sign;
  has_digits = has_digits;
  has_dpl = false;
  dpl = neg32 1;
  value = value;
}

and_false : (b : Bool) → (b && false) ≡ false
and_false true = refl
and_false false = refl

parse_char-digit_char :
    (base d value : ℕ) (first sign has_digits : Bool)
    → d < base
    → base ≤ 36
    → value * base + d < 2 ^ 31
    → parse_char base (digit_char d) (reading first sign has_digits value)
      ≡ result (reading false sign true (value * base + d))
unfolding parse_char parse_digit
parse_char-digit_char base d value first sign has_digits h k small =
    let (digit, no_sign, no_point) = char2digit-digit_char d (omega arith) in
    let within : leb base d ≡ false = ground arith in
    let fits : ltb (value * base + d) (2 ^ 31) ≡ true = ground (arith, small) in
    rw (no_sign, and_false first, no_point, digit, within, fits) refl

-- A digit in front of a text.
parse_from-digit :
    (base d value : ℕ) (first sign has_digits : Bool) (text : List ℕ)
    → d < base
    → base ≤ 36
    → value * base + d < 2 ^ 31
    → parse_from base (digit_char d ∷ text) (reading first sign has_digits value)
      ≡ parse_from base text (reading false sign true (value * base + d))
unfolding parse_from
parse_from-digit base d value first sign has_digits text h k small =
    rw (parse_from, parse_char-digit_char base d value first sign has_digits h k small) refl

quotient_half : (val base : ℕ) → 2 ≤ base → 2 * (val / base) ≤ val
quotient_half val base h = omega (arith, div-add-mod' val base, mul-le-mul_left (val / base) h)

has_fuel : (fuel n : ℕ) → 0 < n → n < 2 ^ fuel → 0 < fuel
has_fuel zero n h p = absurd (omega arith)
has_fuel (suc fuel) n h p = omega arith

-- The digits that are printed are read as the number, before any text behind them.
parse_from-dot_from :
    (fuel room val base : ℕ) (first sign : Bool) (text : List ℕ)
    → 0 < fuel
    → fuel ≤ room
    → val < 2 ^ fuel
    → 2 ≤ base
    → base ≤ 36
    → val < 2 ^ 31
    → parse_from base (dot_from fuel room val base 0 0 text) (reading first sign false 0)
      ≡ parse_from base text (reading false sign true val)
unfolding dot_from
parse_from-dot_from zero room val base first sign text p q r h k w = absurd (omega arith)
parse_from-dot_from (suc fuel) room val base first sign text p q r h k w =
    let d = val % base in
    let small : d < base = mod-lt val (omega arith) in
    let has_room : (room == 0) ≡ false = ground arith in
    elim (Bool-cases (val / base == 0)) [
      | inl last ↦
          (let whole : 0 * base + d ≡ val = ground (arith, div-add-mod' val base, last) in
            rw (dot_from, has_room, last)
              (parse_from-digit base d 0 first sign false text small k (omega (arith, whole, w))
                ∙ ap (λ t. parse_from base text (reading false sign true t)) whole))
      | inr more ↦
          (let half = quotient_half val base h in
            let smaller : val / base < 2 ^ fuel = omega (arith, half, pow_double fuel, r) in
            let some_fuel : 0 < fuel = has_fuel fuel (val / base) (ground (arith, more)) smaller in
            let whole : val / base * base + d ≡ val = omega (arith, div-add-mod' val base) in
            rw (dot_from, has_room, more)
              (parse_from-dot_from fuel (room - 1) (val / base) base first sign
                  (digit_char d ∷ text) some_fuel (omega arith) smaller h k (omega (arith, half, w))
                ∙ parse_from-digit base d (val / base) false sign true text small k
                    (omega (arith, whole, w))
                ∙ ap (λ t. parse_from base text (reading false sign true t)) whole))
    ]

-- A minus sign at the start.
parse_from-sign :
    (base : ℕ) (text : List ℕ)
    → parse_from base (45 ∷ text) parse_start ≡ parse_from base text (reading false true false 0)
unfolding parse_from parse_char
parse_from-sign base text = refl

-- In every base from 2 to 36, what lfDotB prints for a number below 2 ^ 31, without a decimal
-- point, is read back by lfParseNumber as that number, without an overflow, and DPL becomes -1. So
-- is a 32-bit number above 2 ^ 31 in base 10, where it is printed as the negative one that it
-- stands for.
pub lf_parse_number-lf_dot_b :
    (val base : ℕ)
    → IsWord val
    → 2 ≤ base
    → base ≤ 36
    → (val < 2 ^ 31) ⊎ ((2 ^ 31 < val) × (base ≡ 10))
    → lf_parse_number (lf_dot_b val base 0 0) base ≡ result (val, neg32 1)
unfolding lf_parse_number lf_dot_b parse_from
lf_parse_number-lf_dot_b val base w h k (inl small) =
    let plain : (leb (2 ^ 31) val && (base == 10)) ≡ false = ground (arith, small) in
    rw plain (
      ap parsed (
        parse_from-dot_from 35 35 val base true false [] (omega arith) (omega arith) (omega arith) h
          k small))
lf_parse_number-lf_dot_b val base w h k (inr (large, ten)) =
    let magnitude = sub32 0 val in
    let negative : (leb (2 ^ 31) val && (base == 10)) ≡ true = ground (arith, large, ten) in
    let back : sub32 0 (sub32 0 val) ≡ val = omega arith in
    rw negative (
      ap parsed (
        parse_from-sign base (dot_from 35 35 magnitude base 0 0 [])
        ∙ parse_from-dot_from 35 35 magnitude base false true [] (omega arith) (omega arith)
            (omega (arith, large, w)) h k (omega (arith, large, w)))
      ∙ ap (λ t. result (t, neg32 1)) back)
