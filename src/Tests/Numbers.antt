-- ===== src/Tests/Numbers.antt =====
-- Numbers printed and read.
use lite_forth.Common.{◌-◌, ◌^◌, ◌≡◌, refl, arith, [], ◌∷◌, inl, neg32}
use lite_forth.Number.{
  result, overflow, lf_dot_b, dot_from, lf_parse_number, parse_from, parse_char, parse_digit,
  char2digit,
}
use lite_forth.Number.RoundTrip.{lf_parse_number-lf_dot_b}

minus_twelve : lf_dot_b (2 ^ 32 - 12) 10 0 0 ≡ 45 ∷ 49 ∷ 50 ∷ []
unfolding lf_dot_b dot_from
minus_twelve = refl

-- `1.25`
with_point : lf_parse_number (49 ∷ 46 ∷ 50 ∷ 53 ∷ []) 10 ≡ result (125, 2)
unfolding lf_parse_number parse_from parse_char parse_digit char2digit
with_point = refl

lf_parse_number-lf_dot_b_example :
    lf_parse_number (lf_dot_b 0xBEEF 16 0 0) 16 ≡ result (0xBEEF, neg32 1)
lf_parse_number-lf_dot_b_example =
    lf_parse_number-lf_dot_b 0xBEEF 16 (omega arith) (omega arith) (omega arith) (inl (omega arith))

-- FFFFFFFF in base 16 overflows.
all_ones : lf_parse_number (lf_dot_b 0xFFFFFFFF 16 0 0) 16 ≡ overflow
unfolding lf_dot_b dot_from lf_parse_number parse_from parse_char parse_digit char2digit
all_ones = refl
