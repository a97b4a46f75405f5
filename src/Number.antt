-- ===== src/Number.antt =====
-- Numbers as text: lfDotB and lfParseNumber of src/tools.c. A text is the list of its characters,
-- without the null at the end.
pub mod RoundTrip
use lite_forth.Common.{
  ℕ, zero, suc, ◌+◌, ◌-◌, ◌*◌, ◌/◌, ◌%◌, ◌^◌, Bool, true, false, not, ◌&&◌, ◌||◌, List, [], ◌∷◌,
  Option, none, some, ltb, leb, ◌==◌, if◌then◌else◌, u32, sub32, neg32,
}

abbrev pub digit_char : ℕ → ℕ
digit_char digit = if ltb digit 10 then 48 + digit else 65 + (digit - 10)

-- The loop of lfDotB, with the room left in `buf`, on fuel: a round takes some of the room.
-- `digits` counts down to 0, and stays.
unfoldable pub dot_from : ℕ → ℕ → ℕ → ℕ → ℕ → ℕ → List ℕ → List ℕ
dot_from zero room val base dpl digits text = text
dot_from (suc fuel) room val base dpl digits text =
    let shown = digit_char (val % base) ∷ text in
    let pointed = if dpl == 1 then 46 ∷ shown else shown in
    let room' = if dpl == 1 then room - 2 else room - 1 in
    let more = not ((val / base == 0) && (dpl - 1 == 0) && (digits - 1 == 0)) in
    elim (room == 0) [
      | true ↦ text
      | false ↦ elim more [
        | true ↦ dot_from fuel room' (val / base) base (dpl - 1) (digits - 1) pointed
        | false ↦ pointed
      ]
    ]

-- What lfDotB prints; `buf` has room for 35 characters.
unfoldable pub lf_dot_b : ℕ → ℕ → ℕ → ℕ → List ℕ
lf_dot_b val base dpl digits =
    if leb (2 ^ 31) val && (base == 10)
    then 45 ∷ dot_from 35 35 (sub32 0 val) base dpl digits []
    else dot_from 35 35 val base dpl digits []

-- `none` is -1.
unfoldable pub char2digit : ℕ → Option ℕ
char2digit c =
    if leb 48 c && leb c 57
    then some (c - 48)
    else (if leb 65 c && leb c 90
        then some (c - 65 + 10)
        else (if leb 97 c && leb c 122 then some (c - 97 + 10) else none))

-- lfParseNumber's variables; `first` is `i == 1`.
pub record Parse : Type 0 where
  pub first : Bool
  pub sign : Bool
  pub has_digits : Bool
  pub has_dpl : Bool
  pub dpl : ℕ
  pub value : ℕ

-- A result; ERR_UNDEFINED_WORD; or that `value`, an int32_t, overflowed, after which C says nothing.
-- The value is thus never negative before the sign.
pub data Parsed (A : Type 0) : Type 0 where
  result : A → Parsed A
  undefined_word : Parsed A
  overflow : Parsed A

unfoldable pub parse_digit : ℕ → Option ℕ → Parse → Parsed Parse
parse_digit base none s = undefined_word
parse_digit base (some digit) s =
    if leb base digit
    then undefined_word
    else (if ltb (s.value * base + digit) (2 ^ 31)
        then result (record s {
          first = false;
          has_digits = true;
          value = s.value * base + digit;
          dpl = if s.has_dpl then s.dpl + 1 else s.dpl;
        })
        else overflow)

-- One character.
unfoldable pub parse_char : ℕ → ℕ → Parse → Parsed Parse
unfolding parse_digit char2digit
parse_char base c s =
    if s.first && (c == 45)
    then result (record s { first = false; sign = true })
    else (if c == 46
        then result (record s { first = false; has_dpl = true; dpl = 0 })
        else parse_digit base (char2digit c) s)

unfoldable pub parse_from : ℕ → List ℕ → Parse → Parsed Parse
unfolding parse_char
parse_from base [] s = result s
parse_from base (c ∷ cs) s = elim (parse_char base c s) [
  | undefined_word ↦ undefined_word
  | overflow ↦ overflow
  | result s' ↦ parse_from base cs s'
]

abbrev pub parse_start : Parse
parse_start = record {
  first = true;
  sign = false;
  has_digits = false;
  has_dpl = false;
  dpl = neg32 1;
  value = 0;
}

abbrev pub parsed : Parsed Parse → Parsed (ℕ × ℕ)
parsed undefined_word = undefined_word
parsed overflow = overflow
parsed (result s) =
    if s.has_digits
    then result (if s.sign then sub32 0 s.value else s.value, s.dpl)
    else undefined_word

-- The value and DPL, an int. An empty token has no digits.
unfoldable pub lf_parse_number : List ℕ → ℕ → Parsed (ℕ × ℕ)
lf_parse_number token base = parsed (parse_from base token parse_start)
