-- ===== src/IoMap.antt =====
-- The VM's I/O space (src/iomap.c): the terminal's and the LCD's ports, the math unit behind its
-- ports, and the division it uses (divide64by32 of src/tools.c).
pub mod Divide
pub mod Product
pub mod Quotient
pub mod Ports
use lite_forth.Common.{
  ℕ, zero, suc, ◌+◌, ◌-◌, ◌*◌, ◌/◌, ◌%◌, ◌^◌, Bool, true, false, not, ◌&&◌, ltb, leb, ◌==◌,
  if◌then◌else◌, bit_or, bit_xor, u32, sub32, neg32,
}

-- A round of divide64by32's loop, at bit i: the remainder and the quotient so far.
abbrev pub shift_in : ℕ → ℕ → ℕ → ℕ
shift_in dividend i rem = bit_or (rem * 2 % 2 ^ 64) (dividend / 2 ^ i % 2)

abbrev pub divide_bit : ℕ → ℕ → ℕ → ℕ × ℕ → ℕ × ℕ
divide_bit dividend divisor i (rem, q) =
    if leb divisor (shift_in dividend i rem)
    then (shift_in dividend i rem - divisor, bit_or q (2 ^ i))
    else (shift_in dividend i rem, q)

-- The loop, from bit n - 1 down to 0.
unfoldable pub divide_bits : ℕ → ℕ → ℕ → ℕ × ℕ → ℕ × ℕ
divide_bits dividend divisor zero s = s
divide_bits dividend divisor (suc i) s =
    divide_bits dividend divisor i (divide_bit dividend divisor i s)

-- The quotient and the remainder.
unfoldable pub divide64by32 : ℕ → ℕ → ℕ × ℕ
divide64by32 dividend divisor =
    let (rem, q) = divide_bits dividend divisor 64 (0, 0) in (q, u32 rem)

-- errcodes.h
abbrev pub division_by_zero : ℕ
division_by_zero = neg32 10

abbrev pub unsupported_operation : ℕ
unsupported_operation = neg32 21

abbrev pub invalid_port : ℕ
invalid_port = neg32 9

-- The math unit: a[0], a[1], y[0] to y[2], the status reads left that say busy, and
-- iomap_math_latency.
pub record Unit32 : Type 0 where
  pub a0 : ℕ
  pub a1 : ℕ
  pub y0 : ℕ
  pub y1 : ℕ
  pub y2 : ℕ
  pub busy : ℕ
  pub latency : ℕ

abbrev pub result : ℕ → ℕ → ℕ → Unit32 → Unit32
result v0 v1 v2 u = record u { y0 = v0; y1 = v1; y2 = v2; busy = u.latency }

abbrev pub is_negative : ℕ → Bool
is_negative v = leb (2 ^ 31) v

-- `0 - v` on a uint32_t and on a uint64_t
abbrev pub negate32 : ℕ → ℕ
negate32 v = (2 ^ 32 - v) % 2 ^ 32

abbrev pub negate64 : ℕ → ℕ
negate64 v = (2 ^ 64 - v) % 2 ^ 64

abbrev pub magnitude : ℕ → ℕ
magnitude v = if is_negative v then negate32 v else v

-- The product in `multiply`.
unfoldable pub product : Bool → ℕ → ℕ → ℕ
product sign m n =
    let invert = leb (2 ^ 31) (bit_xor m n) in
    let p = magnitude m * magnitude n in if sign then (if invert then negate64 p else p) else m * n

unfoldable pub multiply : ℕ → Bool → Unit32 → Unit32
unfolding product
multiply tos sign u = let p = product sign u.a0 tos in result (u32 p) (u32 (p / 2 ^ 32)) u.y2 u

unfoldable pub mudivmod : ℕ → Unit32 → ℕ × Unit32
mudivmod tos u =
    let (q, rem) = divide64by32 (u.a0 * 2 ^ 32 + tos) u.a1 in
    if u.a1 == 0 then (division_by_zero, u) else (0, result (u32 q) (u32 (q / 2 ^ 32)) rem u)

-- An int32_t widened to an int64_t, as bit patterns.
abbrev pub widen : ℕ → ℕ
widen v = if is_negative v then v + (2 ^ 64 - 2 ^ 32) else v

abbrev pub differs : Bool → Bool → Bool
differs true b = not b
differs false b = b

-- The int64_t product `d`, which cannot overflow.
unfoldable pub dividend_of : ℕ → ℕ → ℕ
dividend_of m n = widen m * widen n % 2 ^ 64

unfoldable pub stardivmod : ℕ → Unit32 → ℕ × Unit32
unfolding dividend_of
stardivmod tos u =
    let d = dividend_of u.a0 tos in
    let negative = leb (2 ^ 63) d in
    let (q, rem) = divide64by32 (if negative then negate64 d else d) (magnitude u.a1) in
    if u.a1 == 0 then (division_by_zero, u) else (
      0,
      result (if differs negative (is_negative u.a1) then negate32 (u32 q) else u32 q) u.y1
          (if negative then negate32 rem else rem) u,
    )

-- The rest of the I/O space: the terminal (serial_getc, serial_ready, serial_busy, lf_putc) and the
-- LCD (lcd_tx).
pub record Devices (W : Type 0) : Type 0 where
  pub serial_getc : W → ℕ × W
  pub serial_ready : W → ℕ × W
  pub serial_busy : W → ℕ × W
  pub lf_putc : ℕ → W → ℕ × W
  pub lcd_tx : ℕ → W → ℕ × W

-- A read of the status, while the unit is busy and after.
abbrev pub read_status : Unit32 → ℕ × Unit32
read_status u = if u.busy == 0 then (0, u) else (1, record u { busy = u.busy - 1 })

abbrev pub read_result : ℕ → Unit32 → ℕ × ℕ
read_result v u = if u.busy == 0 then (0, v) else (unsupported_operation, 0)

module _ {W : Type 0} (devices : Devices W) where
  open devices use {serial_getc, serial_ready, serial_busy, lf_putc, lcd_tx}

  -- A port of the math unit, and any other: the ior, the value and what is left.
  abbrev pub read_math : ℕ → Unit32 → ℕ × ℕ × Unit32
  read_math addr u =
      if addr == 43
      then (let (v, u') = read_status u in (0, v, u'))
      else if addr == 40
      then (let (ior, v) = read_result u.y0 u in (ior, v, u))
      else if addr == 41
      then (let (ior, v) = read_result u.y1 u in (ior, v, u))
      else if addr == 42
      then (let (ior, v) = read_result u.y2 u in (ior, v, u))
      else (invalid_port, 0, u)

  unfoldable pub iomap_rd : ℕ → Unit32 × W → ℕ × ℕ × Unit32 × W
  iomap_rd addr (u, w) =
      if addr == 16
      then (let (v, w') = serial_getc w in (0, u32 v, u, w'))
      else if addr == 17
      then (let (v, w') = serial_ready w in (0, u32 v, u, w'))
      else if addr == 18
      then (let (v, w') = serial_busy w in (0, u32 v, u, w'))
      else (let (ior, v, u') = read_math addr u in (ior, v, u', w))

  abbrev pub write_math : ℕ → ℕ → Unit32 → ℕ × Unit32
  write_math addr tos u =
      if addr == 40
      then (0, record u { a0 = tos })
      else if addr == 41
      then (0, record u { a1 = tos })
      else if addr == 32
      then (0, multiply tos false u)
      else if addr == 33
      then (0, multiply tos true u)
      else if addr == 34
      then mudivmod tos u
      else if addr == 35
      then stardivmod tos u
      else (invalid_port, u)

  unfoldable pub iomap_wr : ℕ → ℕ → Unit32 × W → ℕ × Unit32 × W
  iomap_wr addr tos (u, w) =
      if addr == 16
      then (let (ior, w') = lf_putc (tos % 2 ^ 8) w in (ior, u, w'))
      else if addr == 24
      then (let (ior, w') = lcd_tx (tos % 2 ^ 16) w in (ior, u, w'))
      else (let (ior, u') = write_math addr tos u in (ior, u', w))
