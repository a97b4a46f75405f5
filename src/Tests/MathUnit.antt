-- ===== src/Tests/MathUnit.antt =====
-- The math unit: 2 ^ 32 - 7 is -7.
use lite_forth.Common.{◌-◌, ◌^◌, ◌≡◌, refl, arith}
use lite_forth.IoMap.{
  Unit32, Devices, divide64by32, divide_bits, unsupported_operation, stardivmod, dividend_of,
  iomap_rd, iomap_wr,
}
use lite_forth.IoMap.Divide.{divide64by32_lem}
use lite_forth.IoMap.Quotient.{stardivmod_lem}
use lite_forth.IoMap.Ports.{answer, after_write, polls, iomap_rd-iomap_wr}

-- A0 is -7 and A1 is 2, and the unit is busy for two reads of its status.
abbrev unit : Unit32
unit = record { a0 = 2 ^ 32 - 7; a1 = 2; y0 = 0; y1 = 0; y2 = 0; busy = 0; latency = 2 }

abbrev stopped : Unit32
stopped = record unit { a1 = 0 }

abbrev quiet : Devices (Unit {0})
quiet = record {
  serial_getc = λ w. (0, w);
  serial_ready = λ w. (0, w);
  serial_busy = λ w. (0, w);
  lf_putc = λ v w. (0, w);
  lcd_tx = λ v w. (0, w);
}

star_slash_mod :
    stardivmod 3 unit ≡ (0, record unit { y0 = 2 ^ 32 - 10; y2 = 2 ^ 32 - 1; busy = 2 })
unfolding stardivmod dividend_of divide64by32 divide_bits
star_slash_mod = refl

divide64by32_lem_example : divide64by32 100 7 ≡ (14, 2)
divide64by32_lem_example = divide64by32_lem 100 7 (omega arith) (omega arith) (omega arith)

stardivmod_lem_example :
    let (ior, v) = stardivmod 3 unit in
    (ior ≡ 0) × (v.y0 ≡ 2 ^ 32 - 10) × (v.y2 ≡ 2 ^ 32 - 1) × (v.y1 ≡ 0)
stardivmod_lem_example =
    stardivmod_lem 3 unit (omega arith) (omega arith) (omega arith) (omega arith)

iomap_rd-iomap_wr_example :
    answer (iomap_rd quiet 40 (polls quiet 1 (after_write (iomap_wr quiet 32 3 (unit, tt)))))
    ≡ (unsupported_operation, 0)
iomap_rd-iomap_wr_example = iomap_rd-iomap_wr quiet 3 1 unit tt
