-- ===== src/Slice.antt =====
-- Slice addresses, and the arithmetic on them: vmFieldPlus of src/vm.c and lfSetSliceWidth of
-- src/tools.c. An address holds a width in bits 31:27 (0 for a whole cell), a shift in bits
-- 26:22, and a 22-bit cell number.
pub mod Next
pub mod Width
use lite_forth.Common.{
  ℕ, ◌+◌, ◌-◌, ◌*◌, ◌/◌, ◌%◌, ◌^◌, ◌||◌, ltb, ◌==◌, if◌then◌else◌, bit_or, bit_and, u32, add32,
  sub32, not32,
}

abbrev pub slice_size : ℕ → ℕ
slice_size addr = addr / 2 ^ 27 % 32

abbrev pub slice_shift : ℕ → ℕ
slice_shift addr = addr / 2 ^ 22 % 32

abbrev pub slice_cell : ℕ → ℕ
slice_cell addr = addr % 2 ^ 22

-- The address with these parts, as vmFieldPlus puts it together.
unfoldable pub make_slice : ℕ → ℕ → ℕ → ℕ
make_slice bsize bshift addr =
    bit_or (bit_or (u32 (bsize * 2 ^ 27)) (u32 (bshift * 2 ^ 22))) (addr % 2 ^ 22)

unfoldable pub vm_field_plus : ℕ → ℕ
unfolding make_slice
vm_field_plus addr =
    let bsize = slice_size addr in
    let bshift = slice_shift addr + bsize in
    if bsize == 0
    then add32 addr 1
    else (if ltb 32 (bshift + bsize)
        then make_slice bsize (sub32 bshift 32 % 32) (add32 addr 1)
        else make_slice bsize bshift addr)

-- `bits` is an int: a negative one is a bit pattern from 2 ^ 31 up, so it is above 31 too.
unfoldable pub lf_set_slice_width : ℕ → ℕ → ℕ
lf_set_slice_width addr bits =
    let position = slice_shift addr in
    let next = (position + bits - 1) / bits * bits in
    let moved =
      if ltb 32 (next + bits) then add32 (bit_and addr (not32 (31 * 2 ^ 22))) 1 else addr in
    if ltb bits 1 || ltb 31 bits
    then (if position == 0 then addr else slice_cell addr + 1) % 2 ^ 22
    else bit_or (bit_and moved (not32 (31 * 2 ^ 27))) (u32 (bits * 2 ^ 27))
