-- ===== src/Slice/Width.antt =====
-- lfSetSliceWidth: the slice of another width at or after an address.
use lite_forth.Common.{
  ltb, ltb→lt, Bool-cases, inl, inr, if◌then◌else◌, ℕ, ◌+◌, ◌-◌, ◌*◌, ◌/◌, ◌%◌, ◌^◌, ◌≤◌, ◌<◌, ◌≡◌,
  ◌⊎◌, arith, bit_or, bit_and, bit_or_comm, bit_or-shifted, bit_and-mask, bit_and_clear, min, add32,
  IsWord, u32, not32,
}
use lite_forth.Slice.{slice_shift, slice_cell, lf_set_slice_width}
use lite_forth.Slice.Next.{Parts}

-- The shift of the next slice of `bits` bits at or after a shift.
abbrev pub aligned : ℕ → ℕ → ℕ
aligned position bits = (position + bits - 1) / bits * bits

-- The address without its width, and with a new one.
with_width :
    (addr bits : ℕ)
    → bits < 32
    → bit_or (bit_and addr (not32 (31 * 2 ^ 27))) (u32 (bits * 2 ^ 27))
      ≡ bits * 2 ^ 27 + addr % 2 ^ 27
with_width addr bits h =
    let mask : bit_and addr (not32 (31 * 2 ^ 27)) ≡ addr % 2 ^ 27 = bit_and-mask 27 addr in
    let size : u32 (bits * 2 ^ 27) ≡ bits * 2 ^ 27 = omega arith in
    rw (mask, size, bit_or_comm 32 (addr % 2 ^ 27) (bits * 2 ^ 27) (omega arith) (omega arith))
      (bit_or-shifted 27 bits (addr % 2 ^ 27) (omega arith) (omega arith))

-- The address without its shift.
without_shift :
    (addr : ℕ)
    → IsWord addr
    → bit_and addr (not32 (31 * 2 ^ 22)) ≡ addr / 2 ^ 27 * 2 ^ 27 + addr % 2 ^ 22
without_shift addr word = omega (arith, bit_and_clear 22 5 5 addr)

sum-Parts :
    (addr bits shift cell : ℕ)
    → bits < 32
    → shift < 32
    → cell < 2 ^ 22
    → addr ≡ bits * 2 ^ 27 + (shift * 2 ^ 22 + cell)
    → Parts addr bits shift cell
sum-Parts addr bits shift cell p q h e = record {
  size = omega arith;
  shift = omega arith;
  cell_number = omega arith;
}

module _ (addr bits : ℕ) (word : IsWord addr) (narrow : 0 < bits) (wide : bits < 32) where
  width_stays :
      aligned (slice_shift addr) bits + bits ≤ 32
      → lf_set_slice_width addr bits ≡ bits * 2 ^ 27 + addr % 2 ^ 27
  unfolding lf_set_slice_width
  width_stays h = ground (arith, with_width addr bits wide)

  width_moves :
      32 < aligned (slice_shift addr) bits + bits
      → lf_set_slice_width addr bits ≡ bits * 2 ^ 27 + (slice_cell addr + 1)
  unfolding lf_set_slice_width
  width_moves h =
      let cleared : add32 (bit_and addr (not32 (31 * 2 ^ 22))) 1
          ≡ addr / 2 ^ 27 * 2 ^ 27 + (slice_cell addr + 1) =
        omega (arith, without_shift addr word) in
      rw cleared
        (ground (arith, with_width (addr / 2 ^ 27 * 2 ^ 27 + (slice_cell addr + 1)) bits wide))

  -- For a width of 1 to 31, the result has that width. Where the next slice of that width does
  -- not fit the cell, it is the first of the next cell, but for the last of the 2 ^ 22 cells,
  -- behind which the carry makes it shift 1 of cell 0. Where it fits, the cell and the shift
  -- stay as they were, also where the shift is not that of a slice of that width.
  pub lf_set_slice_width_lem :
      let misfit = ltb 32 (aligned (slice_shift addr) bits + bits) in
      Parts
        (lf_set_slice_width addr bits)
        bits
        (if misfit then (slice_cell addr + 1) / 2 ^ 22 else slice_shift addr)
        (if misfit then (slice_cell addr + 1) % 2 ^ 22 else slice_cell addr)
  lf_set_slice_width_lem = elim (Bool-cases (ltb 32 (aligned (slice_shift addr) bits + bits))) [
    | inl misfit ↦ rw misfit (
        sum-Parts _ bits ((slice_cell addr + 1) / 2 ^ 22) ((slice_cell addr + 1) % 2 ^ 22) wide
          (omega arith) (omega arith) (omega (arith, width_moves (ltb→lt _ _ misfit))))
    | inr fits ↦ rw fits (
        sum-Parts _ bits (slice_shift addr) (slice_cell addr) wide (omega arith) (omega arith)
          (omega (arith, width_stays (ground arith))))
  ]

-- With any other width, an int's bit pattern, the address becomes that of a whole cell: the same
-- one from its start, the next one from inside it.
pub lf_set_slice_width_whole :
    (addr bits : ℕ)
    → slice_cell addr + 1 < 2 ^ 22
    → (bits ≡ 0) ⊎ (31 < bits)
    → lf_set_slice_width addr bits ≡ slice_cell addr + min (slice_shift addr) 1
unfolding lf_set_slice_width
lf_set_slice_width_whole addr bits k h = ground arith
