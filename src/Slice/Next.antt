-- ===== src/Slice/Next.antt =====
-- vmFieldPlus on addresses of slices that fit their cell.
use lite_forth.Common.{
  ℕ, suc, ◌+◌, ◌*◌, ◌%◌, ◌^◌, ◌==◌, ==_iff, Bool-cases, inl, inr, if◌then◌else◌, ◌≤◌, ◌<◌, ◌≡◌, ◌≢◌,
  ◌∙◌, refl, ap, arith, bit_or, bit_or-shifted, add32, sub32, IsWord, u32,
}
use lite_forth.Slice.{slice_size, slice_shift, slice_cell, make_slice, vm_field_plus}

-- The address is the sum of its parts.
make_slice_sum :
    (bsize bshift addr : ℕ)
    → bsize < 32
    → bshift < 32
    → make_slice bsize bshift addr ≡ bsize * 2 ^ 27 + bshift * 2 ^ 22 + addr % 2 ^ 22
unfolding make_slice
make_slice_sum bsize bshift addr p q =
    let size : u32 (bsize * 2 ^ 27) ≡ bsize * 2 ^ 27 = omega arith in
    let shift : u32 (bshift * 2 ^ 22) ≡ bshift * 2 ^ 22 = omega arith in
    let inner : bit_or (bsize * 2 ^ 27) (bshift * 2 ^ 22) ≡ (bsize * 2 ^ 5 + bshift) * 2 ^ 22 =
      omega (arith, bit_or-shifted 27 bsize (bshift * 2 ^ 22) (omega arith) (omega arith)) in
    rw (size, shift, inner)
      (omega (
        arith,
        bit_or-shifted 22 (bsize * 2 ^ 5 + bshift) (addr % 2 ^ 22) (omega arith) (omega arith),
      ))

-- An address with these parts.
pub record Parts (addr bsize bshift cell : ℕ) : Type 0 where
  pub size : slice_size addr ≡ bsize
  pub shift : slice_shift addr ≡ bshift
  pub cell_number : slice_cell addr ≡ cell

make_slice-Parts :
    (bsize bshift addr : ℕ)
    → bsize < 32
    → bshift < 32
    → Parts (make_slice bsize bshift addr) bsize bshift (addr % 2 ^ 22)
make_slice-Parts bsize bshift addr p q =
    rw (make_slice_sum bsize bshift addr p q)
      (record { size = omega arith; shift = omega arith; cell_number = omega arith })

mul_mono : (a b w : ℕ) → a ≤ b → a * w ≤ b * w
mul_mono a b w h = grind arith

-- Parts with other names for the shift and the cell.
Parts-at :
    (addr : ℕ) {bsize s s' c c' : ℕ}
    → s ≡ s'
    → c ≡ c'
    → Parts addr bsize s c
    → Parts addr bsize s' c'
Parts-at addr p q h = record { size = h.size; shift = h.shift ∙ p; cell_number = h.cell_number ∙ q }

cell-add-one : (addr : ℕ) → add32 addr 1 % 2 ^ 22 ≡ (slice_cell addr + 1) % 2 ^ 22
cell-add-one addr = omega arith

module _ (addr : ℕ) (word : IsWord addr) (sliced : slice_size addr ≢ 0) where
  -- The next slice fits the cell.
  next_in_cell :
      slice_shift addr + 2 * slice_size addr ≤ 32
      → vm_field_plus addr ≡ make_slice (slice_size addr) (slice_shift addr + slice_size addr) addr
  unfolding vm_field_plus
  next_in_cell h = ground arith

  -- The slice ends where its cell ends.
  next_cell :
      slice_shift addr + slice_size addr ≡ 32
      → vm_field_plus addr ≡ make_slice (slice_size addr) 0 (add32 addr 1)
  unfolding vm_field_plus
  next_cell h =
      let wrapped : sub32 (slice_shift addr + slice_size addr) 32 % 32 ≡ 0 = omega arith in
      rw wrapped (ground arith)

  -- The next slice crosses the end of the cell.
  next_misfit :
      slice_shift addr + slice_size addr < 32
      → 32 < slice_shift addr + 2 * slice_size addr
      → vm_field_plus addr
        ≡ make_slice (slice_size addr) (slice_shift addr + slice_size addr) (add32 addr 1)
  unfolding vm_field_plus
  next_misfit h k =
      let wrapped : sub32 (slice_shift addr + slice_size addr) 32 % 32
          ≡ slice_shift addr + slice_size addr =
        omega arith in
      rw wrapped (ground arith)

  next-Parts :
      (n i : ℕ)
      → n * slice_size addr ≡ 32
      → slice_shift addr ≡ i * slice_size addr
      → suc i < n
      → Parts (vm_field_plus addr) (slice_size addr) (suc i * slice_size addr) (slice_cell addr)
  next-Parts n i whole at_i h =
      let room = mul_mono (suc (suc i)) n (slice_size addr) h in
      rw (next_in_cell (omega (arith, room))) (
        Parts-at _ (omega arith) refl (
          make_slice-Parts (slice_size addr) (slice_shift addr + slice_size addr) addr (omega arith)
            (omega (arith, room))))

  last-Parts :
      (n i : ℕ)
      → n * slice_size addr ≡ 32
      → slice_shift addr ≡ i * slice_size addr
      → suc i ≡ n
      → Parts (vm_field_plus addr) (slice_size addr) 0 ((slice_cell addr + 1) % 2 ^ 22)
  last-Parts n i whole at_i h =
      rw (next_cell (omega (arith, ap (λ (t : ℕ). t * slice_size addr) h))) (
        Parts-at _ refl (cell-add-one addr)
          (make_slice-Parts (slice_size addr) 0 (add32 addr 1) (omega arith) (omega arith)))

  -- Of the n slices of a width that divides a cell into n, slice i is followed by slice i + 1 of
  -- its cell, or by the first slice of the next cell (of the 2 ^ 22 cells, the last is followed
  -- by the first): the width is kept, so each slice fits its cell.
  pub vm_field_plus_walk :
      (n i : ℕ)
      → n * slice_size addr ≡ 32
      → slice_shift addr ≡ i * slice_size addr
      → i < n
      → Parts
          (vm_field_plus addr)
          (slice_size addr)
          (if suc i == n then 0 else suc i * slice_size addr)
          (if suc i == n then (slice_cell addr + 1) % 2 ^ 22 else slice_cell addr)
  vm_field_plus_walk n i whole at_i inside = elim (Bool-cases (suc i == n)) [
    | inl last ↦ rw last (last-Parts n i whole at_i ((==_iff (suc i) n).0 last))
    | inr more ↦ rw more (next-Parts n i whole at_i (ground arith))
  ]

  -- Where a slice ends inside its cell but the next one would cross the cell's end (shift +
  -- width < 32 < shift + 2 * width), the slice that follows does not fit its cell either:
  -- vmFieldPlus goes to the next cell, after the last one to the first, and keeps the shift at
  -- which the slice overran this one.
  pub vm_field_plus_misfit :
      slice_shift addr + slice_size addr < 32
      → 32 < slice_shift addr + 2 * slice_size addr
      → Parts
          (vm_field_plus addr)
          (slice_size addr)
          (slice_shift addr + slice_size addr)
          ((slice_cell addr + 1) % 2 ^ 22)
        × (32 < slice_shift (vm_field_plus addr) + slice_size (vm_field_plus addr))
  vm_field_plus_misfit h k =
      let parts = rw (← next_misfit h k) at (
        make_slice-Parts (slice_size addr) (slice_shift addr + slice_size addr) (add32 addr 1)
          (omega arith) (omega arith)) in
      (Parts-at _ refl (cell-add-one addr) parts, omega (arith, parts.size, parts.shift))
