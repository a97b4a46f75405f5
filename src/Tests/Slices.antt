-- ===== src/Tests/Slices.antt =====
-- Slices of 8 and of 5 bits.
use lite_forth.Common.{ℕ, ◌+◌, ◌*◌, ◌^◌, ◌≡◌, ◌<◌, refl, arith}
use lite_forth.Slice.{slice_size, slice_shift, vm_field_plus, lf_set_slice_width}
use lite_forth.Slice.Next.{Parts, vm_field_plus_walk, vm_field_plus_misfit}
use lite_forth.Slice.Width.{lf_set_slice_width_lem}

-- The last byte of cell 7, and a 5-bit slice at shift 25 of cell 7.
abbrev last_byte : ℕ
last_byte = 8 * 2 ^ 27 + 24 * 2 ^ 22 + 7

abbrev odd_slice : ℕ
odd_slice = 5 * 2 ^ 27 + 25 * 2 ^ 22 + 7

vm_field_plus_byte : vm_field_plus last_byte ≡ 8 * 2 ^ 27 + 8
unfolding vm_field_plus
vm_field_plus_byte = refl

vm_field_plus_odd : vm_field_plus odd_slice ≡ 5 * 2 ^ 27 + 30 * 2 ^ 22 + 8
unfolding vm_field_plus
vm_field_plus_odd = refl

vm_field_plus_walk_example : Parts (vm_field_plus last_byte) 8 0 8
vm_field_plus_walk_example =
    vm_field_plus_walk last_byte (omega arith) (omega arith) 4 3 refl refl (omega arith)

vm_field_plus_misfit_example :
    Parts (vm_field_plus odd_slice) 5 30 8
    × (32 < slice_shift (vm_field_plus odd_slice) + slice_size (vm_field_plus odd_slice))
vm_field_plus_misfit_example =
    vm_field_plus_misfit odd_slice (omega arith) (omega arith) (omega arith) (omega arith)

-- The width 8 at shift 3 of cell 7: the shift stays 3, though the next byte is at 8.
lf_set_slice_width_lem_example : Parts (lf_set_slice_width (3 * 2 ^ 22 + 7) 8) 8 3 7
lf_set_slice_width_lem_example =
    lf_set_slice_width_lem (3 * 2 ^ 22 + 7) 8 (omega arith) (omega arith) (omega arith)
