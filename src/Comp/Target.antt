-- ===== src/Comp/Target.antt =====
-- Where code is compiled to: the code pointer of the RAM page and 16-bit slots of memory; and, to
-- say what is compiled, a plain list of words.
use lite_forth.Common.{
  ℕ, zero, suc, ◌+◌, ◌*◌, ◌/◌, ◌%◌, ◌^◌, ◌≡◌, ◌<◌, refl, arith, List, [], ◌∷◌, ◌++◌, bit_or, leb,
  ◌==◌, if◌then◌else◌, update, neg32, bit_or-shifted,
}
use lite_forth.Slice.{vm_field_plus, lf_set_slice_width}
use lite_forth.Vm.Memory.{Memory, vm_fetch, vm_store, page_of, cell_of, bitfield_size, bshift_of}
use lite_forth.Comp.{CodeSpace}

abbrev pub ram_page : ℕ
ram_page = 4

abbrev pub dictionary_overflow : ℕ
dictionary_overflow = neg32 8

-- pcSlot: the slot address of a code address.
unfoldable pub pc_slot : ℕ → ℕ
pc_slot pc = bit_or (bit_or (16 * 2 ^ 27) (pc % 2 * 2 ^ 26)) (pc / 2)

-- F_PTRS is a parameter: options.h and forth.h lay the RAM page out.
module _ (f_ptrs : ℕ) where
  abbrev pub cp_fetch : Memory → ℕ
  cp_fetch m = m.cells ram_page (f_ptrs + 4)

  unfoldable pub cp_store : ℕ → Memory → ℕ × Memory
  cp_store cp m =
      if leb (m.cells ram_page (f_ptrs + 5)) (cp % 2 ^ 22) then (dictionary_overflow, m) else (
        0,
        record m { cells = update m.cells ram_page (update (m.cells ram_page) (f_ptrs + 4) cp) },
      )

  -- The linear code address, after CP is aligned to 16 bits.
  unfoldable pub cp_pc : Memory → ℕ × Memory
  cp_pc m =
      let cp = lf_set_slice_width (cp_fetch m) 16 in
      (bit_or (cp % 2 ^ 22 * 2) (cp / 2 ^ 26 % 2), (cp_store cp m).1)

  unfoldable pub comma_code : ℕ → Memory → ℕ × Memory
  comma_code inst m =
      let cp = cp_fetch m in
      let r = vm_store m cp inst in if r.0 == 0 then cp_store (vm_field_plus cp) r.1 else r

  abbrev pub memory_space : CodeSpace Memory
  memory_space = record {
    cp_fetch = cp_fetch;
    comma_code = comma_code;
    fetch = λ addr m. vm_fetch m addr;
    store = λ addr v m. vm_store m addr v;
  }

-- A code space that only lists the words, and never fails.
abbrev pub listing : CodeSpace (List ℕ)
listing = record {
  cp_fetch = λ s. 0;
  comma_code = λ w s. (0, s ++ (w ∷ []));
  fetch = λ addr s. (0, 0);
  store = λ addr v s. (0, s);
}

-- The width, and the half of the cell.
halves : (b : ℕ) → b < 2 → bit_or (16 * 2 ^ 27) (b * 2 ^ 26) ≡ (32 + b) * 2 ^ 26
halves zero h = refl
halves (suc zero) h = refl
halves (suc (suc b)) h = absurd (omega arith)

-- The parts of a slot address: the cell of the code address, and the half that it is.
pc_slot_sum : (pc : ℕ) → pc < 2 ^ 23 → pc_slot pc ≡ 16 * 2 ^ 27 + pc % 2 * 2 ^ 26 + pc / 2
unfolding pc_slot
pc_slot_sum pc h =
    rw (halves (pc % 2) (omega arith))
      (omega (arith, bit_or-shifted 26 (32 + pc % 2) (pc / 2) (omega arith) (omega arith)))

-- The slot of a code address below 2 ^ 23 is the half-cell that vmExec fetches at that address.
pc_slot_lem :
    (pc : ℕ)
    → pc < 2 ^ 23
    → (bitfield_size (pc_slot pc) ≡ 16)
      × (bshift_of (pc_slot pc) ≡ pc % 2 * 16)
      × (page_of (pc_slot pc) ≡ pc / 2 ^ 20 % 8)
      × (cell_of (pc_slot pc) ≡ pc / 2 % 2 ^ 19)
pc_slot_lem pc h = rw (pc_slot_sum pc h) (omega arith, omega arith, omega arith, omega arith)
