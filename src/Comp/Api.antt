-- ===== src/Comp/Api.antt =====
-- The words of src/comp.c that compile what they take from the data stack, and compiled words.
use lite_forth.Common.{ℕ, ◌%◌, ◌^◌, true, false, Option, some, bit_and, ◌==◌, if◌then◌else◌, neg32}
use lite_forth.Slice.{lf_set_slice_width}
use lite_forth.Vm.State.{VmState}
use lite_forth.Vm.Inst.{Machine, Host}
use lite_forth.Vm.Exec.{vm_run}
use lite_forth.Vm.Registers.{vm_pop, vm_push}
use lite_forth.Comp.{CodeSpace, Compiler, emit, new_inst, lf_compile_lit, lf_compile_xt}

-- A_CONSTANT
abbrev pub a_constant : ℕ
a_constant = 0x20000000

-- A_UNRESOLVED
abbrev pub a_unresolved : ℕ
a_unresolved = 0x10000000

-- W_PRIMITIVE
abbrev pub w_primitive : ℕ
w_primitive = 0x80000000

-- errcodes.h
abbrev pub unresolved_later : ℕ
unresolved_later = neg32 119

module _ {W : Type 0} (host : Host W) where
  unfoldable pub lf_execute_xt : ℕ → ℕ → Machine W → Option (ℕ × Machine W)
  lf_execute_xt fuel xt m =
      if bit_and xt w_primitive == 0
      then vm_run host fuel false 0 (xt % 2 ^ 23) m
      else vm_run host fuel true (xt % 2 ^ 16) 0 m

  -- A header's `aux` and `w`.
  unfoldable pub lf_execute_word : ℕ → ℕ → ℕ → Machine W → Option (ℕ × Machine W)
  lf_execute_word fuel aux w m =
      let (ior, vm) = vm_push w m.vm in
      if bit_and aux a_unresolved == 0
      then (if bit_and aux a_constant == 0
          then lf_execute_xt fuel w m
          else some (ior, record m { vm = vm }))
      else some (unresolved_later, m)

module _ {S : Type 0} (space : CodeSpace S) where
  unfoldable pub lf_api_newinst : Compiler S → ℕ × Compiler S
  lf_api_newinst c = (0, new_inst space c)

  unfoldable pub lf_api_inst : VmState → Compiler S → ℕ × VmState × Compiler S
  lf_api_inst m c =
      let (inst, m') = vm_pop m in
      let (ior, c') = emit space inst (new_inst space c) in (ior, m', c')

  unfoldable pub lf_api_literal : VmState → Compiler S → ℕ × VmState × Compiler S
  lf_api_literal m c =
      let (x, m') = vm_pop m in let (ior, c') = lf_compile_lit space x c in (ior, m', c')

  unfoldable pub lf_api_compile : VmState → Compiler S → ℕ × VmState × Compiler S
  lf_api_compile m c =
      let (xt, m') = vm_pop m in let (ior, c') = lf_compile_xt space xt c in (ior, m', c')

  -- A header's `aux` and `w`.
  unfoldable pub lf_compile_word : ℕ → ℕ → Compiler S → ℕ × Compiler S
  lf_compile_word aux w c =
      if bit_and aux a_constant == 0 then lf_compile_xt space w c else lf_compile_lit space w c

-- BIT
unfoldable pub lf_api_bit : VmState → ℕ × VmState
lf_api_bit m =
    let (bits, m') = vm_pop m in
    let (addr, m'') = vm_pop m' in vm_push (lf_set_slice_width addr bits) m''
