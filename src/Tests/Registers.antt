-- ===== src/Tests/Registers.antt =====
-- Registers of a machine with two items on its stack.
use lite_forth.Common.{
  ℕ, ◌*◌, some, [], ◌∷◌, ◌+◌, ◌-◌, ◌*◌, ◌^◌, ◌≡◌, refl, arith, if◌then◌else◌, ◌==◌,
}
use lite_forth.Vm.State.{VmState}
use lite_forth.Vm.Micro.{dup, inv, plus}
use lite_forth.Vm.Memory.{Memory}
use lite_forth.Vm.Group.{run_group}
use lite_forth.Vm.Sequence.{run_uops, run_group-run_uops}
use lite_forth.Vm.Arith.{multiply_steps, multiply_steps-product}

abbrev two_items : VmState
two_items = record {
  t = 2 ^ 32 - 1;
  pc = 9;
  r = 0;
  a = 6;
  b = 0;
  u = 0;
  x = 0;
  y = 0;
  prefix = 0;
  shift_size = 0;
  sp = 1;
  rp = 0;
  cy = 1;
  datastack = λ i. if i == 1 then 7 else 0;
  returnstack = λ i. 0;
}

abbrev zero_top : VmState
zero_top = record two_items { t = 0 }

multiply_steps-product_example :
    (multiply_steps 32 zero_top).t * 2 ^ 32 + (multiply_steps 32 zero_top).a ≡ 42
multiply_steps-product_example = multiply_steps-product zero_top refl (omega arith) (omega arith)

-- `dup + inv`
abbrev dup_plus_inv : ℕ
dup_plus_inv = 0x8000 + 10 * 2 ^ 9 + 5 * 2 ^ 4 + 1

abbrev no_memory : Memory
no_memory = record {
  cells = λ page i. 0;
  rd_limit = λ page. 0;
  wp_limit = λ page. 0;
  executable = λ page. 0;
  io_page = 8;
  io_ranges = [];
}

run_group-run_uops_example :
    run_group 3 dup_plus_inv two_items no_memory
    ≡ some (run_uops (dup ∷ plus ∷ inv ∷ []) two_items no_memory)
run_group-run_uops_example = run_group-run_uops 0 dup_plus_inv two_items no_memory (cc) (cc) (cc)
