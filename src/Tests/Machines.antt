-- ===== src/Tests/Machines.antt =====
-- Stores, and runs of a machine with a word in page 0 and an invalid opcode behind it.
use lite_forth.Common.{
  update, ℕ, ◌+◌, ◌*◌, ◌^◌, ◌≡◌, refl, false, Option, some, none, [], arith, if◌then◌else◌, ◌==◌,
}
use lite_forth.Vm.State.{VmState}
use lite_forth.Vm.Memory.{Memory, vm_fetch, vm_store}
use lite_forth.Vm.Memory.Limits.{Confined, vm_store-Confined}
use lite_forth.Vm.Memory.RoundTrip.{IsWritable, vm_fetch-vm_store}
use lite_forth.Vm.Group.{run_group, run_slots, group_slots, step_slot, step_op, step_unext}
use lite_forth.Vm.Micro.{exec_uop, register_op}
use lite_forth.Vm.Inst.{Machine, Host, execute, exec_other, invalid_opcode}
use lite_forth.Vm.Exec.{
  yeet_pc, cold, lookup_page, fetch_inst, byee, after_inst, is_api, advance_pc, finish_inst,
  finish_fetch, round, exec_loop, vm_exec, finish_run, vm_run,
}
use lite_forth.Vm.CodeCache.{FitPages, IsCacheOf, holds, outcome_of, fetch_inst-cold}
use lite_forth.Vm.Sandbox.{NoApi, IsBoxed, vm_run-IsBoxed}
use lite_forth.Vm.Steps.{Ran, Runs, stay, go_on, exec_loop-failing}

-- `literal 5`, a return, and the opcode 0x6A00 in the next cell.
abbrev pub memory : Memory
memory = record {
  cells = λ page i. if i == 0 then 0xC0004005 else (if i == 1 then 0x6A00 else 0);
  rd_limit = λ page. 8;
  wp_limit = λ page. 4;
  executable = λ page. 4;
  io_page = 8;
  io_ranges = [];
}

-- Bits 19:8 of cell 5.
abbrev slice : ℕ
slice = 12 * 2 ^ 27 + 8 * 2 ^ 22 + 5

abbrev registers : VmState
registers = record {
  t = 0;
  pc = 2;
  r = 0;
  a = 0;
  b = 0;
  u = 0;
  x = 0;
  y = 0;
  prefix = 0;
  shift_size = 0;
  sp = 0;
  rp = 0;
  cy = 0;
  datastack = λ i. 0;
  returnstack = λ i. 0;
}

-- The option that disables API calls is set.
abbrev pub machine : Machine (Unit {0})
machine = record { vm = registers; mem = memory; options = 0x4000; world = tt }

abbrev pub host : Host (Unit {0})
host = record {
  api0 = λ i m. (0, m);
  api1 = λ i m. (0, m);
  iomap_wr = λ i v w. (0, w);
  iomap_rd = λ i w. (0, 0, w);
  get_time = λ w. (0, w);
  watchdog_ping = λ w. w;
}

abbrev result : Option (ℕ × Machine (Unit {0})) → ℕ × Machine (Unit {0})
result none = (1, machine)
result (some r) = r

abbrev final : Machine (Unit {0})
final = (result (vm_run host 5 false 0 0 machine)).1

word_runs : vm_run host 5 false 0 0 machine ≡ some (0, final)
unfolding vm_run finish_run vm_exec exec_loop round finish_fetch finish_inst after_inst byee is_api
    advance_pc fetch_inst execute run_group run_slots group_slots step_slot step_op step_unext
    exec_uop register_op
word_runs = refl

word_pushes : final.vm.t ≡ 5
unfolding vm_run finish_run vm_exec exec_loop round finish_fetch finish_inst after_inst byee is_api
    advance_pc fetch_inst execute run_group run_slots group_slots step_slot step_op step_unext
    exec_uop register_op
word_pushes = refl

slice-IsWritable : IsWritable memory slice
slice-IsWritable = record { readable = omega arith; unprotected = omega arith }

vm_fetch-vm_store_example :
    ((vm_store memory slice 0x12345).0 ≡ 0)
    × (vm_fetch (vm_store memory slice 0x12345).1 slice ≡ (0, 0x345))
vm_fetch-vm_store_example =
    vm_fetch-vm_store memory slice 0x12345 (omega arith) slice-IsWritable (omega arith)

vm_store-Confined_example : Confined memory (vm_store memory 2 9).1
vm_store-Confined_example = vm_store-Confined memory 2 9

machine-NoApi : NoApi host machine
machine-NoApi h = ground (arith, h)

vm_run-IsBoxed_example : IsBoxed host machine final
vm_run-IsBoxed_example = vm_run-IsBoxed host 5 false 0 0 machine 0 final machine-NoApi word_runs

-- A literal and a return, then the instruction that has no meaning.
abbrev from_start : Machine (Unit {0})
from_start = record machine { vm = record registers { pc = 0; r = 2 } }

abbrev pushed_five : Machine (Unit {0})
pushed_five = record machine {
  vm = record registers { pc = 1; r = 2; t = 5; sp = 1; datastack = update (λ i. 0) 1 0 };
}

abbrev returned : Machine (Unit {0})
returned = record machine {
  vm = record registers { pc = 2; r = 0; rp = 127; t = 5; sp = 1; datastack = update (λ i. 0) 1 0 };
}

abbrev refused : Machine (Unit {0})
refused = record returned { vm = record returned.vm { pc = 3 } }

literal-Ran : Ran host 6 cold from_start 0 pushed_five
unfolding fetch_inst advance_pc execute exec_other
literal-Ran = record {
  inst = 0xC0004005;
  cache = lookup_page memory 0;
  fetches = refl;
  executes = refl;
}

group-Ran : Ran host 5 (lookup_page memory 0) pushed_five 0 returned
unfolding fetch_inst advance_pc execute run_group run_slots group_slots step_slot step_op exec_uop
    register_op
group-Ran = record { inst = 0xC000; cache = lookup_page memory 0; fetches = refl; executes = refl }

refused-Ran : Ran host 4 (lookup_page memory 0) returned invalid_opcode refused
unfolding fetch_inst advance_pc execute exec_other
refused-Ran = record {
  inst = 0x6A00;
  cache = lookup_page memory 0;
  fetches = refl;
  executes = refl;
}

two_run : Runs host 7 5 2 cold from_start (lookup_page memory 0) returned
unfolding is_api group-Ran literal-Ran
two_run = go_on 6 5 1 cold from_start pushed_five (lookup_page memory 0) returned literal-Ran (
    go_on 5 5 0 (lookup_page memory 0) pushed_five returned (lookup_page memory 0) returned
      group-Ran (stay 5 (lookup_page memory 0) returned))

exec_loop-failing_example :
    exec_loop host 7 8 cold from_start
    ≡ some (
      invalid_opcode,
      record refused { vm = record refused.vm { x = 3; y = invalid_opcode; pc = yeet_pc } },
    )
exec_loop-failing_example =
    exec_loop-failing host 7 4 2 8 cold from_start (lookup_page memory 0) returned invalid_opcode
      refused two_run (omega arith) refused-Ran (omega arith)

memory-FitPages : FitPages memory
memory-FitPages page = omega arith

page_zero-IsCacheOf : IsCacheOf memory (lookup_page memory 0)
page_zero-IsCacheOf = holds 0 (omega arith) refl

fetch_inst-cold_example :
    outcome_of (fetch_inst (lookup_page memory 0) memory 2) ≡ outcome_of (fetch_inst cold memory 2)
fetch_inst-cold_example =
    fetch_inst-cold memory memory-FitPages 2 (omega arith) (lookup_page memory 0)
      page_zero-IsCacheOf
