-- ===== src/Vm/State.antt =====
-- `vm_state_t` and the moves of the two stacks (src/vm.h, and DDUP to RDROP of src/vm.c).
use lite_forth.Common.{ℕ, ◌+◌, ◌%◌, sub32, update}

abbrev pub stack_capacity : ℕ
stack_capacity = 128

-- N is kept on the data stack (no TWO_REGISTER_TOS). An index into a stack is masked first.
pub record VmState : Type 0 where
  pub t : ℕ
  pub pc : ℕ
  pub r : ℕ
  pub a : ℕ
  pub b : ℕ
  pub u : ℕ
  pub x : ℕ
  pub y : ℕ
  pub prefix : ℕ
  pub shift_size : ℕ
  pub sp : ℕ
  pub rp : ℕ
  pub cy : ℕ
  pub datastack : ℕ → ℕ
  pub returnstack : ℕ → ℕ

-- `& STACK_MASK`
abbrev pub up : ℕ → ℕ
up i = (i + 1) % stack_capacity

abbrev pub down : ℕ → ℕ
down i = sub32 i 1 % stack_capacity

-- The second item of the data stack.
abbrev pub nos : VmState → ℕ
nos s = s.datastack s.sp

abbrev pub ddup : VmState → VmState
ddup s = record s { sp = up s.sp; datastack = update s.datastack (up s.sp) s.t }

abbrev pub ddrop : VmState → VmState
ddrop s = record s { t = s.datastack s.sp; sp = down s.sp }

abbrev pub nip : VmState → VmState
nip s = record s { sp = down s.sp }

abbrev pub rdup : VmState → VmState
rdup s = record s { rp = up s.rp; returnstack = update s.returnstack (up s.rp) s.r }

abbrev pub rdrop : VmState → VmState
rdrop s = record s { r = s.returnstack s.rp; rp = down s.rp }

-- VM_LOAD: what vmExec takes of `lf_vm`, with the stack pointers and the carry masked.
abbrev pub vm_load : VmState → VmState
vm_load s = record s { sp = s.sp % stack_capacity; rp = s.rp % stack_capacity; cy = s.cy % 2 }

-- Push and pop of a value.
abbrev pub dpush : ℕ → VmState → VmState
dpush v s = record (ddup s) { t = v }

abbrev pub rpush : ℕ → VmState → VmState
rpush v s = record (rdup s) { r = v }
