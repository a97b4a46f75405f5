-- ===== src/Vm/Registers.antt =====
-- Access to the registers and the data stack from C: vmPeek, vmPoke and vmReset (src/vm.c).
pub mod Access
use lite_forth.Common.{
  ℕ, zero, suc, ◌+◌, ◌-◌, ◌%◌, ◌^◌, [], ◌∷◌, Option, none, some, ltb, leb, ◌==◌, if◌then◌else◌,
  get_or, update, sub32, neg32,
}
use lite_forth.Vm.State.{VmState, stack_capacity, ddup, ddrop}
use lite_forth.Vm.Exec.{terminator}

-- VM_REG_PC, VM_REG_rp, and VM_EMPTYSTACK. A `reg` is an int, as its bit pattern.
abbrev pub reg_pc : ℕ
reg_pc = 0x100

abbrev pub reg_rp : ℕ
reg_rp = 0x108

abbrev pub vm_emptystack : ℕ
vm_emptystack = 0xAAAAAAAA

-- The place on the data stack of the item `reg` places below the top.
abbrev pub item_index : VmState → ℕ → ℕ
item_index s reg = sub32 (s.sp + 1) reg % stack_capacity

-- The named registers, from VM_REG_PC on; VM_REG_Y has no case.
abbrev pub named : VmState → ℕ → Option ℕ
named s i =
    get_or
      (some s.pc
        ∷ some s.r
        ∷ some s.a
        ∷ some s.b
        ∷ some s.u
        ∷ none
        ∷ some s.cy
        ∷ some s.sp
        ∷ some s.rp
        ∷ [])
      i none

abbrev pub item : VmState → ℕ → Option ℕ
item s reg = if ltb reg (stack_capacity - 1) then some (s.datastack (item_index s reg)) else none

abbrev pub peek_at : VmState → ℕ → Option ℕ
peek_at s reg =
    if reg == 0 then some s.t else (if leb reg_pc reg then named s (reg - reg_pc) else item s reg)

abbrev pub or_minus_one : Option ℕ → ℕ
or_minus_one none = neg32 1
or_minus_one (some v) = v

unfoldable pub vm_peek : ℕ → VmState → ℕ × VmState
vm_peek reg s = if leb (2 ^ 31) reg then (s.t, ddrop s) else (or_minus_one (peek_at s reg), s)

abbrev pub set_named : VmState → ℕ → ℕ → Option VmState
set_named s i v =
    get_or
      (some (record s { pc = v })
        ∷ some (record s { r = v })
        ∷ some (record s { a = v })
        ∷ some (record s { b = v })
        ∷ some (record s { u = v })
        ∷ none
        ∷ some (record s { cy = v % 2 })
        ∷ some (record s { sp = v % stack_capacity })
        ∷ some (record s { rp = v % stack_capacity })
        ∷ [])
      i none

abbrev pub set_item : VmState → ℕ → ℕ → Option VmState
set_item s reg v =
    if ltb reg (stack_capacity - 1)
    then some (record s { datastack = update s.datastack (item_index s reg) v })
    else none

abbrev pub poke_at : VmState → ℕ → ℕ → Option VmState
poke_at s reg v =
    if reg == 0
    then some (record s { t = v })
    else (if leb reg_pc reg then set_named s (reg - reg_pc) v else set_item s reg v)

abbrev pub poked : VmState → Option VmState → ℕ × VmState
poked s none = (neg32 1, s)
poked s (some s') = (0, s')

unfoldable pub vm_poke : ℕ → ℕ → VmState → ℕ × VmState
vm_poke reg v s =
    if leb (2 ^ 31) reg then poked (ddup s) (poke_at (ddup s) 0 v) else poked s (poke_at s reg v)

-- vmPush and vmPop (src/tools.c)
unfoldable pub vm_push : ℕ → VmState → ℕ × VmState
unfolding vm_poke
vm_push x s = vm_poke (neg32 1) x s

unfoldable pub vm_pop : VmState → ℕ × VmState
unfolding vm_peek
vm_pop s = vm_peek (neg32 1) s

-- The loop of vmReset over the registers from `reg` on.
clear_registers : ℕ → ℕ → VmState → VmState
unfolding vm_poke
clear_registers zero reg s = s
clear_registers (suc n) reg s = clear_registers n (reg + 1) (vm_poke reg 0 s).1

unfoldable pub vm_reset : VmState → VmState
unfolding clear_registers
vm_reset s = record (clear_registers (reg_rp - reg_pc + 1) reg_pc s) {
  r = terminator;
  t = vm_emptystack;
}
