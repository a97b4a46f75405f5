-- ===== src/Vm/Registers/Access.antt =====
-- What C code finds in the registers after it wrote them.
use lite_forth.Common.{
  true, false, ℕ, zero, suc, ◌+◌, ◌-◌, ◌%◌, ◌^◌, ◌<◌, ◌≡◌, refl, ap, ◌∙◌, arith, Option, none, some,
  ltb, leb, ◌==◌, ==_iff, if◌then◌else◌, update, update_self, neg32, Bool-cases, inl, inr, ◌||◌,
}
use lite_forth.Vm.State.{VmState, stack_capacity, up, down}
use lite_forth.Vm.Exec.{terminator}
use lite_forth.Vm.Registers.{
  reg_pc, named, set_named, item_index, peek_at, poke_at, poked, or_minus_one, vm_peek, vm_poke,
  vm_push, vm_pop, clear_registers, vm_reset, vm_emptystack,
}

-- A value that is pushed and popped again is the same, and the stack is as deep as before. The
-- cell above it keeps a copy of the top.
pub vm_pop-vm_push :
    (x : ℕ) (s : VmState)
    → s.sp < stack_capacity
    → vm_pop (vm_push x s).1 ≡ (x, record s { datastack = update s.datastack (up s.sp) s.t })
unfolding vm_pop vm_push vm_peek vm_poke
vm_pop-vm_push x s h =
    let top = update_self s.datastack (up s.sp) s.t in
    let back : down (up s.sp) ≡ s.sp = omega arith in
    rw top (ap (λ n. (x, record s { sp = n; datastack = update s.datastack (up s.sp) s.t })) back)

-- What a register keeps of the value written to it: the carry its lowest bit, a stack pointer its
-- place in the stack.
abbrev pub kept_part : ℕ → ℕ → ℕ
kept_part reg v =
    if reg == 0x106
    then v % 2
    else (if (reg == 0x107) || (reg == 0x108) then v % stack_capacity else v)

-- A write that succeeds is read back, and one that fails changes nothing and reads as -1.
abbrev Agrees : ℕ → ℕ → VmState → Option VmState → Type 0
Agrees reg v s none = peek_at s reg ≡ none
Agrees reg v s (some s') = peek_at s' reg ≡ some (kept_part reg v)

abbrev NamedAgrees : ℕ → ℕ → VmState → Option VmState → Type 0
NamedAgrees i v s none = named s i ≡ none
NamedAgrees i v s (some s') = named s' i ≡ some (kept_part (reg_pc + i) v)

named-Agrees : (i v : ℕ) (s : VmState) → NamedAgrees i v s (set_named s i v)
named-Agrees zero v s = refl
named-Agrees (suc zero) v s = refl
named-Agrees (suc (suc zero)) v s = refl
named-Agrees (suc (suc (suc zero))) v s = refl
named-Agrees (suc (suc (suc (suc zero)))) v s = refl
named-Agrees (suc (suc (suc (suc (suc zero))))) v s = refl
named-Agrees (suc (suc (suc (suc (suc (suc zero)))))) v s = refl
named-Agrees (suc (suc (suc (suc (suc (suc (suc zero))))))) v s = refl
named-Agrees (suc (suc (suc (suc (suc (suc (suc (suc zero)))))))) v s = refl
named-Agrees (suc (suc (suc (suc (suc (suc (suc (suc (suc n))))))))) v s = refl

NamedAgrees-Agrees :
    (reg v : ℕ) (s : VmState) (o : Option VmState)
    → (reg == 0) ≡ false
    → leb reg_pc reg ≡ true
    → NamedAgrees (reg - reg_pc) v s o
    → Agrees reg v s o
NamedAgrees-Agrees reg v s none other register h = rw (other, register) h
NamedAgrees-Agrees reg v s (some s') other register h =
    let e : reg_pc + (reg - reg_pc) ≡ reg = ground arith in
    rw (other, register) (h ∙ ap (λ (t : ℕ). some (kept_part t v)) e)

-- The items of the stack.
item_lem :
    (s : VmState) (reg v : ℕ) → update s.datastack (item_index s reg) v (item_index s reg) ≡ v
item_lem s reg v = update_self s.datastack (item_index s reg) v

kept_part-item : (reg v : ℕ) → reg < stack_capacity → kept_part reg v ≡ v
kept_part-item reg v h = ground arith

poke_at-Agrees : (reg v : ℕ) (s : VmState) → Agrees reg v s (poke_at s reg v)
poke_at-Agrees reg v s = elim (Bool-cases (reg == 0)) [
  | inl top ↦ rw (top, (==_iff reg 0).0 top) refl
  | inr other ↦ elim (Bool-cases (leb reg_pc reg)) [
    | inl register ↦
        rw (other, register)
          (NamedAgrees-Agrees reg v s _ other register (named-Agrees (reg - reg_pc) v s))
    | inr below ↦ elim (Bool-cases (ltb reg (stack_capacity - 1))) [
      | inl inside ↦
          rw (other, below, inside)
            (rw (other, below, inside, item_lem s reg v, kept_part-item reg v (ground arith)) refl)
      | inr outside ↦ rw (other, below, outside) (rw (other, below, outside) refl)
    ]
  ]
]

poked-Agrees :
    (reg v : ℕ) (s : VmState) (o : Option VmState)
    → Agrees reg v s o
    → or_minus_one (peek_at (poked s o).1 reg)
      ≡ (if (poked s o).0 == 0 then kept_part reg v else neg32 1)
poked-Agrees reg v s none h = rw h refl
poked-Agrees reg v s (some s') h = rw h refl

-- vmPeek after vmPoke of the same register or stack item (not the push, reg < 0): what that keeps
-- of the value, or -1 if vmPoke has no such register.
vm_peek-vm_poke :
    (reg v : ℕ) (s : VmState)
    → reg < 2 ^ 31
    → (vm_peek reg (vm_poke reg v s).1).0
      ≡ (if (vm_poke reg v s).0 == 0 then kept_part reg v else neg32 1)
unfolding vm_peek vm_poke
vm_peek-vm_poke reg v s h =
    let access : leb (2 ^ 31) reg ≡ false = ground arith in
    rw access (poked-Agrees reg v s (poke_at s reg v) (poke_at-Agrees reg v s))

-- vmReset clears the registers and leaves the markers of empty stacks; X, Y, the prefix, the shift
-- size and the stacks' cells stay.
pub vm_reset_lem :
    (s : VmState)
    → vm_reset s ≡ record s {
      t = vm_emptystack;
      r = terminator;
      pc = 0;
      a = 0;
      b = 0;
      u = 0;
      cy = 0;
      sp = 0;
      rp = 0;
    }
unfolding vm_reset clear_registers vm_poke
vm_reset_lem s = refl
