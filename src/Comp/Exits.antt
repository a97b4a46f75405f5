-- ===== src/Comp/Exits.antt =====
-- CompExit: the return bit in a group that leaves the return stack alone, or a tail call.
use lite_forth.Common.{
  ◌++◌, ℕ, ◌+◌, ◌*◌, ◌/◌, ◌%◌, ◌^◌, ◌<◌, ◌≤◌, ◌≡◌, ◌≢◌, refl, ap, ◌∙◌, arith, true, false, List, [],
  ◌∷◌, bit_or, bit_and, bit_or-shifted, bit_or_comm, bit_or_above, bit_and_clear, ◌==◌, ◌⊎◌, some,
  all_below, Bool-cases, inl, inr, not32, IsWord,
}
use lite_forth.Vm.Memory.{Memory, vm_fetch, cell_at, bitfield_size, bshift_of}
use lite_forth.Vm.Memory.RoundTrip.{cut, IsWritable, vm_fetch-vm_store}
use lite_forth.Comp.{
  Compiler, vmi_call, vmi_jump, vm_uops, vm_ret, slot0_10, is_return_op, uses_ret_stack, comp_exit,
  new_inst,
}
use lite_forth.Vm.State.{VmState}
use lite_forth.Vm.Micro.{decode_uop}
use lite_forth.Vm.Group.{run_group}
use lite_forth.Vm.Sequence.{group_uops, run_uops, run_group-run_uops}
use lite_forth.Vm.ReturnStack.{
  return_first, then_return, is_quiet, is_quiet-unext, AllQuiet, run_uops-return_first, quiet_code,
}
use lite_forth.Comp.Pack.{flushed_word}
use lite_forth.Comp.Target.{listing, memory_space}

-- The return bit does not change what a group holds.
exit_word :
    (i : ℕ) → i < 2 ^ 14 → bit_or vm_uops (bit_or i (bit_or vm_uops vm_ret)) ≡ 3 * 2 ^ 14 + i
exit_word i h =
    let both : bit_or i (3 * 2 ^ 14) ≡ 3 * 2 ^ 14 + i =
      bit_or_comm 64 i (3 * 2 ^ 14) (omega arith) (omega arith)
      ∙ bit_or-shifted 14 3 i (omega arith) h in
    let twice : bit_or (2 * 2 ^ 14) (3 * 2 ^ 14 + i) ≡ bit_or 2 3 * 2 ^ 14 + i =
      bit_or_above 14 2 3 i h in
    rw both twice

-- No slot of a group without return-stack micro-ops has one.
quiet_slot : (u : ℕ) → u < 32 → is_return_op u ≡ false → is_quiet (decode_uop u) ≡ true
unfolding all_below
quiet_slot u h e = quiet_code is_return_op refl u h e

group_uops-AllQuiet :
    (i : ℕ) → i < 2 ^ 14 → uses_ret_stack i ≡ false → AllQuiet (group_uops (3 * 2 ^ 14 + i))
unfolding uses_ret_stack
group_uops-AllQuiet i h e =
    let first : (3 * 2 ^ 14 + i) / 2 ^ 9 % 32 ≡ i / 2 ^ 9 % 32 = omega arith in
    let second : (3 * 2 ^ 14 + i) / 2 ^ 4 % 32 ≡ i / 2 ^ 4 % 32 = omega arith in
    let last : (3 * 2 ^ 14 + i) % 16 ≡ i % 16 = omega arith in
    rw (first, second, last)
      (
        quiet_slot (i / 2 ^ 9 % 32) (omega arith) (ground (arith, e)),
        (
          quiet_slot (i / 2 ^ 4 % 32) (omega arith) (ground (arith, e)),
          (quiet_slot (i % 16) (omega arith) (ground (arith, e)), tt),
        ),
      )

-- The code is that of the compiler with one more group, or two where the pending one uses the return
-- stack. The last has the return bit; run on any machine, it does what its micro-ops do, and returns.
pub record Returns (c : Compiler (List ℕ)) (code : List ℕ) : Type 0 where
  pub before : List ℕ
  pub exit : ℕ
  pub ends : code ≡ before ++ (exit ∷ [])
  pub returns : exit / 2 ^ 14 ≡ 3
  pub whole :
      ((before ≡ c.code) × (exit % 2 ^ 14 ≡ c.instruction))
      ⊎ ((before ≡ c.code ++ ((2 ^ 15 + c.instruction) ∷ [])) × (exit % 2 ^ 14 ≡ 0))
  pub harmless :
      (s : VmState) (m : Memory)
      → run_group 3 exit (return_first s) m ≡ some (then_return (run_uops (group_uops exit) s m))

exit_runs :
    (i : ℕ)
    → i < 2 ^ 14
    → uses_ret_stack i ≡ false
    → (s : VmState) (m : Memory)
    → run_group 3 (3 * 2 ^ 14 + i) (return_first s) m
      ≡ some (then_return (run_uops (group_uops (3 * 2 ^ 14 + i)) s m))
exit_runs i h u s m =
    let exit = 3 * 2 ^ 14 + i in
    let quiet = group_uops-AllQuiet i h u in
    run_group-run_uops 0 exit (return_first s) m (is_quiet-unext _ quiet.0)
      (is_quiet-unext _ quiet.1.0) (is_quiet-unext _ quiet.1.1.0)
    ∙ ap some (run_uops-return_first (group_uops exit) s m quiet)

ended :
    (c : Compiler (List ℕ)) (code ws : List ℕ) (i : ℕ)
    → i < 2 ^ 14
    → uses_ret_stack i ≡ false
    → ((ws ≡ c.code) × (i ≡ c.instruction))
      ⊎ ((ws ≡ c.code ++ ((2 ^ 15 + c.instruction) ∷ [])) × (i ≡ 0))
    → code ≡ ws ++ (bit_or vm_uops (bit_or i (bit_or vm_uops vm_ret)) ∷ [])
    → Returns c code
ended c code ws i h u w e =
    let low : (3 * 2 ^ 14 + i) % 2 ^ 14 ≡ i = omega (arith, h) in
    record {
      before = ws;
      exit = 3 * 2 ^ 14 + i;
      ends = e ∙ ap (λ t. ws ++ (t ∷ [])) (exit_word i h);
      returns = omega arith;
      whole = rw low w;
      harmless = exit_runs i h u;
    }

-- Unless the last word is a call to be turned into a jump, CompExit ends the code with a group
-- that has the return bit: the pending group's, or a group of nops behind the pending one. Run on
-- any machine, where the return comes first, the last group does what its micro-ops do one after
-- the other and a return behind them. The pending group fits its slots; with none filled it is 0.
pub comp_exit-Returns :
    (c : Compiler (List ℕ))
    → c.instruction < 2 ^ 14
    → (c.slot_10 ≡ slot0_10 → (c.lastcall ≡ 0) × (c.instruction ≡ 0))
    → Returns c (comp_exit listing c).1.code
unfolding comp_exit new_inst uses_ret_stack
comp_exit-Returns c h call = elim (Bool-cases (c.slot_10 == slot0_10)) [
  | inl start ↦
      (let (no_call, blank) = call (ground (arith, start)) in
        let quiet : uses_ret_stack c.instruction ≡ false = rw blank refl in
        let skip : (c.lastcall == 0) ≡ true = ground (arith, no_call) in
        rw (start, skip) (ended c _ c.code c.instruction h quiet (inl (refl, refl)) refl))
  | inr filled ↦ elim (Bool-cases (uses_ret_stack c.instruction)) [
    | inl busy ↦
        rw (filled, busy)
          (ended c _ (c.code ++ (bit_or vm_uops c.instruction ∷ [])) 0 (omega arith) refl
            (inr (ap (λ t. c.code ++ (t ∷ [])) (flushed_word c.instruction h), refl)) refl)
    | inr quiet ↦
        rw (filled, quiet) (ended c _ c.code c.instruction h quiet (inl (refl, refl)) refl)
  ]
]

-- After a call with nothing pending, CompExit turns the call into a jump to the same address: what
-- is fetched at `lastcall` then is the jump. The call's slot is writable and fits its cell.
comp_exit_tail :
    (f_ptrs imm : ℕ) (c : Compiler Memory)
    → c.slot_10 ≡ slot0_10
    → c.lastcall ≢ 0
    → imm < 2 ^ 13
    → vm_fetch c.code c.lastcall ≡ (0, vmi_call + imm)
    → IsWord (cell_at c.code c.lastcall)
    → IsWritable c.code c.lastcall
    → bitfield_size c.lastcall ≡ 16
    → bshift_of c.lastcall ≤ 16
    → ((comp_exit (memory_space f_ptrs) c).0 ≡ 0)
      × (vm_fetch (comp_exit (memory_space f_ptrs) c).1.code c.lastcall ≡ (0, vmi_jump + imm))
unfolding comp_exit
comp_exit_tail f_ptrs imm c start call h at word writable size shift =
    let fresh : (c.slot_10 == slot0_10) ≡ true = ground (arith, start) in
    let used : (c.lastcall == 0) ≡ false = ground (arith, call) in
    let inst : (vm_fetch c.code c.lastcall).1 ≡ vmi_call + imm = ap (λ t. t.1) at in
    let cleared : bit_and (vmi_call + imm) (not32 vmi_call) ≡ imm =
      omega (arith, bit_and_clear 13 1 18 (vmi_call + imm)) in
    let whole : cut c.lastcall imm ≡ vmi_jump + imm = rw size (omega arith) in
    rw (fresh, used, inst, cleared)
      (let (done, back) =
          vm_fetch-vm_store c.code c.lastcall imm word writable (omega (arith, size, shift)) in
        (done, back ∙ ap (λ t. (0, t)) whole))
