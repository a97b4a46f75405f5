-- ===== src/Vm/Sandbox.antt =====
-- The machine as a sandbox: what its code can do to the memory, instruction by instruction.
use mathlib.Core.Option
use lite_forth.Common.{
  ℕ, ◌/◌, ◌*◌, u32, ◌%◌, ◌^◌, inl, inr, zero, suc, ◌≡◌, ◌≢◌, refl, ◌∙◌, Bool, Option, none, some,
  arith, bit_and, ◌==◌, Bool-cases, subst,
}
use lite_forth.Vm.State.{VmState}
use lite_forth.Vm.Memory.{Memory}
use lite_forth.Vm.Memory.Limits.{Confined, Confined-refl, Confined-trans, vm_store-Confined}
use lite_forth.Vm.Micro.{
  Uop, store_a, store_a_plus, store_b, store_b_plus, unext, Effect, exec_uop, decode_uop,
}
use lite_forth.Vm.Group.{step_unext, step_op, step_slot, run_group}
use lite_forth.Vm.Inst.{
  Machine, Host, Other, sys, to_sys, from_sys, api0_call, api1_call, option_no_api,
  no_api_call_allowed, vm_api_call, exec_sys, exec_to_sys, exec_from_sys, exec_other, execute,
  decode_other, of_effect,
}
use lite_forth.Vm.Exec.{advance_pc, vm_run}
use lite_forth.Vm.Induction.{run_slots_induction, Kept}
use lite_forth.Vm.Induction.Run.{vm_run-Kept}

-- No micro-op reaches a protected cell.
pub exec_uop-Confined : (op : Uop) (s : VmState) (m : Memory) → Confined m (exec_uop op s m).mem
unfolding exec_uop
exec_uop-Confined store_a s m = vm_store-Confined m s.a s.t
exec_uop-Confined store_a_plus s m = vm_store-Confined m s.a s.t
exec_uop-Confined store_b s m = vm_store-Confined m s.b s.t
exec_uop-Confined store_b_plus s m = vm_store-Confined m s.b s.t
exec_uop-Confined _ s m = Confined-refl m

step_op-Confined :
    (op : Uop) (inst left : ℕ) (s : VmState) (m : Memory)
    → Confined m (step_op op inst left s m).1.mem
unfolding step_op step_unext
step_op-Confined unext inst left s m = ground (arith, Confined-refl m)
step_op-Confined _ inst left s m = exec_uop-Confined _ s m

step_slot-Confined :
    (inst slots : ℕ) (s : VmState) (m : Memory) → Confined m (step_slot inst slots s m).1.mem
unfolding step_slot
step_slot-Confined inst slots s m =
    step_op-Confined (decode_uop (slots / 2 ^ 27)) inst (u32 (slots * 2 ^ 5)) s m

-- Nor does a group, however often `unext` repeats it.
run_group-Confined :
    (fuel inst : ℕ) (s : VmState) (m : Memory) (e : Effect)
    → run_group fuel inst s m ≡ some e
    → Confined m e.mem
unfolding run_group
run_group-Confined fuel inst s m e h =
    run_slots_induction (λ _ n. Confined m n) inst
      (λ slots s' n c. Confined-trans c (step_slot-Confined inst slots s' n)) fuel _ s m e
      (Confined-refl m) h

module _ {W : Type 0} (host : Host W) where
  -- The memory and the options stay as they were.
  abbrev Quiet : Machine W → ℕ × Machine W → Type 0
  Quiet m r = (r.1.mem ≡ m.mem) × (r.1.options ≡ m.options)

  -- API calls are disabled.
  abbrev pub NoApi : Machine W → Type 0
  NoApi m = bit_and m.options option_no_api ≢ 0

  exec_sys-Quiet : (imm : ℕ) (m : Machine W) → Quiet m (exec_sys host imm m)
  unfolding exec_sys
  exec_sys-Quiet zero m = (refl, refl)
  exec_sys-Quiet (suc zero) m = (refl, refl)
  exec_sys-Quiet (suc (suc zero)) m = (refl, refl)
  exec_sys-Quiet (suc (suc (suc zero))) m = (refl, refl)
  exec_sys-Quiet (suc (suc (suc (suc zero)))) m = (refl, refl)
  exec_sys-Quiet (suc (suc (suc (suc (suc zero))))) m = (refl, refl)
  exec_sys-Quiet (suc (suc (suc (suc (suc (suc zero)))))) m = (refl, refl)
  exec_sys-Quiet (suc (suc (suc (suc (suc (suc (suc n))))))) m = (refl, refl)

  exec_to_sys-Quiet : (imm tos : ℕ) (m : Machine W) → Quiet m (exec_to_sys host imm tos m)
  unfolding exec_to_sys
  exec_to_sys-Quiet zero tos m = (refl, refl)
  exec_to_sys-Quiet (suc zero) tos m = (refl, refl)
  exec_to_sys-Quiet (suc (suc zero)) tos m = (refl, refl)
  exec_to_sys-Quiet (suc (suc (suc n))) tos m = ground arith

  exec_from_sys-Quiet : (imm : ℕ) (m : Machine W) → Quiet m (exec_from_sys host imm m)
  unfolding exec_from_sys
  exec_from_sys-Quiet zero m = (refl, refl)
  exec_from_sys-Quiet (suc zero) m = (refl, refl)
  exec_from_sys-Quiet (suc (suc zero)) m = (refl, refl)
  exec_from_sys-Quiet (suc (suc (suc n))) m = ground arith

  vm_api_call-refused :
      (inst : ℕ) (m : Machine W) → NoApi m → vm_api_call host inst m ≡ (no_api_call_allowed, m)
  unfolding vm_api_call
  vm_api_call-refused inst m h = ground arith

  exec_other-Quiet :
      (o : Other) (inst : ℕ) (m : Machine W) → NoApi m → Quiet m (exec_other host o inst m)
  unfolding exec_other
  exec_other-Quiet sys inst m h = exec_sys-Quiet (inst % 2 ^ 9) m
  exec_other-Quiet to_sys inst m h = exec_to_sys-Quiet (inst % 2 ^ 9) m.vm.t _
  exec_other-Quiet from_sys inst m h = exec_from_sys-Quiet (inst % 2 ^ 9) _
  exec_other-Quiet api0_call inst m h = rw (vm_api_call-refused inst m h) (refl, refl)
  exec_other-Quiet api1_call inst m h = rw (vm_api_call-refused inst m h) (refl, refl)
  exec_other-Quiet _ inst m h = (refl, refl)

  -- A machine reached from `m` with no API call.
  pub record IsBoxed (m n : Machine W) : Type 0 where
    pub confined : Confined m.mem n.mem
    pub options : n.options ≡ m.options

  Quiet-IsBoxed : (m : Machine W) (r : ℕ × Machine W) → Quiet m r → IsBoxed m r.1
  Quiet-IsBoxed m r (p, q) = record { confined = rw p (Confined-refl m.mem); options = q }

  of_group-IsBoxed :
      (fuel inst : ℕ) (s : VmState) (m : Machine W) (ior : ℕ) (m' : Machine W) (o : Option Effect)
      → run_group fuel inst s m.mem ≡ o
      → Option.map (of_effect host m) o ≡ some (ior, m')
      → IsBoxed m m'
  of_group-IsBoxed fuel inst s m ior m' none e h = cc
  of_group-IsBoxed fuel inst s m ior m' (some e) p h =
      let q : of_effect host m e ≡ (ior, m') = cc in
      subst (λ r. IsBoxed m r.1) q
        (record { confined = run_group-Confined fuel inst s m.mem e p; options = refl })

  result-IsBoxed :
      (m : Machine W) (r : ℕ × Machine W) (ior : ℕ) (m' : Machine W)
      → Quiet m r
      → some r ≡ some (ior, m')
      → IsBoxed m m'
  result-IsBoxed m r ior m' q h =
      let e : r ≡ (ior, m') = cc in subst (λ t. IsBoxed m t.1) e (Quiet-IsBoxed m r q)

  execute-IsBoxed :
      (fuel inst : ℕ) (m : Machine W) (ior : ℕ) (m' : Machine W)
      → NoApi m
      → execute host fuel inst m ≡ some (ior, m')
      → IsBoxed m m'
  unfolding execute
  execute-IsBoxed fuel inst m ior m' free h = elim (Bool-cases (inst / 2 ^ 15 % 2 == 0)) [
    | inl word ↦ elim (Bool-cases (inst / 2 ^ 14 % 2 == 0)) [
      | inl jump ↦ result-IsBoxed m _ ior m' (refl, refl) (rw (word, jump) at h)
      | inr rest ↦ elim (Bool-cases (inst / 2 ^ 13 % 2 == 0)) [
        | inl literal ↦ result-IsBoxed m _ ior m' (refl, refl) (rw (word, rest, literal) at h)
        | inr other ↦
            result-IsBoxed m _ ior m' (exec_other-Quiet (decode_other inst) inst m free)
              (rw (word, rest, other) at h)
      ]
    ]
    | inr group ↦ of_group-IsBoxed fuel inst _ m ior m' _ refl (rw group at h)
  ]

  IsBoxed-more : {m n o : Machine W} → IsBoxed m n → IsBoxed n o → IsBoxed m o
  IsBoxed-more a b = record {
    confined = Confined-trans a.confined b.confined;
    options = b.options ∙ a.options;
  }

  IsBoxed-Kept : (m : Machine W) → NoApi m → Kept host (λ _. Unit {0}) (IsBoxed m)
  unfolding advance_pc
  IsBoxed-Kept m free = record {
    executed = λ fuel inst n ior o p h.
        (tt, IsBoxed-more p (execute-IsBoxed fuel inst n ior o (rw p.options free) h));
    yeeted = λ ior n i p. record { confined = p.confined; options = p.options };
    advanced = λ n p. record { confined = p.confined; options = p.options };
    protected = tt;
    loaded = λ n p. record { confined = p.confined; options = p.options };
    called = λ address n i p. record { confined = p.confined; options = p.options };
    restored = λ pc n i p. record { confined = p.confined; options = p.options };
    pc_kept = λ n p. tt;
  }

  -- With API calls disabled, no run of VM code (an instruction, a word or steps of the app,
  -- whatever the code in memory) changes a limit, the allowlist, the options or a protected
  -- cell: one below both limits of its page, or past its read limit, but for the cells of the
  -- guarded page that the allowlist lets be written.
  pub vm_run-IsBoxed :
      (fuel : ℕ) (once : Bool) (inst address : ℕ) (m : Machine W) (ior : ℕ) (m' : Machine W)
      → NoApi m
      → vm_run host fuel once inst address m ≡ some (ior, m')
      → IsBoxed m m'
  vm_run-IsBoxed fuel once inst address m ior m' free h =
      vm_run-Kept (IsBoxed-Kept m free) fuel once inst address m ior m' tt
        (record { confined = Confined-refl m.mem; options = refl }) h
