-- ===== src/Vm/ReturnStack.antt =====
-- Which micro-ops of src/vm.c can stand in a group with the return bit, which returns before them.
use lite_forth.Common.{
  ℕ, ◌<◌, ◌≡◌, ◌≢◌, refl, ap, ◌∙◌, Bool, true, false, ◌||◌, Bool-cases, inl, inr, List, [], ◌∷◌,
  ◌==◌, all_below, all_below-true,
}
use lite_forth.Vm.State.{VmState, rdrop}
use lite_forth.Vm.Memory.{Memory}
use lite_forth.Vm.Micro.{
  Uop, unext, push, r_fetch, pop, decode_uop, Effect, exec_uop, register_op, plus_op, plus_star_op,
  two_div_c_op,
}
use lite_forth.Vm.Sequence.{run_uops}

-- What the return bit does before the group's micro-ops: the PC is taken off the return stack.
abbrev pub return_first : VmState → VmState
return_first s = rdrop (record s { pc = s.r })

-- The same after micro-ops.
abbrev pub then_return : Effect → Effect
then_return e = record e { vm = return_first e.vm }

-- Whether a micro-op leaves the return stack and its top alone.
abbrev pub is_quiet : Uop → Bool
is_quiet push = false
is_quiet unext = false
is_quiet r_fetch = false
is_quiet pop = false
is_quiet _ = true

exec_uop-return_first :
    (op : Uop) (s : VmState) (m : Memory)
    → is_quiet op ≡ true
    → exec_uop op (return_first s) m ≡ then_return (exec_uop op s m)
unfolding exec_uop register_op plus_op plus_star_op two_div_c_op
exec_uop-return_first push s m h = absurd (cc)
exec_uop-return_first unext s m h = absurd (cc)
exec_uop-return_first r_fetch s m h = absurd (cc)
exec_uop-return_first pop s m h = absurd (cc)
exec_uop-return_first _ s m h = refl

-- A quiet micro-op is not `unext`.
pub is_quiet-unext : (op : Uop) → is_quiet op ≡ true → op ≢ unext
is_quiet-unext unext h e = absurd (cc)
is_quiet-unext _ h e = absurd (cc)

abbrev pub AllQuiet : List Uop → Type 0
AllQuiet [] = Unit {0}
AllQuiet (op ∷ ops) = (is_quiet op ≡ true) × AllQuiet ops

-- What follows a micro-op in a row.
abbrev after : List Uop → Effect → Effect
after ops e = elim (e.ior == 0) [ true ↦ run_uops ops e.vm e.mem | false ↦ e ]

after-then_return :
    (ops : List Uop) (e : Effect)
    → run_uops ops (return_first e.vm) e.mem ≡ then_return (run_uops ops e.vm e.mem)
    → after ops (then_return e) ≡ then_return (after ops e)
after-then_return ops e h = elim (Bool-cases (e.ior == 0)) [
  | inr failed ↦ rw (after, failed) refl
  | inl fine ↦ rw (after, fine) h
]

-- Quiet micro-ops after the return do what they do before it.
pub run_uops-return_first :
    (ops : List Uop) (s : VmState) (m : Memory)
    → AllQuiet ops
    → run_uops ops (return_first s) m ≡ then_return (run_uops ops s m)
unfolding run_uops
run_uops-return_first [] s m h = refl
run_uops-return_first (op ∷ ops) s m h =
    let e = exec_uop op s m in
    ap (after ops) (exec_uop-return_first op s m h.0)
    ∙ after-then_return ops e (run_uops-return_first ops e.vm e.mem h.1)

-- A test that finds the micro-ops that are not quiet, by their codes.
pub quiet_code :
    (test : ℕ → Bool)
    → all_below 32 (λ u. test u || is_quiet (decode_uop u)) ≡ true
    → (u : ℕ) → u < 32
    → test u ≡ false
    → is_quiet (decode_uop u) ≡ true
quiet_code test all u h e =
    let found = all_below-true 32 (λ u. test u || is_quiet (decode_uop u)) u all h in rw e at found
