-- ===== src/Vm/Induction/Run.antt =====
-- The same for the whole of vmExec and vmRun.
use mathlib.Core.Option
use lite_forth.Common.{
  ℕ, inl, inr, refl, not, ◌&&◌, Bool-cases, ◌≡◌, Bool, true, false, Option, none, some, subst, ◌==◌,
}
use lite_forth.Vm.State.{vm_load}
use lite_forth.Vm.Inst.{Machine, Host, execute}
use lite_forth.Vm.Exec.{
  Next, stop, again, after_inst, cold, of_next, once_result, vm_exec, ended, finish_run, vm_run,
}
use lite_forth.Vm.Induction.{some_eq, NextIs, Kept, after_inst-NextIs, exec_loop-Kept}

module _ {W : Type 0} {host : Host W} {Ior : ℕ → Type 0} {P : Machine W → Type 0}
    (k : Kept host Ior P) where
  of_next-NextIs : (x : Next W) → NextIs P x → P (of_next x).1
  of_next-NextIs (stop ior m) q = q
  of_next-NextIs (again steps m) q = q

  once-Kept :
      (o : Option (ℕ × Machine W)) (ior : ℕ) (m' : Machine W)
      → ((i : ℕ) (n : Machine W) → o ≡ some (i, n) → Ior i × P n)
      → Option.map (once_result host) o ≡ some (ior, m')
      → P m'
  once-Kept none ior m' p h = cc
  once-Kept (some (i, n)) ior m' p h =
      let e : once_result host (i, n) ≡ (ior, m') = cc in
      let (q, r) = p i n refl in
      subst (λ t. P t.1) e
        (of_next-NextIs (after_inst true true 0 i n) (after_inst-NextIs k true true 0 i n q r))

  vm_exec-Kept :
      (fuel : ℕ) (once : Bool) (inst address : ℕ) (m : Machine W) (ior : ℕ) (m' : Machine W)
      → Ior address
      → P m
      → vm_exec host fuel once inst address m ≡ some (ior, m')
      → P m'
  unfolding vm_exec
  vm_exec-Kept fuel true inst address m ior m' a p h =
      once-Kept (execute host fuel inst (record m { vm = vm_load m.vm })) ior m'
        (λ i n e. k.executed fuel inst _ i n (k.loaded m p) e) h
  vm_exec-Kept fuel false inst address m ior m' a p h = elim (Bool-cases (inst == 0)) [
    | inl word ↦
        exec_loop-Kept k fuel 0 cold _ ior m' (k.called address _ a (k.loaded m p)) (rw word at h)
    | inr stepped ↦ exec_loop-Kept k fuel inst cold _ ior m' (k.loaded m p) (rw stepped at h)
  ]

  finish_run-Kept :
      (once : Bool) (inst pc ior : ℕ) (m : Machine W)
      → Ior pc
      → P m
      → P (finish_run once inst pc (ended ior m)).1
  unfolding finish_run
  finish_run-Kept once inst pc ior m a p = elim (Bool-cases (not once && inst == 0)) [
    | inl word ↦ rw word (k.restored pc m a p)
    | inr other ↦ rw other p
  ]

  finished-Kept :
      (once : Bool) (inst pc : ℕ) (o : Option (ℕ × Machine W)) (ior : ℕ) (m' : Machine W)
      → Ior pc
      → ((i : ℕ) (n : Machine W) → o ≡ some (i, n) → P n)
      → ◌≡◌ {A = Option (ℕ × Machine W)}
          (elim o [ none ↦ none | some (i, n) ↦ some (finish_run once inst pc (ended i n)) ])
          (some (ior, m'))
      → P m'
  finished-Kept once inst pc none ior m' a p h = cc
  finished-Kept once inst pc (some (i, n)) ior m' a p h =
      subst (λ t. P t.1) (some_eq h) (finish_run-Kept once inst pc i n a (p i n refl))

  -- And so does vmRun, whichever way it is called.
  pub vm_run-Kept :
      (fuel : ℕ) (once : Bool) (inst address : ℕ) (m : Machine W) (ior : ℕ) (m' : Machine W)
      → Ior address
      → P m
      → vm_run host fuel once inst address m ≡ some (ior, m')
      → P m'
  unfolding vm_run
  vm_run-Kept fuel once inst address m ior m' a p h =
      finished-Kept once inst m.vm.pc (vm_exec host fuel once inst address m) ior m' (k.pc_kept m p)
        (λ i n e. vm_exec-Kept fuel once inst address m i n a p e) h
