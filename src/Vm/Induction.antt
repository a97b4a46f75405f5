-- ===== src/Vm/Induction.antt =====
-- Induction over the loop of vmExec: a predicate that every step keeps holds when the run ends.
pub mod Run
use mathlib.Core.Option
use lite_forth.Common.{
  ℕ, ◌-◌, inl, inr, refl, not, ◌&&◌, if◌then◌else◌, Bool-cases, zero, suc, ◌≡◌, Bool, true, false,
  Option, none, some, arith, subst, ◌==◌,
}
use lite_forth.Vm.State.{VmState, vm_load}
use lite_forth.Vm.Memory.{Memory}
use lite_forth.Vm.Micro.{Effect}
use lite_forth.Vm.Group.{step_slot, run_slots}
use lite_forth.Vm.Inst.{Machine, Host, execute, vm_break}
use lite_forth.Vm.Exec.{
  Next, stop, again, Cache, Fetched, returned, refused, fetched, fetch_inst, yeet, byee, after_inst,
  advance_pc, exec_protected, is_api, finish_inst, finish_fetch, cold, once_result, call_word,
  vm_exec, ended, finish_run, vm_run, round, exec_loop,
}

pub some_eq : {A : Type 0} {a b : A} → some a ≡ some b → a ≡ b
some_eq h = cc

abbrev pub EffectIs : (VmState → Memory → Type 0) → Effect → Type 0
EffectIs P e = P e.vm e.mem

module _ (P : VmState → Memory → Type 0) (inst : ℕ) where
  -- The loop's end and its next round, by the test that tells them apart.
  slots_case :
      (b : Bool) {e : Effect} (now : Effect) (rest : Option Effect)
      → EffectIs P now
      → (rest ≡ some e → EffectIs P e)
      → elim b [ true ↦ some now | false ↦ rest ] ≡ some e
      → EffectIs P e
  slots_case true now rest p ih h = subst (EffectIs P) (some_eq h) p
  slots_case false now rest p ih h = ih h

  pub run_slots_induction :
      ((slots : ℕ) (s : VmState) (m : Memory) → P s m → EffectIs P (step_slot inst slots s m).1)
      → (fuel slots : ℕ) (s : VmState) (m : Memory) (e : Effect) → P s m
      → run_slots fuel inst slots s m ≡ some e
      → EffectIs P e
  unfolding run_slots
  run_slots_induction keep zero slots s m e p h = cc
  run_slots_induction keep (suc fuel) slots s m e p h =
      let (left, now) = step_slot inst slots s m in
      slots_case (left == 0) now (run_slots fuel inst left now.vm now.mem) (keep slots s m p)
        (run_slots_induction keep fuel left now.vm now.mem e (keep slots s m p)) h

-- What a round comes to, in a machine with the property.
abbrev pub RoundIs : {W : Type 0} → (Machine W → Type 0) → Option (Next W × Cache) → Type 0
RoundIs P none = Unit
RoundIs P (some (stop ior m, c)) = P m
RoundIs P (some (again steps m, c)) = P m

module _ {W : Type 0} (host : Host W) (P : Machine W → Type 0) where
  loop_case :
      (r : Option (Next W × Cache)) (rest : ℕ → Cache → Machine W → Option (ℕ × Machine W))
      (ior : ℕ) (m' : Machine W)
      → RoundIs P r
      → ((steps : ℕ) (c : Cache) (m : Machine W) → P m → rest steps c m ≡ some (ior, m') → P m')
      → ◌≡◌ {A = Option (ℕ × Machine W)}
          (elim r [
            | none ↦ none
            | some (stop i n, c) ↦ some (i, n)
            | some (again steps n, c) ↦ rest steps c n
          ])
          (some (ior, m'))
      → P m'
  loop_case none rest ior m' p ih h = cc
  loop_case (some (stop i n, c)) rest ior m' p ih h = subst (λ t. P t.1) (some_eq h) p
  loop_case (some (again steps n, c)) rest ior m' p ih h = ih steps c n p h

  pub exec_loop_induction :
      ((fuel steps : ℕ) (c : Cache) (m : Machine W) → P m → RoundIs P (round host fuel steps c m))
      → (fuel steps : ℕ) (c : Cache) (m : Machine W) (ior : ℕ) (m' : Machine W) → P m
      → exec_loop host fuel steps c m ≡ some (ior, m')
      → P m'
  unfolding exec_loop
  exec_loop_induction keep zero steps c m ior m' p h = cc
  exec_loop_induction keep (suc fuel) steps c m ior m' p h =
      loop_case (round host fuel steps c m) (exec_loop host fuel) ior m' (keep fuel steps c m p)
        (λ steps' c' n q. exec_loop_induction keep fuel steps' c' n ior m' q) h

abbrev pub NextIs : {W : Type 0} → (Machine W → Type 0) → Next W → Type 0
NextIs P (stop ior m) = P m
NextIs P (again steps m) = P m

RoundIs-some :
    {W : Type 0} (P : Machine W → Type 0) (n : Next W) (c : Cache)
    → NextIs P n
    → RoundIs P (some (n, c))
RoundIs-some P (stop ior m) c p = p
RoundIs-some P (again steps m) c p = p

-- A property of machines, and one of error codes, that instructions keep and that the loop's own
-- changes of the PC, X and Y do not touch.
pub record Kept {W : Type 0} (host : Host W) (Ior : ℕ → Type 0) (P : Machine W → Type 0)
    : Type 0 where
  pub executed :
      (fuel inst : ℕ) (m : Machine W) (ior : ℕ) (m' : Machine W)
      → P m
      → execute host fuel inst m ≡ some (ior, m')
      → Ior ior × P m'
  pub yeeted : (ior : ℕ) (m : Machine W) → Ior ior → P m → P (yeet ior m)
  pub advanced : (m : Machine W) → P m → P (advance_pc host m)
  pub protected : Ior exec_protected
  pub loaded : (m : Machine W) → P m → P (record m { vm = vm_load m.vm })
  pub called :
      (address : ℕ) (m : Machine W)
      → Ior address
      → P m
      → P (record m { vm = call_word host address m.vm })
  pub restored :
      (pc : ℕ) (m : Machine W) → Ior pc → P m → P (record m { vm = record m.vm { pc = pc } })
  pub pc_kept : (m : Machine W) → P m → Ior m.vm.pc

module _ {W : Type 0} {host : Host W} {Ior : ℕ → Type 0} {P : Machine W → Type 0}
    (k : Kept host Ior P) where
  byee-NextIs :
      (once : Bool) (steps ior : ℕ) (m : Machine W)
      → Ior ior
      → P m
      → NextIs P (byee once steps ior m)
  unfolding byee
  byee-NextIs once steps ior m i p = elim (Bool-cases (ior == 0)) [
    | inl fine ↦ elim (Bool-cases once) [
      | inl one ↦ rw (fine, one) p
      | inr more ↦ rw (fine, more) p
    ]
    | inr failed ↦ elim (Bool-cases (not (ior == vm_break) && not (steps == 0))) [
      | inl stepped ↦ rw (failed, stepped) (k.yeeted ior m i p)
      | inr word ↦ rw (failed, word) p
    ]
  ]

  pub after_inst-NextIs :
      (once slow : Bool) (steps ior : ℕ) (m : Machine W)
      → Ior ior
      → P m
      → NextIs P (after_inst once slow steps ior m)
  unfolding after_inst
  after_inst-NextIs once slow steps ior m i p = elim (Bool-cases (ior == 0 && not slow)) [
    | inl fast ↦ rw fast p
    | inr check ↦ elim (Bool-cases (steps == 1)) [
      | inl last ↦ rw (check, last) p
      | inr more ↦ rw (check, more) (byee-NextIs once (steps - 1) ior m i p)
    ]
  ]

  finish_inst-RoundIs :
      (fuel steps inst : ℕ) (c : Cache) (m : Machine W) (o : Option (ℕ × Machine W))
      → P m
      → execute host fuel inst m ≡ o
      → RoundIs P (finish_inst host steps inst c o)
  unfolding finish_inst
  finish_inst-RoundIs fuel steps inst c m none p e = tt
  finish_inst-RoundIs fuel steps inst c m (some (ior, m')) p e =
      let (i, q) = k.executed fuel inst m ior m' p e in
      RoundIs-some P (after_inst false (not (steps == 0)) steps ior m')
        (if is_api inst then record c { cspan = 0 } else c)
        (after_inst-NextIs false (not (steps == 0)) steps ior m' i q)

  finish_fetch-RoundIs :
      (fuel steps : ℕ) (c : Cache) (m : Machine W) (f : Fetched)
      → P m
      → RoundIs P (finish_fetch host fuel steps c m f)
  unfolding finish_fetch
  finish_fetch-RoundIs fuel steps c m returned p = p
  finish_fetch-RoundIs fuel steps c m (refused c') p =
      RoundIs-some P (byee false steps exec_protected m) c'
        (byee-NextIs false steps exec_protected m k.protected p)
  finish_fetch-RoundIs fuel steps c m (fetched inst c') p =
      finish_inst-RoundIs fuel steps inst c' (advance_pc host m) _ (k.advanced m p) refl

  -- What the instructions keep, the loop keeps.
  pub exec_loop-Kept :
      (fuel steps : ℕ) (c : Cache) (m : Machine W) (ior : ℕ) (m' : Machine W)
      → P m
      → exec_loop host fuel steps c m ≡ some (ior, m')
      → P m'
  unfolding round
  exec_loop-Kept fuel steps c m ior m' p h =
      exec_loop_induction host P
        (λ fuel' steps' c' n q.
          finish_fetch-RoundIs fuel' steps' c' n (fetch_inst c' n.mem n.vm.pc) q)
        fuel steps c m ior m' p h
