-- ===== src/Vm/Steps.antt =====
-- How runs end: steps of the app, words of the terminal, errors and the yeet handler.
use lite_forth.Common.{
  ℕ, suc, ◌-◌, ◌<◌, ◌≡◌, ◌≢◌, refl, ap, ◌∙◌, Bool-cases, inl, inr, true, false, Option, none, some,
  arith, not, ◌==◌, if◌then◌else◌,
}
use lite_forth.Vm.Inst.{Machine, Host, execute, vm_break}
use lite_forth.Vm.Exec.{
  stop, again, is_api, yeet, yeet_pc, vm_timeout, Cache, fetched, fetch_inst, byee, after_inst,
  advance_pc, finish_inst, finish_fetch, round, exec_loop, vm_exec, ended, finish_run, vm_run,
}
use lite_forth.Vm.Induction.{some_eq}
use lite_forth.Common.{subst}

module _ {W : Type 0} (host : Host W) where
  -- An instruction that was fetched and ran: how it left the machine, and with which ior.
  pub record Ran (fuel : ℕ) (c : Cache) (m : Machine W) (ior : ℕ) (m' : Machine W) : Type 0 where
    pub inst : ℕ
    pub cache : Cache
    pub fetches : fetch_inst c m.mem m.vm.pc ≡ fetched inst cache
    pub executes : execute host fuel inst (advance_pc host m) ≡ some (ior, m')

  -- The cache that an instruction leaves.
  abbrev pub cache_behind : ℕ → Cache → Cache
  cache_behind inst c = if is_api inst then record c { cspan = 0 } else c

  good_again :
      (steps : ℕ) (m : Machine W)
      → 1 < steps
      → after_inst false (not (steps == 0)) steps 0 m ≡ again (steps - 1) m
  unfolding after_inst byee
  good_again steps m h = ground arith

  round-Ran :
      (fuel steps : ℕ) (c : Cache) (m : Machine W) (ior : ℕ) (m' : Machine W)
      (ran : Ran fuel c m ior m')
      → round host fuel steps c m ≡ finish_inst host steps ran.inst ran.cache (some (ior, m'))
  unfolding round finish_fetch
  round-Ran fuel steps c m ior m' ran = rw (ran.fetches, ran.executes)

  -- `count` instructions that succeed, one after the other; the fuel before and after them.
  pub data Runs : (before after count : ℕ) → Cache → Machine W → Cache → Machine W → Type 0 where
    stay : (fuel : ℕ) (c : Cache) (m : Machine W) → Runs fuel fuel 0 c m c m
    go_on :
        (before after count : ℕ) (c : Cache) (m m' : Machine W) (c'' : Cache) (m'' : Machine W)
        (ran : Ran before c m 0 m')
        → Runs before after count (cache_behind ran.inst ran.cache) m' c'' m''
        → Runs (suc before) after (suc count) c m c'' m''

  -- They take as many of the steps.
  exec_loop-Runs :
      (before after count : ℕ) (c : Cache) (m : Machine W) (c' : Cache) (m' : Machine W) (steps : ℕ)
      → Runs before after count c m c' m'
      → count < steps
      → exec_loop host before steps c m ≡ exec_loop host after (steps - count) c' m'
  unfolding exec_loop finish_inst
  exec_loop-Runs _ _ _ _ _ _ _ steps (stay fuel c m) h =
      let all : steps - 0 ≡ steps = omega arith in rw all refl
  exec_loop-Runs _ _ _ _ _ _ _ steps (go_on before after count c m m' c'' m'' ran rest) h =
      let left : steps - 1 - count ≡ steps - suc count = omega arith in
      rw (round-Ran before steps c m 0 m' ran, exec_loop, good_again steps m' (omega (arith, h)))
        (exec_loop-Runs before after count (cache_behind ran.inst ran.cache) m' c'' m'' (steps - 1)
            rest (omega (arith, h))
          ∙ ap (λ (t : ℕ). exec_loop host after t c'' m'') left)

  bad_stop :
      (steps ior : ℕ) (m : Machine W)
      → 0 < steps
      → ior ≢ 0
      → after_inst false (not (steps == 0)) steps ior m ≡ (
          if steps == 1
          then stop vm_timeout m
          else stop ior (if ior == vm_break then m else yeet ior m))
  unfolding after_inst byee
  bad_stop steps ior m h bad = ground arith

  -- A run of the app for a number of steps, in which `count` instructions succeed and the next
  -- one fails: with steps left, the run ends with its error; a break leaves the registers as
  -- they are, any other error puts the PC in X and the error in Y, and the PC at the yeet
  -- handler. If it was the last of the steps, the run ends with ERR_VM_TIMEOUT and the registers
  -- as it left them, and the error or break is lost. The instructions end within the fuel.
  pub exec_loop-failing :
      (before fuel count steps : ℕ) (c : Cache) (m : Machine W) (c' : Cache) (m' : Machine W)
      (ior : ℕ) (m'' : Machine W)
      → Runs before (suc fuel) count c m c' m'
      → count < steps
      → Ran fuel c' m' ior m''
      → ior ≢ 0
      → exec_loop host before steps c m ≡ (
          if steps == suc count
          then some (vm_timeout, m'')
          else some (
            ior,
            if ior == vm_break
                then m''
                else record m'' { vm = record m''.vm { x = m''.vm.pc; y = ior; pc = yeet_pc } },
          ))
  unfolding exec_loop finish_inst
  exec_loop-failing before fuel count steps c m c' m' ior m'' runs h ran bad =
      exec_loop-Runs before (suc fuel) count c m c' m' steps runs h
      ∙ elim (Bool-cases (steps == suc count)) [
        | inl last ↦
            (let one : (steps - count == 1) ≡ true = ground (arith, last) in
              rw
                (
                  round-Ran fuel (steps - count) c' m' ior m'' ran,
                  exec_loop,
                  bad_stop (steps - count) ior m'' (omega (arith, h)) bad,
                  one,
                  last,
                )
                refl)
        | inr more ↦
            (let many : (steps - count == 1) ≡ false = ground (arith, more, h) in
              rw
                (
                  round-Ran fuel (steps - count) c' m' ior m'' ran,
                  exec_loop,
                  bad_stop (steps - count) ior m'' (omega (arith, h)) bad,
                  many,
                  more,
                )
                refl)
      ]

  finish_run-word :
      (inst pc ior : ℕ) (m : Machine W) → (finish_run false 0 pc (ended ior m)).1.vm.pc ≡ pc
  unfolding finish_run
  finish_run-word inst pc ior m = refl

  finished-word_pc :
      (pc : ℕ) (o : Option (ℕ × Machine W)) (ior : ℕ) (m' : Machine W)
      → ◌≡◌ {A = Option (ℕ × Machine W)}
          (elim o [ none ↦ none | some (i, n) ↦ some (finish_run false 0 pc (ended i n)) ])
          (some (ior, m'))
      → m'.vm.pc ≡ pc
  finished-word_pc pc none ior m' h = cc
  finished-word_pc pc (some (i, n)) ior m' h =
      subst (λ t. t.1.vm.pc ≡ pc) (some_eq h) (finish_run-word 0 pc i n)

  -- A word call (no steps) that returns leaves the PC as it was before, whatever the word did and
  -- whether or not it failed.
  vm_run-word_pc :
      (fuel address : ℕ) (m : Machine W) (ior : ℕ) (m' : Machine W)
      → vm_run host fuel false 0 address m ≡ some (ior, m')
      → m'.vm.pc ≡ m.vm.pc
  unfolding vm_run
  vm_run-word_pc fuel address m ior m' h =
      finished-word_pc m.vm.pc (vm_exec host fuel false 0 address m) ior m' h
