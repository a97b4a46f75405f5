-- ===== src/Vm/Exec.antt =====
-- The loop of vmExec, from `fetch:` to `byee:`, and vmRun around it (src/vm.c).
use lite_forth.Common.{
  ℕ, zero, suc, ◌+◌, ◌-◌, ◌*◌, ◌/◌, ◌%◌, ◌^◌, Bool, true, false, not, ◌&&◌, Option, none, some, leb,
  ◌==◌, if◌then◌else◌, sub32, u32, neg32,
}
use mathlib.Core.Option
use lite_forth.Vm.State.{VmState, rpush, vm_load}
use lite_forth.Vm.Memory.{Memory, log2_pages, mem_pages}
use lite_forth.Vm.Inst.{Machine, Host, execute, vm_break}

-- errcodes.h
abbrev pub exec_protected : ℕ
exec_protected = neg32 103

abbrev pub vm_timeout : ℕ
vm_timeout = neg32 116

-- TERMINATOR, and VM_YEET_ADDRESS << 1
abbrev pub terminator : ℕ
terminator = 0xDEADC0DE

abbrev pub yeet_pc : ℕ
yeet_pc = 4

-- The code page being run: `code`, `cbase` and `cspan`. A span of 0 forces a lookup.
pub record Cache : Type 0 where
  pub code : ℕ
  pub cbase : ℕ
  pub cspan : ℕ

abbrev pub cold : Cache
cold = record { code = 0; cbase = 0; cspan = 0 }

-- What `fetch:` comes to.
pub data Fetched : Type 0 where
  returned : Fetched
  refused : Cache → Fetched
  fetched : ℕ → Cache → Fetched

-- The two instructions of a cell, the even one in the lower half.
abbrev pub half_cell : Memory → Cache → ℕ → ℕ
half_cell m c pc = m.cells c.code (sub32 pc c.cbase / 2) / 2 ^ (pc % 2 * 16)

-- The cache for the page of a PC.
abbrev pub lookup_page : Memory → ℕ → Cache
lookup_page m pc =
    let page = pc / 2 ^ (23 - log2_pages) in
    record {
      code = page;
      cbase = u32 (page * 2 ^ (23 - log2_pages));
      cspan = u32 (m.executable page * 2);
    }

unfoldable pub fetch_inst : Cache → Memory → ℕ → Fetched
fetch_inst c m pc =
    let c' = lookup_page m pc in
    if leb c.cspan (sub32 pc c.cbase)
    then (if pc == terminator
        then returned
        else (if leb mem_pages (pc / 2 ^ (23 - log2_pages))
            then refused c
            else (if leb c'.cspan (sub32 pc c'.cbase)
                then refused c'
                else fetched (half_cell m c' pc) c')))
    else fetched (half_cell m c pc) c

-- An API instruction may remap the memory: the cache is dropped behind it.
unfoldable pub is_api : ℕ → Bool
is_api inst = (inst / 2 ^ 13 % 8 == 3) && leb 14 (inst / 2 ^ 9 % 16)

-- How a round of the loop ends: a return of vmExec, or the next round with the steps left.
pub data Next (W : Type 0) : Type 0 where
  stop : ℕ → Machine W → Next W
  again : ℕ → Machine W → Next W

-- What an instruction run by itself returns (`again` goes on to the last return, with ior 0).
abbrev pub of_next : {W : Type 0} → Next W → ℕ × Machine W
of_next (stop ior m) = (ior, m)
of_next (again steps m) = (0, m)

-- A stepped app that fails goes to its yeet handler, with the PC in X and the error in Y.
abbrev pub yeet : {W : Type 0} → ℕ → Machine W → Machine W
yeet ior m = record m { vm = record m.vm { x = m.vm.pc; y = ior; pc = yeet_pc } }

module _ {W : Type 0} where
  -- `byee:`
  unfoldable pub byee : Bool → ℕ → ℕ → Machine W → Next W
  byee once steps ior m =
      if ior == 0
      then (if once then stop 0 m else again steps m)
      else (if not (ior == vm_break) && not (steps == 0) then stop ior (yeet ior m) else stop ior m)

  -- From the end of an instruction to the next fetch or a return.
  unfoldable pub after_inst : Bool → Bool → ℕ → ℕ → Machine W → Next W
  unfolding byee
  after_inst once slow steps ior m =
      if ior == 0 && not slow
      then again steps m
      else (if steps == 1 then stop vm_timeout m else byee once (steps - 1) ior m)

module _ {W : Type 0} (host : Host W) where
  unfoldable pub advance_pc : Machine W → Machine W
  advance_pc m = record m { vm = record m.vm { pc = (m.vm.pc + 1) % 2 ^ 32 } }

  -- What follows an instruction that was fetched with this cache.
  unfoldable pub finish_inst : ℕ → ℕ → Cache → Option (ℕ × Machine W) → Option (Next W × Cache)
  finish_inst steps inst c none = none
  finish_inst steps inst c (some (ior, m)) = some (
    after_inst false (not (steps == 0)) steps ior m,
    if is_api inst then record c { cspan = 0 } else c,
  )

  -- What follows a fetch.
  unfoldable pub finish_fetch : ℕ → ℕ → Cache → Machine W → Fetched → Option (Next W × Cache)
  unfolding advance_pc
  finish_fetch fuel steps c m returned = some (stop 0 m, c)
  finish_fetch fuel steps c m (refused c') = some (byee false steps exec_protected m, c')
  finish_fetch fuel steps c m (fetched inst c') =
      finish_inst steps inst c' (execute host fuel inst (advance_pc m))

  -- One round of the loop from `fetch:` on, with the cache for the next.
  unfoldable pub round : ℕ → ℕ → Cache → Machine W → Option (Next W × Cache)
  round fuel steps c m = finish_fetch fuel steps c m (fetch_inst c m.mem m.vm.pc)

  -- The loop, on fuel; each group gets the fuel that is left. `none` means that it ran out.
  unfoldable pub exec_loop : ℕ → ℕ → Cache → Machine W → Option (ℕ × Machine W)
  exec_loop zero steps c m = none
  exec_loop (suc fuel) steps c m = elim (round fuel steps c m) [
    | none ↦ none
    | some (stop ior m', c') ↦ some (ior, m')
    | some (again steps' m', c') ↦ exec_loop fuel steps' c' m'
  ]

  -- vmRun(1, inst, 0): `slow` is set, there are no steps, and `once` ends it.
  abbrev pub once_result : ℕ × Machine W → ℕ × Machine W
  once_result (ior, m) = of_next (after_inst true true 0 ior m)

  -- The word that a call with no steps runs, under a terminator on the return stack.
  abbrev pub call_word : ℕ → VmState → VmState
  call_word address s = record (rpush terminator s) { pc = address }

  unfoldable pub vm_exec : ℕ → Bool → ℕ → ℕ → Machine W → Option (ℕ × Machine W)
  vm_exec fuel once inst address m =
      let s = vm_load m.vm in
      let single = Option.map once_result (execute host fuel inst (record m { vm = s })) in
      let word = exec_loop fuel 0 cold (record m { vm = call_word address s }) in
      let stepped = exec_loop fuel inst cold (record m { vm = s }) in
      if once then single else (if inst == 0 then word else stepped)

-- How vmExec came back to vmRun: by its return, or by vmTrap (a CPU exception), which leaves the
-- registers as they were last saved.
pub data Outcome (W : Type 0) : Type 0 where
  ended trapped : ℕ → Machine W → Outcome W

module _ {W : Type 0} where
  abbrev pub outcome : Bool → ℕ → Outcome W → ℕ × Machine W
  outcome once inst (ended ior m) = (ior, m)
  outcome once inst (trapped ior m) = (ior, if not once && not (inst == 0) then yeet ior m else m)

  -- The end of vmRun: a word call gets the PC back that the run began with.
  unfoldable pub finish_run : Bool → ℕ → ℕ → Outcome W → ℕ × Machine W
  finish_run once inst pc o =
      let (ior, m) = outcome once inst o in
      (ior, if not once && inst == 0 then record m { vm = record m.vm { pc = pc } } else m)

-- vmRun where no CPU exception comes.
unfoldable pub vm_run :
    {W : Type 0} → Host W → ℕ → Bool → ℕ → ℕ → Machine W → Option (ℕ × Machine W)
vm_run host fuel once inst address m = elim (vm_exec host fuel once inst address m) [
  | none ↦ none
  | some (ior, m') ↦ some (finish_run once inst m.vm.pc (ended ior m'))
]
