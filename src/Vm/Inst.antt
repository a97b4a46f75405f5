-- ===== src/Vm/Inst.antt =====
-- One 16-bit instruction: the part of vmExec (src/vm.c) from `execute:` on, and vmApiCall.
use lite_forth.Common.{
  ℕ, ◌+◌, ◌-◌, ◌*◌, ◌/◌, ◌%◌, ◌^◌, List, [], ◌∷◌, Option, some, bit_and, bit_or, ltb, leb, ◌==◌,
  if◌then◌else◌, get_or, u32, add32, sub32, not32, neg32,
}
use mathlib.Core.Option
use lite_forth.Slice.{vm_field_plus}
use lite_forth.Vm.State.{VmState, stack_capacity, ddup, ddrop, rdup, rdrop, dpush, rpush, vm_load}
use lite_forth.Vm.Memory.{Memory}
use lite_forth.Vm.Micro.{Effect}
use lite_forth.Vm.Group.{run_group}

-- All that a run can see and change. `world` is what lies outside the machine.
pub record Machine (W : Type 0) : Type 0 where
  pub vm : VmState
  pub mem : Memory
  pub options : ℕ
  pub world : W

-- What the machine calls: the API functions by their index (VMapi0Call, VMapi1Call), the ports
-- (iomap.h), the time base and the watchdog (lftime.h). An ior is a 32-bit pattern.
pub record Host (W : Type 0) : Type 0 where
  pub api0 : ℕ → Machine W → ℕ × Machine W
  pub api1 : ℕ → Machine W → ℕ × Machine W
  pub iomap_wr : ℕ → ℕ → W → ℕ × W
  pub iomap_rd : ℕ → W → ℕ × ℕ × W
  pub get_time : W → ℕ × W
  pub watchdog_ping : W → W

-- errcodes.h
abbrev pub invalid_opcode : ℕ
invalid_opcode = neg32 105

abbrev pub no_api_call_allowed : ℕ
no_api_call_allowed = neg32 114

abbrev pub vm_break : ℕ
vm_break = neg32 115

-- SYS_OPTION_NO_API
abbrev pub option_no_api : ℕ
option_no_api = 0x4000

-- IOMAP_FIRST
abbrev pub iomap_first : ℕ
iomap_first = 16

-- The instructions with 9-bit immediate data: VMO_*, and the codes that have no meaning.
pub data Other : Type 0 where
  zbran bran pbran rcall next sys to_sys user from_sys pfx pfx1 : Other
  api0_call api1_call : Other
  invalid : Other

abbrev pub others : List Other
others =
    zbran ∷ bran ∷ pbran ∷ rcall ∷ next ∷ invalid ∷ sys ∷ invalid ∷ to_sys ∷ user ∷ from_sys
    ∷ invalid ∷ pfx ∷ pfx1 ∷ api0_call ∷ api1_call ∷ []

abbrev pub decode_other : ℕ → Other
decode_other inst = get_or others (inst / 2 ^ 9 % 16) invalid

-- The signed 9-bit offset, as a 32-bit pattern.
abbrev pub offset9 : ℕ → ℕ
offset9 inst = let imm = inst % 2 ^ 9 in if ltb imm 256 then imm else imm + 2 ^ 32 - 2 ^ 9

abbrev pub branch : ℕ → VmState → VmState
branch inst s = record s { pc = add32 s.pc (offset9 inst) }

-- The prefix with the 13 low bits of an instruction behind it.
abbrev pub immex : ℕ → VmState → ℕ
immex inst s = bit_or (u32 (s.prefix * 2 ^ 13)) (inst % 2 ^ 13)

-- An int32_t shifted right: the sign bit is copied.
unfoldable pub asr32 : ℕ → ℕ → ℕ
asr32 v k = if ltb v (2 ^ 31) then v / 2 ^ k else not32 (not32 v / 2 ^ k)

module _ {W : Type 0} (host : Host W) where
  open host use {api0, api1, iomap_wr, iomap_rd, get_time, watchdog_ping}

  unfoldable pub vm_api_call : ℕ → Machine W → ℕ × Machine W
  vm_api_call inst m =
      if bit_and m.options option_no_api == 0
      then (if inst / 2 ^ 9 % 16 == 14 then api0 (inst % 2 ^ 9) m else api1 (inst % 2 ^ 9) m)
      else (no_api_call_allowed, m)

  abbrev get_usec : Machine W → ℕ × Machine W
  get_usec m =
      let (usec, w) = get_time m.world in
      (0, record m { vm = record m.vm { x = u32 usec; y = u32 (usec / 2 ^ 32) }; world = w })

  -- VMO_SYS, by its immediate data: VMS_TASK to VMS_ASR.
  unfoldable pub exec_sys : ℕ → Machine W → ℕ × Machine W
  unfolding asr32
  exec_sys imm m =
      let s = m.vm in
      let set_t = λ (v : ℕ). record m { vm = record s { t = v } } in
      let task = record s { sp = s.t % stack_capacity; rp = s.t / 2 ^ 16 % stack_capacity } in
      get_or
        ((0, record m { vm = task })
          ∷ (0, set_t (vm_field_plus s.t))
          ∷ (0, set_t (s.t / 2 ^ s.shift_size))
          ∷ (0, set_t (u32 (s.t * 2 ^ s.shift_size)))
          ∷ get_usec m
          ∷ (vm_break, record m { world = watchdog_ping m.world })
          ∷ (0, set_t (asr32 s.t s.shift_size))
          ∷ [])
        imm (0, m)

  -- VMO_TOSYS, after T was popped as `tos`: VMSTO_SHIFT, VMSTO_YEET and VMSTO_USTORE.
  unfoldable pub exec_to_sys : ℕ → ℕ → Machine W → ℕ × Machine W
  exec_to_sys imm tos m =
      let (ior, w) = iomap_wr imm tos m.world in
      let s = m.vm in
      if leb iomap_first imm
      then (ior, record m { world = w })
      else get_or
          ((0, record m { vm = record s { shift_size = tos % 32 } })
            ∷ (tos, m)
            ∷ (0, record m { vm = record s { u = tos } })
            ∷ [])
          imm (0, m)

  -- VMO_FROMSYS, after T was pushed: VMSFROM_TASK, VMSFROM_X and VMSFROM_Y.
  unfoldable pub exec_from_sys : ℕ → Machine W → ℕ × Machine W
  exec_from_sys imm m =
      let (ior, v, w) = iomap_rd imm m.world in
      let s = m.vm in
      let task = rdup s in
      if leb iomap_first imm
      then (ior, record m { vm = record s { t = v }; world = w })
      else get_or
          ((0, record m { vm = record task { t = bit_or (u32 (task.rp * 2 ^ 16)) task.sp } })
            ∷ (0, record m { vm = record s { t = s.x } })
            ∷ (0, record m { vm = record s { t = s.y } })
            ∷ [])
          imm (0, m)

  abbrev pub with_vm : Machine W → VmState → ℕ × Machine W
  with_vm m s = (0, record m { vm = s })

  -- VMO_NEXT
  abbrev next_op : ℕ → VmState → VmState
  next_op inst s =
      let counted = record s { r = sub32 s.r 1 } in
      if counted.r == 0 then rdrop counted else branch inst counted

  unfoldable pub exec_other : Other → ℕ → Machine W → ℕ × Machine W
  unfolding vm_api_call exec_sys exec_to_sys exec_from_sys
  exec_other zbran inst m =
      let s = m.vm in with_vm m (if s.t == 0 then branch inst (ddrop s) else ddrop s)
  exec_other bran inst m = with_vm m (branch inst m.vm)
  exec_other pbran inst m = with_vm m (if ltb m.vm.t (2 ^ 31) then branch inst m.vm else m.vm)
  exec_other rcall inst m = with_vm m (branch inst (rpush m.vm.pc m.vm))
  exec_other next inst m = with_vm m (next_op inst m.vm)
  exec_other sys inst m = exec_sys (inst % 2 ^ 9) m
  exec_other to_sys inst m = exec_to_sys (inst % 2 ^ 9) m.vm.t (record m { vm = ddrop m.vm })
  exec_other user inst m = with_vm m (record m.vm { a = add32 m.vm.u (inst % 2 ^ 9) })
  exec_other from_sys inst m = exec_from_sys (inst % 2 ^ 9) (record m { vm = ddup m.vm })
  exec_other pfx inst m =
      with_vm m (record m.vm { prefix = bit_or (u32 (m.vm.prefix * 2 ^ 10)) (inst % 2 ^ 9) })
  exec_other pfx1 inst m =
      with_vm m (record m.vm {
        prefix = bit_or (bit_or (u32 (m.vm.prefix * 2 ^ 10)) (inst % 2 ^ 9)) (2 ^ 9);
      })
  exec_other api0_call inst m =
      let (ior, m') = vm_api_call inst m in (ior, record m' { vm = vm_load m'.vm })
  exec_other api1_call inst m =
      let (ior, m') = vm_api_call inst m in (ior, record m' { vm = vm_load m'.vm })
  exec_other invalid inst m = (invalid_opcode, m)

  abbrev pub of_effect : Machine W → Effect → ℕ × Machine W
  of_effect m e = (e.ior, record m { vm = e.vm; mem = e.mem })

  -- Micro-ops, with the return bit; jump and call; literal; the others. `none`: `unext` ran out
  -- of fuel.
  unfoldable pub execute : ℕ → ℕ → Machine W → Option (ℕ × Machine W)
  unfolding exec_other
  execute fuel inst m =
      let s = m.vm in
      let returned = if inst / 2 ^ 14 % 2 == 0 then s else rdrop (record s { pc = s.r }) in
      let called = if inst / 2 ^ 13 % 2 == 0 then s else rpush s.pc s in
      if inst / 2 ^ 15 % 2 == 0
      then (if inst / 2 ^ 14 % 2 == 0
          then some (with_vm m (record called { pc = immex inst s; prefix = 0 }))
          else (if inst / 2 ^ 13 % 2 == 0
              then some (with_vm m (record (dpush (immex inst s) s) { prefix = 0 }))
              else some (exec_other (decode_other inst) inst m)))
      else Option.map (of_effect m) (run_group fuel inst returned m.mem)
