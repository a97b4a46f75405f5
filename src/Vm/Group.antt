-- ===== src/Vm/Group.antt =====
-- A group of up to three micro-ops, with `unext` (src/vm.c, the `do` loop at `group`).
use lite_forth.Common.{
  ℕ, zero, suc, ◌*◌, ◌/◌, ◌%◌, ◌^◌, true, false, Option, none, some, bit_or, bit_and, ◌==◌,
  if◌then◌else◌, sub32, u32,
}
use lite_forth.Vm.State.{VmState, rdrop}
use lite_forth.Vm.Memory.{Memory}
use lite_forth.Vm.Micro.{Uop, unext, decode_uop, Effect, exec_uop}

-- Bits 13:9, 8:4 and 3:0 of the instruction as 5-bit fields at the top of `slots`.
unfoldable pub group_slots : ℕ → ℕ
group_slots inst = bit_or (bit_and (u32 (inst * 2 ^ 18)) 0xFFC00000) (inst % 2 ^ 4 * 2 ^ 17)

-- One round of the loop: the slots left, and the effect. `unext` starts the group again while R
-- counts down to something else than 0; a micro-op that fails on memory ends the group.
unfoldable pub step_unext : ℕ → ℕ → VmState → Memory → ℕ × Effect
step_unext inst left s m =
    let count = sub32 s.r 1 in
    if count == 0
    then (left, record { ior = 0; vm = rdrop (record s { r = count }); mem = m })
    else (group_slots inst, record { ior = 0; vm = record s { r = count }; mem = m })

unfoldable pub step_op : Uop → ℕ → ℕ → VmState → Memory → ℕ × Effect
unfolding step_unext
step_op unext inst left s m = step_unext inst left s m
step_op op inst left s m = let e = exec_uop op s m in (if e.ior == 0 then left else 0, e)

unfoldable pub step_slot : ℕ → ℕ → VmState → Memory → ℕ × Effect
unfolding step_op
step_slot inst slots s m = step_op (decode_uop (slots / 2 ^ 27)) inst (u32 (slots * 2 ^ 5)) s m

-- The loop, on fuel: `none` when a group that `unext` repeats has not ended within it.
unfoldable pub run_slots : ℕ → ℕ → ℕ → VmState → Memory → Option Effect
run_slots zero inst slots s m = none
run_slots (suc fuel) inst slots s m =
    let (left, e) = step_slot inst slots s m in
    elim (left == 0) [ true ↦ some e | false ↦ run_slots fuel inst left e.vm e.mem ]

unfoldable pub run_group : ℕ → ℕ → VmState → Memory → Option Effect
run_group fuel inst s m = run_slots fuel inst (group_slots inst) s m
