-- ===== src/Vm/Sequence.antt =====
-- A group without `unext` runs its three micro-ops one after the other.
use lite_forth.Common.{
  Bool, ℕ, suc, ◌+◌, ◌*◌, ◌/◌, ◌%◌, ◌^◌, ◌<◌, ◌≡◌, ◌≢◌, refl, sym, ap, ◌∙◌, arith, true, false,
  Option, some, List, [], ◌∷◌, bit_and, bit_and-field, bit_or-shifted, ◌==◌, ==_iff, if◌then◌else◌,
  u32, Bool-cases, inl, inr,
}
use lite_forth.Vm.State.{VmState}
use lite_forth.Vm.Memory.{Memory}
use lite_forth.Vm.Micro.{Uop, unext, nop, Effect, exec_uop, decode_uop, register_op}
use lite_forth.Vm.Group.{group_slots, step_op, step_slot, run_slots, run_group}

-- Micro-ops in a row, up to the first that fails on memory.
unfoldable pub run_uops : List Uop → VmState → Memory → Effect
run_uops [] s m = record { ior = 0; vm = s; mem = m }
run_uops (op ∷ ops) s m =
    let e = exec_uop op s m in elim (e.ior == 0) [ true ↦ run_uops ops e.vm e.mem | false ↦ e ]

-- The slots of a group, as numbers.
group_slots_sum :
    (inst : ℕ)
    → group_slots inst
      ≡ inst / 2 ^ 9 % 32 * 2 ^ 27 + inst / 2 ^ 4 % 32 * 2 ^ 22 + inst % 16 * 2 ^ 17
unfolding group_slots
group_slots_sum inst =
    let upper : bit_and (u32 (inst * 2 ^ 18)) 0xFFC00000 ≡ inst / 2 ^ 4 % 2 ^ 10 * 2 ^ 22 =
      bit_and-field 22 10 (u32 (inst * 2 ^ 18)) ∙ omega arith in
    rw upper (
      omega (
        arith,
        bit_or-shifted 22 (inst / 2 ^ 4 % 2 ^ 10) (inst % 16 * 2 ^ 17) (omega arith) (omega arith),
      ))

step_op-plain :
    (op : Uop) (inst left : ℕ) (s : VmState) (m : Memory)
    → op ≢ unext
    → step_op op inst left s m ≡ (if (exec_uop op s m).ior == 0 then left else 0, exec_uop op s m)
unfolding step_op
step_op-plain unext inst left s m h = absurd (h refl)
step_op-plain _ inst left s m h = refl

-- How the loop goes on from a round: the slots left, and the effect.
next_round : ℕ → ℕ → ℕ × Effect → Option Effect
next_round fuel inst r = elim (r.0 == 0) [
  | true ↦ some r.1
  | false ↦ run_slots fuel inst r.0 r.1.vm r.1.mem
]

run_slots-next_round :
    (fuel inst slots : ℕ) (s : VmState) (m : Memory)
    → run_slots (suc fuel) inst slots s m ≡ next_round fuel inst (step_slot inst slots s m)
unfolding run_slots next_round
run_slots-next_round fuel inst slots s m = refl

next_round-ended : (fuel inst : ℕ) (r : ℕ × Effect) → r.0 ≡ 0 → next_round fuel inst r ≡ some r.1
unfolding next_round
next_round-ended fuel inst r h =
    let e : (r.0 == 0) ≡ true = ground (arith, h) in rw (next_round, e) refl

next_round-more :
    (fuel inst : ℕ) (r : ℕ × Effect)
    → r.0 ≢ 0
    → next_round fuel inst r ≡ run_slots fuel inst r.0 r.1.vm r.1.mem
unfolding next_round
next_round-more fuel inst r h =
    let e : (r.0 == 0) ≡ false = ground (arith, h) in rw (next_round, e) refl

-- A round on a slot that is not `unext`, with `left` behind it.
round_lem :
    (fuel inst slots code left : ℕ) (s : VmState) (m : Memory)
    → slots / 2 ^ 27 ≡ code
    → u32 (slots * 2 ^ 5) ≡ left
    → decode_uop code ≢ unext
    → let e = exec_uop (decode_uop code) s m in
      run_slots (suc fuel) inst slots s m ≡ next_round fuel inst (if e.ior == 0 then left else 0, e)
unfolding step_slot
round_lem fuel inst slots code left s m p q h =
    run_slots-next_round fuel inst slots s m
    ∙ ap (λ t. next_round fuel inst (step_op (decode_uop t) inst (u32 (slots * 2 ^ 5)) s m)) p
    ∙ ap (λ t. next_round fuel inst (step_op (decode_uop code) inst t s m)) q
    ∙ ap (next_round fuel inst) (step_op-plain (decode_uop code) inst left s m h)

-- A row of nops does nothing.
run_uops-nop : (e : Effect) → e.ior ≡ 0 → run_uops (nop ∷ []) e.vm e.mem ≡ e
unfolding run_uops exec_uop register_op
run_uops-nop e h = ap (λ i. record e { ior = i }) (sym h)

run_uops-nops : (e : Effect) → e.ior ≡ 0 → run_uops (nop ∷ nop ∷ []) e.vm e.mem ≡ e
unfolding run_uops exec_uop register_op
run_uops-nops e h = ap (λ i. record e { ior = i }) (sym h)

-- How the row goes on from a micro-op.
after_uop : List Uop → Effect → Effect
after_uop ops e = elim (e.ior == 0) [ true ↦ run_uops ops e.vm e.mem | false ↦ e ]

run_uops-after_uop :
    (op : Uop) (ops : List Uop) (s : VmState) (m : Memory)
    → run_uops (op ∷ ops) s m ≡ after_uop ops (exec_uop op s m)
unfolding run_uops after_uop
run_uops-after_uop op ops s m = refl

after_uop-done :
    (ops : List Uop) (e : Effect) → e.ior ≡ 0 → after_uop ops e ≡ run_uops ops e.vm e.mem
unfolding after_uop
after_uop-done ops e h = let t : (e.ior == 0) ≡ true = ground (arith, h) in rw (after_uop, t) refl

after_uop-failed : (ops : List Uop) (e : Effect) → e.ior ≢ 0 → after_uop ops e ≡ e
unfolding after_uop
after_uop-failed ops e h =
    let t : (e.ior == 0) ≡ false = ground (arith, h) in rw (after_uop, t) refl

run_uops-none : (e : Effect) → e.ior ≡ 0 → run_uops [] e.vm e.mem ≡ e
unfolding run_uops
run_uops-none e h = ap (λ i. record e { ior = i }) (sym h)

module _ (fuel inst : ℕ) where
  -- How a round and the row agree, if they do so on the slots left.
  agree :
      (left : ℕ) (ops : List Uop) (e : Effect)
      → (left ≡ 0 → e.ior ≡ 0 → run_uops ops e.vm e.mem ≡ e)
      → (left ≢ 0 → run_slots fuel inst left e.vm e.mem ≡ some (run_uops ops e.vm e.mem))
      → next_round fuel inst (if e.ior == 0 then left else 0, e) ≡ some (after_uop ops e)
  agree left ops e none some_left = elim (Bool-cases (e.ior == 0)) [
    | inr failed ↦
        next_round-ended fuel inst (if e.ior == 0 then left else 0, e) (ground arith)
        ∙ ap some (sym (after_uop-failed ops e (ground arith)))
    | inl done ↦
        (let zero_ior : e.ior ≡ 0 = (==_iff e.ior 0).0 done in
          elim (Bool-cases (left == 0)) [
            | inl last ↦
                next_round-ended fuel inst (if e.ior == 0 then left else 0, e) (ground arith)
                ∙ ap some
                    (sym (after_uop-done ops e zero_ior ∙ none ((==_iff left 0).0 last) zero_ior))
            | inr more ↦
                ap (λ (b : Bool). next_round fuel inst (if b then left else 0, e)) done
                ∙ next_round-more fuel inst (left, e) (ground arith)
                ∙ some_left (ground arith)
                ∙ ap some (sym (after_uop-done ops e zero_ior))
          ])
  ]

last_slot :
    (fuel inst c : ℕ) (s : VmState) (m : Memory)
    → c < 32
    → decode_uop c ≢ unext
    → run_slots (suc fuel) inst (c * 2 ^ 27) s m ≡ some (run_uops (decode_uop c ∷ []) s m)
last_slot fuel inst c s m small h =
    round_lem fuel inst (c * 2 ^ 27) c 0 s m (omega arith) (omega arith) h
    ∙ agree fuel inst 0 [] (exec_uop (decode_uop c) s m) (λ z. run_uops-none _)
        (λ n. absurd (n refl))
    ∙ ap some (sym (run_uops-after_uop (decode_uop c) [] s m))

two_slots :
    (fuel inst b c : ℕ) (s : VmState) (m : Memory)
    → b < 32
    → c < 32
    → decode_uop b ≢ unext
    → decode_uop c ≢ unext
    → run_slots (suc (suc fuel)) inst (b * 2 ^ 27 + c * 2 ^ 22) s m
      ≡ some (run_uops (decode_uop b ∷ decode_uop c ∷ []) s m)
two_slots fuel inst b c s m p q h g =
    let e = exec_uop (decode_uop b) s m in
    round_lem (suc fuel) inst (b * 2 ^ 27 + c * 2 ^ 22) b (c * 2 ^ 27) s m (omega arith)
      (omega arith) h
    ∙ agree (suc fuel) inst (c * 2 ^ 27) (decode_uop c ∷ []) e
        (λ z i.
          let none : c ≡ 0 = omega (arith, z) in
          ap (λ (t : ℕ). run_uops (decode_uop t ∷ []) e.vm e.mem) none ∙ run_uops-nop e i)
        (λ n. last_slot fuel inst c e.vm e.mem q g)
    ∙ ap some (sym (run_uops-after_uop (decode_uop b) (decode_uop c ∷ []) s m))

three_slots :
    (fuel inst a b c : ℕ) (s : VmState) (m : Memory)
    → a < 32
    → b < 32
    → c < 32
    → decode_uop a ≢ unext
    → decode_uop b ≢ unext
    → decode_uop c ≢ unext
    → run_slots (suc (suc (suc fuel))) inst (a * 2 ^ 27 + b * 2 ^ 22 + c * 2 ^ 17) s m
      ≡ some (run_uops (decode_uop a ∷ decode_uop b ∷ decode_uop c ∷ []) s m)
three_slots fuel inst a b c s m o p q f h g =
    let e = exec_uop (decode_uop a) s m in
    let rest = decode_uop b ∷ decode_uop c ∷ [] in
    round_lem (suc (suc fuel)) inst (a * 2 ^ 27 + b * 2 ^ 22 + c * 2 ^ 17) a
      (b * 2 ^ 27 + c * 2 ^ 22) s m (omega arith) (omega arith) f
    ∙ agree (suc (suc fuel)) inst (b * 2 ^ 27 + c * 2 ^ 22) rest e
        (λ z i.
          let first : b ≡ 0 = omega (arith, z) in
          let second : c ≡ 0 = omega (arith, z) in
          ap (λ (t : ℕ). run_uops (decode_uop t ∷ decode_uop c ∷ []) e.vm e.mem) first
          ∙ ap (λ (t : ℕ). run_uops (nop ∷ decode_uop t ∷ []) e.vm e.mem) second
          ∙ run_uops-nops e i)
        (λ n. two_slots fuel inst b c e.vm e.mem p q h g)
    ∙ ap some (sym (run_uops-after_uop (decode_uop a) rest s m))

-- The micro-ops of a group: bits 13:9, 8:4 and 3:0 of the instruction.
abbrev pub group_uops : ℕ → List Uop
group_uops inst =
    decode_uop (inst / 2 ^ 9 % 32) ∷ decode_uop (inst / 2 ^ 4 % 32) ∷ decode_uop (inst % 16) ∷ []

-- A group none of whose three micro-ops is `unext` ends, within three rounds of the loop, and does
-- what its micro-ops do one after the other, up to the first that fails on memory.
pub run_group-run_uops :
    (fuel inst : ℕ) (s : VmState) (m : Memory)
    → decode_uop (inst / 2 ^ 9 % 32) ≢ unext
    → decode_uop (inst / 2 ^ 4 % 32) ≢ unext
    → decode_uop (inst % 16) ≢ unext
    → run_group (suc (suc (suc fuel))) inst s m ≡ some (run_uops (group_uops inst) s m)
unfolding run_group
run_group-run_uops fuel inst s m f h g =
    ap (λ t. run_slots (suc (suc (suc fuel))) inst t s m) (group_slots_sum inst)
    ∙ three_slots fuel inst (inst / 2 ^ 9 % 32) (inst / 2 ^ 4 % 32) (inst % 16) s m (omega arith)
        (omega arith) (omega arith) f h g
