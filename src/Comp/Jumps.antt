-- ===== src/Comp/Jumps.antt =====
-- storeJump, which `:` patches into the slots of a label: the words that it stores jump to the
-- address, for all 2 ^ 23 code addresses.
use lite_forth.Common.{
  ◌++◌, ℕ, ◌+◌, ◌-◌, ◌*◌, ◌/◌, ◌%◌, ◌^◌, ◌<◌, ◌≡◌, refl, ap, ◌∙◌, arith, List, [], ◌∷◌, some,
  bit_or, ◌==◌, if◌then◌else◌, u32, Bool-cases, inl, inr, leb,
}
use lite_forth.Slice.{vm_field_plus}
use lite_forth.Vm.Inst.{Machine, Host}
use lite_forth.Comp.{CodeSpace, vmi_pfx, vmi_pfx1, vmi_jump, store_jump}
use lite_forth.Comp.Run.{
  run_words, run_words-more, prefixed, pfx_value, pfx1_value, execute-pfx, execute-pfx1,
  execute-jump,
}

-- A code space that logs each store, with its address.
abbrev pub store_log : CodeSpace (List (ℕ × ℕ))
store_log = record {
  cp_fetch = λ s. 0;
  comma_code = λ w s. (0, s);
  fetch = λ addr s. (0, 0);
  store = λ addr v s. (0, s ++ ((addr, v) ∷ []));
}

-- Where the words go: slot after slot.
pub from_slot : ℕ → List ℕ → List (ℕ × ℕ)
from_slot slot [] = []
from_slot slot (w ∷ ws) = (slot, w) ∷ from_slot (vm_field_plus slot) ws

-- The machine after a jump.
abbrev pub jumped : {W : Type 0} → ℕ → Machine W → Machine W
jumped pc m = record m { vm = record m.vm { pc = pc; prefix = 0 } }

module _ {W : Type 0} (host : Host W) where
  run-jump_word :
      (fuel imm p pc : ℕ) (m : Machine W)
      → p < 2 ^ 10
      → imm < 2 ^ 13
      → p * 2 ^ 13 + imm ≡ pc
      → run_words host fuel ((vmi_jump + imm) ∷ []) (prefixed p m) ≡ some (0, jumped pc m)
  unfolding run_words
  run-jump_word fuel imm p pc m h k e =
      run_words-more host fuel (vmi_jump + imm) [] (prefixed p m) _
        (execute-jump host fuel imm (prefixed p m) (omega (arith, h)) k)
      ∙ ap (λ t. some (0, jumped t m)) e

  -- The prefix word of an address brings its bits 22:13 into the prefix register.
  run-far_word :
      (fuel pc : ℕ) (ws : List ℕ) (m : Machine W)
      → pc < 2 ^ 23
      → m.vm.prefix ≡ 0
      → let inst = if pc / 2 ^ 22 % 2 == 0 then vmi_pfx else vmi_pfx1 in
        run_words host fuel ((inst + pc / 2 ^ 13 % 2 ^ 9) ∷ ws) m
        ≡ run_words host fuel ws (prefixed (pc / 2 ^ 13) m)
  run-far_word fuel pc ws m h e = elim (Bool-cases (pc / 2 ^ 22 % 2 == 0)) [
    | inl low ↦
        (let i = pc / 2 ^ 13 % 2 ^ 9 in
          let value : bit_or (u32 (m.vm.prefix * 2 ^ 10)) i ≡ pc / 2 ^ 13 =
            ap (λ t. bit_or (u32 (t * 2 ^ 10)) i) e
            ∙ pfx_value host 0 i (omega arith) (omega arith)
            ∙ ground (arith, low, h) in
          rw low (
            run_words-more host fuel (vmi_pfx + i) ws m _ (execute-pfx host fuel i m (omega arith))
            ∙ ap (λ t. run_words host fuel ws (prefixed t m)) value))
    | inr high ↦
        (let i = pc / 2 ^ 13 % 2 ^ 9 in
          let value : bit_or (bit_or (u32 (m.vm.prefix * 2 ^ 10)) i) (2 ^ 9) ≡ pc / 2 ^ 13 =
            ap (λ t. bit_or (bit_or (u32 (t * 2 ^ 10)) i) (2 ^ 9)) e
            ∙ pfx1_value host 0 i (omega arith) (omega arith)
            ∙ ground (arith, high, h) in
          rw high (
            run_words-more host fuel (vmi_pfx1 + i) ws m _
              (execute-pfx1 host fuel i m (omega arith))
            ∙ ap (λ t. run_words host fuel ws (prefixed t m)) value))
  ]

  -- For a pc below 2 ^ 23, storeJump stores words slot after slot from `slot` on, which the
  -- machine, run on them without a prefix, takes as a jump to `pc`.
  pub store_jump_lem :
      (fuel slot pc : ℕ) (m : Machine W)
      → pc < 2 ^ 23
      → m.vm.prefix ≡ 0
      → (ws : List ℕ) × (store_jump store_log slot pc [] ≡ (0, from_slot slot ws))
        × (run_words host fuel ws m ≡ some (0, jumped pc m))
  unfolding store_jump from_slot run_words
  store_jump_lem fuel slot pc m h e = elim (Bool-cases (leb (2 ^ 13 - 1) pc)) [
    | inl far ↦ (
      ((if pc / 2 ^ 22 % 2 == 0 then vmi_pfx else vmi_pfx1) + pc / 2 ^ 13 % 2 ^ 9)
          ∷ (vmi_jump + pc % 2 ^ 13)
          ∷ [],
      rw far refl,
      run-far_word fuel pc ((vmi_jump + pc % 2 ^ 13) ∷ []) m h e
          ∙ run-jump_word fuel (pc % 2 ^ 13) (pc / 2 ^ 13) pc m (omega (arith, h)) (omega arith)
              (omega arith),
    )
    | inr near ↦ (
      (vmi_jump + pc % 2 ^ 13) ∷ [],
      rw near refl,
      run_words-more host fuel (vmi_jump + pc % 2 ^ 13) [] m _
            (execute-jump host fuel (pc % 2 ^ 13) m (omega (arith, e)) (omega arith))
          ∙ ap (λ t. some (0, jumped t m)) (ground (arith, near, e)),
    )
  ]
