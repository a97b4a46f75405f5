-- ===== src/Comp/Calls.antt =====
-- Compiled calls and jumps go to their address.
use lite_forth.Common.{
  ◌++◌, ℕ, ◌+◌, ◌*◌, ◌/◌, ◌%◌, ◌^◌, ◌<◌, ◌≤◌, ◌≡◌, ◌≢◌, refl, ap, ◌∙◌, arith, true, false, List, [],
  ◌∷◌, some, bit_or, bit_and, ◌==◌, u32, Bool-cases, inl, inr, ltb,
}
use lite_forth.Vm.State.{rpush}
use lite_forth.Vm.Inst.{Machine, Host}
use lite_forth.Comp.{Compiler, vmi_pfx, vmi_call, comp_call, new_inst}
use lite_forth.Comp.Target.{listing}
use lite_forth.Comp.Run.{run_words, run_words-more, prefixed, pfx_value, execute-pfx, execute-call}

-- The machine after a call of `target`.
abbrev pub called : {W : Type 0} → ℕ → Machine W → Machine W
called target m = record m { vm = record (rpush m.vm.pc m.vm) { pc = target; prefix = 0 } }

module _ {W : Type 0} (host : Host W) where
  run-call_word :
      (fuel imm : ℕ) (m : Machine W)
      → m.vm.prefix < 2 ^ 19
      → imm < 2 ^ 13
      → run_words host fuel ((vmi_call + imm) ∷ []) m
        ≡ some (0, called (m.vm.prefix * 2 ^ 13 + imm) m)
  unfolding run_words
  run-call_word fuel imm m p h =
      run_words-more host fuel (vmi_call + imm) [] m _ (execute-call host fuel imm m p h)

  -- For a target below 2 ^ 13, CompCall compiles the pending group and one word, which calls the
  -- target.
  comp_call_near :
      (fuel xt : ℕ) (c : Compiler (List ℕ)) (m : Machine W)
      → xt % 2 ^ 23 < 2 ^ 13
      → m.vm.prefix ≡ 0
      → (w : ℕ) × ((comp_call listing xt c).1.code ≡ (new_inst listing c).code ++ (w ∷ []))
        × (run_words host fuel (w ∷ []) m ≡ some (0, called (xt % 2 ^ 23) m))
  unfolding comp_call
  comp_call_near fuel xt c m h e =
      let near : ltb (xt % 2 ^ 23) (2 ^ 13) ≡ true = ground arith in
      let value : m.vm.prefix * 2 ^ 13 + xt % 2 ^ 23 % 2 ^ 13 ≡ xt % 2 ^ 23 = omega (arith, e) in
      (
        vmi_call + xt % 2 ^ 23 % 2 ^ 13,
        elim (Bool-cases (bit_and xt 0x10000000 == 0)) [
          | inl tail ↦ rw (near, tail) refl
          | inr no_tail ↦ rw (near, no_tail) refl
        ],
        run-call_word fuel (xt % 2 ^ 23 % 2 ^ 13) m (omega (arith, e)) (omega arith)
            ∙ ap (λ t. some (0, called t m)) value,
      )

  -- For a target from 2 ^ 13 to 2 ^ 18 - 1, the words that CompCall compiles call another address:
  -- its prefix is shifted by 9 bits where the machine puts it 13 bits up.
  pub comp_call_far :
      (fuel xt : ℕ) (c : Compiler (List ℕ)) (m : Machine W)
      → 2 ^ 13 ≤ xt % 2 ^ 23
      → xt % 2 ^ 23 < 2 ^ 18
      → m.vm.prefix ≡ 0
      → (p q : ℕ) × ((comp_call listing xt c).1.code
          ≡ (new_inst listing c).code ++ (p ∷ []) ++ (q ∷ []))
        × (run_words host fuel (p ∷ q ∷ []) m
            ≡ some (0, called (xt % 2 ^ 23 / 2 ^ 9 * 2 ^ 13 + xt % 2 ^ 13) m))
        × (xt % 2 ^ 23 / 2 ^ 9 * 2 ^ 13 + xt % 2 ^ 13 ≢ xt % 2 ^ 23)
  unfolding comp_call
  comp_call_far fuel xt c m h k e =
      let far : ltb (xt % 2 ^ 23) (2 ^ 13) ≡ false = ground arith in
      let i = xt % 2 ^ 23 / 2 ^ 9 in
      let value : bit_or (u32 (m.vm.prefix * 2 ^ 10)) i ≡ i =
        ap (λ t. bit_or (u32 (t * 2 ^ 10)) i) e
        ∙ pfx_value host 0 i (omega arith) (omega arith)
        ∙ omega arith in
      (
        vmi_pfx + i,
        vmi_call + xt % 2 ^ 23 % 2 ^ 13,
        elim (Bool-cases (bit_and xt 0x10000000 == 0)) [
          | inl tail ↦ rw (far, tail) refl
          | inr no_tail ↦ rw (far, no_tail) refl
        ],
        run_words-more host fuel (vmi_pfx + i) ((vmi_call + xt % 2 ^ 23 % 2 ^ 13) ∷ []) m _
              (execute-pfx host fuel i m (omega arith))
            ∙ ap (λ t. run_words host fuel ((vmi_call + xt % 2 ^ 23 % 2 ^ 13) ∷ []) (prefixed t m))
                value
            ∙ run-call_word fuel (xt % 2 ^ 23 % 2 ^ 13) (prefixed i m) (omega arith) (omega arith)
            ∙ ap (λ t. some (0, called t m)) (omega arith),
        λ z. absurd (omega (arith, z)),
      )
