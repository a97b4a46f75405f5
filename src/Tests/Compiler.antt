-- ===== src/Tests/Compiler.antt =====
-- Compiled words, in a list and in memory.
use lite_forth.Common.{◌++◌, ℕ, ◌-◌, ◌^◌, ◌≡◌, ◌≢◌, refl, arith, List, [], ◌∷◌, some}
use lite_forth.Comp.{
  Compiler, comp_uop, comp_call, comp_exit, new_inst, lf_compile_lit, store_jump, slot0_10,
  push_prefixes, comp_ulit, comma_all,
}
use lite_forth.Comp.Target.{listing}
use lite_forth.Comp.Run.{run_words}
use lite_forth.Comp.Literals.{pushed}
use lite_forth.Comp.Negative.{lf_compile_lit_lem}
use lite_forth.Comp.Calls.{called, comp_call_far}
use lite_forth.Comp.Jumps.{jumped, from_slot, store_log, store_jump_lem}
use lite_forth.Comp.Pack.{code_ops, kept_ops, comp_uops, comp_uops-code_ops}
use lite_forth.Comp.Exits.{Returns, comp_exit-Returns}
use lite_forth.Tests.Machines.{machine, host}

-- `dup` and `+` are pending.
abbrev pending : Compiler (List ℕ)
pending = record { slot_10 = 9; instruction = 0x1450; lastcall = 0; code = [] }

literal_runs : (lf_compile_lit listing (2 ^ 32 - 1) pending).1.code ≡ 0x9450 ∷ 0x4000 ∷ []
unfolding lf_compile_lit comp_ulit comma_all new_inst push_prefixes comp_uop
literal_runs = refl

lf_compile_lit_lem_example :
    (ws : List ℕ) × ((new_inst listing (lf_compile_lit listing (2 ^ 32 - 70000) pending).1).code
      ≡ (new_inst listing pending).code ++ ws)
    × (run_words host 1 ws machine ≡ some (0, pushed (2 ^ 32 - 70000) machine))
lf_compile_lit_lem_example =
    lf_compile_lit_lem host 0 (2 ^ 32 - 70000) pending machine (omega arith) refl

-- A call of 0x2000 calls 0x20000.
comp_call_far_example :
    (p q : ℕ) × ((comp_call listing 0x2000 pending).1.code
      ≡ (new_inst listing pending).code ++ (p ∷ []) ++ (q ∷ []))
    × (run_words host 1 (p ∷ q ∷ []) machine ≡ some (0, called 0x20000 machine))
    × ◌≢◌ {A = ℕ} 0x20000 0x2000
comp_call_far_example = comp_call_far host 1 0x2000 pending machine (omega arith) (omega arith) refl

store_jump_lem_example :
    (ws : List ℕ) × (store_jump store_log 0x80000010 0x612345 [] ≡ (0, from_slot 0x80000010 ws))
    × (run_words host 1 ws machine ≡ some (0, jumped 0x612345 machine))
store_jump_lem_example = store_jump_lem host 1 0x80000010 0x612345 machine (omega arith) refl

-- `dup + swap >r`: `swap` needs five bits, so it opens the second group.
comp_uops-code_ops_example :
    code_ops
      (new_inst listing (
        comp_uops
          (10 ∷ 5 ∷ 24 ∷ 7 ∷ [])
          (record { slot_10 = slot0_10; instruction = 0; lastcall = 0; code = [] }))).code
    ≡ 10 ∷ 5 ∷ 24 ∷ 7 ∷ []
unfolding code_ops kept_ops
comp_uops-code_ops_example = comp_uops-code_ops (10 ∷ 5 ∷ 24 ∷ 7 ∷ []) [] 0

comp_exit-Returns_example : Returns pending (comp_exit listing pending).1.code
comp_exit-Returns_example = comp_exit-Returns pending (omega arith) (λ e. absurd (omega (arith, e)))
