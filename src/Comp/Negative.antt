-- ===== src/Comp/Negative.antt =====
-- lfCompileLit, for negative numbers too: the complement as a literal, and `inv`.
use lite_forth.Common.{
  ◌++◌, ℕ, suc, ◌^◌, ◌<◌, ◌≡◌, refl, sym, ap, ◌∙◌, arith, List, [], ◌∷◌, none, some, ◌==◌,
  Bool-cases, Option-cases, inl, inr, ltb, not32,
}
use mathlib.Core.List.{append-nil, append_assoc}
use lite_forth.Vm.Micro.{exec_uop, register_op}
use lite_forth.Vm.Group.{run_group, run_slots, step_slot, step_op, group_slots}
use lite_forth.Vm.Inst.{Machine, Host, execute}
use lite_forth.Comp.{Compiler, comp_ulit, comp_uop, comma_all, new_inst, lf_compile_lit}
use lite_forth.Comp.Target.{listing}
use lite_forth.Comp.Run.{run_words, run_words-more}
use lite_forth.Comp.Literals.{lit_words, pushed, run_words-lit_words}

comma_all-listing :
    (ws : List ℕ) (c : Compiler (List ℕ))
    → comma_all listing ws c ≡ (0, record c { code = c.code ++ ws })
unfolding comma_all
comma_all-listing [] c = ap (λ t. (0, record c { code = t })) (sym (append-nil c.code))
comma_all-listing (w ∷ ws) c =
    comma_all-listing ws (record c { code = c.code ++ (w ∷ []) })
    ∙ ap (λ t. (0, record c { code = t })) (append_assoc c.code (w ∷ []) ws)

module _ {W : Type 0} (host : Host W) where
  run_words-++ :
      (fuel : ℕ) (ws vs : List ℕ) (m m' : Machine W)
      → run_words host fuel ws m ≡ some (0, m')
      → run_words host fuel (ws ++ vs) m ≡ run_words host fuel vs m'
  unfolding run_words
  run_words-++ fuel [] vs m m' e =
      ap (λ o. elim o [ none ↦ run_words host fuel vs m | some r ↦ run_words host fuel vs r.1 ]) e
  run_words-++ fuel (w ∷ ws) vs m m' e = elim (Option-cases (execute host fuel w m)) [
    | inl stuck ↦ absurd (cc (rw (run_words, stuck) at e))
    | inr (r, ran) ↦ elim (Bool-cases (r.0 == 0)) [
      | inl fine ↦
          rw (run_words, ran, fine)
            (run_words-++ fuel ws vs r.1 m' (rw (run_words, ran, fine) at e))
      | inr failed ↦
          (let here : r ≡ (0, m') = cc (rw (run_words, ran, failed) at e) in
            let done : r.0 ≡ 0 = ap (λ t. t.0) here in absurd (ground (arith, done, failed)))
    ]
  ]

  execute-inv :
      (fuel : ℕ) (m : Machine W)
      → execute host (suc fuel) 0x8200 m
        ≡ some (0, record m { vm = record m.vm { t = not32 m.vm.t } })
  unfolding execute run_group run_slots step_slot step_op group_slots exec_uop register_op
  execute-inv fuel m = refl

  -- For every 32-bit `x`, lfCompileLit and a flush compile words, after the group pending before,
  -- that push `x` when the machine runs them without a prefix. A negative `x` needs one step.
  pub lf_compile_lit_lem :
      (fuel x : ℕ) (c : Compiler (List ℕ)) (m : Machine W)
      → x < 2 ^ 32
      → m.vm.prefix ≡ 0
      → (ws : List ℕ) × ((new_inst listing (lf_compile_lit listing x c).1).code
          ≡ (new_inst listing c).code ++ ws)
        × (run_words host (suc fuel) ws m ≡ some (0, pushed x m))
  unfolding lf_compile_lit comp_ulit comp_uop new_inst run_words
  lf_compile_lit_lem fuel x c m h e = elim (Bool-cases (ltb x (2 ^ 31))) [
    | inl small ↦ (
      lit_words x,
      rw (small, comma_all-listing (lit_words x) (new_inst listing c)) refl,
      run_words-lit_words host (suc fuel) x m h e,
    )
    | inr negative ↦
        (let y = not32 x in
          let ran = run_words-lit_words host (suc fuel) y m (omega arith) e in
          let back : not32 (not32 x) ≡ x = omega arith in
          (
            lit_words y ++ (0x8200 ∷ []),
            rw (negative, comma_all-listing (lit_words y) (new_inst listing c))
                (append_assoc (new_inst listing c).code (lit_words y) (0x8200 ∷ [])),
            run_words-++ (suc fuel) (lit_words y) (0x8200 ∷ []) m (pushed y m) ran
                ∙ run_words-more host (suc fuel) 0x8200 [] (pushed y m) _
                    (execute-inv fuel (pushed y m))
                ∙ ap (λ t. some (0, pushed t m)) back,
          ))
  ]
