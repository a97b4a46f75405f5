-- ===== src/Comp/Literals.antt =====
-- Compiled literals push their value: CompUlit and lfCompileLit, for every 32-bit number.
use lite_forth.Common.{
  ℕ, ◌+◌, ◌*◌, ◌/◌, ◌%◌, ◌^◌, ◌<◌, ◌≤◌, ◌≡◌, refl, ap, ◌∙◌, arith, true, false, List, [], ◌∷◌, some,
  bit_or, bit_or-shifted, ◌==◌, Bool-cases, inl, inr, ltb,
}
use lite_forth.Vm.State.{dpush}
use lite_forth.Vm.Inst.{Machine, Host}
use lite_forth.Comp.{
  CodeSpace, Compiler, vmi_lit, pfx_word, push_prefixes, comp_ulit, comma_all, new_inst,
}
use lite_forth.Comp.Run.{run_words, run_words-more, prefixed, execute-pfx_word, execute-lit}

abbrev pub lit_word : ℕ → ℕ
lit_word x = bit_or vmi_lit (x % 2 ^ 13)

pfx_word-low : (x : ℕ) → pfx_word x ≡ pfx_word (x % 2 ^ 10)
unfolding pfx_word
pfx_word-low x =
    let bit : x % 2 ^ 10 / 2 ^ 9 % 2 ≡ x / 2 ^ 9 % 2 = omega arith in
    let low : x % 2 ^ 10 % 2 ^ 9 ≡ x % 2 ^ 9 = omega arith in rw (bit, low) refl

-- The words of a literal, by how many bits it has.
one_word : (x : ℕ) (ws : List ℕ) → x ≡ 0 → push_prefixes 4 x ws ≡ ws
unfolding push_prefixes
one_word x ws h = let none_left : (x == 0) ≡ true = ground arith in rw none_left refl

two_words : (x : ℕ) (ws : List ℕ) → 0 < x → x < 2 ^ 10 → push_prefixes 4 x ws ≡ pfx_word x ∷ ws
unfolding push_prefixes
two_words x ws h p =
    let more : (x == 0) ≡ false = ground arith in
    let done : (x / 2 ^ 10 == 0) ≡ true = ground arith in rw (more, done) refl

three_words :
    (x : ℕ) (ws : List ℕ)
    → 2 ^ 10 ≤ x
    → x < 2 ^ 20
    → push_prefixes 4 x ws ≡ pfx_word (x / 2 ^ 10) ∷ pfx_word x ∷ ws
unfolding push_prefixes
three_words x ws h p =
    let more : (x == 0) ≡ false = ground arith in
    let two : (x / 2 ^ 10 == 0) ≡ false = ground arith in
    let done : (x / 2 ^ 10 / 2 ^ 10 == 0) ≡ true = ground arith in rw (more, two, done) refl

-- The machine with `x` pushed and no prefix.
abbrev pub pushed : {W : Type 0} → ℕ → Machine W → Machine W
pushed x m = record m { vm = record (dpush x m.vm) { prefix = 0 } }

-- The words that CompUlit compiles for `x`.
abbrev pub lit_words : ℕ → List ℕ
lit_words x = push_prefixes 4 (x / 2 ^ 13) (lit_word x ∷ [])

module _ {W : Type 0} (host : Host W) where
  run-lit_word :
      (fuel x p : ℕ) (m : Machine W)
      → m.vm.prefix ≡ p
      → p < 2 ^ 19
      → run_words host fuel (lit_word x ∷ []) m ≡ some (0, pushed (p * 2 ^ 13 + x % 2 ^ 13) m)
  unfolding run_words
  run-lit_word fuel x p m e h =
      let word : lit_word x ≡ vmi_lit + x % 2 ^ 13 =
        bit_or-shifted 13 2 (x % 2 ^ 13) (omega arith) (omega arith) in
      rw word (
        run_words-more host fuel (vmi_lit + x % 2 ^ 13) [] m _
          (execute-lit host fuel (x % 2 ^ 13) m (omega (arith, e, h)) (omega arith))
        ∙ ap (λ t. some (0, pushed (t * 2 ^ 13 + x % 2 ^ 13) m)) e)

  run-pfx_word :
      (fuel x p : ℕ) (ws : List ℕ) (m : Machine W)
      → m.vm.prefix ≡ p
      → p < 2 ^ 22
      → run_words host fuel (pfx_word x ∷ ws) m
        ≡ run_words host fuel ws (prefixed (p * 2 ^ 10 + x % 2 ^ 10) m)
  run-pfx_word fuel x p ws m e h = rw (pfx_word-low x) (
      run_words-more host fuel (pfx_word (x % 2 ^ 10)) ws m _
        (execute-pfx_word host fuel (x % 2 ^ 10) m (omega (arith, e, h)) (omega arith))
      ∙ ap (λ t. run_words host fuel ws (prefixed (t * 2 ^ 10 + x % 2 ^ 10) m)) e)

  -- Run on a machine without a prefix, they push `x`.
  pub run_words-lit_words :
      (fuel x : ℕ) (m : Machine W)
      → x < 2 ^ 32
      → m.vm.prefix ≡ 0
      → run_words host fuel (lit_words x) m ≡ some (0, pushed x m)
  run_words-lit_words fuel x m h e = elim (Bool-cases (ltb (x / 2 ^ 13) 1)) [
    | inl small ↦
        (let value : 0 * 2 ^ 13 + x % 2 ^ 13 ≡ x = ground (arith, small) in
          rw (one_word (x / 2 ^ 13) (lit_word x ∷ []) (ground (arith, small)))
            (run-lit_word fuel x 0 m e (omega arith) ∙ ap (λ t. some (0, pushed t m)) value))
    | inr more ↦ elim (Bool-cases (ltb (x / 2 ^ 13) (2 ^ 10))) [
      | inl middle ↦
          (let p = 0 * 2 ^ 10 + x / 2 ^ 13 % 2 ^ 10 in
            let value : p * 2 ^ 13 + x % 2 ^ 13 ≡ x = ground (arith, middle) in
            rw
              (two_words (x / 2 ^ 13) (lit_word x ∷ []) (ground (arith, more))
                (ground (arith, middle)))
              (run-pfx_word fuel (x / 2 ^ 13) 0 (lit_word x ∷ []) m e (omega arith)
                ∙ run-lit_word fuel x p (prefixed p m) refl (omega arith)
                ∙ ap (λ t. some (0, pushed t m)) value))
      | inr large ↦
          (let p = 0 * 2 ^ 10 + x / 2 ^ 13 / 2 ^ 10 % 2 ^ 10 in
            let q = p * 2 ^ 10 + x / 2 ^ 13 % 2 ^ 10 in
            let value : q * 2 ^ 13 + x % 2 ^ 13 ≡ x = omega arith in
            rw (three_words (x / 2 ^ 13) (lit_word x ∷ []) (ground (arith, large)) (omega arith)) (
              run-pfx_word fuel (x / 2 ^ 13 / 2 ^ 10) 0 (pfx_word (x / 2 ^ 13) ∷ lit_word x ∷ []) m
                e (omega arith)
              ∙ run-pfx_word fuel (x / 2 ^ 13) p (lit_word x ∷ []) (prefixed p m) refl (omega arith)
              ∙ run-lit_word fuel x q (prefixed q m) refl (omega arith)
              ∙ ap (λ t. some (0, pushed t m)) value))
    ]
  ]

  -- CompUlit compiles, after the pending group, words that push `x`, for every 32-bit `x`: the
  -- compiler and the machine agree on prefixes and literals.
  pub comp_ulit_lem :
      {S : Type 0} (space : CodeSpace S) (fuel x : ℕ) (c : Compiler S) (m : Machine W)
      → x < 2 ^ 32
      → m.vm.prefix ≡ 0
      → (ws : List ℕ) × (comp_ulit space x c ≡ comma_all space ws (new_inst space c))
        × (run_words host fuel ws m ≡ some (0, pushed x m))
  unfolding comp_ulit
  comp_ulit_lem space fuel x c m h e = (lit_words x, refl, run_words-lit_words fuel x m h e)
