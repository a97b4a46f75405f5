-- ===== src/Comp/Run.antt =====
-- Compiled words run by the machine, one after the other, and what the words of a literal do.
use lite_forth.Common.{
  ℕ, ◌+◌, ◌*◌, ◌/◌, ◌%◌, ◌^◌, ◌<◌, ◌≡◌, refl, sym, ap, ◌∙◌, arith, true, false, List, [], ◌∷◌,
  Option, none, some, bit_or, bit_or-shifted, bit_or_comm, bit_or_above, ◌==◌, u32, Bool-cases, inl,
  inr,
}
use lite_forth.Vm.State.{VmState, dpush, rpush}
use lite_forth.Vm.Inst.{Machine, Host, immex, exec_other, execute}
use lite_forth.Comp.{vmi_pfx, vmi_pfx1, vmi_lit, vmi_call, vmi_jump, pfx_word}

-- A word is a 16-bit instruction of class `k` (its top three bits) with `imm` behind it.
abbrev pub word13 : ℕ → ℕ → ℕ
word13 k imm = k * 2 ^ 13 + imm

abbrev pub prefixed : {W : Type 0} → ℕ → Machine W → Machine W
prefixed p m = record m { vm = record m.vm { prefix = p } }

module _ {W : Type 0} (host : Host W) where
  -- Words in a row, up to the first whose ior is not 0; `none` when a word ran out of fuel.

  unfoldable pub run_words : ℕ → List ℕ → Machine W → Option (ℕ × Machine W)
  run_words fuel [] m = some (0, m)
  run_words fuel (w ∷ ws) m = elim (execute host fuel w m) [
    | none ↦ none
    | some r ↦ elim (r.0 == 0) [ true ↦ run_words fuel ws r.1 | false ↦ some r ]
  ]

  pub run_words-more :
      (fuel w : ℕ) (ws : List ℕ) (m m' : Machine W)
      → execute host fuel w m ≡ some (0, m')
      → run_words fuel (w ∷ ws) m ≡ run_words fuel ws m'
  unfolding run_words
  run_words-more fuel w ws m m' e = rw (run_words, e) refl

  pub execute-pfx :
      (fuel i : ℕ) (m : Machine W)
      → i < 2 ^ 9
      → execute host fuel (vmi_pfx + i) m
        ≡ some (0, prefixed (bit_or (u32 (m.vm.prefix * 2 ^ 10)) i) m)
  unfolding execute exec_other
  execute-pfx fuel i m h =
      let top : (vmi_pfx + i) / 2 ^ 15 % 2 ≡ 0 = omega arith in
      let next : (vmi_pfx + i) / 2 ^ 14 % 2 ≡ 1 = omega arith in
      let third : (vmi_pfx + i) / 2 ^ 13 % 2 ≡ 1 = omega arith in
      let code : (vmi_pfx + i) / 2 ^ 9 % 16 ≡ 12 = omega arith in
      let imm : (vmi_pfx + i) % 2 ^ 9 ≡ i = omega arith in rw (top, next, third, code, imm) refl

  pub execute-pfx1 :
      (fuel i : ℕ) (m : Machine W)
      → i < 2 ^ 9
      → execute host fuel (vmi_pfx1 + i) m
        ≡ some (0, prefixed (bit_or (bit_or (u32 (m.vm.prefix * 2 ^ 10)) i) (2 ^ 9)) m)
  unfolding execute exec_other
  execute-pfx1 fuel i m h =
      let top : (vmi_pfx1 + i) / 2 ^ 15 % 2 ≡ 0 = omega arith in
      let next : (vmi_pfx1 + i) / 2 ^ 14 % 2 ≡ 1 = omega arith in
      let third : (vmi_pfx1 + i) / 2 ^ 13 % 2 ≡ 1 = omega arith in
      let code : (vmi_pfx1 + i) / 2 ^ 9 % 16 ≡ 13 = omega arith in
      let imm : (vmi_pfx1 + i) % 2 ^ 9 ≡ i = omega arith in rw (top, next, third, code, imm) refl

  -- What a prefix with 10 more bits leaves in the prefix register.
  pub pfx_value : (p i : ℕ) → p < 2 ^ 22 → i < 2 ^ 9 → bit_or (u32 (p * 2 ^ 10)) i ≡ p * 2 ^ 10 + i
  pfx_value p i h q =
      let whole : u32 (p * 2 ^ 10) ≡ p * 2 ^ 10 = omega arith in
      rw whole (bit_or-shifted 10 p i (omega arith) (omega arith))

  pub pfx1_value :
      (p i : ℕ)
      → p < 2 ^ 22
      → i < 2 ^ 9
      → bit_or (bit_or (u32 (p * 2 ^ 10)) i) (2 ^ 9) ≡ p * 2 ^ 10 + 2 ^ 9 + i
  pfx1_value p i h q =
      let value = pfx_value p i h q in
      let odd : bit_or 1 (p * 2) ≡ p * 2 + 1 =
        bit_or_comm 64 1 (p * 2) (omega arith) (omega arith)
        ∙ bit_or-shifted 1 p 1 (omega arith) (omega arith) in
      let above = bit_or_above 9 1 (p * 2) i q in
      let lined : p * 2 * 2 ^ 9 + i ≡ p * 2 ^ 10 + i = omega arith in
      rw value (
        bit_or_comm 64 (p * 2 ^ 10 + i) (2 ^ 9) (omega arith) (omega arith)
        ∙ ap (bit_or (2 ^ 9)) (sym lined)
        ∙ above
        ∙ omega (arith, odd))

  -- A prefix word brings ten more bits into the prefix register.
  pub execute-pfx_word :
      (fuel x : ℕ) (m : Machine W)
      → m.vm.prefix < 2 ^ 22
      → x < 2 ^ 10
      → execute host fuel (pfx_word x) m ≡ some (0, prefixed (m.vm.prefix * 2 ^ 10 + x) m)
  unfolding pfx_word
  execute-pfx_word fuel x m p h = elim (Bool-cases (x / 2 ^ 9 % 2 == 0)) [
    | inl low ↦
        (let word : bit_or vmi_pfx (x % 2 ^ 9) ≡ vmi_pfx + x % 2 ^ 9 =
            bit_or-shifted 9 60 (x % 2 ^ 9) (omega arith) (omega arith) in
          let sum : bit_or (u32 (m.vm.prefix * 2 ^ 10)) (x % 2 ^ 9) ≡ m.vm.prefix * 2 ^ 10 + x =
            ground (arith, pfx_value m.vm.prefix (x % 2 ^ 9) p (omega arith), low) in
          rw (low, word)
            (execute-pfx fuel (x % 2 ^ 9) m (omega arith) ∙ ap (λ t. some (0, prefixed t m)) sum))
    | inr high ↦
        (let word : bit_or vmi_pfx1 (x % 2 ^ 9) ≡ vmi_pfx1 + x % 2 ^ 9 =
            bit_or-shifted 9 61 (x % 2 ^ 9) (omega arith) (omega arith) in
          let sum : bit_or (bit_or (u32 (m.vm.prefix * 2 ^ 10)) (x % 2 ^ 9)) (2 ^ 9)
              ≡ m.vm.prefix * 2 ^ 10 + x =
            ground (arith, pfx1_value m.vm.prefix (x % 2 ^ 9) p (omega arith), high) in
          rw (high, word)
            (execute-pfx1 fuel (x % 2 ^ 9) m (omega arith) ∙ ap (λ t. some (0, prefixed t m)) sum))
  ]

  immex_value :
      (k imm : ℕ) (s : VmState)
      → s.prefix < 2 ^ 19
      → imm < 2 ^ 13
      → immex (k * 2 ^ 13 + imm) s ≡ s.prefix * 2 ^ 13 + imm
  immex_value k imm s p h =
      let whole : u32 (s.prefix * 2 ^ 13) ≡ s.prefix * 2 ^ 13 = omega arith in
      let low : (k * 2 ^ 13 + imm) % 2 ^ 13 ≡ imm = omega arith in
      rw (whole, low) (bit_or-shifted 13 s.prefix imm (omega arith) (omega arith))

  -- A literal pushes its 13 bits below those of the prefix register.
  pub execute-lit :
      (fuel imm : ℕ) (m : Machine W)
      → m.vm.prefix < 2 ^ 19
      → imm < 2 ^ 13
      → execute host fuel (vmi_lit + imm) m
        ≡ some
            (0, record m { vm = record (dpush (m.vm.prefix * 2 ^ 13 + imm) m.vm) { prefix = 0 } })
  unfolding execute
  execute-lit fuel imm m p h =
      let top : (vmi_lit + imm) / 2 ^ 15 % 2 ≡ 0 = omega arith in
      let next : (vmi_lit + imm) / 2 ^ 14 % 2 ≡ 1 = omega arith in
      let third : (vmi_lit + imm) / 2 ^ 13 % 2 ≡ 0 = omega arith in
      rw (top, next, third)
        (ap (λ t. some (0, record m { vm = record (dpush t m.vm) { prefix = 0 } }))
          (immex_value 2 imm m.vm p h))

  -- A call pushes PC to R and goes on at the address; a jump only goes on there.
  pub execute-call :
      (fuel imm : ℕ) (m : Machine W)
      → m.vm.prefix < 2 ^ 19
      → imm < 2 ^ 13
      → execute host fuel (vmi_call + imm) m
        ≡ some (
          0,
          record m {
            vm = record (rpush m.vm.pc m.vm) { pc = m.vm.prefix * 2 ^ 13 + imm; prefix = 0 };
          },
        )
  unfolding execute
  execute-call fuel imm m p h =
      let top : (vmi_call + imm) / 2 ^ 15 % 2 ≡ 0 = omega arith in
      let next : (vmi_call + imm) / 2 ^ 14 % 2 ≡ 0 = omega arith in
      let third : (vmi_call + imm) / 2 ^ 13 % 2 ≡ 1 = omega arith in
      rw (top, next, third)
        (ap (λ t. some (0, record m { vm = record (rpush m.vm.pc m.vm) { pc = t; prefix = 0 } }))
          (immex_value 1 imm m.vm p h))

  pub execute-jump :
      (fuel imm : ℕ) (m : Machine W)
      → m.vm.prefix < 2 ^ 19
      → imm < 2 ^ 13
      → execute host fuel (vmi_jump + imm) m
        ≡ some (0, record m { vm = record m.vm { pc = m.vm.prefix * 2 ^ 13 + imm; prefix = 0 } })
  unfolding execute
  execute-jump fuel imm m p h =
      let top : (vmi_jump + imm) / 2 ^ 15 % 2 ≡ 0 = omega arith in
      let next : (vmi_jump + imm) / 2 ^ 14 % 2 ≡ 0 = omega arith in
      let third : (vmi_jump + imm) / 2 ^ 13 % 2 ≡ 0 = omega arith in
      rw (top, next, third)
        (ap (λ t. some (0, record m { vm = record m.vm { pc = t; prefix = 0 } }))
          (immex_value 0 imm m.vm p h))
