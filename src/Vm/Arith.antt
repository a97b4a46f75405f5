-- ===== src/Vm/Arith.antt =====
-- The arithmetic micro-ops: the carry of `+`, and `+*` as a step of a multiplication.
use native.Mathlib.Nat.{mul_assoc, mul-add-mod_self_right}
use lite_forth.Common.{
  ℕ, zero, suc, ◌+◌, ◌-◌, ◌*◌, ◌/◌, ◌%◌, ◌^◌, ◌≤◌, ◌<◌, ◌≡◌, refl, sym, ap, ◌∙◌, arith,
  bit_or-shifted, IsWord, u32, pow_add, double, mod_double, ◌==◌, ==_iff, if◌then◌else◌, Bool-cases,
  inl, inr,
}
use lite_forth.Vm.State.{VmState, nos}
use lite_forth.Vm.Micro.{
  plus, plus_star, two_div_c, register_op, plus_op, plus_star_op, two_div_c_op,
}

-- `+` adds the two words on the stack: the carry and the new top are the 33 bits of their sum.
pub plus_lem :
    (s : VmState)
    → IsWord s.t
    → IsWord (nos s)
    → let s' = register_op plus s in s'.cy * 2 ^ 32 + s'.t ≡ s.t + nos s
unfolding register_op plus_op
plus_lem s p q = ground arith

-- `2/c` turns the 33 bits of the carry and the top right by one: the carry comes in at the top, and
-- the lowest bit goes to the carry.
pub two_div_c_lem :
    (s : VmState)
    → IsWord s.t
    → s.cy < 2
    → let s' = register_op two_div_c s in s'.t * 2 + s'.cy ≡ s.cy * 2 ^ 32 + s.t
unfolding register_op two_div_c_op
two_div_c_lem s p q =
    let carry : u32 (s.cy * 2 ^ 31) ≡ s.cy * 2 ^ 31 = omega arith in
    rw carry (omega (arith, bit_or-shifted 31 s.cy (s.t / 2) (omega arith) (omega arith)))

-- n multiply steps in a row.
pub multiply_steps : ℕ → VmState → VmState
multiply_steps zero s = s
multiply_steps (suc n) s = multiply_steps n (register_op plus_star s)

-- The sum of a step: N counts where A is odd.
abbrev step_sum : VmState → ℕ
step_sum s = s.t + (if s.a % 2 == 0 then 0 else nos s)

module _ (s : VmState) (p : IsWord s.t) (q : IsWord s.a) (r : IsWord (nos s)) where
  step_t : (register_op plus_star s).t ≡ step_sum s / 2
  unfolding register_op plus_star_op
  step_t = elim (Bool-cases (s.a % 2 == 0)) [
    | inl even ↦ rw even (omega arith)
    | inr odd ↦ rw odd (omega arith)
  ]

  step_a : (register_op plus_star s).a ≡ step_sum s % 2 * 2 ^ 31 + s.a / 2
  unfolding register_op plus_star_op
  step_a =
      let low : u32 (u32 (step_sum s) * 2 ^ 31) ≡ step_sum s % 2 * 2 ^ 31 = omega arith in
      rw low (bit_or-shifted 31 (step_sum s % 2) (s.a / 2) (omega arith) (omega arith))

  step_digit : s.a % 2 * (nos s * 2 ^ 32) + s.t * 2 ^ 32 ≡ step_sum s * 2 ^ 32
  step_digit = elim (Bool-cases (s.a % 2 == 0)) [
    | inl even ↦
        (let e : s.a % 2 ≡ 0 = (==_iff (s.a % 2) 0).0 even in
          rw even (omega (arith, ap (λ (t : ℕ). t * (nos s * 2 ^ 32)) e)))
    | inr odd ↦
        (let e : s.a % 2 ≡ 1 = ground arith in
          rw odd (omega (arith, ap (λ (t : ℕ). t * (nos s * 2 ^ 32)) e)))
  ]

  -- The step, as arithmetic: T:A is shifted right, N added to T first where A is odd.
  step_lem :
      ((register_op plus_star s).t * 2 ^ 32 + (register_op plus_star s).a) * 2
      ≡ s.t * 2 ^ 32 + s.a % 2 * (nos s * 2 ^ 32) + (s.a - s.a % 2)
  step_lem = rw (step_t, step_a) (omega (arith, step_digit))

  step_t-IsWord : IsWord (register_op plus_star s).t
  step_t-IsWord = elim (Bool-cases (s.a % 2 == 0)) [
    | inl even ↦ (let e = rw even at step_t in omega (arith, e))
    | inr odd ↦ (let e = rw odd at step_t in omega (arith, e))
  ]

  step_a-IsWord : IsWord (register_op plus_star s).a
  step_a-IsWord = omega (arith, step_a)

-- A step leaves N.
step_nos : (s : VmState) → nos (register_op plus_star s) ≡ nos s
unfolding register_op plus_star_op
step_nos s = refl

low_digits :
    (s : VmState) (k : ℕ)
    → k ≤ 31
    → IsWord s.t
    → IsWord s.a
    → IsWord (nos s)
    → (register_op plus_star s).a % 2 ^ k ≡ s.a / 2 % 2 ^ k
low_digits s k small p q r =
    let exponent : 31 ≡ 31 - k + k = omega arith in
    let power : 2 ^ 31 ≡ 2 ^ (31 - k) * 2 ^ k =
      ap (λ (t : ℕ). 2 ^ t) exponent ∙ pow_add (31 - k) k in
    let split : step_sum s % 2 * 2 ^ 31 ≡ step_sum s % 2 * 2 ^ (31 - k) * 2 ^ k =
      ap (λ (t : ℕ). step_sum s % 2 * t) power
      ∙ sym (mul_assoc (step_sum s % 2) (2 ^ (31 - k)) (2 ^ k)) in
    ap (λ (t : ℕ). t % 2 ^ k) (step_a s p q r ∙ ap (λ (t : ℕ). t + s.a / 2) split)
    ∙ mul-add-mod_self_right (step_sum s % 2 * 2 ^ (31 - k)) (2 ^ k) (s.a / 2)

split_digit : (a b m : ℕ) → (2 * a + b) * m ≡ 2 * (a * m) + b * m
split_digit a b m = grind arith

regroup : (a n : ℕ) → a * (n * 2 ^ 32) ≡ a * n * 2 ^ 32
regroup a n = grind arith

-- k steps multiply N by the k low bits of A, and shift those out.
multiply_steps_lem :
    (k : ℕ) (s : VmState)
    → k ≤ 32
    → IsWord s.t
    → IsWord s.a
    → IsWord (nos s)
    → let s' = multiply_steps k s in
      (s'.t * 2 ^ 32 + s'.a) * 2 ^ k + s.a % 2 ^ k
      ≡ s.t * 2 ^ 32 + s.a + s.a % 2 ^ k * (nos s * 2 ^ 32)
unfolding multiply_steps
multiply_steps_lem zero s small p q r =
    let none : s.a % 2 ^ 0 ≡ 0 = omega arith in
    omega (arith, none, ap (λ (t : ℕ). t * (nos s * 2 ^ 32)) none)
multiply_steps_lem (suc k) s small p q r =
    let next = register_op plus_star s in
    let m = nos s * 2 ^ 32 in
    let last = multiply_steps k next in
    let ih =
      multiply_steps_lem k next (omega arith) (step_t-IsWord s p q r) (step_a-IsWord s p q r)
        (rw (step_nos s) r) in
    omega (
      arith,
      ih,
      double (last.t * 2 ^ 32 + last.a) k,
      mod_double k s.a,
      ap (λ (t : ℕ). t * m) (mod_double k s.a),
      split_digit (s.a / 2 % 2 ^ k) (s.a % 2) m,
      low_digits s k (omega arith) p q r,
      ap (λ (t : ℕ). t * m) (low_digits s k (omega arith) p q r),
      ap (λ (t : ℕ). next.a % 2 ^ k * (t * 2 ^ 32)) (step_nos s),
      step_lem s p q r,
    )

-- Where T begins at 0, 32 steps leave the product of N and A in T:A.
pub multiply_steps-product :
    (s : VmState)
    → s.t ≡ 0
    → IsWord s.a
    → IsWord (nos s)
    → let s' = multiply_steps 32 s in s'.t * 2 ^ 32 + s'.a ≡ s.a * nos s
multiply_steps-product s e q r =
    let whole : s.a % 2 ^ 32 ≡ s.a = omega arith in
    omega (
      arith,
      multiply_steps_lem 32 s (omega arith) (omega arith) q r,
      whole,
      ap (λ (t : ℕ). t * (nos s * 2 ^ 32)) whole,
      regroup s.a (nos s),
    )
