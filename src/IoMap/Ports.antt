-- ===== src/IoMap/Ports.antt =====
-- What VM code sees of the math unit through its ports.
use lite_forth.Common.{
  ℕ, zero, suc, ◌-◌, ◌*◌, ◌≡◌, refl, ap, ◌∙◌, arith, ◌==◌, if◌then◌else◌, true, false, ltb, u32,
  Bool-cases, inl, inr,
}
use lite_forth.IoMap.{
  Unit32, Devices, unsupported_operation, iomap_rd, iomap_wr, multiply, product, read_result,
}

-- The ior and the value of a read, and the state that a read and a write leave.
abbrev pub answer : {W : Type 0} → ℕ × ℕ × Unit32 × W → ℕ × ℕ
answer (ior, v, u, w) = (ior, v)

abbrev pub after_read : {W : Type 0} → ℕ × ℕ × Unit32 × W → Unit32 × W
after_read (ior, v, u, w) = (u, w)

abbrev pub after_write : {W : Type 0} → ℕ × Unit32 × W → Unit32 × W
after_write (ior, u, w) = (u, w)

module _ {W : Type 0} (devices : Devices W) where
  -- n reads of IO_MATH_STATUS in a row.
  pub polls : ℕ → Unit32 × W → Unit32 × W
  polls zero s = s
  polls (suc n) s = polls n (after_read (iomap_rd devices 43 s))

  poll :
      (u : Unit32) (w : W)
      → after_read (iomap_rd devices 43 (u, w)) ≡ (record u { busy = u.busy - 1 }, w)
  unfolding iomap_rd
  poll u w = elim (Bool-cases (u.busy == 0)) [
    | inl ready ↦ rw ready (ap (λ b. (record u { busy = b }, w)) (ground arith))
    | inr busy ↦ rw busy refl
  ]

  polls_lem : (n : ℕ) (u : Unit32) (w : W) → polls n (u, w) ≡ (record u { busy = u.busy - n }, w)
  unfolding polls
  polls_lem zero u w = ap (λ b. (record u { busy = b }, w)) (omega arith)
  polls_lem (suc n) u w =
      ap (polls n) (poll u w)
      ∙ polls_lem n (record u { busy = u.busy - 1 }) w
      ∙ ap (λ b. (record u { busy = b }, w)) (omega arith)

  read_product : (u : Unit32) (w : W) → answer (iomap_rd devices 40 (u, w)) ≡ read_result u.y0 u
  unfolding iomap_rd
  read_product u w = refl

  started :
      (tos : ℕ) (u : Unit32) (w : W)
      → after_write (iomap_wr devices 32 tos (u, w)) ≡ (multiply tos false u, w)
  unfolding iomap_wr
  started tos u w = refl

  multiply-latency :
      (tos n : ℕ) (u : Unit32)
      → read_result
          (multiply tos false u).y0
          (record (multiply tos false u) { busy = (multiply tos false u).busy - n })
        ≡ (if ltb n u.latency then (unsupported_operation, 0) else (0, u32 (u.a0 * tos)))
  unfolding multiply product
  multiply-latency tos n u = elim (Bool-cases (ltb n u.latency)) [
    | inl busy ↦ (let e : (u.latency - n == 0) ≡ false = ground arith in rw (busy, e) refl)
    | inr ready ↦ (let e : (u.latency - n == 0) ≡ true = ground arith in rw (ready, e) refl)
  ]

  -- A product started by `>sys` is read by `sys>` after n reads of the status: the low word of the
  -- unsigned product at its port once the unit's latency is over, and before that an error and 0.
  pub iomap_rd-iomap_wr :
      (tos n : ℕ) (u : Unit32) (w : W)
      → answer (iomap_rd devices 40 (polls n (after_write (iomap_wr devices 32 tos (u, w)))))
        ≡ (if ltb n u.latency then (unsupported_operation, 0) else (0, u32 (u.a0 * tos)))
  iomap_rd-iomap_wr tos n u w =
      ap (λ s. answer (iomap_rd devices 40 (polls n s))) (started tos u w)
      ∙ ap (λ s. answer (iomap_rd devices 40 s)) (polls_lem n (multiply tos false u) w)
      ∙ read_product _ w
      ∙ multiply-latency tos n u
