-- ===== src/MemAlloc/Free.antt =====
-- pool_free and pool_is_newest on a pool whose blocks are known.
use lite_forth.Common.{
  ℕ, ◌+◌, ◌-◌, ◌%◌, ◌^◌, ◌≤◌, ◌<◌, ◌≡◌, ◌≢◌, ◌↔◌, ◌⊎◌, inl, inr, refl, List, ◌∷◌, true, arith,
  if◌then◌else◌, ap, ◌∙◌, update_ne, update_self,
}
use lite_forth.MemAlloc.{
  Pointer, null, cell, elsewhere, Pool, free_failed, same, newest, sub_size, pool_alloc, free_block,
  pool_free, pool_is_newest,
}
use lite_forth.MemAlloc.Frames.{IsValid, Frames-local, pool_alloc-room}

same_iff : (p q : Pointer) → (same p q ≡ true) ↔ (p ≡ q)
same_iff null null = ground arith
same_iff null (cell j) = ground arith
same_iff null (elsewhere j) = ground arith
same_iff (cell i) null = ground arith
same_iff (cell i) (cell j) = ground arith
same_iff (cell i) (elsewhere j) = ground arith
same_iff (elsewhere i) null = ground arith
same_iff (elsewhere i) (cell j) = ground arith
same_iff (elsewhere i) (elsewhere j) = ground arith

-- pool_is_newest says exactly which pointers but NULL pool_free takes.
pub pool_is_newest-pool_free :
    (ptr : Pointer) (p : Pool)
    → (pool_is_newest ptr p ≡ true) ↔ ((ptr ≢ null) × ((pool_free ptr p).0 ≡ 0))
unfolding pool_is_newest pool_free free_block
pool_is_newest-pool_free null p = ground arith
pool_is_newest-pool_free (cell i) p = ground arith
pool_is_newest-pool_free (elsewhere i) p = ground arith

module _ (capacity s : ℕ) {sizes : List ℕ} {p : Pool} (v : IsValid capacity (s ∷ sizes) p) where
  newest_lem : newest p ≡ cell (p.stack_top - (s + 1))
  newest_lem =
      let slot : sub_size p.stack_top 1 ≡ p.stack_top - 1 =
        omega (arith, v.indexed, v.fits, v.frames.2) in
      rw (slot, v.frames.3) (ground (arith, v.indexed, v.fits, v.frames.2, v.frames.1))

  lowered :
      sub_size p.stack_top ((p.cells (sub_size p.stack_top 1) + 1) % 2 ^ 32) ≡ p.stack_top - (s + 1)
  lowered =
      let slot : sub_size p.stack_top 1 ≡ p.stack_top - 1 =
        omega (arith, v.indexed, v.fits, v.frames.2) in
      rw (slot, v.frames.3) (omega (arith, v.indexed, v.fits, v.frames.2, v.frames.1))

  lower-IsValid : IsValid capacity sizes (record p { stack_top = p.stack_top - (s + 1) })
  lower-IsValid = record { frames = v.frames.4; fits = omega (arith, v.fits); indexed = v.indexed }

  free_block_lem :
      (ptr : Pointer)
      → free_block ptr p ≡ (
          if same ptr (cell (p.stack_top - (s + 1)))
          then (0, record p { stack_top = p.stack_top - (s + 1) })
          else (free_failed, p))
  unfolding free_block
  free_block_lem ptr = rw (newest_lem, lowered) (ground (arith, v.frames.2))

  -- Freeing the newest block succeeds: `stack_top` goes back to where that block begins, no cell
  -- changes, and the blocks below it are those of the pool that is left.
  pub pool_free-newest :
      (pool_free (cell (p.stack_top - (s + 1))) p
        ≡ (0, record p { stack_top = p.stack_top - (s + 1) }))
      × IsValid capacity sizes (pool_free (cell (p.stack_top - (s + 1))) p).1
  unfolding pool_free
  pool_free-newest =
      rw (free_block_lem (cell (p.stack_top - (s + 1))), (same_iff _ _).1 refl)
        (refl, lower-IsValid)

  pool_free-at :
      (b : ℕ)
      → b ≡ p.stack_top - (s + 1)
      → let (ior, r) = pool_free (cell b) p in
        (ior ≡ 0) × (r.stack_top ≡ b) × IsValid capacity sizes r
  pool_free-at b e = rw e (
    ap (λ t. t.0) pool_free-newest.0,
    ap (λ t. t.1.stack_top) pool_free-newest.0,
    pool_free-newest.1,
  )

  -- Freeing anything else but NULL fails and changes nothing.
  pool_free-other :
      (ptr : Pointer)
      → ptr ≢ null
      → ptr ≢ cell (p.stack_top - (s + 1))
      → pool_free ptr p ≡ (free_failed, p)
  unfolding pool_free
  pool_free-other null h g = absurd (h refl)
  pool_free-other (cell i) h g =
      ground (arith, free_block_lem (cell i), same_iff (cell i) (cell (p.stack_top - (s + 1))))
  pool_free-other (elsewhere i) h g = ground (arith, free_block_lem (elsewhere i))

module _ (capacity size : ℕ) {sizes : List ℕ} {p : Pool} (v : IsValid capacity sizes p) where
  -- The pool after the allocation of `size` cells, with the cells as they are later.
  later : (ℕ → ℕ) → Pool
  later filled = record { cells = filled; stack_top = p.stack_top + size + 1 }

  later-IsValid :
      (filled : ℕ → ℕ)
      → 0 < size
      → size < 2 ^ 31
      → p.stack_top + size + 1 ≤ capacity
      → ((i : ℕ) → i < p.stack_top → filled i ≡ p.cells i)
      → filled (p.stack_top + size) ≡ size
      → IsValid capacity (size ∷ sizes) (later filled)
  unfolding later
  later-IsValid filled pos small room below slot =
      let at_slot : p.stack_top + size + 1 - 1 ≡ p.stack_top + size = omega arith in
      let back : p.stack_top + size + 1 - (size + 1) ≡ p.stack_top = omega arith in
      record {
        frames = (
          pos,
          small,
          omega arith,
          rw at_slot slot,
          rw back (Frames-local p.cells filled p.stack_top sizes below v.frames),
        );
        fits = room;
        indexed = v.indexed;
      }

  free-later :
      (filled : ℕ → ℕ)
      → 0 < size
      → size < 2 ^ 31
      → p.stack_top + size + 1 ≤ capacity
      → ((i : ℕ) → i < p.stack_top → filled i ≡ p.cells i)
      → filled (p.stack_top + size) ≡ size
      → let (ior, r) = pool_free (cell p.stack_top) (later filled) in
        (ior ≡ 0) × (r.stack_top ≡ p.stack_top) × IsValid capacity sizes r
  unfolding later
  free-later filled pos small room below slot =
      pool_free-at capacity size (later-IsValid filled pos small room below slot) p.stack_top
        (omega arith)

-- A block that was just allocated can be filled with any data: pool_free of its pointer then
-- succeeds, takes `stack_top` back to where it was, and leaves the same blocks below.
pub pool_free-pool_alloc :
    (capacity size : ℕ) {sizes : List ℕ} {p : Pool}
    → IsValid capacity sizes p
    → 0 < size
    → size < 2 ^ 31
    → p.stack_top + size + 1 ≤ capacity
    → (filled : ℕ → ℕ)
    → ((i : ℕ)
        → (i < p.stack_top) ⊎ (i ≡ p.stack_top + size)
        → filled i ≡ (pool_alloc capacity size p).1.cells i)
    → let (ptr, q) = pool_alloc capacity size p in
      let (ior, r) = pool_free ptr (record q { cells = filled }) in
      (ior ≡ 0) × (r.stack_top ≡ p.stack_top) × IsValid capacity sizes r
unfolding later
pool_free-pool_alloc capacity size {sizes} {p} v pos small room filled kept =
    let room_lem = pool_alloc-room capacity v size pos small room in
    rw room_lem (
      free-later capacity size v filled pos small room
        (λ i h.
          rw room_lem at (kept i (inl h))
          ∙ update_ne p.cells (p.stack_top + size) i size (omega arith))
        (rw room_lem at (kept (p.stack_top + size) (inr refl))
          ∙ update_self p.cells (p.stack_top + size) size))
