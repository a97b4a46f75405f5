-- ===== src/MemAlloc/Frames.antt =====
-- The blocks in the pool as a stack of sizes, newest first: what memalloc.c keeps track of by the
-- size that it stores behind each block.
use lite_forth.Common.{ℕ, ◌+◌, ◌-◌, ◌^◌, ◌≤◌, ◌<◌, ◌≡◌, ◌⊎◌, refl, List, [], ◌∷◌, arith, update}
use lite_forth.MemAlloc.{Pool, null, cell, add_size, pool_alloc}

-- The cells below `top` are blocks of these sizes, each with its size in the slot behind it.
abbrev pub Frames : (ℕ → ℕ) → ℕ → List ℕ → Type 0
Frames cells top [] = top ≡ 0
Frames cells top (s ∷ rest) =
    (0 < s)
    × (s < 2 ^ 31)
    × (s + 1 ≤ top)
    × (cells (top - 1) ≡ s)
    × Frames cells (top - (s + 1)) rest

-- The frames depend only on the cells below the top.
pub Frames-local :
    (cells other : ℕ → ℕ) (top : ℕ) (sizes : List ℕ)
    → ((i : ℕ) → i < top → other i ≡ cells i)
    → Frames cells top sizes
    → Frames other top sizes
Frames-local cells other top [] agree h = h
Frames-local cells other top (s ∷ rest) agree h = (
  h.0,
  h.1,
  h.2,
  omega (arith, agree (top - 1) (omega arith)),
  Frames-local cells other (top - (s + 1)) rest (λ i p. agree i (omega arith)) h.4,
)

-- The blocks lie in a pool of `capacity` cells, whose indexes an `int` holds.
pub record IsValid (capacity : ℕ) (sizes : List ℕ) (p : Pool) : Type 0 where
  pub frames : Frames p.cells p.stack_top sizes
  pub fits : p.stack_top ≤ capacity
  pub indexed : capacity < 2 ^ 31

-- Frames at a top that is computed.
Frames-at :
    (cells : ℕ → ℕ) (i top : ℕ) (sizes : List ℕ)
    → i ≡ top
    → Frames cells top sizes
    → Frames cells i sizes
Frames-at cells i top sizes e h = rw e h

Frames-push :
    (cells : ℕ → ℕ) (top size : ℕ) (sizes : List ℕ)
    → 0 < size
    → size < 2 ^ 31
    → Frames cells top sizes
    → Frames (update cells (top + size) size) (top + size + 1) (size ∷ sizes)
Frames-push cells top size sizes pos small h = (
  pos,
  small,
  omega arith,
  ground arith,
  Frames-at (update cells (top + size) size) (top + size + 1 - (size + 1)) top sizes (omega arith)
      (Frames-local cells (update cells (top + size) size) top sizes (λ i p. ground arith) h),
)

-- The result of a pool_alloc that succeeds.
abbrev pub pushed : ℕ → Pool → Pool
pushed size p = record {
  cells = update p.cells (p.stack_top + size) size;
  stack_top = p.stack_top + size + 1;
}

module _ (capacity : ℕ) {sizes : List ℕ} {p : Pool} (v : IsValid capacity sizes p) where
  pub pool_alloc-room :
      (size : ℕ)
      → 0 < size
      → size < 2 ^ 31
      → p.stack_top + size + 1 ≤ capacity
      → pool_alloc capacity size p ≡ (cell p.stack_top, pushed size p)
  unfolding pool_alloc
  pool_alloc-room size pos small room =
      let top : add_size p.stack_top size ≡ p.stack_top + size = omega (arith, v.indexed) in
      let next : add_size (p.stack_top + size) 1 ≡ p.stack_top + size + 1 =
        omega (arith, v.indexed) in
      rw (top, next) (ground arith)

  -- pool_alloc of a size that is positive and fits returns the first free cell, adds one block of
  -- that size on top, and changes no cell of the blocks already there.
  pool_alloc-Frames :
      (size : ℕ)
      → 0 < size
      → size < 2 ^ 31
      → p.stack_top + size + 1 ≤ capacity
      → (i : ℕ) → i < p.stack_top
      → ((pool_alloc capacity size p).0 ≡ cell p.stack_top)
        × IsValid capacity (size ∷ sizes) (pool_alloc capacity size p).1
        × ((pool_alloc capacity size p).1.cells i ≡ p.cells i)
  pool_alloc-Frames size pos small room i q = rw (pool_alloc-room size pos small room) (
    refl,
    record {
      frames = Frames-push p.cells p.stack_top size sizes pos small v.frames;
      fits = room;
      indexed = v.indexed;
    },
    ground arith,
  )

  -- Any other size is refused and changes nothing.
  pub pool_alloc-refused :
      (size : ℕ)
      → size < 2 ^ 32
      → (size ≡ 0) ⊎ (2 ^ 31 ≤ size) ⊎ (capacity < p.stack_top + size + 1)
      → pool_alloc capacity size p ≡ (null, p)
  unfolding pool_alloc
  pool_alloc-refused size small why = ground (arith, v.indexed, v.fits)
