-- ===== src/Tests/Allocator.antt =====
-- A pool of 16 cells that holds a block of 3 cells and, above it, one of 2.
use lite_forth.Common.{ℕ, ◌≡◌, ◌⊎◌, refl, List, [], ◌∷◌, arith, if◌then◌else◌, ◌==◌, ◌<◌, ltb}
use lite_forth.MemAlloc.{Pool, cell, pool_alloc, pool_free}
use lite_forth.MemAlloc.Frames.{IsValid}
use lite_forth.MemAlloc.Free.{pool_free-pool_alloc}

abbrev two_blocks : Pool
two_blocks = record { cells = λ i. if i == 3 then 3 else (if i == 6 then 2 else 0); stack_top = 7 }

abbrev two_sizes : List ℕ
two_sizes = 2 ∷ 3 ∷ []

two_blocks-IsValid : IsValid 16 two_sizes two_blocks
two_blocks-IsValid = record {
  frames = (
    omega arith,
    omega arith,
    omega arith,
    refl,
    (omega arith, omega arith, omega arith, refl, refl),
  );
  fits = omega arith;
  indexed = omega arith;
}

alloc_and_free :
    pool_free (cell 7) (pool_alloc 16 5 two_blocks).1
    ≡ (0, record (pool_alloc 16 5 two_blocks).1 { stack_top = 7 })
unfolding pool_alloc pool_free
alloc_and_free = refl

-- The block is filled with 9.
abbrev filled : ℕ → ℕ
filled i =
    if i == 3
    then 3
    else (if i == 6 then 2 else (if i == 12 then 5 else (if ltb i 7 then 0 else 9)))

filled_kept : (i : ℕ) → (i < 7) ⊎ (i ≡ 12) → filled i ≡ (pool_alloc 16 5 two_blocks).1.cells i
unfolding pool_alloc
filled_kept i h = ground arith

pool_free-pool_alloc_example :
    let (ptr, q) = pool_alloc 16 5 two_blocks in
    let (ior, r) = pool_free ptr (record q { cells = filled }) in
    (ior ≡ 0) × (r.stack_top ≡ 7) × IsValid 16 two_sizes r
pool_free-pool_alloc_example =
    pool_free-pool_alloc 16 5 two_blocks-IsValid (omega arith) (omega arith) (omega arith) filled
      filled_kept
