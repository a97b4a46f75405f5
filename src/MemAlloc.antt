-- ===== src/MemAlloc.antt =====
-- The bump allocator of src/memalloc.c: one static pool of cells, freed in the reverse order of
-- allocation. The pool's cells and `stack_top` are a record; an operation returns the new one.
pub mod Frames
pub mod Free
use lite_forth.Common.{
  ℕ, ◌+◌, ◌-◌, ◌%◌, ◌^◌, Bool, false, true, not, ◌&&◌, ltb, ◌==◌, if◌then◌else◌, update, neg32,
}

-- A pointer that a caller may pass: NULL, `&pool[i]`, or one to other memory.
pub data Pointer : Type 0 where
  null : Pointer
  cell : ℕ → Pointer
  elsewhere : ℕ → Pointer

-- The comparison of pointers.
abbrev pub same : Pointer → Pointer → Bool
same null null = true
same (cell i) (cell j) = i == j
same (elsewhere i) (elsewhere j) = i == j
same _ _ = false

pub record Pool : Type 0 where
  pub cells : ℕ → ℕ
  pub stack_top : ℕ

-- ERR_FREE_FAILED (errcodes.h)
abbrev pub free_failed : ℕ
free_failed = neg32 60

-- size_t arithmetic
abbrev pub add_size : ℕ → ℕ → ℕ
add_size a b = (a + b) % 2 ^ 64

abbrev pub sub_size : ℕ → ℕ → ℕ
sub_size a b = (a + 2 ^ 64 - b) % 2 ^ 64

-- An `int` above 0, as its bit pattern.
abbrev pub is_positive : ℕ → Bool
is_positive size = ltb 0 size && ltb size (2 ^ 31)

unfoldable pub pool_alloc : ℕ → ℕ → Pool → Pointer × Pool
pool_alloc capacity size p =
    if is_positive size && not (ltb capacity (add_size (add_size p.stack_top size) 1))
    then (
      cell p.stack_top,
      record {
        cells = update p.cells (add_size p.stack_top size) size;
        stack_top = add_size (add_size p.stack_top size) 1;
      },
    )
    else (null, p)

-- Where the newest block starts, by the size in the slot below `stack_top`.
abbrev pub newest : Pool → Pointer
newest p = cell (sub_size (sub_size p.stack_top 1) (p.cells (sub_size p.stack_top 1)))

unfoldable pub free_block : Pointer → Pool → ℕ × Pool
free_block ptr p =
    if p.stack_top == 0
    then (free_failed, p)
    else if same ptr (newest p)
    then (
      0,
      record p {
        stack_top = sub_size p.stack_top ((p.cells (sub_size p.stack_top 1) + 1) % 2 ^ 32);
      },
    )
    else (free_failed, p)

unfoldable pub pool_free : Pointer → Pool → ℕ × Pool
unfolding free_block
pool_free null p = (0, p)
pool_free (cell i) p = free_block (cell i) p
pool_free (elsewhere i) p = free_block (elsewhere i) p

unfoldable pub pool_is_newest : Pointer → Pool → Bool
pool_is_newest null p = false
pool_is_newest (cell i) p = not (p.stack_top == 0) && same (cell i) (newest p)
pool_is_newest (elsewhere i) p = not (p.stack_top == 0) && same (elsewhere i) (newest p)

unfoldable pub pool_reset : Pool → Pool
pool_reset p = record p { stack_top = 0 }

unfoldable pub pool_unused : ℕ → Pool → ℕ
pool_unused capacity p = sub_size capacity p.stack_top % 2 ^ 32
