-- ===== src/Vm/Memory/Limits.antt =====
-- What a store may not touch, and which error it returns.
use lite_forth.Common.{
  ℕ, ◌≤◌, ◌<◌, ◌≡◌, ◌≢◌, ◌⊎◌, refl, inl, inr, arith, ap, ◌∙◌, ==_iff, ltb, leb, ◌==◌, ◌||◌,
  Bool-cases, List, [], ◌∷◌, bit_and,
}
use lite_forth.Vm.Memory.{
  Memory, page_of, cell_of, cell_at, field_set, vm_guarded, scan_ranges, IoRange, io_write,
  vm_store, write_cell,
}

-- The limits and the allowlist, which only C code sets.
pub record SameLimits (m n : Memory) : Type 0 where
  pub rd_limit : n.rd_limit ≡ m.rd_limit
  pub wp_limit : n.wp_limit ≡ m.wp_limit
  pub executable : n.executable ≡ m.executable
  pub io_page : n.io_page ≡ m.io_page
  pub io_ranges : n.io_ranges ≡ m.io_ranges

-- Cells of the guarded page that its allowlist lets be written: the first range that holds the cell
-- has VM_IO_WRITE. A range with end 0 ends the list.
pub data IsAllowed (a : ℕ) : List IoRange → Type 0 where
  here :
      (r : IoRange) (rs : List IoRange)
      → r.end ≢ 0
      → r.first ≤ a
      → a < r.end
      → bit_and r.flags io_write ≢ 0
      → IsAllowed a (r ∷ rs)
  later :
      (r : IoRange) (rs : List IoRange)
      → r.end ≢ 0
      → (a < r.first) ⊎ (r.end ≤ a)
      → IsAllowed a rs
      → IsAllowed a (r ∷ rs)

-- A cell that VM code may not write: below its page's write-protect limit and the read limit, or past
-- the read limit, unless that is in the guarded page and the allowlist lets it be written.
pub record IsProtected (m : Memory) (page i : ℕ) : Type 0 where
  pub outside :
      ((i < m.rd_limit page) × (i < m.wp_limit page))
      ⊎ ((m.rd_limit page ≤ i) × ((page ≢ m.io_page) ⊎ (¬ IsAllowed i m.io_ranges)))

-- The change that a run of VM code may make to the memory.
pub record Confined (m n : Memory) : Type 0 where
  pub limits : SameLimits m n
  pub kept : (page i : ℕ) → IsProtected m page i → n.cells page i ≡ m.cells page i

SameLimits-refl : (m : Memory) → SameLimits m m
SameLimits-refl m = record {
  rd_limit = refl;
  wp_limit = refl;
  executable = refl;
  io_page = refl;
  io_ranges = refl;
}

pub Confined-refl : (m : Memory) → Confined m m
Confined-refl m = record { limits = SameLimits-refl m; kept = λ page i h. refl }

SameLimits-trans : {m n o : Memory} → SameLimits m n → SameLimits n o → SameLimits m o
SameLimits-trans a b = record {
  rd_limit = b.rd_limit ∙ a.rd_limit;
  wp_limit = b.wp_limit ∙ a.wp_limit;
  executable = b.executable ∙ a.executable;
  io_page = b.io_page ∙ a.io_page;
  io_ranges = b.io_ranges ∙ a.io_ranges;
}

IsProtected-moved :
    {m n : Memory} (page i : ℕ) → SameLimits m n → IsProtected m page i → IsProtected n page i
IsProtected-moved page i same h = record {
  outside = rw (same.wp_limit, same.rd_limit, same.io_page, same.io_ranges) h.outside;
}

pub Confined-trans : {m n o : Memory} → Confined m n → Confined n o → Confined m o
Confined-trans a b = record {
  limits = SameLimits-trans a.limits b.limits;
  kept = λ page i h. b.kept page i (IsProtected-moved page i a.limits h) ∙ a.kept page i h;
}

-- What the walk over the allowlist lets through.
scan_ranges-IsAllowed : (a : ℕ) (rs : List IoRange) → scan_ranges a io_write rs ≡ 0 → IsAllowed a rs
unfolding scan_ranges
scan_ranges-IsAllowed a [] h = absurd (omega (arith, h))
scan_ranges-IsAllowed a (r ∷ rs) h = elim (Bool-cases (r.end == 0)) [
  | inl ends ↦ absurd (let wrong = rw (scan_ranges, ends) at h in omega (arith, wrong))
  | inr going ↦ elim (Bool-cases (leb r.end a || ltb a r.first)) [
    | inl off ↦
        later r rs (ground (arith, going)) (ground (arith, off))
          (scan_ranges-IsAllowed a rs (rw (scan_ranges, going, off) at h))
    | inr on ↦ elim (Bool-cases (bit_and r.flags io_write == 0)) [
      | inl no_write ↦
          absurd (let wrong = rw (scan_ranges, going, on, no_write) at h in omega (arith, wrong))
      | inr writes ↦
          here r rs (ground (arith, going)) (ground (arith, on)) (ground (arith, on))
            (ground (arith, writes))
    ]
  ]
]

vm_guarded-ok :
    (m : Memory) (page a : ℕ)
    → vm_guarded m page a io_write ≡ 0
    → (page ≡ m.io_page) × IsAllowed a m.io_ranges
unfolding vm_guarded
vm_guarded-ok m page a h = elim (Bool-cases (page == m.io_page)) [
  | inl guarded ↦ ((==_iff _ _).0 guarded, scan_ranges-IsAllowed a m.io_ranges (rw guarded at h))
  | inr other ↦ absurd (let wrong = rw other at h in omega (arith, wrong))
]

-- A store leaves the memory alone, or writes its cell, which is then not protected.
vm_store-cases :
    (m : Memory) (addr v : ℕ)
    → ((vm_store m addr v).1 ≡ m)
      ⊎ (((vm_store m addr v).1 ≡ write_cell m addr (field_set addr (cell_at m addr) v))
          × ¬ IsProtected m (page_of addr) (cell_of addr))
unfolding vm_store
vm_store-cases m addr v = elim (Bool-cases (leb (m.rd_limit (page_of addr)) (cell_of addr))) [
  | inl past ↦ elim (Bool-cases (vm_guarded m (page_of addr) (cell_of addr) io_write == 0)) [
    | inl allowed ↦
        (let (page, open_cell) = vm_guarded-ok m _ _ ((==_iff _ 0).0 allowed) in
          rw (past, allowed)
            (inr (
              refl,
              λ h. elim h.outside [
                | inl (low, guarded) ↦ ground (arith, past, low)
                | inr (high, inl elsewhere) ↦ elsewhere page
                | inr (high, inr closed) ↦ closed open_cell
              ],
            )))
    | inr failed ↦ rw (past, failed) (inl refl)
  ]
  | inr below ↦ elim (Bool-cases (ltb (cell_of addr) (m.wp_limit (page_of addr)))) [
    | inl guarded ↦ rw (below, guarded) (inl refl)
    | inr free ↦
        rw (below, free)
          (inr (
            refl,
            λ h. elim h.outside [
              | inl (low, guarded) ↦ ground (arith, free, guarded)
              | inr (high, _) ↦ ground (arith, below, high)
            ],
          ))
  ]
]

-- A write changes one cell.
pub write_cell-other :
    (m : Memory) (addr v page i : ℕ)
    → ((page_of addr ≡ page) → (cell_of addr ≡ i) → ⊥)
    → (write_cell m addr v).cells page i ≡ m.cells page i
write_cell-other m addr v page i h = elim (Bool-cases (page_of addr == page)) [
  | inl same_page ↦ elim (Bool-cases (cell_of addr == i)) [
    | inl same_cell ↦ absurd (h ((==_iff _ page).0 same_page) ((==_iff _ i).0 same_cell))
    | inr other ↦ rw (same_page, other) (ap (λ t. m.cells t i) ((==_iff _ page).0 same_page))
  ]
  | inr other ↦ rw other refl
]

write_cell-Confined :
    (m : Memory) (addr v : ℕ)
    → ¬ IsProtected m (page_of addr) (cell_of addr)
    → Confined m (write_cell m addr v)
write_cell-Confined m addr v free = record {
  limits = record {
    rd_limit = refl;
    wp_limit = refl;
    executable = refl;
    io_page = refl;
    io_ranges = refl;
  };
  kept = λ page i h. write_cell-other m addr v page i (λ p q. free (rw (p, q) h));
}

-- A store, wherever it goes and whatever it returns, leaves the limits, the allowlist and the
-- protected cells: those below both limits of their page, and those past its read limit, but for
-- the cells of the guarded page that the allowlist lets be written.
pub vm_store-Confined : (m : Memory) (addr v : ℕ) → Confined m (vm_store m addr v).1
vm_store-Confined m addr v = elim (vm_store-cases m addr v) [
  | inl same ↦ rw same (Confined-refl m)
  | inr (wrote, free) ↦ rw wrote (write_cell-Confined m addr _ free)
]
