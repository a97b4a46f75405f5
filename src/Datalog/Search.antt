-- ===== src/Datalog/Search.antt =====
-- dl_find_end finds the end of a log that was written in order, and in any file a boundary.
use lite_forth.Common.{
  ℕ, zero, suc, ◌+◌, ◌-◌, ◌/◌, ◌^◌, ◌<◌, ◌≤◌, ◌≡◌, ◌⊎◌, refl, sym, ap, ◌∙◌, arith, true, false, not,
  ◌||◌, List, ltb, ltb→lt, ◌==◌, ==_iff, Bool-cases, inl, inr, bytes_at, same_at,
}
use lite_forth.Datalog.{written, find_end, dl_find_end, negative, starts, dl_magic}

negative_lem : (err : ℕ) → 2 ^ 31 ≤ negative err
negative_lem err = ground arith

module _ (read : ℕ → ℕ × List ℕ) where
  -- The blocks before n are written, those from n to `blocks` are not, and no read fails.
  unfoldable pub IsWrittenTo : ℕ → ℕ → List ℕ → Type 0
  IsWrittenTo n blocks id = (k : ℕ) → k < blocks → written read k id ≡ (0, ltb k n)

  find_end-IsWrittenTo :
      (fuel n blocks lo hi : ℕ) (id : List ℕ)
      → IsWrittenTo n blocks id
      → hi ≤ blocks
      → lo ≤ n
      → n ≤ hi
      → hi ≤ lo + fuel
      → find_end read fuel id lo hi ≡ n
  unfolding find_end IsWrittenTo
  find_end-IsWrittenTo zero n blocks lo hi id w p q r h = omega arith
  find_end-IsWrittenTo (suc fuel) n blocks lo hi id w p q r h = elim (Bool-cases (ltb lo hi)) [
    | inr done ↦ rw (find_end, done) (ground (arith, done))
    | inl more ↦
        (let open_range = ltb→lt lo hi more in
          let mid = lo + (hi - lo) / 2 in
          let at = ap (λ t. t.1) (w mid (omega arith)) in
          let fine : ((written read mid id).0 == 0) ≡ true =
            (==_iff (written read mid id).0 0).1 (ap (λ t. t.0) (w mid (omega arith))) in
          elim (Bool-cases (ltb mid n)) [
            | inl before ↦
                rw (find_end, more, at, before)
                  (find_end-IsWrittenTo fuel n blocks (mid + 1) hi id w p
                    (omega (arith, ltb→lt mid n before)) r (omega arith))
            | inr after ↦
                rw (find_end, more, at, after, fine)
                  (find_end-IsWrittenTo fuel n blocks lo mid id w (omega arith) q
                    (ground (arith, after)) (omega arith))
          ])
  ]

  -- Without the magic, block 0 is not written.
  no_log :
      (n : ℕ) (id : List ℕ)
      → same_at 0 dl_magic (read 0).1 ≡ false
      → ltb 0 n ≡ (written read 0 id).1
      → n ≡ 0
  unfolding written starts
  no_log n id other e = elim (Bool-cases ((read 0).0 == 0)) [
    | inl fine ↦ ground (arith, rw (fine, other) at e)
    | inr failed ↦ ground (arith, rw failed at e)
  ]

  -- A file of `blocks` blocks whose first n hold a log: dl_find_end returns n, also when n is 0 or
  -- all the blocks. The blocks are those with the file's own id, and no read fails.
  pub dl_find_end_lem :
      (n blocks : ℕ)
      → 0 < blocks
      → n ≤ blocks
      → (read 0).0 ≡ 0
      → IsWrittenTo n blocks (bytes_at 8 16 (read 0).1)
      → dl_find_end read blocks ≡ n
  unfolding dl_find_end IsWrittenTo
  dl_find_end_lem n blocks some_block p fine w =
      let id = bytes_at 8 16 (read 0).1 in
      let read_ok : ((read 0).0 == 0) ≡ true = (==_iff (read 0).0 0).1 fine in
      let first = ap (λ t. t.1) (w 0 some_block) in
      let first_ok : ((written read 0 id).0 == 0) ≡ true =
        (==_iff (written read 0 id).0 0).1 (ap (λ t. t.0) (w 0 some_block)) in
      let blocks_ok : (blocks == 0) ≡ false = ground arith in
      elim (Bool-cases (same_at 0 dl_magic (read 0).1)) [
        | inl log ↦ elim (Bool-cases (ltb 0 n)) [
          | inl nonempty ↦
              rw (read_ok, log, blocks_ok, first, nonempty)
                (find_end-IsWrittenTo blocks n blocks 1 blocks id w (omega arith)
                  (ltb→lt 0 n nonempty) p (omega arith))
          | inr empty ↦ rw (read_ok, log, blocks_ok, first, empty, first_ok) (ground (arith, empty))
        ]
        | inr other ↦ rw (read_ok, other) (sym (no_log n id other (sym first)))
      ]

  -- A failure, or a block that is written before one that is not (or before the end).
  pub IsBoundary : ℕ → List ℕ → ℕ → Type 0
  IsBoundary blocks id r =
      (2 ^ 31 ≤ r)
      ⊎ (((j : ℕ) → r ≡ suc j → (written read j id).1 ≡ true)
          × (r < blocks → (written read r id).1 ≡ false))

  find_end-IsBoundary :
      (fuel blocks lo hi : ℕ) (id : List ℕ)
      → lo ≤ hi
      → hi ≤ blocks
      → hi ≤ lo + fuel
      → ((j : ℕ) → lo ≡ suc j → (written read j id).1 ≡ true)
      → (hi < blocks → (written read hi id).1 ≡ false)
      → IsBoundary blocks id (find_end read fuel id lo hi)
  unfolding find_end IsBoundary
  find_end-IsBoundary zero blocks lo hi id p q h before after =
      let same : lo ≡ hi = omega arith in
      inr (before, λ r. ap (λ t. (written read t id).1) same ∙ after (omega arith))
  find_end-IsBoundary (suc fuel) blocks lo hi id p q h before after =
      elim (Bool-cases (ltb lo hi)) [
        | inr done ↦
            (let same : lo ≡ hi = ground (arith, done) in
              rw (find_end, done)
                (inr (
                  before,
                  λ r. ap (λ t. (written read t id).1) same ∙ after (omega (arith, same, r)),
                )))
        | inl more ↦
            (let open_range = ltb→lt lo hi more in
              let mid = lo + (hi - lo) / 2 in
              elim (Bool-cases (written read mid id).1) [
                | inl here ↦
                    rw (find_end, more, here)
                      (find_end-IsBoundary fuel blocks (mid + 1) hi id (omega arith) q (omega arith)
                        (λ j e.
                          (let at : j ≡ mid = omega (arith, e) in
                            ap (λ t. (written read t id).1) at ∙ here))
                        after)
                | inr absent ↦ elim (Bool-cases ((written read mid id).0 == 0)) [
                  | inl fine ↦
                      rw (find_end, more, absent, fine)
                        (find_end-IsBoundary fuel blocks lo mid id (omega arith) (omega arith)
                          (omega arith) before (λ z. absent))
                  | inr failed ↦
                      rw (find_end, more, absent, failed)
                        (inl (negative_lem (written read mid id).0))
                ]
              ])
      ]

  has_block :
      (blocks : ℕ) → (not (same_at 0 dl_magic (read 0).1) || (blocks == 0)) ≡ false → 1 ≤ blocks
  has_block zero h = elim (Bool-cases (same_at 0 dl_magic (read 0).1)) [
    | inl log ↦ absurd (cc (rw log at h))
    | inr other ↦ absurd (cc (rw other at h))
  ]
  has_block (suc n) h = omega arith

  -- Whatever the file holds, dl_find_end returns 0, a negative error, or the number of a boundary:
  -- the block before it is written, and the block at it, if the file has one, is not.
  pub dl_find_end-IsBoundary :
      (blocks : ℕ)
      → (dl_find_end read blocks ≡ 0)
        ⊎ IsBoundary blocks (bytes_at 8 16 (read 0).1) (dl_find_end read blocks)
  unfolding dl_find_end IsBoundary
  dl_find_end-IsBoundary blocks =
      let id = bytes_at 8 16 (read 0).1 in
      elim (Bool-cases ((read 0).0 == 0)) [
        | inr failed ↦ rw failed (inr (inl (negative_lem (read 0).0)))
        | inl fine ↦ elim (Bool-cases (not (same_at 0 dl_magic (read 0).1) || (blocks == 0))) [
          | inl blank ↦ rw (fine, blank) (inl refl)
          | inr log ↦ elim (Bool-cases (written read 0 id).1) [
            | inl here ↦
                rw (fine, log, here)
                  (inr (
                    find_end-IsBoundary blocks blocks 1 blocks id (has_block blocks log)
                      (omega arith) (omega arith)
                      (λ j e.
                        (let at : j ≡ 0 = omega (arith, e) in
                          ap (λ t. (written read t id).1) at ∙ here))
                      (λ z. absurd (omega (arith, z)))))
            | inr torn ↦ elim (Bool-cases ((written read 0 id).0 == 0)) [
              | inl read_ok ↦ rw (fine, log, torn, read_ok) (inl refl)
              | inr bad ↦ rw (fine, log, torn, bad) (inr (inl (negative_lem (written read 0 id).0)))
            ]
          ]
        ]
      ]
