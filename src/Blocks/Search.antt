-- ===== src/Blocks/Search.antt =====
-- The loops over the slots: the first of a block, and the least recently used.
use lite_forth.Common.{
  ◌-◌, ℕ, zero, suc, false, ◌+◌, ◌≤◌, ◌<◌, ◌≡◌, ◌≢◌, sym, subst, ltb→lt, arith, none, some, ltb,
  ◌==◌, ==_iff, Bool-cases, inl, inr,
}
use lite_forth.Blocks.{Slot, Device, Layout, Buffers, find_id, least_used, sync_buffer, evict}

module _ {D : Type 0} where
  -- A slot that is found lies in the range, and holds the block.
  pub find_id-some :
      (left i blk : ℕ) (f : ℕ → Slot D) (j : ℕ)
      → find_id left i blk f ≡ some j
      → (j < i + left) × ((f j).block_id ≡ blk)
  unfolding find_id
  find_id-some zero i blk f j h = cc
  find_id-some (suc left) i blk f j h = elim (Bool-cases ((f i).block_id == blk)) [
    | inl here ↦ ground (arith, rw here at h)
    | inr there ↦
        (let (p, q) = find_id-some left (i + 1) blk f j (rw there at h) in (omega arith, q))
  ]

  pub find_id-none :
      (left i blk : ℕ) (f : ℕ → Slot D)
      → find_id left i blk f ≡ none
      → (j : ℕ) → i ≤ j
      → j < i + left
      → (f j).block_id ≢ blk
  unfolding find_id
  find_id-none zero i blk f h j p q = absurd (omega arith)
  find_id-none (suc left) i blk f h j p q = elim (Bool-cases ((f i).block_id == blk)) [
    | inl here ↦ absurd (cc (rw here at h))
    | inr there ↦ elim (Bool-cases (i == j)) [
      | inl same ↦
          (let at = subst (λ t. ((f t).block_id == blk) ≡ false) ((==_iff i j).0 same) there in
            ground (arith, at))
      | inr other ↦ find_id-none left (i + 1) blk f (rw there at h) j (ground arith) (omega arith)
    ]
  ]

  -- One more slot, for a best no later than the best so far and that slot.
  step :
      (i best : ℕ) (f : ℕ → Slot D) (now j : ℕ)
      → ((k : ℕ) → k < i → (f best).last_used ≤ (f k).last_used)
      → (f now).last_used ≤ (f best).last_used
      → (f now).last_used ≤ (f i).last_used
      → j < i + 1
      → (f now).last_used ≤ (f j).last_used
  step i best f now j q p r h = elim (Bool-cases (j == i)) [
    | inl same ↦ subst (λ t. (f now).last_used ≤ (f t).last_used) (sym ((==_iff j i).0 same)) r
    | inr before ↦ ground (arith, q j)
  ]

  pub first_slot : (f : ℕ → Slot D) (j : ℕ) → j < 1 → (f 0).last_used ≤ (f j).last_used
  first_slot f zero q = omega arith
  first_slot f (suc j) q = absurd (omega arith)

  -- The least recently used slot lies in the range, and none of the slots was used before it.
  pub least_used_lem :
      (left i best : ℕ) (f : ℕ → Slot D)
      → best < i
      → ((j : ℕ) → j < i → (f best).last_used ≤ (f j).last_used)
      → (k : ℕ) → k < i + left
      → (least_used left i best f < i + left)
        × ((f (least_used left i best f)).last_used ≤ (f k).last_used)
  unfolding least_used
  least_used_lem zero i best f p q k h = (omega arith, q k (omega arith))
  least_used_lem (suc left) i best f p q k h =
      elim (Bool-cases (ltb (f i).last_used (f best).last_used)) [
        | inl less ↦ rw less (
            let (a, b) =
              least_used_lem left (i + 1) i f (omega arith)
                (λ j r. step i best f i j q (omega (arith, ltb→lt _ _ less)) (omega arith) r) k
                (omega arith) in
            (omega arith, b))
        | inr more ↦ rw more (
            let (a, b) =
              least_used_lem left (i + 1) best f (omega arith)
                (λ j r. step i best f best j q (omega arith) (ground arith) r) k (omega arith) in
            (omega arith, b))
      ]

module _ {W D : Type 0} (device : Device W D) (layout : Layout) where
  open layout use {system_blocks}

  -- The slot that is evicted is one of the buffers, and none of them was used before it.
  evict_lem :
      (s : Buffers W D) (k : ℕ)
      → k < system_blocks
      → ((evict device layout s).1 < system_blocks)
        × ((s.slots (evict device layout s).1).last_used ≤ (s.slots k).last_used)
  unfolding evict
  evict_lem s k p =
      let i = least_used (system_blocks - 1) 1 0 s.slots in
      let (q, r) =
        least_used_lem (system_blocks - 1) 1 0 s.slots (omega arith) (λ j q. first_slot s.slots j q)
          k (omega arith) in
      let q' : i < system_blocks = omega (arith, q) in
      elim (Bool-cases ((sync_buffer device layout i s).0 == 0)) [
        | inl done ↦ rw done (q', r)
        | inr failed ↦ rw failed (q', r)
      ]
