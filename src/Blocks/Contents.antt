-- ===== src/Blocks/Contents.antt =====
-- What the blocks hold, buffered or on the device, and what a valid state of the buffers is.
use lite_forth.Common.{
  ℕ, ◌<◌, ◌≡◌, ◌≢◌, refl, sym, ap, ◌∙◌, arith, true, false, none, some, Option-cases, inl, inr,
}
use lite_forth.Blocks.{Device, Buffers, unassigned_block, find_id}
use lite_forth.Blocks.Search.{find_id-some, find_id-none}

-- What blocks.h says of the device: a read that succeeds gives the block and leaves the device, a
-- write that succeeds stores the block, and no write changes another block.
pub record Behaves {W D : Type 0} (device : Device W D) (stored : W → ℕ → D) : Type 0 where
  pub read : (b : ℕ) (w : W) → (device.blk_read b w).0 ≡ 0 → (device.blk_read b w).1 ≡ stored w b
  pub read_keeps : (b c : ℕ) (w : W) → stored (device.blk_read b w).2 c ≡ stored w c
  pub write :
      (b : ℕ) (d : D) (w : W)
      → (device.blk_write b d w).0 ≡ 0
      → stored (device.blk_write b d w).1 b ≡ d
  pub write_keeps :
      (b c : ℕ) (d : D) (w : W) → b ≢ c → stored (device.blk_write b d w).1 c ≡ stored w c

module _ {W D : Type 0} (n : ℕ) (stored : W → ℕ → D) where
  -- A block's contents: those of its buffer, or the device's.
  pub contents : Buffers W D → ℕ → D
  contents s b = elim (find_id n 0 b s.slots) [
    | some i ↦ (s.slots i).payload
    | none ↦ stored s.world b
  ]

  -- Each block has one buffer at most; a buffer that is not dirty holds what the device holds.
  pub record IsValid (s : Buffers W D) : Type 0 where
    pub started : s.initialized ≡ true
    pub distinct :
        (i j : ℕ)
        → i < n
        → j < n
        → (s.slots i).block_id ≡ (s.slots j).block_id
        → (s.slots i).block_id ≢ unassigned_block
        → i ≡ j
    pub clean :
        (i : ℕ)
        → i < n
        → (s.slots i).block_id ≢ unassigned_block
        → (s.slots i).is_dirty ≡ false
        → (s.slots i).payload ≡ stored s.world (s.slots i).block_id

  contents-some :
      (s : Buffers W D) (b i : ℕ)
      → find_id n 0 b s.slots ≡ some i
      → contents s b ≡ (s.slots i).payload
  unfolding contents
  contents-some s b i e = rw (contents, e) refl

  contents-none :
      (s : Buffers W D) (b : ℕ) → find_id n 0 b s.slots ≡ none → contents s b ≡ stored s.world b
  unfolding contents
  contents-none s b e = rw (contents, e) refl

  -- The contents of a block that a buffer holds.
  pub contents-held :
      (s : Buffers W D) (i b : ℕ)
      → IsValid s
      → i < n
      → (s.slots i).block_id ≡ b
      → b ≢ unassigned_block
      → contents s b ≡ (s.slots i).payload
  contents-held s i b v p e h = elim (Option-cases (find_id n 0 b s.slots)) [
    | inl missing ↦ absurd (find_id-none n 0 b s.slots missing i (omega arith) (omega arith) e)
    | inr (j, found) ↦
        (let (q, at) = find_id-some n 0 b s.slots j found in
          contents-some s b j found
          ∙ ap (λ t. (s.slots t).payload)
              (sym (v.distinct i j p (omega arith) (e ∙ sym at) (λ u. h (sym e ∙ u)))))
  ]

  -- The contents of a block that no buffer holds.
  pub contents-free :
      (s : Buffers W D) (b : ℕ)
      → ((i : ℕ) → i < n → (s.slots i).block_id ≢ b)
      → contents s b ≡ stored s.world b
  contents-free s b h = elim (Option-cases (find_id n 0 b s.slots)) [
    | inl missing ↦ contents-none s b missing
    | inr (j, found) ↦
        (let (q, at) = find_id-some n 0 b s.slots j found in absurd (h j (omega arith) at))
  ]
