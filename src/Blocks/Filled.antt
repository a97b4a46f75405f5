-- ===== src/Blocks/Filled.antt =====
-- One buffer is filled with a block's new contents: what the blocks hold then.
use lite_forth.Common.{
  ℕ, ◌<◌, ◌≡◌, ◌≢◌, ◌⊎◌, sym, ap, ◌∙◌, arith, true, false, ◌==◌, ==_iff, Bool-cases, Option-cases,
  inl, inr, subst,
}
use lite_forth.Blocks.{Layout, Buffers, unassigned_block, put_slot, find_id}
use lite_forth.Blocks.Search.{find_id-some, find_id-none}
use lite_forth.Blocks.Contents.{contents, IsValid, contents-held, contents-free}

-- A buffer after a program has filled it.
abbrev pub fill : {W D : Type 0} → ℕ → D → Buffers W D → Buffers W D
fill i d s = put_slot i (record (s.slots i) { payload = d }) s

module _ {W D : Type 0} (layout : Layout) (stored : W → ℕ → D) where
  open layout use {system_blocks}

  -- In `s'`, slot i is filled with block `blk` and dirty; in `s` no other slot held that block, and
  -- nothing else is changed.
  pub record Filled (i blk : ℕ) (d : D) (s s' : Buffers W D) : Type 0 where
    pub started : s'.initialized ≡ true
    pub world : s'.world ≡ s.world
    pub others : (j : ℕ) → j ≢ i → s'.slots j ≡ s.slots j
    pub fresh : (j : ℕ) → j < system_blocks → j ≢ i → (s.slots j).block_id ≢ blk
    pub was : ((s.slots i).block_id ≡ blk) ⊎ ((s.slots i).block_id ≡ unassigned_block)
    pub id : (s'.slots i).block_id ≡ blk
    pub payload : (s'.slots i).payload ≡ d
    pub dirty : (s'.slots i).is_dirty ≡ true

  module _ (s s' : Buffers W D) (i blk : ℕ) (d : D) (p : i < system_blocks)
      (v : IsValid system_blocks stored s) (m : Filled i blk d s s') where
    same_or_other : (j : ℕ) → (j ≡ i) ⊎ (j ≢ i)
    same_or_other j = elim (Bool-cases (j == i)) [
      | inl same ↦ inl ((==_iff j i).0 same)
      | inr other ↦ inr (ground arith)
    ]

    other_id : (j : ℕ) → j ≢ i → (s'.slots j).block_id ≡ (s.slots j).block_id
    other_id j h = ap (λ x. x.block_id) (m.others j h)

    filled-distinct :
        (j k : ℕ)
        → j < system_blocks
        → k < system_blocks
        → (s'.slots j).block_id ≡ (s'.slots k).block_id
        → (s'.slots j).block_id ≢ unassigned_block
        → j ≡ k
    filled-distinct j k q r e u = elim (same_or_other j) [
      | inl j_here ↦ elim (same_or_other k) [
        | inl k_here ↦ j_here ∙ sym k_here
        | inr k_other ↦ absurd (
            m.fresh k r k_other
              (sym (other_id k k_other) ∙ sym e ∙ ap (λ t. (s'.slots t).block_id) j_here ∙ m.id))
      ]
      | inr j_other ↦ elim (same_or_other k) [
        | inl k_here ↦ absurd (
            m.fresh j q j_other
              (sym (other_id j j_other) ∙ e ∙ ap (λ t. (s'.slots t).block_id) k_here ∙ m.id))
        | inr k_other ↦
            v.distinct j k q r (sym (other_id j j_other) ∙ e ∙ other_id k k_other)
              (λ w. u (other_id j j_other ∙ w))
      ]
    ]

    filled-IsValid : IsValid system_blocks stored s'
    filled-IsValid = record {
      started = m.started;
      distinct = filled-distinct;
      clean = λ j q w c. elim (same_or_other j) [
        | inl same ↦ absurd (cc (subst (λ t. (s'.slots t).is_dirty ≡ false) same c, m.dirty))
        | inr other ↦
            ap (λ t. t.payload) (m.others j other)
            ∙ v.clean j q (λ z. w (other_id j other ∙ z))
                (sym (ap (λ t. t.is_dirty) (m.others j other)) ∙ c)
            ∙ ap (stored s.world) (sym (other_id j other))
            ∙ ap (λ t. stored t (s'.slots j).block_id) (sym m.world)
      ];
    }

    -- A slot that holds another block is another slot, before and after.
    not_here : (b j : ℕ) → b ≢ unassigned_block → b ≢ blk → (s.slots j).block_id ≡ b → j ≢ i
    not_here b j u h at e = elim m.was [
      | inl was ↦ h (sym at ∙ ap (λ t. (s.slots t).block_id) e ∙ was)
      | inr free ↦ u (sym at ∙ ap (λ t. (s.slots t).block_id) e ∙ free)
    ]

    filled-contents :
        (b : ℕ)
        → b ≢ unassigned_block
        → b ≢ blk
        → contents system_blocks stored s' b ≡ contents system_blocks stored s b
    filled-contents b u h = elim (Option-cases (find_id system_blocks 0 b s.slots)) [
      | inl missing ↦
          (let absent = λ (j : ℕ) (q : j < system_blocks).
              find_id-none system_blocks 0 b s.slots missing j (omega arith) (omega (arith, q)) in
            contents-free system_blocks stored s' b (λ j q e. elim (same_or_other j) [
              | inl here ↦ h (sym e ∙ ap (λ t. (s'.slots t).block_id) here ∙ m.id)
              | inr other ↦ absent j q (sym (other_id j other) ∙ e)
            ])
            ∙ ap (λ w. stored w b) m.world
            ∙ sym (contents-free system_blocks stored s b absent))
      | inr (j, found) ↦
          (let (r, at) = find_id-some system_blocks 0 b s.slots j found in
            let q : j < system_blocks = omega (arith, r) in
            let other = not_here b j u h at in
            contents-held system_blocks stored s' j b filled-IsValid q (other_id j other ∙ at) u
            ∙ ap (λ t. t.payload) (m.others j other)
            ∙ sym (contents-held system_blocks stored s j b v q at u))
    ]

  -- What a program gets that fills a block's buffer with `d` and updates it: the block holds `d`,
  -- and every other block holds what it held.
  pub record Stores (blk : ℕ) (d : D) (s s' : Buffers W D) : Type 0 where
    pub valid : IsValid system_blocks stored s'
    pub new : contents system_blocks stored s' blk ≡ d
    pub same :
        (b : ℕ)
        → b ≢ unassigned_block
        → b ≢ blk
        → contents system_blocks stored s' b ≡ contents system_blocks stored s b

  pub Filled-Stores :
      (s s' : Buffers W D) (i blk : ℕ) (d : D)
      → i < system_blocks
      → blk ≢ unassigned_block
      → IsValid system_blocks stored s
      → Filled i blk d s s'
      → Stores blk d s s'
  Filled-Stores s s' i blk d p u v m =
      let valid = filled-IsValid s s' i blk d p v m in
      record {
        valid = valid;
        new = contents-held system_blocks stored s' i blk valid p m.id u ∙ m.payload;
        same = filled-contents s s' i blk d p v m;
      }
