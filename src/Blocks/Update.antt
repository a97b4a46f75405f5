-- ===== src/Blocks/Update.antt =====
-- A buffer that is changed and marked by UPDATE holds the new contents of its block.
use lite_forth.Common.{
  ℕ, ◌+◌, ◌%◌, ◌^◌, ◌<◌, ◌≡◌, ◌≢◌, ◌⊎◌, refl, sym, ap, ◌∙◌, arith, true, false, none, some, ltb,
  lt→ltb, ◌==◌, ==_iff, if◌then◌else◌, leb, update, update_self, update_ne, Bool-cases, inl, inr,
  subst,
}
use lite_forth.Blocks.{
  Device, Layout, Buffers, unassigned_block, mark_dirty, touch, update_block, assigned,
  assign_buffer, lf_block_buffer,
}
use lite_forth.Blocks.Refine.{Allocated, find_or_allocate_buffer-Allocated}
use lite_forth.Blocks.Contents.{Behaves, IsValid}
use lite_forth.Blocks.Filled.{fill, Filled, Filled-Stores, Stores}

module _ {W D : Type 0} (device : Device W D) (layout : Layout) (stored : W → ℕ → D) where
  open layout use {system_blocks}

  -- The active buffer's block is filled and updated, where `t` differs from `s` in slot i only.
  update_block-Filled :
      (s t : Buffers W D) (i blk : ℕ) (d : D)
      → i < system_blocks
      → blk ≢ unassigned_block
      → t.initialized ≡ true
      → t.world ≡ s.world
      → t.active ≡ some i
      → (t.slots i).block_id ≡ blk
      → ((j : ℕ) → j ≢ i → t.slots j ≡ s.slots j)
      → ((j : ℕ) → j < system_blocks → j ≢ i → (s.slots j).block_id ≢ blk)
      → (((s.slots i).block_id ≡ blk) ⊎ ((s.slots i).block_id ≡ unassigned_block))
      → Filled layout stored i blk d s (update_block device layout (fill i d t))
  unfolding update_block
  update_block-Filled s t i blk d p u started world active at_blk others fresh was =
      let x = record (t.slots i) { payload = d } in
      let at = update_self t.slots i x in
      let id = ap (λ z. z.block_id) at ∙ at_blk in
      let y = record (update t.slots i x i) { is_dirty = true } in
      let at' = update_self (update t.slots i x) i y in
      let marked : ((update t.slots i x i).block_id == unassigned_block) ≡ false =
        subst (λ z. (z == unassigned_block) ≡ false) (sym id) (ground arith) in
      subst
        (λ a. Filled layout stored i blk d s (elim a [
          | none ↦ fill i d t
          | some k ↦
              if ltb k system_blocks then mark_dirty device layout k (fill i d t) else fill i d t
        ]))
        (sym active)
        (rw (lt→ltb i system_blocks p, marked)
          (record {
            started = started;
            world = world;
            others = λ j h.
                update_ne (update t.slots i x) i j y (λ e. h (sym e))
                ∙ update_ne t.slots i j x (λ e. h (sym e))
                ∙ others j h;
            fresh = fresh;
            was = was;
            id = ap (λ z. z.block_id) at' ∙ id;
            payload = ap (λ z. z.payload) at' ∙ ap (λ z. z.payload) at;
            dirty = ap (λ z. z.is_dirty) at';
          }))

  -- After a program fills the active buffer with `d` and calls UPDATE, the state is valid, the
  -- buffer's block holds `d`, and every other block holds what it held.
  pub update_block_lem :
      (s : Buffers W D) (i : ℕ) (d : D)
      → i < system_blocks
      → IsValid system_blocks stored s
      → s.active ≡ some i
      → (s.slots i).block_id ≢ unassigned_block
      → Stores layout stored (s.slots i).block_id d s (update_block device layout (fill i d s))
  update_block_lem s i d p v active used =
      Filled-Stores layout stored s _ i (s.slots i).block_id d p used v (
        update_block-Filled s s i (s.slots i).block_id d p used v.started refl active refl
          (λ j h. refl) (λ j q h e. h (v.distinct j i q p e (λ w. used (sym e ∙ w)))) (inl refl))

  module _ (laws : Behaves device stored) where
    -- After BUFFER, when it succeeds: the block is not read, but filled with `d` and updated.
    assigned-Stores :
        (s : Buffers W D) (blk : ℕ) (d : D) (r : ℕ × ℕ × Buffers W D)
        → blk ≢ unassigned_block
        → Allocated device layout stored laws blk s r
        → (assigned device layout blk r).0 ≡ 0
        → Stores layout stored blk d s (
            update_block device layout
              (fill (assigned device layout blk r).1 d (assigned device layout blk r).2))
    assigned-Stores s blk d r u a = elim (Bool-cases (r.0 == 0)) [
      | inr failed ↦ rw failed (λ e. absurd (ground arith))
      | inl done ↦
          (let e = (==_iff r.0 0).0 done in
            let (_, i, t) = r in
            let p = a.inside e in
            let x = record (record (t.slots i) { block_id = blk }) {
              last_used = (t.lru_clock + 1) % 2 ^ 32;
            } in
            let others : (j : ℕ) → j < system_blocks → j ≢ i → (t.slots j).block_id ≢ blk =
              λ j q h z. elim (a.found e) [
                | inl (at, here) ↦
                    h (a.keeps.valid.distinct j i q p (z ∙ sym at) (λ w. u (sym z ∙ w)))
                | inr (free, absent) ↦ absent j q z
              ] in
            rw done (λ f.
              (let stores = Filled-Stores layout stored t _ i blk d p u a.keeps.valid (
                  update_block-Filled t (touch i (record (t.slots i) { block_id = blk }) t) i blk d
                    p u a.keeps.valid.started refl refl
                    (ap (λ z. z.block_id) (update_self t.slots i x))
                    (λ j h. update_ne t.slots i j x (λ z. h (sym z))) others
                    (elim (a.found e) [
                      | inl (at, here) ↦ inl at
                      | inr (free, absent) ↦ inr free
                    ])) in
                record {
                  valid = stores.valid;
                  new = stores.new;
                  same = λ b w h. stores.same b w h ∙ a.keeps.same b w;
                })))
    ]

    -- On a device that behaves, with one buffer at least and from a valid state: when
    -- lfBlockBuffer gives a block, other than UNASSIGNED_BLOCK, a buffer, and that is filled with
    -- `d` and updated, the block holds `d` and every other block holds what it held.
    pub lf_block_buffer_lem :
        (s : Buffers W D) (blk : ℕ) (d : D)
        → 0 < system_blocks
        → blk ≢ unassigned_block
        → IsValid system_blocks stored s
        → (lf_block_buffer device layout blk s).0 ≡ 0
        → Stores layout stored blk d s (
            update_block device layout (
              fill
                (lf_block_buffer device layout blk s).1
                d
                (lf_block_buffer device layout blk s).2))
    unfolding lf_block_buffer assign_buffer
    lf_block_buffer_lem s blk d some_slot u v = elim (Bool-cases (leb layout.block_capacity blk)) [
      | inl beyond ↦ rw beyond (λ e. absurd (ground arith))
      | inr within ↦ rw within (
          assigned-Stores s blk d _ u
            (find_or_allocate_buffer-Allocated device layout stored laws s blk some_slot u v))
    ]
