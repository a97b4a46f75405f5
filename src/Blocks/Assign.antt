-- ===== src/Blocks/Assign.antt =====
-- lfAssignBlock: the block is in the buffer that it returns, and no block's contents are lost.
use lite_forth.Common.{
  ℕ, ◌+◌, ◌%◌, ◌^◌, ◌<◌, ◌≡◌, ◌≢◌, refl, sym, ap, ◌∙◌, arith, true, false, none, some, leb, ◌==◌,
  ==_iff, if◌then◌else◌, update, update_self, update_ne, Bool-cases, Option-cases, inl, inr, subst,
}
use lite_forth.Blocks.{
  Device, Layout, Buffers, unassigned_block, touch, find_id, find_or_allocate_buffer, load_block,
  lf_assign_block, allocate_block, buffer_addr, block_read_error, blk_bounds,
}
use lite_forth.Blocks.Search.{find_id-some}
use lite_forth.Blocks.Contents.{Behaves, contents, IsValid, contents-held}
use lite_forth.Blocks.Moves.{Move}
use lite_forth.Blocks.Refine.{
  Keeps, Keeps-refl, Keeps-trans, Move-Keeps, Allocated, find_or_allocate_buffer-Allocated,
}

module _ {W D : Type 0} (device : Device W D) (layout : Layout) (stored : W → ℕ → D) where
  open layout use {system_blocks}

  -- What lf_assign_block leaves. On success the active buffer is the one at the address, and it
  -- holds the block.
  pub record Assigned (blk : ℕ) (s : Buffers W D) (r : ℕ × ℕ × Buffers W D) : Type 0 where
    pub keeps : Keeps device layout stored s r.2
    pub loaded :
        r.0 ≡ 0
        → ((i : ℕ) × (i < system_blocks)
            × (r.1 ≡ buffer_addr device layout i)
            × (r.2.active ≡ some i)
            × ((r.2.slots i).block_id ≡ blk)
            × ((r.2.slots i).payload ≡ contents system_blocks stored s blk))

  -- A buffer that holds the block holds what the block held before.
  holding :
      (s s' : Buffers W D) (blk i : ℕ)
      → blk ≢ unassigned_block
      → i < system_blocks
      → Keeps device layout stored s s'
      → s'.active ≡ some i
      → (s'.slots i).block_id ≡ blk
      → Assigned blk s (0, buffer_addr device layout i, s')
  holding s s' blk i u p keeps active at = record {
    keeps = keeps;
    loaded = λ e. (
      i,
      p,
      refl,
      active,
      at,
      sym (contents-held system_blocks stored s' i blk keeps.valid p at u) ∙ keeps.same blk u,
    );
  }

  -- A hit only counts the access.
  touched-Move :
      (s : Buffers W D) (i : ℕ)
      → i < system_blocks
      → IsValid system_blocks stored s
      → Move system_blocks stored s (touch i (s.slots i) s) i
  touched-Move s i p v =
      let x = record (s.slots i) { last_used = (s.lru_clock + 1) % 2 ^ 32 } in
      let at = update_self s.slots i x in
      let id = ap (λ t. t.block_id) at in
      let payload = ap (λ t. t.payload) at in
      record {
        started = v.started;
        others = λ j h. update_ne s.slots i j x (λ e. h (sym e));
        fresh = λ w j q h e. h (v.distinct j i q p (e ∙ id) (λ z. w (sym e ∙ z)));
        clean = λ w d.
            payload
            ∙ v.clean i p (λ z. w (id ∙ z)) (sym (ap (λ t. t.is_dirty) at) ∙ d)
            ∙ ap (stored s.world) (sym id);
        device = λ c h. refl;
        held = λ w. inl (id, payload);
        loaded = λ w h. absurd (h id);
      }

  module _ (laws : Behaves device stored) where
    -- A block is read into an unassigned slot: the slot holds the block, or is still unassigned.
    read-Move :
        (s s' : Buffers W D) (i blk : ℕ)
        → (s.slots i).block_id ≡ unassigned_block
        → ((j : ℕ) → j < system_blocks → (s.slots j).block_id ≢ blk)
        → s'.initialized ≡ true
        → s'.world ≡ (device.blk_read blk s.world).2
        → ((j : ℕ) → j ≢ i → s'.slots j ≡ s.slots j)
        → ((s'.slots i).block_id ≢ unassigned_block
            → ((s'.slots i).block_id ≡ blk)
              × ((s'.slots i).payload ≡ (device.blk_read blk s.world).1)
              × ((device.blk_read blk s.world).0 ≡ 0))
        → Move system_blocks stored s s' i
    read-Move s s' i blk free absent started world others read =
        let kept : (c : ℕ) → stored s'.world c ≡ stored s.world c =
          λ c. ap (λ w. stored w c) world ∙ laws.read_keeps blk c s.world in
        let clean : (s'.slots i).block_id ≢ unassigned_block
            → (s'.slots i).payload ≡ stored s'.world (s'.slots i).block_id =
          λ w.
            (let (id, payload, done) = read w in
              payload
              ∙ laws.read blk s.world done
              ∙ sym (kept blk)
              ∙ ap (stored s'.world) (sym id)) in
        record {
          started = started;
          others = others;
          fresh = λ w j q h e. absent j q (e ∙ (read w).0);
          clean = λ w d. clean w;
          device = λ c h. kept c;
          held = λ w. absurd (w free);
          loaded = λ w h. clean w;
        }

    load_block-Assigned :
        (s : Buffers W D) (i blk : ℕ)
        → i < system_blocks
        → blk ≢ unassigned_block
        → IsValid system_blocks stored s
        → (s.slots i).block_id ≡ unassigned_block
        → ((j : ℕ) → j < system_blocks → (s.slots j).block_id ≢ blk)
        → Assigned blk s (load_block device layout blk i s)
    unfolding load_block
    load_block-Assigned s i blk p u v free absent =
        let r = device.blk_read blk s.world in
        let x = record (s.slots i) { payload = r.1 } in
        let at = update_self s.slots i x in
        let y = record (update s.slots i x i) {
          block_id = blk;
          is_dirty = false;
          last_used = (s.lru_clock + 1) % 2 ^ 32;
        } in
        let at' = update_self (update s.slots i x) i y in
        elim (Bool-cases (r.0 == 0)) [
          | inl done ↦ rw done (
              holding s _ blk i u p
                (Move-Keeps device layout stored s _ i p v (
                  read-Move s _ i blk free absent v.started refl
                    (λ j h.
                      update_ne (update s.slots i x) i j y (λ e. h (sym e))
                      ∙ update_ne s.slots i j x (λ e. h (sym e)))
                    (λ w. (
                      ap (λ t. t.block_id) at',
                      ap (λ t. t.payload) at' ∙ ap (λ t. t.payload) at,
                      (==_iff r.0 0).0 done,
                    ))))
                refl (ap (λ t. t.block_id) at'))
          | inr failed ↦ rw failed (record {
            keeps = Move-Keeps device layout stored s _ i p v (
                read-Move s _ i blk free absent v.started refl
                  (λ j h. update_ne s.slots i j x (λ e. h (sym e)))
                  (λ w. absurd (w (ap (λ t. t.block_id) at ∙ free))));
            loaded = λ e. absurd (ground (arith, e, failed));
          })
        ]

    -- After other steps that keep the blocks.
    Assigned-after :
        {s t : Buffers W D} (blk : ℕ) {r : ℕ × ℕ × Buffers W D}
        → blk ≢ unassigned_block
        → Keeps device layout stored s t
        → Assigned blk t r
        → Assigned blk s r
    Assigned-after blk u keeps a = record {
      keeps = Keeps-trans device layout stored keeps a.keeps;
      loaded = λ e.
          (let (i, p, addr, active, at, payload) = a.loaded e in
            (i, p, addr, active, at, payload ∙ keeps.same blk u));
    }

    -- A failed call.
    Assigned-failed :
        {s t : Buffers W D} (blk err addr : ℕ)
        → (err == 0) ≡ false
        → Keeps device layout stored s t
        → Assigned blk s (err, addr, t)
    Assigned-failed blk err addr failed keeps = record {
      keeps = keeps;
      loaded = λ e. absurd (ground (arith, e, failed));
    }

    allocate_block-Assigned :
        (s : Buffers W D) (blk : ℕ) (r : ℕ × ℕ × Buffers W D)
        → blk ≢ unassigned_block
        → find_id system_blocks 0 blk s.slots ≡ none
        → Allocated device layout stored laws blk s r
        → Assigned blk s (allocate_block device layout blk r)
    allocate_block-Assigned s blk r u missing a = elim (Bool-cases (r.0 == 0)) [
      | inr failed ↦ rw failed (Assigned-failed blk block_read_error 0 refl a.keeps)
      | inl done ↦
          (let e = (==_iff r.0 0).0 done in
            elim (a.found e) [
              | inl (at, here) ↦ absurd (cc (missing, here))
              | inr (free, absent) ↦ rw done (
                  Assigned-after blk u a.keeps
                    (load_block-Assigned r.2 r.1 blk (a.inside e) u a.keeps.valid free absent))
            ])
    ]

    -- On a device that behaves, with one buffer at least, from a valid state and for any block but
    -- UNASSIGNED_BLOCK: lf_assign_block keeps the state valid and what every block holds, even when
    -- it fails; on success the active buffer is the one at the address returned, and it holds the
    -- block.
    pub lf_assign_block-Assigned :
        (s : Buffers W D) (blk : ℕ)
        → 0 < system_blocks
        → blk ≢ unassigned_block
        → IsValid system_blocks stored s
        → Assigned blk s (lf_assign_block device layout blk s)
    unfolding lf_assign_block
    lf_assign_block-Assigned s blk some_slot u v =
        elim (Bool-cases (leb layout.block_capacity blk)) [
          | inl beyond ↦
              rw beyond (Assigned-failed blk blk_bounds 0 refl (Keeps-refl device layout stored v))
          | inr within ↦ rw within (
              subst
                (λ b.
                  Assigned blk s (elim (if b then find_id system_blocks 0 blk s.slots else none) [
                    | some i ↦ (0, buffer_addr device layout i, touch i (s.slots i) s)
                    | none ↦
                        allocate_block device layout blk
                          (find_or_allocate_buffer device layout blk s)
                  ]))
                (sym v.started)
                (elim (Option-cases (find_id system_blocks 0 blk s.slots)) [
                  | inr (i, here) ↦
                      (let (q, at) = find_id-some system_blocks 0 blk s.slots i here in
                        let p : i < system_blocks = omega (arith, q) in
                        rw here (
                          holding s _ blk i u p
                            (Move-Keeps device layout stored s _ i p v (touched-Move s i p v)) refl
                            (ap (λ t. t.block_id)
                                (update_self s.slots i
                                  (record (s.slots i) { last_used = (s.lru_clock + 1) % 2 ^ 32 }))
                              ∙ at)))
                  | inl missing ↦ rw missing (
                      allocate_block-Assigned s blk _ u missing (
                        find_or_allocate_buffer-Allocated device layout stored laws s blk some_slot
                          u v))
                ]))
        ]
