-- ===== src/Blocks/Refine.antt =====
-- The operations on the buffers change nothing that the blocks hold.
use lite_forth.Common.{
  ℕ, ◌-◌, ◌<◌, ◌≡◌, ◌≢◌, ◌⊎◌, refl, sym, ap, ◌∙◌, arith, false, some, ◌==◌, ==_iff, if◌then◌else◌,
  update, update_self, update_ne, Bool-cases, Option-cases, inl, inr, subst,
}
use lite_forth.Blocks.{
  Slot, Device, Layout, Buffers, unassigned_block, unassign, put_slot, find_id, least_used,
  sync_buffer, evict, allocate_in, init_buffer_system, find_or_allocate_buffer,
}
use lite_forth.Blocks.Search.{find_id-some, find_id-none, least_used_lem, first_slot}
use lite_forth.Blocks.Contents.{Behaves, contents, IsValid}
use lite_forth.Blocks.Moves.{Move, moved-IsValid, moved-contents}

module _ {W D : Type 0} (device : Device W D) (layout : Layout) (stored : W → ℕ → D) where
  open layout use {system_blocks}

  -- A step that leaves the buffers valid and what every block holds.
  pub record Keeps (s s' : Buffers W D) : Type 0 where
    pub valid : IsValid system_blocks stored s'
    pub same :
        (b : ℕ)
        → b ≢ unassigned_block
        → contents system_blocks stored s' b ≡ contents system_blocks stored s b

  pub Keeps-refl : {s : Buffers W D} → IsValid system_blocks stored s → Keeps s s
  Keeps-refl v = record { valid = v; same = λ b h. refl }

  pub Keeps-trans : {s t u : Buffers W D} → Keeps s t → Keeps t u → Keeps s u
  Keeps-trans p q = record { valid = q.valid; same = λ b h. q.same b h ∙ p.same b h }

  pub Move-Keeps :
      (s s' : Buffers W D) (i : ℕ)
      → i < system_blocks
      → IsValid system_blocks stored s
      → Move system_blocks stored s s' i
      → Keeps s s'
  Move-Keeps s s' i p v m = record {
    valid = moved-IsValid system_blocks stored s s' i p v m;
    same = moved-contents system_blocks stored s s' i p v m;
  }

  module _ (laws : Behaves device stored) where
    -- Slot i is written to the device: it is dirty no more, or the write failed.
    written-Move :
        (s : Buffers W D) (i : ℕ) (g : ℕ → Slot D)
        → i < system_blocks
        → IsValid system_blocks stored s
        → (s.slots i).block_id ≢ unassigned_block
        → ((j : ℕ) → j ≢ i → g j ≡ s.slots j)
        → (g i).block_id ≡ (s.slots i).block_id
        → (g i).payload ≡ (s.slots i).payload
        → ((g i).is_dirty ≡ false
            → (device.blk_write (s.slots i).block_id (s.slots i).payload s.world).0 ≡ 0)
        → Move system_blocks stored s
            (record s {
              slots = g;
              world = (device.blk_write (s.slots i).block_id (s.slots i).payload s.world).1;
            })
            i
    written-Move s i g p v u others id payload saved =
        let x = s.slots i in
        record {
          started = v.started;
          others = others;
          fresh = λ w j q h e. h (v.distinct j i q p (e ∙ id) (λ z. w (sym e ∙ z)));
          clean = λ w d.
              payload
              ∙ sym (laws.write x.block_id x.payload s.world (saved d))
              ∙ ap (stored _) (sym id);
          device = λ c h. laws.write_keeps x.block_id c x.payload s.world (λ e. h (sym e));
          held = λ w. inl (id, payload);
          loaded = λ w h. absurd (h id);
        }

    -- What sync_buffer leaves: on success the slot is clean or unassigned, with its block.
    pub record Synced (i : ℕ) (s : Buffers W D) (r : ℕ × Buffers W D) : Type 0 where
      pub keeps : Keeps s r.1
      pub saved :
          r.0 ≡ 0 → ((r.1.slots i).block_id ≡ unassigned_block) ⊎ ((r.1.slots i).is_dirty ≡ false)
      pub id : (j : ℕ) → (r.1.slots j).block_id ≡ (s.slots j).block_id
      pub others : (j : ℕ) → j ≢ i → r.1.slots j ≡ s.slots j

    cleared_id :
        (s : Buffers W D) (i j : ℕ)
        → (update s.slots i (record (s.slots i) { is_dirty = false }) j).block_id
          ≡ (s.slots j).block_id
    cleared_id s i j = elim (Bool-cases (i == j)) [
      | inl same ↦ rw same (ap (λ t. (s.slots t).block_id) ((==_iff i j).0 same))
      | inr other ↦ rw other refl
    ]

    pub sync_buffer-Synced :
        (s : Buffers W D) (i : ℕ)
        → i < system_blocks
        → IsValid system_blocks stored s
        → Synced i s (sync_buffer device layout i s)
    unfolding sync_buffer
    sync_buffer-Synced s i p v =
        let x = s.slots i in
        let r = device.blk_write x.block_id x.payload s.world in
        elim (Bool-cases (x.block_id == unassigned_block)) [
          | inl free ↦ rw free (record {
            keeps = Keeps-refl v;
            saved = λ e. inl ((==_iff x.block_id unassigned_block).0 free);
            id = λ j. refl;
            others = λ j h. refl;
          })
          | inr used ↦ elim (Bool-cases x.is_dirty) [
            | inr clean ↦
                rw (used, clean)
                  (record {
                    keeps = Keeps-refl v;
                    saved = λ e. inr clean;
                    id = λ j. refl;
                    others = λ j h. refl;
                  })
            | inl dirty ↦ elim (Bool-cases (r.0 == 0)) [
              | inl done ↦
                  rw (used, dirty, done)
                    (record {
                      keeps = Move-Keeps s _ i p v (
                          written-Move s i (update s.slots i (record x { is_dirty = false })) p v
                            (ground arith)
                            (λ j h.
                              update_ne s.slots i j (record x { is_dirty = false })
                                (λ e. h (sym e)))
                            (ap (λ t. t.block_id)
                              (update_self s.slots i (record x { is_dirty = false })))
                            (ap (λ t. t.payload)
                              (update_self s.slots i (record x { is_dirty = false })))
                            (λ d. (==_iff r.0 0).0 done));
                      saved = λ e. inr (
                          ap (λ t. t.is_dirty)
                            (update_self s.slots i (record x { is_dirty = false })));
                      id = λ j. cleared_id s i j;
                      others = λ j h.
                          update_ne s.slots i j (record x { is_dirty = false }) (λ e. h (sym e));
                    })
              | inr failed ↦
                  rw (used, dirty, failed)
                    (record {
                      keeps = Move-Keeps s _ i p v (
                          written-Move s i s.slots p v (ground arith) (λ j h. refl) refl refl
                            (λ d. cc (d, dirty)));
                      saved = λ e. absurd (ground (arith, e, failed));
                      id = λ j. refl;
                      others = λ j h. refl;
                    })
            ]
          ]
        ]

    -- What an allocation leaves: on success a slot that holds the block, or an unassigned one while
    -- no slot holds the block.
    pub record Allocated (blk : ℕ) (s : Buffers W D) (r : ℕ × ℕ × Buffers W D) : Type 0 where
      pub keeps : Keeps s r.2
      pub inside : r.0 ≡ 0 → r.1 < system_blocks
      pub found :
          r.0 ≡ 0
          → (((r.2.slots r.1).block_id ≡ blk) × (find_id system_blocks 0 blk s.slots ≡ some r.1))
            ⊎ (((r.2.slots r.1).block_id ≡ unassigned_block)
                × ((j : ℕ) → j < system_blocks → (r.2.slots j).block_id ≢ blk))

    -- A slot whose contents the device has is given up.
    unassign-Move :
        (s : Buffers W D) (i : ℕ)
        → i < system_blocks
        → IsValid system_blocks stored s
        → ((s.slots i).block_id ≡ unassigned_block) ⊎ ((s.slots i).is_dirty ≡ false)
        → Move system_blocks stored s (put_slot i (unassign (s.slots i)) s) i
    unassign-Move s i p v saved =
        let at = update_self s.slots i (unassign (s.slots i)) in
        let gone = ap (λ t. t.block_id) at in
        record {
          started = v.started;
          others = λ j h. update_ne s.slots i j (unassign (s.slots i)) (λ e. h (sym e));
          fresh = λ w. absurd (w gone);
          clean = λ w. absurd (w gone);
          device = λ c h. refl;
          held = λ w. inr (
            λ e. w (sym e ∙ gone),
            elim saved [ inl free ↦ absurd (w free) | inr clean ↦ sym (v.clean i p w clean) ],
          );
          loaded = λ w. absurd (w gone);
        }

    -- The slot that an eviction gives up, after it was saved.
    given_up :
        (s : Buffers W D) (i blk : ℕ) (r : ℕ × Buffers W D)
        → i < system_blocks
        → blk ≢ unassigned_block
        → ((j : ℕ) → j < system_blocks → (s.slots j).block_id ≢ blk)
        → Synced i s r
        → r.0 ≡ 0
        → Allocated blk s (0, i, put_slot i (unassign (r.1.slots i)) r.1)
    given_up s i blk r p u missing synced e =
        let x = unassign (r.1.slots i) in
        record {
          keeps = Keeps-trans synced.keeps (
              Move-Keeps r.1 _ i p synced.keeps.valid
                (unassign-Move r.1 i p synced.keeps.valid (synced.saved e)));
          inside = λ z. p;
          found = λ z. inr (
            ap (λ t. t.block_id) (update_self r.1.slots i x),
            λ j q at. elim (Bool-cases (i == j)) [
              | inl same ↦ u (sym (rw same at at))
              | inr other ↦ missing j q (sym (synced.id j) ∙ (rw other at at))
            ],
          );
        }

    evict-Allocated :
        (s : Buffers W D) (blk : ℕ)
        → 0 < system_blocks
        → blk ≢ unassigned_block
        → IsValid system_blocks stored s
        → ((j : ℕ) → j < system_blocks → (s.slots j).block_id ≢ blk)
        → Allocated blk s (evict device layout s)
    unfolding evict
    evict-Allocated s blk some_slot u v missing =
        let i = least_used (system_blocks - 1) 1 0 s.slots in
        let p : i < system_blocks = omega (
          arith,
          (least_used_lem (system_blocks - 1) 1 0 s.slots (omega arith)
              (λ j q. first_slot s.slots j q) 0 (omega arith)).0,
        ) in
        let synced = sync_buffer-Synced s i p v in
        let r = sync_buffer device layout i s in
        elim (Bool-cases (r.0 == 0)) [
          | inl done ↦ rw done (given_up s i blk r p u missing synced ((==_iff r.0 0).0 done))
          | inr failed ↦ rw failed (record {
            keeps = synced.keeps;
            inside = λ z. p;
            found = λ z. absurd (ground (arith, z, failed));
          })
        ]

    allocate_in-Allocated :
        (s : Buffers W D) (blk : ℕ)
        → 0 < system_blocks
        → blk ≢ unassigned_block
        → IsValid system_blocks stored s
        → Allocated blk s (allocate_in device layout blk s)
    unfolding allocate_in
    allocate_in-Allocated s blk some_slot u v =
        elim (Option-cases (find_id system_blocks 0 blk s.slots)) [
          | inr (i, here) ↦
              (let (p, at) = find_id-some system_blocks 0 blk s.slots i here in
                rw (allocate_in, here)
                  (record {
                    keeps = Keeps-refl v;
                    inside = λ z. omega (arith, p);
                    found = λ z. inl (at, here);
                  }))
          | inl missing ↦
              (let absent = λ (j : ℕ) (p : j < system_blocks).
                  find_id-none system_blocks 0 blk s.slots missing j (omega arith)
                    (omega (arith, p)) in
                elim (Option-cases (find_id system_blocks 0 unassigned_block s.slots)) [
                  | inr (i, free) ↦
                      (let (p, at) = find_id-some system_blocks 0 unassigned_block s.slots i free in
                        rw (allocate_in, missing, free)
                          (record {
                            keeps = Keeps-refl v;
                            inside = λ z. omega (arith, p);
                            found = λ z. inr (at, absent);
                          }))
                  | inl full ↦
                      rw (allocate_in, missing, full) (evict-Allocated s blk some_slot u v absent)
                ])
        ]

    pub find_or_allocate_buffer-Allocated :
        (s : Buffers W D) (blk : ℕ)
        → 0 < system_blocks
        → blk ≢ unassigned_block
        → IsValid system_blocks stored s
        → Allocated blk s (find_or_allocate_buffer device layout blk s)
    unfolding find_or_allocate_buffer
    find_or_allocate_buffer-Allocated s blk some_slot u v =
        subst
          (λ b.
            Allocated blk s (allocate_in device layout blk (if b then s else init_buffer_system s)))
          (sym v.started) (allocate_in-Allocated s blk some_slot u v)
