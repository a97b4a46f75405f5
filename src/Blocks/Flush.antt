-- ===== src/Blocks/Flush.antt =====
-- UPDATE, SAVE-BUFFERS and FLUSH: a block that is changed and updated reaches the device.
use lite_forth.Common.{
  ℕ, zero, suc, ◌+◌, ◌<◌, ◌≤◌, ◌≡◌, ◌≢◌, ◌⊎◌, refl, sym, ap, ◌∙◌, arith, false, ◌==◌, ==_iff,
  if◌then◌else◌, Bool-cases, Option-cases, inl, inr, subst,
}
use lite_forth.Blocks.{
  Device, Layout, Buffers, unassigned_block, find_id, sync_buffer, save_from, save_buffers,
  init_buffer_system, empty_buffers, flush,
}
use lite_forth.Blocks.Search.{find_id-some, find_id-none}
use lite_forth.Blocks.Contents.{Behaves, contents, IsValid, contents-held, contents-free}
use lite_forth.Blocks.Refine.{Keeps, Keeps-refl, Keeps-trans, Synced, sync_buffer-Synced}

module _ {W D : Type 0} (device : Device W D) (layout : Layout) (stored : W → ℕ → D) where
  open layout use {system_blocks}

  -- The slot's contents are on the device, if it has a block.
  pub IsSaved : Buffers W D → ℕ → Type 0
  IsSaved s j = ((s.slots j).block_id ≡ unassigned_block) ⊎ ((s.slots j).is_dirty ≡ false)

  -- A state that init_buffer_system leaves is valid, whatever was buffered.
  pub init_buffer_system-IsValid :
      (s : Buffers W D) → IsValid system_blocks stored (init_buffer_system s)
  unfolding init_buffer_system
  init_buffer_system-IsValid s = record {
    started = refl;
    distinct = λ i j p q e w. absurd (w refl);
    clean = λ i p w. absurd (w refl);
  }

  -- Then every block's contents are the device's.
  pub init_buffer_system-contents :
      (s : Buffers W D) (b : ℕ)
      → b ≢ unassigned_block
      → contents system_blocks stored (init_buffer_system s) b ≡ stored s.world b
  unfolding init_buffer_system
  init_buffer_system-contents s b u =
      contents-free system_blocks stored (init_buffer_system s) b (λ i p e. u (sym e))

  -- When all the slots are saved, the device has the contents of every block.
  saved-stored :
      (s : Buffers W D) (b : ℕ)
      → IsValid system_blocks stored s
      → ((j : ℕ) → j < system_blocks → IsSaved s j)
      → b ≢ unassigned_block
      → stored s.world b ≡ contents system_blocks stored s b
  unfolding IsSaved
  saved-stored s b v saved u = elim (Option-cases (find_id system_blocks 0 b s.slots)) [
    | inl missing ↦ sym (
        contents-free system_blocks stored s b (λ j p.
          find_id-none system_blocks 0 b s.slots missing j (omega arith) (omega (arith, p))))
    | inr (j, found) ↦
        (let (q, at) = find_id-some system_blocks 0 b s.slots j found in
          let p : j < system_blocks = omega (arith, q) in
          elim (saved j p) [
            | inl free ↦ absurd (u (sym at ∙ free))
            | inr clean ↦
                ap (stored s.world) (sym at)
                ∙ sym (v.clean j p (λ w. u (sym at ∙ w)) clean)
                ∙ sym (contents-held system_blocks stored s j b v p at u)
          ])
  ]

  module _ (laws : Behaves device stored) where
    -- What saving leaves: the blocks' contents, and on success all the slots before `n` saved.
    record Saves (n : ℕ) (s : Buffers W D) (r : ℕ × Buffers W D) : Type 0 where
      keeps : Keeps device layout stored s r.1
      saved : r.0 ≡ 0 → (j : ℕ) → j < n → IsSaved r.1 j

    -- One more slot is saved.
    step-IsSaved :
        (s : Buffers W D) (i : ℕ) (r : ℕ × Buffers W D)
        → Synced device layout stored laws i s r
        → r.0 ≡ 0
        → ((j : ℕ) → j < i → IsSaved s j)
        → (j : ℕ) → j < i + 1
        → IsSaved r.1 j
    unfolding IsSaved
    step-IsSaved s i r synced e before j p = elim (Bool-cases (j == i)) [
      | inl same ↦ subst (λ t. IsSaved r.1 t) (sym ((==_iff j i).0 same)) (synced.saved e)
      | inr other ↦
          subst (λ x. (x.block_id ≡ unassigned_block) ⊎ (x.is_dirty ≡ false))
            (sym (synced.others j (ground arith))) (before j (ground arith))
    ]

    save_from-Saves :
        (left i n : ℕ) (s : Buffers W D)
        → i + left ≤ system_blocks
        → n ≤ i + left
        → IsValid system_blocks stored s
        → ((j : ℕ) → j < i → IsSaved s j)
        → Saves n s (save_from device layout left i s)
    unfolding save_from
    save_from-Saves zero i n s p q v before = record {
      keeps = Keeps-refl device layout stored v;
      saved = λ e j h. before j (omega arith);
    }
    save_from-Saves (suc left) i n s p q v before =
        let r = sync_buffer device layout i s in
        let synced = sync_buffer-Synced device layout stored laws s i (omega arith) v in
        elim (Bool-cases (r.0 == 0)) [
          | inl done ↦
              rw (save_from, done)
                (let rest =
                    save_from-Saves left (i + 1) n r.1 (omega arith) (omega arith)
                      synced.keeps.valid
                      (step-IsSaved s i r synced ((==_iff r.0 0).0 done) before) in
                  record {
                    keeps = Keeps-trans device layout stored synced.keeps rest.keeps;
                    saved = rest.saved;
                  })
          | inr failed ↦
              rw (save_from, failed)
                (record { keeps = synced.keeps; saved = λ e. absurd (ground (arith, e, failed)) })
        ]

    save_buffers-Saves :
        (s : Buffers W D)
        → IsValid system_blocks stored s
        → Saves system_blocks s (save_buffers device layout s)
    unfolding save_buffers
    save_buffers-Saves s v =
        subst
          (λ b.
            Saves system_blocks s (if b then save_from device layout system_blocks 0 s else (0, s)))
          (sym v.started)
          (save_from-Saves system_blocks 0 system_blocks s (omega arith) (omega arith) v
            (λ j p. absurd (omega arith)))

    -- On a device that behaves, from a valid state: FLUSH keeps what every block holds, even when
    -- it fails; on success every buffer is
    -- unassigned, and the device itself has what the blocks held.
    pub flush_lem :
        (s : Buffers W D)
        → IsValid system_blocks stored s
        → Keeps device layout stored s (flush device layout s).1
          × ((flush device layout s).0 ≡ 0
              → ((j : ℕ) → ((flush device layout s).1.slots j).block_id ≡ unassigned_block)
                × ((b : ℕ)
                    → b ≢ unassigned_block
                    → stored (flush device layout s).1.world b ≡ contents system_blocks stored s b))
    unfolding flush empty_buffers init_buffer_system
    flush_lem s v =
        let r = save_buffers device layout s in
        let saves = save_buffers-Saves s v in
        elim (Bool-cases (r.0 == 0)) [
          | inr failed ↦ rw failed (saves.keeps, λ e. absurd (ground (arith, e, failed)))
          | inl done ↦ rw done (
              let on_device = λ (b : ℕ) (u : b ≢ unassigned_block).
                saved-stored r.1 b saves.keeps.valid (saves.saved ((==_iff r.0 0).0 done)) u in
              (
                record {
                  valid = init_buffer_system-IsValid r.1;
                  same = λ b u.
                      init_buffer_system-contents r.1 b u ∙ on_device b u ∙ saves.keeps.same b u;
                },
                λ e. (λ j. refl, λ b u. on_device b u ∙ saves.keeps.same b u),
              ))
        ]
