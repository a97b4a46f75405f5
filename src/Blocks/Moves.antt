-- ===== src/Blocks/Moves.antt =====
-- One slot changes, and perhaps the device: when that keeps what all the blocks hold.
use lite_forth.Common.{
  ℕ, ◌<◌, ◌≡◌, ◌≢◌, ◌⊎◌, sym, ap, ◌∙◌, arith, true, false, ◌==◌, ==_iff, Bool-cases, Option-cases,
  inl, inr, subst,
}
use lite_forth.Blocks.{Buffers, unassigned_block, find_id}
use lite_forth.Blocks.Search.{find_id-some, find_id-none}
use lite_forth.Blocks.Contents.{contents, IsValid, contents-held, contents-free}

module _ {W D : Type 0} (n : ℕ) (stored : W → ℕ → D) where
  -- The step from `s` to `s'` changes slot i: it may write the block it held to the device, or
  -- give the slot up once the device has its contents, or load another block.
  pub record Move (s s' : Buffers W D) (i : ℕ) : Type 0 where
    pub started : s'.initialized ≡ true
    pub others : (j : ℕ) → j ≢ i → s'.slots j ≡ s.slots j
    pub fresh :
        (s'.slots i).block_id ≢ unassigned_block
        → (j : ℕ) → j < n
        → j ≢ i
        → (s.slots j).block_id ≢ (s'.slots i).block_id
    pub clean :
        (s'.slots i).block_id ≢ unassigned_block
        → (s'.slots i).is_dirty ≡ false
        → (s'.slots i).payload ≡ stored s'.world (s'.slots i).block_id
    pub device : (c : ℕ) → c ≢ (s.slots i).block_id → stored s'.world c ≡ stored s.world c
    pub held :
        (s.slots i).block_id ≢ unassigned_block
        → (((s'.slots i).block_id ≡ (s.slots i).block_id)
            × ((s'.slots i).payload ≡ (s.slots i).payload))
          ⊎ (((s'.slots i).block_id ≢ (s.slots i).block_id)
              × (stored s'.world (s.slots i).block_id ≡ (s.slots i).payload))
    pub loaded :
        (s'.slots i).block_id ≢ unassigned_block
        → (s'.slots i).block_id ≢ (s.slots i).block_id
        → (s'.slots i).payload ≡ stored s'.world (s'.slots i).block_id

  module _ (s s' : Buffers W D) (i : ℕ) (inside : i < n) (v : IsValid n stored s)
      (m : Move s s' i) where
    same_or_other : (j : ℕ) → (j ≡ i) ⊎ (j ≢ i)
    same_or_other j = elim (Bool-cases (j == i)) [
      | inl same ↦ inl ((==_iff j i).0 same)
      | inr other ↦ inr (ground arith)
    ]

    other_id : (j : ℕ) → j ≢ i → (s'.slots j).block_id ≡ (s.slots j).block_id
    other_id j h = ap (λ x. x.block_id) (m.others j h)

    -- No other slot holds the block that the changed slot holds.
    not_shared :
        (j : ℕ)
        → j < n
        → j ≢ i
        → (s'.slots i).block_id ≢ unassigned_block
        → (s'.slots i).block_id ≢ (s'.slots j).block_id
    not_shared j p h u e = m.fresh u j p h (sym (e ∙ other_id j h))

    moved-distinct :
        (j k : ℕ)
        → j < n
        → k < n
        → (s'.slots j).block_id ≡ (s'.slots k).block_id
        → (s'.slots j).block_id ≢ unassigned_block
        → j ≡ k
    moved-distinct j k p q e u = elim (same_or_other j) [
      | inl j_here ↦ elim (same_or_other k) [
        | inl k_here ↦ j_here ∙ sym k_here
        | inr k_other ↦ absurd (
            not_shared k q k_other (subst (λ t. (s'.slots t).block_id ≢ unassigned_block) j_here u)
              (subst (λ t. (s'.slots t).block_id ≡ (s'.slots k).block_id) j_here e))
      ]
      | inr j_other ↦ elim (same_or_other k) [
        | inl k_here ↦
            (let e' = subst (λ t. (s'.slots j).block_id ≡ (s'.slots t).block_id) k_here e in
              absurd (not_shared j p j_other (λ w. u (e' ∙ w)) (sym e')))
        | inr k_other ↦
            v.distinct j k p q (sym (other_id j j_other) ∙ e ∙ other_id k k_other)
              (λ w. u (other_id j j_other ∙ w))
      ]
    ]

    moved-clean :
        (j : ℕ)
        → j < n
        → (s'.slots j).block_id ≢ unassigned_block
        → (s'.slots j).is_dirty ≡ false
        → (s'.slots j).payload ≡ stored s'.world (s'.slots j).block_id
    moved-clean j p u d = elim (same_or_other j) [
      | inl here ↦
          subst (λ t. (s'.slots t).payload ≡ stored s'.world (s'.slots t).block_id) (sym here)
            (m.clean (subst (λ t. (s'.slots t).block_id ≢ unassigned_block) here u)
              (subst (λ t. (s'.slots t).is_dirty ≡ false) here d))
      | inr other ↦
          (let id = other_id j other in
            let was =
              v.clean j p (λ w. u (id ∙ w)) (sym (ap (λ x. x.is_dirty) (m.others j other)) ∙ d) in
            let apart : (s'.slots j).block_id ≢ (s.slots i).block_id =
              λ w. other (v.distinct j i p inside (sym id ∙ w) (λ z. u (id ∙ z))) in
            ap (λ x. x.payload) (m.others j other)
            ∙ was
            ∙ ap (stored s.world) (sym id)
            ∙ sym (m.device (s'.slots j).block_id apart))
    ]

    pub moved-IsValid : IsValid n stored s'
    moved-IsValid = record { started = m.started; distinct = moved-distinct; clean = moved-clean }

    -- A block whose buffer is another slot.
    moved-other :
        (b j : ℕ)
        → b ≢ unassigned_block
        → j < n
        → (s.slots j).block_id ≡ b
        → j ≢ i
        → contents n stored s' b ≡ contents n stored s b
    moved-other b j u p e other =
        contents-held n stored s' j b moved-IsValid p (other_id j other ∙ e) u
        ∙ ap (λ x. x.payload) (m.others j other)
        ∙ sym (contents-held n stored s j b v p e u)

    -- The block that the changed slot held.
    moved-held :
        (b : ℕ)
        → b ≢ unassigned_block
        → (s.slots i).block_id ≡ b
        → contents n stored s' b ≡ (s.slots i).payload
    moved-held b u e = elim (m.held (λ w. u (sym e ∙ w))) [
      | inl (id, payload) ↦ contents-held n stored s' i b moved-IsValid inside (id ∙ e) u ∙ payload
      | inr (gone, saved) ↦
          contents-free n stored s' b (λ j p at. elim (same_or_other j) [
            | inl here ↦ gone (subst (λ t. (s'.slots t).block_id ≡ b) here at ∙ sym e)
            | inr other ↦ other (
                v.distinct j i p inside (sym (other_id j other) ∙ at ∙ sym e)
                  (λ w. u (sym at ∙ other_id j other ∙ w)))
          ])
          ∙ ap (stored s'.world) (sym e)
          ∙ saved
    ]

    -- A block that no slot held.
    moved-free :
        (b : ℕ)
        → b ≢ unassigned_block
        → ((j : ℕ) → j < n → (s.slots j).block_id ≢ b)
        → contents n stored s' b ≡ stored s.world b
    moved-free b u free = elim (Bool-cases ((s'.slots i).block_id == b)) [
      | inl taken ↦
          (let at = (==_iff (s'.slots i).block_id b).0 taken in
            contents-held n stored s' i b moved-IsValid inside at u
            ∙ m.loaded (λ w. u (sym at ∙ w)) (λ w. free i inside (sym w ∙ at))
            ∙ ap (stored s'.world) at
            ∙ m.device b (λ w. free i inside (sym w)))
      | inr untaken ↦
          contents-free n stored s' b (λ j p at. elim (same_or_other j) [
            | inl here ↦ cc (
              sym (ap (λ t. (s'.slots t).block_id == b) here),
              (==_iff (s'.slots j).block_id b).1 at,
              untaken,
            )
            | inr other ↦ free j p (sym (other_id j other) ∙ at)
          ])
          ∙ m.device b (λ w. free i inside (sym w))
    ]

    pub moved-contents :
        (b : ℕ) → b ≢ unassigned_block → contents n stored s' b ≡ contents n stored s b
    moved-contents b u = elim (Option-cases (find_id n 0 b s.slots)) [
      | inl missing ↦
          (let free = λ (j : ℕ) (p : j < n).
              find_id-none n 0 b s.slots missing j (omega arith) (omega (arith, p)) in
            moved-free b u free ∙ sym (contents-free n stored s b free))
      | inr (j, found) ↦
          (let (p, at) = find_id-some n 0 b s.slots j found in
            elim (same_or_other j) [
              | inl here ↦
                  (let at' = subst (λ t. (s.slots t).block_id ≡ b) here at in
                    moved-held b u at' ∙ sym (contents-held n stored s i b v inside at' u))
              | inr other ↦ moved-other b j u (omega (arith, p)) at other
            ])
    ]
