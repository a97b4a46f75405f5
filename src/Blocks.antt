-- ===== src/Blocks.antt =====
-- The block buffers of src/lfblocks.c: a few buffers in RAM for the blocks of a storage device.
-- The device (blk_read and blk_write of blocks.h) is a parameter, `Device`; a buffer's payload is a
-- field of its slot.
pub mod Search
pub mod Contents
pub mod Moves
pub mod Refine
pub mod Assign
pub mod Flush
pub mod Filled
pub mod Update
pub mod Api
use lite_forth.Common.{
  ℕ, zero, suc, ◌+◌, ◌-◌, ◌*◌, ◌%◌, ◌^◌, Bool, true, false, not, ◌&&◌, Option, none, some, ltb, leb,
  ◌==◌, if◌then◌else◌, update, neg32,
}

-- UNASSIGNED_BLOCK
abbrev pub unassigned_block : ℕ
unassigned_block = 0xFFFFFFFF

-- errcodes.h
abbrev pub block_read_error : ℕ
block_read_error = neg32 33

abbrev pub block_write_error : ℕ
block_write_error = neg32 34

abbrev pub blk_bounds : ℕ
blk_bounds = neg32 92

abbrev pub block_size_cells : ℕ
block_size_cells = 1024

-- A BlockBufferState, and the payload of its buffer.
pub record Slot (D : Type 0) : Type 0 where
  pub block_id : ℕ
  pub is_dirty : Bool
  pub last_used : ℕ
  pub payload : D

-- The device: blk_read's ior and what it leaves in the buffer, and blk_write's ior.
pub record Device (W D : Type 0) : Type 0 where
  pub blk_read : ℕ → W → ℕ × D × W
  pub blk_write : ℕ → D → W → ℕ × W

-- SYSTEM_BLOCKS, LF_BLOCKBUFS and g_block_capacity.
pub record Layout : Type 0 where
  pub system_blocks : ℕ
  pub lf_blockbufs : ℕ
  pub block_capacity : ℕ

-- buf_state, lru_clock, active_buf_idx (-1 is `none`), initialized, and the device.
pub record Buffers (W D : Type 0) : Type 0 where
  pub slots : ℕ → Slot D
  pub lru_clock : ℕ
  pub active : Option ℕ
  pub initialized : Bool
  pub world : W

module _ {D : Type 0} where
  abbrev pub unassign : Slot D → Slot D
  unassign x = record x { block_id = unassigned_block; is_dirty = false }

  -- The loop over the slots from i on, for the first that has this block number.
  unfoldable pub find_id : ℕ → ℕ → ℕ → (ℕ → Slot D) → Option ℕ
  find_id zero i blk f = none
  find_id (suc left) i blk f =
      let rest = find_id left (i + 1) blk f in if (f i).block_id == blk then some i else rest

  -- The loop for the least recently used slot, from i on, with the best so far.
  unfoldable pub least_used : ℕ → ℕ → ℕ → (ℕ → Slot D) → ℕ
  least_used zero i best f = best
  least_used (suc left) i best f =
      least_used left (i + 1) (if ltb (f i).last_used (f best).last_used then i else best) f

module _ {W D : Type 0} where
  unfoldable pub init_buffer_system : Buffers W D → Buffers W D
  init_buffer_system s = record s {
    slots = λ i. record (unassign (s.slots i)) { last_used = 0 };
    lru_clock = 0;
    active = none;
    initialized = true;
  }

  abbrev pub put_slot : ℕ → Slot D → Buffers W D → Buffers W D
  put_slot i x s = record s { slots = update s.slots i x }

  abbrev pub ready : Buffers W D → Buffers W D
  ready s = if s.initialized then s else init_buffer_system s

  -- `last_used = ++lru_clock`, and the buffer becomes the active one.
  abbrev pub touch : ℕ → Slot D → Buffers W D → Buffers W D
  touch i x s =
      let clock = (s.lru_clock + 1) % 2 ^ 32 in
      record (put_slot i (record x { last_used = clock }) s) { lru_clock = clock; active = some i }

  module _ (device : Device W D) (layout : Layout) where
    open device use {blk_read, blk_write}
    open layout use {system_blocks, lf_blockbufs, block_capacity}

    unfoldable pub sync_buffer : ℕ → Buffers W D → ℕ × Buffers W D
    sync_buffer i s =
        let x = s.slots i in
        let (err, w) = blk_write x.block_id x.payload s.world in
        let written = record s { world = w } in
        if not (x.block_id == unassigned_block) && x.is_dirty
        then (if err == 0
            then (0, put_slot i (record x { is_dirty = false }) written)
            else (err, written))
        else (0, s)

    -- Eviction: the error, the index and the state.
    unfoldable pub evict : Buffers W D → ℕ × ℕ × Buffers W D
    evict s =
        let i = least_used (system_blocks - 1) 1 0 s.slots in
        let (err, s') = sync_buffer i s in
        if err == 0 then (0, i, put_slot i (unassign (s'.slots i)) s') else (err, i, s')

    -- The three steps of an allocation.
    unfoldable pub allocate_in : ℕ → Buffers W D → ℕ × ℕ × Buffers W D
    allocate_in blk s = elim (find_id system_blocks 0 blk s.slots) [
      | some i ↦ (0, i, s)
      | none ↦ elim (find_id system_blocks 0 unassigned_block s.slots) [
        | some i ↦ (0, i, s)
        | none ↦ evict s
      ]
    ]

    unfoldable pub find_or_allocate_buffer : ℕ → Buffers W D → ℕ × ℕ × Buffers W D
    find_or_allocate_buffer blk s = allocate_in blk (ready s)

    abbrev pub buffer_addr : ℕ → ℕ
    buffer_addr i = lf_blockbufs + i * block_size_cells

    -- A block that is read into buffer i.
    unfoldable pub load_block : ℕ → ℕ → Buffers W D → ℕ × ℕ × Buffers W D
    load_block blk i s =
        let (err, d, w) = blk_read blk s.world in
        let filled = record (put_slot i (record (s.slots i) { payload = d }) s) { world = w } in
        if err == 0
        then (
          0,
          buffer_addr i,
          touch i (record (filled.slots i) { block_id = blk; is_dirty = false }) filled,
        )
        else (err, 0, filled)

    abbrev pub allocate_block : ℕ → ℕ × ℕ × Buffers W D → ℕ × ℕ × Buffers W D
    allocate_block blk (err, i, s) =
        if err == 0 then load_block blk i s else (block_read_error, 0, s)

    -- The ior, the address (0 if it fails) and the state.
    unfoldable pub lf_assign_block : ℕ → Buffers W D → ℕ × ℕ × Buffers W D
    lf_assign_block blk s =
        if leb block_capacity blk
        then (blk_bounds, 0, s)
        else elim (if s.initialized then find_id system_blocks 0 blk s.slots else none) [
          | some i ↦ (0, buffer_addr i, touch i (s.slots i) s)
          | none ↦ allocate_block blk (find_or_allocate_buffer blk s)
        ]

    abbrev pub assigned : ℕ → ℕ × ℕ × Buffers W D → ℕ × ℕ × Buffers W D
    assigned blk (err, i, s) =
        if err == 0
        then (0, i, touch i (record (s.slots i) { block_id = blk }) s)
        else (block_write_error, i, s)

    -- The ior, the index and the state.
    unfoldable pub assign_buffer : ℕ → Buffers W D → ℕ × ℕ × Buffers W D
    assign_buffer blk s = assigned blk (find_or_allocate_buffer blk s)

    -- The index is that of the buffer whose payload the caller may fill.
    unfoldable pub lf_block_buffer : ℕ → Buffers W D → ℕ × ℕ × Buffers W D
    lf_block_buffer blk s =
        if leb block_capacity blk then (blk_bounds, 0, s) else assign_buffer blk s

    abbrev pub mark_dirty : ℕ → Buffers W D → Buffers W D
    mark_dirty i s =
        if not ((s.slots i).block_id == unassigned_block)
        then put_slot i (record (s.slots i) { is_dirty = true }) s
        else s

    unfoldable pub update_block : Buffers W D → Buffers W D
    update_block s = elim s.active [
      | none ↦ s
      | some i ↦ if ltb i system_blocks then mark_dirty i s else s
    ]

    -- The loop of SAVE-BUFFERS from slot i on.
    unfoldable pub save_from : ℕ → ℕ → Buffers W D → ℕ × Buffers W D
    save_from zero i s = (0, s)
    save_from (suc left) i s =
        let r = sync_buffer i s in elim (r.0 == 0) [ true ↦ save_from left (i + 1) r.1 | false ↦ r ]

    unfoldable pub save_buffers : Buffers W D → ℕ × Buffers W D
    save_buffers s = if s.initialized then save_from system_blocks 0 s else (0, s)

    unfoldable pub empty_buffers : Buffers W D → ℕ × Buffers W D
    empty_buffers s = (0, init_buffer_system s)

    unfoldable pub flush : Buffers W D → ℕ × Buffers W D
    flush s = let r = save_buffers s in if r.0 == 0 then empty_buffers r.1 else r
