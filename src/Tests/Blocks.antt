-- ===== src/Tests/Blocks.antt =====
-- Two block buffers on a device that keeps a number per block.
use lite_forth.Common.{ℕ, ◌*◌, ◌≡◌, ◌≢◌, refl, arith, false, none, update, update_self, update_ne}
use lite_forth.Blocks.{
  Device, Layout, Buffers, unassigned_block, init_buffer_system, find_id, least_used, evict,
  sync_buffer, allocate_in, find_or_allocate_buffer, assign_buffer, lf_block_buffer,
  lf_assign_block, update_block, flush, save_from, save_buffers, empty_buffers,
}
use lite_forth.Blocks.Contents.{Behaves, IsValid, contents}
use lite_forth.Blocks.Refine.{Keeps}
use lite_forth.Blocks.Assign.{Assigned, lf_assign_block-Assigned}
use lite_forth.Blocks.Flush.{flush_lem, init_buffer_system-IsValid}
use lite_forth.Blocks.Filled.{fill, Stores}
use lite_forth.Blocks.Update.{update_block_lem, lf_block_buffer_lem}

abbrev array_device : Device (ℕ → ℕ) ℕ
array_device = record { blk_read = λ b w. (0, w b, w); blk_write = λ b d w. (0, update w b d) }

abbrev at_block : (ℕ → ℕ) → ℕ → ℕ
at_block w b = w b

array_device-Behaves : Behaves array_device at_block
array_device-Behaves = record {
  read = λ b w e. refl;
  read_keeps = λ b c w. refl;
  write = λ b d w e. update_self w b d;
  write_keeps = λ b c d w h. update_ne w b c d h;
}

abbrev two_buffers : Layout
two_buffers = record { system_blocks = 2; lf_blockbufs = 4096; block_capacity = 100 }

abbrev power_on : Buffers (ℕ → ℕ) ℕ
power_on = record {
  slots = λ i. record { block_id = 0; is_dirty = false; last_used = 0; payload = 0 };
  lru_clock = 0;
  active = none;
  initialized = false;
  world = λ b. b * 11;
}

abbrev started : Buffers (ℕ → ℕ) ℕ
unfolding init_buffer_system
started = init_buffer_system power_on

started-IsValid : IsValid 2 at_block started
unfolding init_buffer_system
started-IsValid = init_buffer_system-IsValid array_device two_buffers at_block power_on

-- Block 3 is filled with 30, by way of BUFFER and UPDATE.
abbrev with_block : ℕ → ℕ → Buffers (ℕ → ℕ) ℕ → Buffers (ℕ → ℕ) ℕ
with_block b d s =
    let r = lf_block_buffer array_device two_buffers b s in
    update_block array_device two_buffers (fill r.1 d r.2)

lf_block_buffer_lem_example : Stores two_buffers at_block 3 30 started (with_block 3 30 started)
unfolding init_buffer_system lf_block_buffer assign_buffer find_or_allocate_buffer allocate_in
    find_id
lf_block_buffer_lem_example =
    lf_block_buffer_lem array_device two_buffers at_block array_device-Behaves started 3 30
      (omega arith) (ground arith) started-IsValid refl

abbrev one_dirty : Buffers (ℕ → ℕ) ℕ
one_dirty = with_block 3 30 started

-- Both buffers are in use, and dirty.
abbrev two_dirty : Buffers (ℕ → ℕ) ℕ
two_dirty = with_block 5 50 one_dirty

two_dirty-IsValid : IsValid 2 at_block two_dirty
unfolding init_buffer_system lf_block_buffer assign_buffer find_or_allocate_buffer allocate_in
    find_id update_block
two_dirty-IsValid =
    (lf_block_buffer_lem array_device two_buffers at_block array_device-Behaves one_dirty 5 50
      (omega arith) (ground arith) lf_block_buffer_lem_example.valid refl).valid

-- Block 7 takes the buffer of block 3, which is written first.
lf_assign_block-Assigned_example :
    Assigned array_device two_buffers at_block 7 two_dirty
      (lf_assign_block array_device two_buffers 7 two_dirty)
lf_assign_block-Assigned_example =
    lf_assign_block-Assigned array_device two_buffers at_block array_device-Behaves two_dirty 7
      (omega arith) (ground arith) two_dirty-IsValid

evicted : (evict array_device two_buffers two_dirty).2.world 3 ≡ 30
unfolding init_buffer_system lf_block_buffer assign_buffer find_or_allocate_buffer allocate_in
    find_id update_block evict least_used sync_buffer
evicted = refl

changed_again :
    Stores two_buffers at_block 5 51 two_dirty
      (update_block array_device two_buffers (fill 1 51 two_dirty))
unfolding init_buffer_system lf_block_buffer assign_buffer find_or_allocate_buffer allocate_in
    find_id update_block
changed_again =
    update_block_lem array_device two_buffers at_block two_dirty 1 51 (omega arith)
      two_dirty-IsValid refl (ground arith)

flush_lem_example :
    Keeps array_device two_buffers at_block two_dirty (flush array_device two_buffers two_dirty).1
    × ((flush array_device two_buffers two_dirty).0 ≡ 0
        → ((j : ℕ)
            → ((flush array_device two_buffers two_dirty).1.slots j).block_id ≡ unassigned_block)
          × ((b : ℕ)
              → b ≢ unassigned_block
              → at_block (flush array_device two_buffers two_dirty).1.world b
                ≡ contents 2 at_block two_dirty b))
flush_lem_example =
    flush_lem array_device two_buffers at_block array_device-Behaves two_dirty two_dirty-IsValid

flushed : (flush array_device two_buffers two_dirty).1.world 5 ≡ 50
unfolding init_buffer_system lf_block_buffer assign_buffer find_or_allocate_buffer allocate_in
    find_id update_block flush save_buffers save_from sync_buffer empty_buffers
flushed = refl
