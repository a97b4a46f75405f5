-- ===== src/Blocks/Api.antt =====
-- BLOCK and BUFFER, the functions of src/lfblocks.c that take a block number from the data stack.
use lite_forth.Common.{ℕ, ◌==◌, if◌then◌else◌}
use lite_forth.Vm.State.{VmState}
use lite_forth.Vm.Registers.{vm_pop, vm_push}
use lite_forth.Blocks.{Device, Layout, Buffers, buffer_addr, lf_assign_block, assign_buffer}

module _ {W D : Type 0} (device : Device W D) (layout : Layout) where
  -- BLOCK: the ior, the machine and the buffers. A failure leaves the address 0 on the stack.
  unfoldable pub lf_api_block : VmState → Buffers W D → ℕ × VmState × Buffers W D
  lf_api_block m s =
      let (blk, m') = vm_pop m in
      let (ior, f_addr, s') = lf_assign_block device layout blk s in
      (ior, (vm_push f_addr m').1, s')

  -- BUFFER: a failure leaves nothing on the stack.
  unfoldable pub lf_api_buffer : VmState → Buffers W D → ℕ × VmState × Buffers W D
  lf_api_buffer m s =
      let (blk, m') = vm_pop m in
      let (err, i, s') = assign_buffer device layout blk s in
      if err == 0 then (0, (vm_push (buffer_addr device layout i) m').1, s') else (err, m', s')
