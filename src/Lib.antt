-- ===== src/Lib.antt =====
-- LiteForth, a Forth for microcontrollers: the virtual machine that runs compiled Forth code, the
-- compiler, and the storage around it: memory, blocks, files on a card, transfers, and cryptography.
--
-- The parts. A terminal interprets and compiles Forth text (src/forth.c, src/comp.c). Compiled code
-- runs on a stack machine (src/vm.c) that checks each access to memory against limits per page, and
-- calls C through API calls (src/api0.c) and I/O ports (src/iomap.c). Memory for pages and buffers
-- comes from a pool that is freed in reverse order (src/memalloc.c). Files, blocks, transfers and
-- sealed updates lie around it.
--
-- The files.
--   Common      numbers, lists, 32-bit words and bit fields that the other modules share
--   MemAlloc    src/memalloc.c. `Pool` is pool[] and stack_top; pool_alloc, pool_free,
--               pool_is_newest, pool_reset and pool_unused take the pool and return it. Pointers
--               are cells of the pool, NULL, or something else. Frames: what a valid pool is, and
--               allocation. Free: freeing.
--   Slice       the arithmetic on slice addresses: vmFieldPlus (src/vm.c, in Slice/Next) and
--               lfSetSliceWidth (src/tools.c, in Slice/Width)
--   IoMap       src/iomap.c. `Unit32` is the math unit's registers and its busy count; iomap_rd and
--               iomap_wr are the ports; divide64by32 is from src/tools.c. Divide, Product and
--               Quotient for the arithmetic, Ports for what `>sys` and `sys>` see of it.
--   Vm/State    vm_state_t (src/vm.h) and the stack moves of src/vm.c
--   Vm/Memory   vmFetch, vmStore and vmGuarded; RoundTrip for fetch after store, Limits for what a
--               store may not touch
--   Vm/Micro    the micro-ops; Vm/Group the group of up to three of them, with `unext`; Vm/Inst the
--               other instructions and vmApiCall; Vm/Exec the loop of vmExec, and vmRun
--   Vm/Arith    the carry of `+` and the multiply step
--   Vm/Sequence  a group as its micro-ops one after the other
--   Vm/ReturnStack  the micro-ops that may follow a return in their group
--   Vm/CodeCache  the code page that vmExec keeps, against a lookup at each fetch
--   Vm/Registers  vmPeek, vmPoke, vmPush, vmPop and vmReset
--   Vm/Induction  one induction for all runs: what each instruction keeps, vmRun keeps
--   Vm/Sandbox  what a run with API calls disabled can do; Vm/Steps how runs end
--   Blocks      src/lfblocks.c. `Buffers` is buf_state[], lru_clock, active_buf_idx and the device
--               behind them; lf_assign_block, lf_block_buffer, update_block, save_buffers,
--               empty_buffers and flush are the operations, Api the two that use the data stack.
--               Search: the loops over the buffers. Contents: what every block holds, which is the
--               abstract view, and the invariant. Moves and Filled: the two kinds of change to one
--               buffer. Refine, Assign, Flush and Update: the operations against the abstract view.
--   Comp        src/comp.c. `Compiler` is slot, instruction and lastcall with the code space; comp_uop,
--               comp_ulit, lf_compile_lit, comp_call, comp_exit, store_jump and lf_compile_xt write
--               words to a `CodeSpace`: memory with its code pointer, or a list (Target). Run:
--               compiled words on the machine. Literals, Negative, Calls and Jumps: what literals,
--               calls and jumps do there. Pack: groups of micro-ops. Exits: CompExit. Api: the
--               words that use the data stack, and lfExecuteWord.
--   Ctr         src/ctr.c: AES-128 and SM4 on lists of bytes and words, and counter mode. Stream:
--               that it is its own inverse; Positions: which keystream byte each byte gets.
--   Datalog     dl_find_end of src/datalog.c, on a function that reads sectors; Search: what it finds
--   Number      lfDotB and lfParseNumber of src/tools.c; RoundTrip: a number printed and read
--   Blake2s     src/blake2s.c: the state, the compression, b2s_hmac_putc, b2s_hmac_puts, b2s_hmac_final,
--               b2s_init and b2s_hmac_init. Stream: blocks and bytes. Rfc: RFC 7693 on
--               whole messages. Rounds and Refine: that the code computes it.
--   Exfat       src/exfat.c. The fields of a sector, clusters, the FAT with its cache, and the cursor
--               that walks a directory. Clusters: sound volumes. Walk: how far a cursor goes. Mount:
--               exfat_mount, and in Mount/Sound what it takes. Sets: the entries of a file. Find:
--               exfat_find and exfat_list, one walk with two visits; in it Ends for their end,
--               Collects and Extent for where a file lies. Write: the bitmap, exfat_trim and
--               exfat_delete; Write/Create: exfat_create; Write/Bits, Bitmap, Free and Disjoint: what
--               the bitmap holds and which clusters are given.
--   Ymrecv      crc16 and read_packet of src/ymrecv.c, on a line that is a list of bytes and
--               timeouts; Packets: packets framed and read. Start: await_start and read_header, on a
--               `Wire`, their end and their errors. Receive: ymr_receive; in it Ends for its end and
--               Safe for what it writes.
--   Tests       runs at concrete inputs
--
-- How the code is modelled. A uint32_t is a number below 2 ^ 32, with `% 2 ^ 32` where the code
-- wraps around; an int and an error code is its 32-bit pattern, so -9 is 2 ^ 32 - 9. A C array whose
-- index is masked is a function of the index. The registers that vmExec keeps in local variables are
-- those of `VmState`: VM_LOAD's masking is written out, VM_SAVE copies them back. The build is the
-- desktop's (src/target/desktop/options.h): 8 pages, stacks of 128 cells, one register for the top
-- of the stack. The capacity of the pool is a parameter. Memory pages do not overlap.
--
-- What the machine calls (API functions, I/O ports, the time base, the watchdog)
-- is the record `Host`, which every theorem on runs takes as a parameter. `Devices` is the same for the
-- terminal and the LCD behind the ports. A `Host` may take its ports from IoMap.
--
-- Loops on fuel. A group with `unext` and the loop of vmExec need not end: they run on fuel, and
-- `none` says that it ran out. The theorems on runs are about runs that do end, and those on a
-- single step need no fuel but that of the step.
--
-- Other fuel. The prefixes of a literal (4, since 19 bits are left after the first 13), the search of
-- dl_find_end (the number of blocks) and the digits of lfDotB (its buffer's 35 characters) are loops
-- on fuel too; the theorems on them say that the fuel is enough. So do those on the directory walk of
-- exFAT (dir_fuel: the entries of the clusters that a walk may visit) and on the receiver (a round for
-- each byte of the line and for the retries), whose line is finite, with silence behind it: a sender
-- that never stops is not in the model, and the source does not end on it. bitmap_mark's fuel is the
-- clusters, b2s_hmac_puts' the input's length.
--
-- Storage. The block device, the sectors of a log's file and of a card, the line of YMODEM with the
-- writes of its blocks, and the encryption engine are parameters. What the theorems on blocks ask of
-- the device is the record `Behaves` of Blocks, those on a card's bitmap `Behaves` of Exfat/Write/Bitmap.
--
-- Not modelled: vm_rv32.S (the same machine in assembly), vmTrap's longjmp (that a CPU exception
-- ended the run is an outcome of vmExec), the count of nested runs, and the parts of the program
-- around the machine: the interpreter and the compiler's words for headers, the records of a log,
-- sealed files, updates and targets. Of ymrecv.c the messages and times, and of blake2s.c the wrappers
-- for the machine's cells and the wiping of buffers, are left out.
pub mod Blake2s
pub mod Blocks
pub mod Common
pub mod Comp
pub mod Ctr
pub mod Datalog
pub mod Exfat
pub mod IoMap
pub mod MemAlloc
pub mod Number
pub mod Slice
pub mod Tests
pub mod Vm
pub mod Ymrecv
