-- ===== src/Vm.antt =====
-- The virtual machine of src/vm.c, src/vm.h and src/vm_labels.h, as the desktop is built: one
-- register for the top of the data stack, stacks of 128 cells, eight memory pages.
pub mod State
pub mod Memory
pub mod Micro
pub mod Group
pub mod Inst
pub mod Exec
pub mod Arith
pub mod CodeCache
pub mod Sequence
pub mod ReturnStack
pub mod Registers
pub mod Sandbox
pub mod Steps
pub mod Induction
