-- ===== src/Tests.antt =====
-- Runs of the models at concrete inputs, and the theorems applied to them.
mod Allocator
mod Slices
mod Machines
mod MathUnit
mod Registers
mod Blocks
mod Compiler
mod Crypt
mod Exfat
mod Hash
mod Datalog
mod Numbers
mod Packets
mod Receive
