-- ===== src/Target.antt =====
-- arch/riscv/source/riscv-target.c: the target behind the debug module.
pub mod Dmi
pub mod Memory
pub mod Register
pub mod Breakpoint
pub mod Watchpoint
pub mod Control
pub mod Init
pub mod Halt
mod Tests
