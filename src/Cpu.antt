-- ===== src/Cpu.antt =====
-- tetanes-core/src/cpu.rs and cpu/instr.rs, one child for each group of operations.
pub mod Lines
pub mod Status
pub mod Instr
pub mod State
pub mod Access
pub mod Fetch
pub mod Addressing
pub mod Alu
pub mod Storage
pub mod Arithmetic
pub mod Flow
pub mod Unofficial
pub mod Clock
