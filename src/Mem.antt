-- ===== src/Mem.antt =====
-- tetanes-core/src/mem.rs: memory and bank switching.
pub mod Banks
pub mod Memory
