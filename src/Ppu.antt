-- ===== src/Ppu.antt =====
-- tetanes-core/src/ppu/: the picture unit's registers, a module for each file.
pub mod Bus
pub mod Ctrl
pub mod Mask
pub mod Status
pub mod Scroll
pub mod Registers
pub mod Sprite
pub mod Frame
pub mod State
pub mod Access
pub mod Evaluation
pub mod Fetch
pub mod Pixels
pub mod Clock
