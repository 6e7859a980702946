-- ===== src/Apu.antt =====
-- tetanes-core/src/apu/: the audio unit's channels and their parts, a module for each file.
pub mod Timer
pub mod Envelope
pub mod LengthCounter
pub mod FrameCounter
pub mod Pulse
pub mod Triangle
pub mod Noise
pub mod Dmc
pub mod Clocking
pub mod Registers
