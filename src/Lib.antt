-- ===== src/Lib.antt =====
-- TetaNES, an emulator of the Nintendo Entertainment System: the core in tetanes-core/src.
--
-- A CPU (cpu.rs, cpu/instr.rs) owns a bus (bus.rs), which owns the PPU (ppu.rs), the APU (apu.rs),
-- the cartridge's mapper (mapper.rs) and the input. The CPU drives all: each of its bus accesses
-- is a cycle, in which it clocks the PPU up to the master clock and the bus once. The PPU, the APU
-- and the mapper reach the CPU only through thread-local lines: the NMI, the IRQs and the DMA
-- requests.
--
-- Which file models which part:
-- Base         booleans, lists, machine words and bit operations over the native numbers, with the
--              lemmas on masks that the registers share
-- Common       common.rs: regions and kinds of reset
-- Cpu/Lines    the thread-local lines of cpu.rs as a record that a component takes and returns
-- Cpu/Status   the status flags; Cpu/State the registers, and BusOps, what the CPU asks of a bus
-- Cpu/Access   start_cycle, end_cycle, handle_interrupts, handle_dma, read and write
-- Cpu/Fetch    the stack, the operand and the words of the code
-- Cpu/Instr    the enumerations and INSTRUCTIONS; Cpu/Addressing the modes of cpu/instr.rs
-- Cpu/Alu, Cpu/Storage, Cpu/Arithmetic, Cpu/Flow, Cpu/Unofficial
--              the operations of cpu/instr.rs, and irq of cpu.rs in Cpu/Flow
-- Cpu/Clock    clock and reset of cpu.rs
-- Apu/Timer, Apu/Envelope, Apu/LengthCounter, Apu/FrameCounter
--              the units of apu/timer.rs, envelope.rs, length_counter.rs and frame_counter.rs
-- Apu/Pulse, Apu/Triangle, Apu/Noise, Apu/Dmc
--              the channels of apu/pulse.rs, triangle.rs, noise.rs and dmc.rs
-- Apu/Clocking, Apu/Registers
--              apu.rs: the clock that runs the channels when needed, and the registers
-- Ppu/Ctrl, Ppu/Mask, Ppu/Status, Ppu/Scroll
--              the registers of ppu/ctrl.rs, mask.rs, status.rs and scroll.rs
-- Ppu/Sprite, Ppu/Frame
--              the sprites and the picture of ppu/sprite.rs and ppu/frame.rs
-- Ppu/State, Ppu/Access, Ppu/Evaluation, Ppu/Fetch, Ppu/Pixels, Ppu/Clock
--              ppu.rs: the fields, the registers and the vertical blank, evaluate_sprites, the
--              fetches of tiles, the choice of a pixel, and tick, clock, clock_to, reset and new
-- Ppu/Bus      ppu/bus.rs, over a board that is a parameter
-- Mem/Banks, Mem/Memory
--              Banks, Memory and RamState of mem.rs
-- Mapper       what a board answers, of mapper.rs; Mapper/Boards the boards of mapper/m000_nrom.rs,
--              m002_uxrom.rs, m003_cnrom.rs, m007_axrom.rs, m011_color_dreams.rs, m034_bnrom.rs,
--              m034_nina001.rs, m066_gxrom.rs, m071_bf909x.rs and m079_nina003_006.rs, and of
--              m001_sxrom.rs (MMC1) and m004_txrom.rs (MMC3), whose registers do more;
--              Mapper/VrcIrq mapper/vrc_irq.rs
-- Cart         cart.rs: Cart/Header NesHeader, Cart/Loading from_rom
-- Genie        genie.rs
-- Input        input.rs: Input/Pad Joypad
-- Bus          bus.rs: Bus/Reads, Bus/Writes, and in Bus/Access the instance of BusOps
-- Tests        inputs at which the theorems apply
-- The children of a file hold its theorems, named for what they are about.
--
-- Conventions. A method that changes its object is a function that takes and returns the record; a
-- name is the method's, but for a few that the language or another method takes: `new`, `get` and
-- `set` of Banks are `new`, `slot` and `set_bank`, the getter `volume` of Envelope is `output`, the
-- mode `acc` is `acc_mode`. Integers are natural numbers with their wrap-around written out. Where
-- the source would panic, the model returns none or panic. A channel's `output` is the integer
-- before its conversion to a float, for the triangle twice that.
--
-- Interfaces. The CPU takes a bus as BusOps, and its theorems what they need of one: StackRam a
-- stack, TransferBus a page and $2004 with no other transfer. The bus of bus.rs takes its parts as
-- Parts and is such a stack whatever they do. The PPU's bus takes
-- a Board, and the APU what mixes and filters its outputs as MixerOps.
--
-- Bounds and fuel. Theorems on bytes, words and addresses say so in their hypotheses. `handle_dma`
-- loops while a transfer runs, which depends on the bus; the model runs at most 1024 rounds, and a
-- sprite transfer alone needs 513. `clock_to` of the PPU has fuel for one cycle in each tick of
-- the time to catch up, of which it needs one in every clock divider. `clock_to` of the APU gives a
-- round to each cycle that it is behind, and six more, in which the frame counter leaves steps that
-- a change of the region has put in the past; a channel clocks once in each cycle. The bytes of the
-- work RAM are a list with a proof of its length, which the source fixes when it makes them.
--
-- Not modelled: the APU's mixer and filters (floating point), the pictures of the PPU's memories
-- that a debugger shows, the other mappers and the choice among them, files and names of cartridges,
-- the control deck and the zapper, text output (disassembler, traces), and the applications
-- in tetanes and tetanes-utils.
pub mod Base
pub mod Common
pub mod Cpu
pub mod Apu
pub mod Ppu
pub mod Mem
pub mod Mapper
pub mod Cart
pub mod Genie
pub mod Input
pub mod Bus
pub mod Tests
