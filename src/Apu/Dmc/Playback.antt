-- ===== src/Apu/Dmc/Playback.antt =====
-- The DMC's bounds, the addresses that it reads, and its interrupt.
use tetanes.Base.{ℕ, ◌*◌, ◌≤◌, ◌<◌, ◌≡◌, Bool, not, ◌&&◌, ◌||◌, List, [], ◌∷◌, arith, ltb, ◌==◌, u8}
use tetanes.Base.Bits.{bit_and_mask, bit_or_fields}
use tetanes.Common.{NesRegion, ResetKind, soft, hard}
use tetanes.Cpu.Lines
use tetanes.Cpu.Lines.{Lines, IrqSource}
use tetanes.Apu.Timer
use tetanes.Apu.Dmc.{
  Dmc, new, load_buffer, write_timer, write_output, write_addr, write_length, set_enabled,
  should_clock, tick, clock, set_region, reset,
}

pub record IsValid (d : Dmc) : Type 0 where
  pub level_le : d.output_level ≤ 127
  pub bits_pos : 0 < d.bits_remaining
  pub bits_le : d.bits_remaining ≤ 8
  pub sample_ge : 0xc000 ≤ d.sample_addr
  pub sample_lt : d.sample_addr < 0x10000
  pub length_pos : 0 < d.sample_length
  pub length_le : d.sample_length ≤ 0xff1
  pub bytes_le : d.bytes_remaining ≤ 0xff1
  pub addr_ge : 0 < d.bytes_remaining → 0x8000 ≤ d.addr
  pub addr_lt : d.addr < 0x10000
  pub clocking_eq : d.clocking ≡ ltb 0 d.bytes_remaining

start-IsValid : (region : NesRegion) → IsValid (reset hard (new region))
unfolding reset new
start-IsValid region = ground arith

load_buffer-IsValid :
    (val : ℕ) (d : Dmc) (l : Lines) → IsValid d → IsValid (load_buffer val (d, l)).0
unfolding load_buffer
load_buffer-IsValid val d l v = ground arith

tick-IsValid : (d : Dmc) (l : Lines) → IsValid d → IsValid (tick (d, l)).0
unfolding tick
tick-IsValid d l v = ground arith

clock-IsValid : (d : Dmc) (l : Lines) → IsValid d → IsValid (clock (d, l)).0
unfolding clock
clock-IsValid d l v =
    let d' = record d { timer = (Timer.clock d.timer).0 } in
    ground (arith, tick-IsValid d' l (ground arith))

write_addr-IsValid : (val : ℕ) (d : Dmc) → val < 256 → IsValid d → IsValid (write_addr val d)
unfolding write_addr
write_addr-IsValid val d h v = ground (arith, bit_or_fields 14 3 (val * 64))

write_length-IsValid : (val : ℕ) (d : Dmc) → val < 256 → IsValid d → IsValid (write_length val d)
unfolding write_length
write_length-IsValid val d h v = ground (arith, bit_or_fields 4 val 1)

-- Everything that the APU and the CPU's DMA do to the channel.
pub data Op : Type 0 where
  clock_op should_clock_op : Op
  load_op timer_op output_op addr_op length_op : ℕ → Op
  enabled_op : Bool → ℕ → Op
  region_op : NesRegion → Op
  reset_op : ResetKind → Op

abbrev pub apply : Op → Dmc × Lines → Dmc × Lines
apply clock_op s = let (d, l, ran) = clock s in (d, l)
apply should_clock_op s = let (d, l, b) = should_clock s in (d, l)
apply (load_op val) s = load_buffer (u8 val) s
apply (timer_op val) s = write_timer (u8 val) s
apply (output_op val) (d, l) = (write_output (u8 val) d, l)
apply (addr_op val) (d, l) = (write_addr (u8 val) d, l)
apply (length_op val) (d, l) = (write_length (u8 val) d, l)
apply (enabled_op b cycle) (d, l) = (set_enabled b cycle d, l)
apply (region_op r) (d, l) = (set_region r d, l)
apply (reset_op k) (d, l) = (reset k d, l)

abbrev pub run : List Op → Dmc × Lines → Dmc × Lines
run [] s = s
run (op ∷ ops) s = run ops (apply op s)

apply-IsValid : (op : Op) (d : Dmc) (l : Lines) → IsValid d → IsValid (apply op (d, l)).0
unfolding should_clock write_timer write_output set_enabled set_region reset
apply-IsValid clock_op d l v = clock-IsValid d l v
apply-IsValid should_clock_op d l v = ground arith
apply-IsValid (load_op val) d l v = load_buffer-IsValid (u8 val) d l v
apply-IsValid (timer_op val) d l v = ground arith
apply-IsValid (output_op val) d l v = ground (arith, bit_and_mask 7 (u8 val))
apply-IsValid (addr_op val) d l v = write_addr-IsValid (u8 val) d (omega arith) v
apply-IsValid (length_op val) d l v = write_length-IsValid (u8 val) d (omega arith) v
apply-IsValid (enabled_op b cycle) d l v = ground arith
apply-IsValid (region_op r) d l v = ground arith
apply-IsValid (reset_op soft) d l v = ground arith
apply-IsValid (reset_op hard) d l v = ground arith

run-IsValid : (ops : List Op) (d : Dmc) (l : Lines) → IsValid d → IsValid (run ops (d, l)).0
run-IsValid [] d l v = v
run-IsValid (op ∷ ops) d l v =
    let s = apply op (d, l) in run-IsValid ops s.0 s.1 (apply-IsValid op d l v)

-- After a hard reset, whatever is done to the channel, its output level fits seven bits, the bits
-- left in the shifter are 1 to 8, and while bytes are left the address that the DMA reads lies in
-- the cartridge's space from 0x8000 to 0xffff.
pub dmc_run-bounds :
    (region : NesRegion) (ops : List Op) (l : Lines)
    → let d = (run ops (reset hard (new region), l)).0 in
      (d.output_level ≤ 127)
      × (0 < d.bits_remaining)
      × (d.bits_remaining ≤ 8)
      × (0 < d.bytes_remaining → 0x8000 ≤ d.addr)
      × (d.addr < 0x10000)
dmc_run-bounds region ops l =
    let v = run-IsValid ops (reset hard (new region)) l (start-IsValid region) in
    (v.level_le, v.bits_pos, v.bits_le, v.addr_ge, v.addr_lt)

-- The last byte of a sample that does not loop raises the channel's interrupt if it is enabled;
-- no other loaded byte changes the interrupt line.
pub load_buffer-irq :
    (val : ℕ) (d : Dmc) (l : Lines)
    → Lines.has_irq IrqSource.dmc (load_buffer val (d, l)).1 ≡ (
        Lines.has_irq IrqSource.dmc l || (d.bytes_remaining == 1 && (not d.loops && d.irq_enabled)))
unfolding load_buffer Lines.has_irq Lines.set_irq
load_buffer-irq val d l = ground arith
