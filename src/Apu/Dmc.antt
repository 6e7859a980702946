-- ===== src/Apu/Dmc.antt =====
-- tetanes-core/src/apu/dmc.rs: the delta modulation channel, which plays samples from memory. Its
-- interrupt and its DMA requests go through the CPU's lines.
pub mod Playback
use tetanes.Base.{
  ℕ, ◌+◌, ◌-◌, ◌*◌, Bool, true, false, not, ◌&&◌, if◌then◌else◌, ltb, leb, ◌==◌, List, [], ◌∷◌,
  get_or, has_bits, bit_and, bit_or, ◌<<<◌, ◌>>>◌, u16, usize,
}
use tetanes.Common.{NesRegion, pal, ResetKind, is_hard}
use tetanes.Cpu.Lines
use tetanes.Cpu.Lines.{Lines, IrqSource}
use tetanes.Apu.Timer
use tetanes.Apu.Timer.{Timer}

pub record Dmc : Type 0 where
  pub region : NesRegion
  pub timer : Timer
  pub force_silent : Bool
  pub irq_enabled : Bool
  pub loops : Bool
  pub addr : ℕ
  pub sample_addr : ℕ
  pub bytes_remaining : ℕ
  pub sample_length : ℕ
  pub sample_buffer : ℕ
  pub buffer_empty : Bool
  pub init : ℕ
  pub output_level : ℕ
  pub bits_remaining : ℕ
  pub shift : ℕ
  pub silence : Bool
  pub clocking : Bool  -- the field `should_clock`

unfoldable pub period_table_ntsc : List ℕ
period_table_ntsc =
    428 ∷ 380 ∷ 340 ∷ 320 ∷ 286 ∷ 254 ∷ 226 ∷ 214 ∷ 190 ∷ 160 ∷ 142 ∷ 128 ∷ 106 ∷ 84 ∷ 72 ∷ 54 ∷ []

unfoldable pub period_table_pal : List ℕ
period_table_pal =
    398 ∷ 354 ∷ 316 ∷ 298 ∷ 276 ∷ 236 ∷ 210 ∷ 198 ∷ 176 ∷ 148 ∷ 132 ∷ 118 ∷ 98 ∷ 78 ∷ 66 ∷ 50 ∷ []

unfoldable pub period : NesRegion → ℕ → ℕ
unfolding period_table_ntsc period_table_pal
period pal val = get_or period_table_pal (bit_and val 0x0f) 0 - 1
period _ val = get_or period_table_ntsc (bit_and val 0x0f) 0 - 1

unfoldable pub new : NesRegion → Dmc
new region = record {
  region = region;
  timer = Timer.preload (period region 0);
  force_silent = false;
  irq_enabled = false;
  loops = false;
  addr = 0xc000;
  sample_addr = 0x0000;
  bytes_remaining = 0;
  sample_length = 1;
  sample_buffer = 0;
  buffer_empty = true;
  init = 0;
  output_level = 0;
  bits_remaining = 8;
  shift = 0;
  silence = true;
  clocking = false;
}

unfoldable pub set_silent : Bool → Dmc → Dmc
set_silent silent d = record d { force_silent = silent }

-- Behind the test `bytes_remaining > 0`, so `- 1` is exact.
unfoldable pub irq_pending_in : ℕ → Dmc → Bool
irq_pending_in cycles_to_run d =
    if d.irq_enabled && ltb 0 d.bytes_remaining
    then leb (usize (usize (d.bits_remaining + (d.bytes_remaining - 1) * 8) * d.timer.period))
        cycles_to_run
    else false

unfoldable pub init_sample : Dmc → Dmc
init_sample d = record d {
  addr = d.sample_addr;
  bytes_remaining = d.sample_length;
  clocking = ltb 0 d.sample_length;
}

-- The end of a sample: it starts again, or raises its interrupt.
end_sample : Dmc × Lines → Dmc × Lines
unfolding init_sample
end_sample (d, l) =
    let d' = record d { clocking = false } in
    if d.loops
    then (init_sample d', l)
    else (d', if d.irq_enabled then Lines.set_irq IrqSource.dmc l else l)

unfoldable pub load_buffer : ℕ → Dmc × Lines → Dmc × Lines
unfolding end_sample
load_buffer val (d, l) =
    if ltb 0 d.bytes_remaining
    then (let d' = record d {
      sample_buffer = val;
      buffer_empty = false;
      addr = if d.addr == 0xffff then 0x8000 else u16 (d.addr + 1);
      bytes_remaining = d.bytes_remaining - 1;
    } in
        if d'.bytes_remaining == 0 then end_sample (d', l) else (d', l))
    else (d, l)

unfoldable pub write_timer : ℕ → Dmc × Lines → Dmc × Lines
write_timer val (d, l) =
    let irq_enabled = has_bits val 0x80 in
    (
      record d {
        irq_enabled = irq_enabled;
        loops = has_bits val 0x40;
        timer = record (d.timer) { period = period d.region val };
      },
      if not irq_enabled then Lines.clear_irq IrqSource.dmc l else l,
    )

unfoldable pub write_output : ℕ → Dmc → Dmc
write_output val d = record d { output_level = bit_and val 0x7f }

unfoldable pub write_addr : ℕ → Dmc → Dmc
write_addr val d = record d { sample_addr = bit_or 0xc000 (val <<< 6) }

unfoldable pub write_length : ℕ → Dmc → Dmc
write_length val d = record d { sample_length = bit_or (val <<< 4) 1 }

unfoldable pub set_enabled : Bool → ℕ → Dmc → Dmc
unfolding init_sample
set_enabled enabled cycle d =
    if not enabled
    then record d { bytes_remaining = 0; clocking = false }
    else if d.bytes_remaining == 0
    then record (init_sample d) { init = if bit_and cycle 0x01 == 0 then 2 else 3 }
    else d

-- The method `should_clock`, which also counts down the start of a transfer.
unfoldable pub should_clock : Dmc × Lines → Dmc × Lines × Bool
should_clock (d, l) =
    if ltb 0 d.init
    then (let d' = record d { init = d.init - 1 } in
        (
          d',
          if d'.init == 0 && (d'.buffer_empty && ltb 0 d'.bytes_remaining)
              then Lines.start_dmc_dma l
              else l,
          d'.clocking,
        ))
    else (d, l, d.clocking)

-- The output level moves by 2 where it stays in its range.
shift_out : Dmc → Dmc
shift_out d =
    if not d.silence
    then record d {
      output_level =
          if has_bits d.shift 0x01
          then (if leb d.output_level 125 then d.output_level + 2 else d.output_level)
          else (if leb 2 d.output_level then d.output_level - 2 else d.output_level);
      shift = d.shift >>> 1;
    }
    else d

-- The buffer moves into the shifter, and the next byte is asked for.
refill : Dmc × Lines → Dmc × Lines
refill (d, l) =
    let d' = record d { bits_remaining = 8; silence = d.buffer_empty } in
    if not d.buffer_empty
    then (
      record d' { shift = d.sample_buffer; buffer_empty = true },
      if ltb 0 d.bytes_remaining then Lines.start_dmc_dma l else l,
    )
    else (d', l)

-- What a tick of the timer does.
unfoldable pub tick : Dmc × Lines → Dmc × Lines
unfolding shift_out refill
tick (d, l) =
    let d1 = shift_out d in
    let d2 =
      if ltb 0 d1.bits_remaining
      then record d1 { bits_remaining = d1.bits_remaining - 1 }
      else d1 in
    if d2.bits_remaining == 0 then refill (d2, l) else (d2, l)

unfoldable pub clock : Dmc × Lines → Dmc × Lines × ℕ
clock (d, l) =
    let (timer, ticks) = Timer.clock d.timer in
    let d' = record d { timer = timer } in
    if ltb 0 ticks then (let (d'', l') = tick (d', l) in (d'', l', 1)) else (d', l, 0)

unfoldable pub output : Dmc → ℕ
output d = if d.force_silent then 0 else d.output_level

unfoldable pub set_region : NesRegion → Dmc → Dmc
set_region region d = record d {
  region = region;
  timer = record (d.timer) { period = period region 0 };
}

unfoldable pub reset : ResetKind → Dmc → Dmc
reset kind d =
    let timer = Timer.reload (record (Timer.reset d.timer) { period = period d.region 0 }) in
    let d1 = record d { timer = record timer { cycle = usize (timer.cycle + 1) } } in
    let d2 = if is_hard kind then record d1 { sample_addr = 0xc000; sample_length = 1 } else d1 in
    record d2 {
      irq_enabled = false;
      loops = false;
      addr = 0x0000;
      bytes_remaining = 0;
      sample_buffer = 0;
      buffer_empty = true;
      output_level = 0;
      bits_remaining = 8;
      shift = 0;
      silence = true;
      clocking = false;
    }
