-- ===== src/Apu/Noise.antt =====
-- tetanes-core/src/apu/noise.rs: the noise channel, a 15-bit shift register.
pub mod Register
use tetanes.Base.{
  ℕ, ◌-◌, Bool, true, false, ◌||◌, if◌then◌else◌, ltb, ◌==◌, List, [], ◌∷◌, get_or, has_bits,
  bit_and, bit_or, bit_xor, ◌<<<◌, ◌>>>◌,
}
use tetanes.Common.{NesRegion, pal, ResetKind}
use tetanes.Apu.Timer
use tetanes.Apu.Timer.{Timer}
use tetanes.Apu.Envelope
use tetanes.Apu.Envelope.{Envelope}
use tetanes.Apu.LengthCounter
use tetanes.Apu.LengthCounter.{LengthCounter, Channel}

-- Zero and One of the source.
pub data ShiftMode : Type 0 where
  mode_zero mode_one : ShiftMode

pub record Noise : Type 0 where
  pub region : NesRegion
  pub timer : Timer
  pub shift : ℕ
  pub shift_mode : ShiftMode
  pub length : LengthCounter
  pub envelope : Envelope
  pub force_silent : Bool

unfoldable pub period_table_ntsc : List ℕ
period_table_ntsc =
    4 ∷ 8 ∷ 16 ∷ 32 ∷ 64 ∷ 96 ∷ 128 ∷ 160 ∷ 202 ∷ 254 ∷ 380 ∷ 508 ∷ 762 ∷ 1016 ∷ 2034 ∷ 4068 ∷ []

unfoldable pub period_table_pal : List ℕ
period_table_pal =
    4 ∷ 8 ∷ 14 ∷ 30 ∷ 60 ∷ 88 ∷ 118 ∷ 148 ∷ 188 ∷ 236 ∷ 354 ∷ 472 ∷ 708 ∷ 944 ∷ 1890 ∷ 3778 ∷ []

-- The table entries are not 0, so `- 1` is exact.
unfoldable pub period : NesRegion → ℕ → ℕ
unfolding period_table_ntsc period_table_pal
period pal val = get_or period_table_pal (bit_and val 0x0f) 0 - 1
period _ val = get_or period_table_ntsc (bit_and val 0x0f) 0 - 1

unfoldable pub new : NesRegion → Noise
new region = record {
  region = region;
  timer = Timer.new (period region 0);
  shift = 1;
  shift_mode = mode_zero;
  length = LengthCounter.new Channel.noise;
  envelope = Envelope.new;
  force_silent = false;
}

unfoldable pub is_muted : Noise → Bool
is_muted n = has_bits n.shift 0x01 || n.force_silent

unfoldable pub set_silent : Bool → Noise → Noise
set_silent silent n = record n { force_silent = silent }

unfoldable pub clock_quarter_frame : Noise → Noise
clock_quarter_frame n = record n { envelope = Envelope.clock n.envelope }

unfoldable pub clock_half_frame : Noise → Noise
unfolding clock_quarter_frame
clock_half_frame n =
    let n' = clock_quarter_frame n in record n' { length = (LengthCounter.clock n'.length).0 }

unfoldable pub write_ctrl : ℕ → Noise → Noise
write_ctrl val n = record n {
  length = LengthCounter.write_ctrl (has_bits val 0x20) n.length;
  envelope = Envelope.write_ctrl val n.envelope;
}

unfoldable pub write_timer : ℕ → Noise → Noise
write_timer val n = record n {
  timer = record (n.timer) { period = period n.region val };
  shift_mode = if has_bits val 0x80 then mode_one else mode_zero;
}

unfoldable pub write_length : ℕ → Noise → Noise
write_length val n = record n {
  length = LengthCounter.write (val >>> 3) n.length;
  envelope = Envelope.restart n.envelope;
}

unfoldable pub set_enabled : Bool → Noise → Noise
set_enabled enabled n = record n { length = LengthCounter.set_enabled enabled n.length }

unfoldable pub volume : Noise → ℕ
volume n = if ltb 0 n.length.counter then Envelope.output n.envelope else 0

-- The sample before its conversion to a float.
unfoldable pub output : Noise → ℕ
unfolding is_muted volume
output n = if is_muted n then 0 else volume n

abbrev shift_by : ShiftMode → ℕ
shift_by mode_one = 6
shift_by mode_zero = 1

-- The shift register's step; the `u16` keeps `feedback << 14` whole.
unfoldable pub next_shift : ShiftMode → ℕ → ℕ
next_shift mode shift =
    let feedback = bit_xor (bit_and shift 0x01) (bit_and (shift >>> shift_by mode) 0x01) in
    bit_or (shift >>> 1) (feedback <<< 14)

unfoldable pub clock : Noise → Noise × ℕ
clock n =
    let (timer, ticks) = Timer.clock n.timer in
    let n' = record n { timer = timer } in
    if ltb 0 ticks then (record n' { shift = next_shift n.shift_mode n.shift }, 1) else (n', 0)

unfoldable pub set_region : NesRegion → Noise → Noise
set_region region n = record n { region = region }

unfoldable pub reset : ResetKind → Noise → Noise
reset kind n = record n {
  timer = record (Timer.reset n.timer) { period = period n.region 0 };
  length = LengthCounter.reset kind n.length;
  envelope = Envelope.reset n.envelope;
  shift = 1;
  shift_mode = mode_zero;
}
