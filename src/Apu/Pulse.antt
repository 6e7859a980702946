-- ===== src/Apu/Pulse.antt =====
-- tetanes-core/src/apu/pulse.rs: a pulse channel with its sweep unit.
pub mod Sweeping
use tetanes.Base.{
  ℕ, ◌+◌, ◌-◌, ◌*◌, Bool, true, false, not, ◌&&◌, ◌||◌, if◌then◌else◌, ltb, leb, ◌==◌, List, [],
  ◌∷◌, get_or, has_bits, bit_and, bit_or, ◌<<<◌, ◌>>>◌, usize, sub_usize, sub_u8, u8,
}
use tetanes.Common.{ResetKind}
use tetanes.Apu.Timer
use tetanes.Apu.Timer.{Timer}
use tetanes.Apu.Envelope
use tetanes.Apu.Envelope.{Envelope}
use tetanes.Apu.LengthCounter
use tetanes.Apu.LengthCounter.{LengthCounter, Channel, pulse1, pulse2}

-- Default and Ultrasonic of the source.
pub data OutputFreq : Type 0 where
  default_freq ultrasonic : OutputFreq

-- One and Two of the source.
pub data PulseChannel : Type 0 where
  channel_one channel_two : PulseChannel

pub record Sweep : Type 0 where
  pub enabled : Bool
  pub channel : PulseChannel
  pub negate : Bool
  pub reload : Bool
  pub shift : ℕ
  pub timer : ℕ
  pub divider : ℕ
  pub period : ℕ
  pub target_period : ℕ

pub record Pulse : Type 0 where
  pub channel : PulseChannel
  pub real_period : ℕ
  pub timer : Timer
  pub duty : ℕ
  pub duty_cycle : ℕ
  pub length : LengthCounter
  pub envelope : Envelope
  pub sweep : Sweep
  pub force_silent : Bool
  pub output_freq : OutputFreq

-- `Sweep::new`.
unfoldable pub sweep_new : PulseChannel → Sweep
sweep_new channel = record {
  enabled = false;
  channel = channel;
  negate = false;
  reload = false;
  shift = 0;
  timer = 0;
  divider = 0;
  period = 0;
  target_period = 0;
}

-- `Sweep::reset`.
unfoldable pub sweep_reset : Sweep → Sweep
sweep_reset s = record s {
  enabled = false;
  period = 0;
  negate = false;
  reload = false;
  shift = 0;
  divider = 0;
  target_period = 0;
}

unfoldable pub duty_table : List (List ℕ)
duty_table =
    (0 ∷ 0 ∷ 0 ∷ 0 ∷ 0 ∷ 0 ∷ 0 ∷ 1 ∷ [])
    ∷ (0 ∷ 0 ∷ 0 ∷ 0 ∷ 0 ∷ 0 ∷ 1 ∷ 1 ∷ [])
    ∷ (0 ∷ 0 ∷ 0 ∷ 0 ∷ 1 ∷ 1 ∷ 1 ∷ 1 ∷ [])
    ∷ (1 ∷ 1 ∷ 1 ∷ 1 ∷ 1 ∷ 1 ∷ 0 ∷ 0 ∷ [])
    ∷ []

abbrev length_channel : PulseChannel → Channel
length_channel channel_one = pulse1
length_channel channel_two = pulse2

unfoldable pub new : PulseChannel → OutputFreq → Pulse
unfolding sweep_new
new channel output_freq = record {
  channel = channel;
  real_period = 0;
  timer = Timer.new 0;
  duty = 0;
  duty_cycle = 0;
  length = LengthCounter.new (length_channel channel);
  envelope = Envelope.new;
  sweep = sweep_new channel;
  force_silent = false;
  output_freq = output_freq;
}

abbrev is_default : OutputFreq → Bool
is_default default_freq = true
is_default ultrasonic = false

unfoldable pub is_muted : Pulse → Bool
is_muted p =
    is_default p.output_freq
      && (ltb p.real_period 8 || (not p.sweep.negate && ltb 0x7ff p.sweep.target_period))
    || p.force_silent

unfoldable pub set_silent : Bool → Pulse → Pulse
set_silent silent p = record p { force_silent = silent }

abbrev is_one : PulseChannel → Bool
is_one channel_one = true
is_one channel_two = false

-- The period that the sweep unit aims at; `delta` is at most the period, so `-` is exact.
unfoldable pub target_of : PulseChannel → Bool → ℕ → ℕ → ℕ
target_of channel negate shift real_period =
    let delta = real_period >>> shift in
    if negate
    then if is_one channel then sub_usize (real_period - delta) 1 else real_period - delta
    else usize (real_period + delta)

unfoldable pub update_target_period : Pulse → Pulse
update_target_period p = record p {
  sweep = record (p.sweep) {
    target_period = target_of p.channel p.sweep.negate p.sweep.shift p.real_period;
  };
}

unfoldable pub set_period : ℕ → Pulse → Pulse
unfolding update_target_period
set_period period p = update_target_period (record p {
  real_period = period;
  timer = record (p.timer) { period = usize (usize (period * 2) + 1) };
})

abbrev put_divider : ℕ → Pulse → Pulse
put_divider divider p = record p { sweep = record (p.sweep) { divider = divider } }

-- The sweep divider has run out.
sweep_period : Pulse → Pulse
sweep_period p =
    if ltb 0 p.sweep.shift
      && (p.sweep.enabled && (leb 8 p.real_period && leb p.sweep.target_period 0x7ff))
    then set_period p.sweep.target_period p
    else p

sweep_reload : Pulse → Pulse
sweep_reload p =
    if p.sweep.reload
    then record p { sweep = record (p.sweep) { divider = p.sweep.period; reload = false } }
    else p

-- Where the divider has run out, the period follows its target and the divider starts again.
sweep_divider : Pulse → Pulse
sweep_divider p =
    if p.sweep.divider == 0 then (let q = sweep_period p in put_divider q.sweep.period q) else p

pub clock_sweep : Pulse → Pulse
clock_sweep p = sweep_reload (sweep_divider (put_divider (sub_u8 p.sweep.divider 1) p))

unfoldable pub clock_quarter_frame : Pulse → Pulse
clock_quarter_frame p = record p { envelope = Envelope.clock p.envelope }

unfoldable pub clock_half_frame : Pulse → Pulse
unfolding clock_quarter_frame
clock_half_frame p =
    let p' = clock_quarter_frame p in
    clock_sweep (record p' { length = (LengthCounter.clock p'.length).0 })

unfoldable pub write_ctrl : ℕ → Pulse → Pulse
write_ctrl val p = record p {
  length = LengthCounter.write_ctrl (has_bits val 0x20) p.length;
  envelope = Envelope.write_ctrl val p.envelope;
  duty = bit_and val 0xc0 >>> 6;
}

unfoldable pub write_sweep : ℕ → Pulse → Pulse
unfolding update_target_period
write_sweep val p =
    let p' = update_target_period (record p {
      sweep = record (p.sweep) {
        enabled = has_bits val 0x80;
        negate = has_bits val 0x08;
        period = (bit_and val 0x70 >>> 4) + 1;
        shift = bit_and val 0x07;
      };
    }) in
    record p' { sweep = record (p'.sweep) { reload = true } }

unfoldable pub write_timer_lo : ℕ → Pulse → Pulse
write_timer_lo val p = set_period (bit_or (bit_and p.real_period 0x0700) val) p

unfoldable pub write_timer_hi : ℕ → Pulse → Pulse
write_timer_hi val p =
    let p1 = record p { length = LengthCounter.write (val >>> 3) p.length } in
    let p2 = set_period (bit_or (bit_and p1.real_period 0xff) (bit_and val 0x07 <<< 8)) p1 in
    record p2 { duty_cycle = 0; envelope = Envelope.restart p2.envelope }

unfoldable pub set_enabled : Bool → Pulse → Pulse
set_enabled enabled p = record p { length = LengthCounter.set_enabled enabled p.length }

unfoldable pub volume : Pulse → ℕ
volume p = if ltb 0 p.length.counter then Envelope.output p.envelope else 0

-- The sample before its conversion to a float.
unfoldable pub output : Pulse → ℕ
unfolding is_muted duty_table volume
output p =
    if is_muted p then 0 else u8 (get_or (get_or duty_table p.duty []) p.duty_cycle 0 * volume p)

unfoldable pub clock : Pulse → Pulse × ℕ
clock p =
    let (timer, ticks) = Timer.clock p.timer in
    let p' = record p { timer = timer } in
    if ltb 0 ticks
    then (record p' { duty_cycle = bit_and (sub_u8 p.duty_cycle 1) 0x07 }, 1)
    else (p', 0)

unfoldable pub reset : ResetKind → Pulse → Pulse
unfolding update_target_period sweep_reset
reset kind p =
    let p' = update_target_period (record p {
      timer = Timer.reset p.timer;
      length = LengthCounter.reset kind p.length;
      envelope = Envelope.reset p.envelope;
      sweep = sweep_reset p.sweep;
    }) in
    record p' { duty = 0; duty_cycle = 0 }
