-- ===== src/Apu/Triangle.antt =====
-- tetanes-core/src/apu/triangle.rs: the triangle channel with its linear counter.
pub mod Sequencer
use tetanes.Base.{
  ℕ, ◌+◌, ◌-◌, ◌*◌, Bool, true, false, not, ◌&&◌, if◌then◌else◌, ltb, List, [], ◌∷◌, get_or,
  has_bits, bit_and, bit_or, ◌<<<◌, ◌>>>◌, u8,
}
use tetanes.Common.{ResetKind}
use tetanes.Apu.Timer
use tetanes.Apu.Timer.{Timer}
use tetanes.Apu.LengthCounter
use tetanes.Apu.LengthCounter.{LengthCounter, Channel}

pub record LinearCounter : Type 0 where
  pub reload : Bool
  pub control : Bool
  pub counter_reload : ℕ
  pub counter : ℕ

pub record Triangle : Type 0 where
  pub timer : Timer
  pub sequence : ℕ
  pub length : LengthCounter
  pub linear : LinearCounter
  pub force_silent : Bool

-- `LinearCounter::new`, and its `reset`.
unfoldable pub linear_new : LinearCounter
linear_new = record { reload = false; control = false; counter_reload = 0; counter = 0 }

-- `LinearCounter::write`.
unfoldable pub linear_write : ℕ → LinearCounter → LinearCounter
linear_write val c = record c { counter_reload = val }

-- `LinearCounter::clock`.
unfoldable pub linear_clock : LinearCounter → LinearCounter × ℕ
linear_clock c =
    let c' =
      if c.reload
      then record c { counter = c.counter_reload }
      else if ltb 0 c.counter
      then record c { counter = c.counter - 1 }
      else c in
    let ran : ℕ = if c.reload then 1 else 0 in
    (if not c'.control then record c' { reload = false } else c', ran)

unfoldable pub sequence_table : List ℕ
sequence_table =
    15 ∷ 14 ∷ 13 ∷ 12 ∷ 11 ∷ 10 ∷ 9 ∷ 8 ∷ 7 ∷ 6 ∷ 5 ∷ 4 ∷ 3 ∷ 2 ∷ 1 ∷ 0 ∷ 0 ∷ 1 ∷ 2 ∷ 3 ∷ 4 ∷ 5 ∷ 6
    ∷ 7 ∷ 8 ∷ 9 ∷ 10 ∷ 11 ∷ 12 ∷ 13 ∷ 14 ∷ 15 ∷ []

unfoldable pub new : Triangle
unfolding linear_new
new = record {
  timer = Timer.new 0;
  sequence = 0;
  length = LengthCounter.new Channel.triangle;
  linear = linear_new;
  force_silent = false;
}

unfoldable pub set_silent : Bool → Triangle → Triangle
set_silent silent t = record t { force_silent = silent }

unfoldable pub clock_quarter_frame : Triangle → Triangle
unfolding linear_clock
clock_quarter_frame t = record t { linear = (linear_clock t.linear).0 }

unfoldable pub clock_half_frame : Triangle → Triangle
unfolding clock_quarter_frame
clock_half_frame t =
    let t' = clock_quarter_frame t in record t' { length = (LengthCounter.clock t'.length).0 }

unfoldable pub write_linear_counter : ℕ → Triangle → Triangle
unfolding linear_write
write_linear_counter val t =
    let control = has_bits val 0x80 in
    record t {
      linear = linear_write (bit_and val 0x7f) (record (t.linear) { control = control });
      length = LengthCounter.write_ctrl control t.length;
    }

unfoldable pub write_timer_lo : ℕ → Triangle → Triangle
write_timer_lo val t = record t {
  timer = record (t.timer) { period = bit_or (bit_and t.timer.period 0xff00) val };
}

unfoldable pub write_timer_hi : ℕ → Triangle → Triangle
write_timer_hi val t = record t {
  length = LengthCounter.write (val >>> 3) t.length;
  timer = record (t.timer) {
    period = bit_or (bit_and t.timer.period 0x00ff) (bit_and val 0x07 <<< 8);
  };
  linear = record (t.linear) { reload = true };
}

unfoldable pub set_enabled : Bool → Triangle → Triangle
set_enabled enabled t = record t { length = LengthCounter.set_enabled enabled t.length }

-- Twice the sample before its conversion to a float, since the ultrasonic case plays 7.5.
unfoldable pub output_doubled : Triangle → ℕ
unfolding sequence_table
output_doubled t =
    if t.force_silent
    then 0
    else if ltb t.timer.period 2
    then 15
    else 2 * get_or sequence_table t.sequence 0

unfoldable pub clock : Triangle → Triangle × ℕ
clock t =
    let (timer, ticks) = Timer.clock t.timer in
    let t' = record t { timer = timer } in
    if ltb 0 ticks && (ltb 0 t.length.counter && ltb 0 t.linear.counter)
    then (record t' { sequence = bit_and (u8 (t.sequence + 1)) 0x1f }, 1)
    else (t', 0)

-- The timer is not reset.
unfoldable pub reset : ResetKind → Triangle → Triangle
unfolding linear_new
reset kind t = record t {
  length = LengthCounter.reset kind t.length;
  linear = linear_new;
  sequence = 0;
}
