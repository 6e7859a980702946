-- ===== src/Apu/Pulse/Sweeping.antt =====
-- The pulse channel's period and duty stay in their ranges, and the sweep unit's target.
use tetanes.Base.{
  ℕ, zero, suc, ◌+◌, ◌*◌, ◌/◌, ◌%◌, ◌≤◌, ◌<◌, ◌≡◌, refl, Bool, List, [], ◌∷◌, arith, All,
  All-get_or, u8, sub_u8, bit_and, bit_or, get_or,
}
use tetanes.Base.Bits.{bit_and_mask, bit_and_field, bit_or_fields, bit_or_fields_right}
use tetanes.Common.{ResetKind}
use tetanes.Apu.Envelope
use tetanes.Apu.Envelope.Laws.{
  clock-IsValid, write_ctrl-IsValid, restart-IsValid, reset-IsValid, output-le, new-IsValid,
}
use tetanes.Apu.Pulse.{
  Pulse, PulseChannel, OutputFreq, new, target_of, set_period, clock_sweep, clock_quarter_frame,
  clock_half_frame, write_ctrl, write_sweep, write_timer_lo, write_timer_hi, set_enabled,
  set_silent, clock, reset, output, volume, duty_table, put_divider, sweep_period, sweep_reload,
  sweep_divider,
}

pub record IsValid (p : Pulse) : Type 0 where
  pub period_le : p.real_period ≤ 0x7ff
  pub target_eq :
      p.sweep.target_period ≡ target_of p.channel p.sweep.negate p.sweep.shift p.real_period
  pub duty_lt : p.duty < 4
  pub duty_cycle_lt : p.duty_cycle < 8
  pub envelope : Envelope.Laws.IsValid p.envelope

start-IsValid : (c : PulseChannel) (o : OutputFreq) → IsValid (new c o)
unfolding new target_of
start-IsValid c o = record {
  period_le = omega arith;
  target_eq = refl;
  duty_lt = omega arith;
  duty_cycle_lt = omega arith;
  envelope = new-IsValid;
}

set_period-IsValid :
    (period : ℕ) (p : Pulse) → period ≤ 0x7ff → IsValid p → IsValid (set_period period p)
unfolding set_period
set_period-IsValid period p h v = record {
  period_le = h;
  target_eq = refl;
  duty_lt = v.duty_lt;
  duty_cycle_lt = v.duty_cycle_lt;
  envelope = v.envelope;
}

put_divider-IsValid : (n : ℕ) (p : Pulse) → IsValid p → IsValid (put_divider n p)
put_divider-IsValid n p v = record {
  period_le = v.period_le;
  target_eq = v.target_eq;
  duty_lt = v.duty_lt;
  duty_cycle_lt = v.duty_cycle_lt;
  envelope = v.envelope;
}

sweep_period-IsValid : (p : Pulse) → IsValid p → IsValid (sweep_period p)
unfolding sweep_period
sweep_period-IsValid p v = grind (
  arith,
  v,
  λ (h : p.sweep.target_period ≤ 0x7ff). set_period-IsValid p.sweep.target_period p h v,
)

sweep_reload-IsValid : (p : Pulse) → IsValid p → IsValid (sweep_reload p)
unfolding sweep_reload
sweep_reload-IsValid p v = ground arith

sweep_divider-IsValid : (p : Pulse) → IsValid p → IsValid (sweep_divider p)
unfolding sweep_divider
sweep_divider-IsValid p v =
    let q = sweep_period p in
    ground (
      arith,
      sweep_period-IsValid p v,
      put_divider-IsValid q.sweep.period q (sweep_period-IsValid p v),
    )

clock_sweep-IsValid : (p : Pulse) → IsValid p → IsValid (clock_sweep p)
unfolding clock_sweep
clock_sweep-IsValid p v =
    sweep_reload-IsValid _
      (sweep_divider-IsValid _ (put_divider-IsValid (sub_u8 p.sweep.divider 1) p v))

quarter-IsValid : (p : Pulse) → IsValid p → IsValid (clock_quarter_frame p)
unfolding clock_quarter_frame
quarter-IsValid p v = ground (arith, clock-IsValid v.envelope)

half-IsValid : (p : Pulse) → IsValid p → IsValid (clock_half_frame p)
unfolding clock_half_frame
half-IsValid p v = clock_sweep-IsValid _ (ground (arith, clock-IsValid v.envelope))

ctrl-IsValid : (val : ℕ) (p : Pulse) → val < 256 → IsValid p → IsValid (write_ctrl val p)
unfolding write_ctrl
ctrl-IsValid val p h v =
    ground
      (arith, bit_and_field 6 val 3, bit_and_mask 2 (val / 64), write_ctrl-IsValid val v.envelope)

write_sweep-IsValid : (val : ℕ) (p : Pulse) → IsValid p → IsValid (write_sweep val p)
unfolding write_sweep
write_sweep-IsValid val p v = ground arith

-- Writing one half of the period keeps the other, in eleven bits.
timer_lo_sum : (r val : ℕ) → val < 256 → bit_or (bit_and r 0x0700) val ≡ r / 256 % 8 * 256 + val
timer_lo_sum r val h =
    rw (bit_and_field 8 r 7, bit_and_mask 3 (r / 256)) (bit_or_fields 8 (r / 256 % 8) val h)

timer_hi_sum :
    (r val : ℕ) → bit_or (bit_and r 0xff) (bit_and val 0x07 * 256) ≡ val % 8 * 256 + r % 256
timer_hi_sum r val =
    rw (bit_and_mask 8 r, bit_and_mask 3 val)
      (bit_or_fields_right 8 (val % 8) (r % 256) (omega arith))

-- The two timer writes together set the eleven bits of the period, low byte and high bits, whatever
-- it was before, and the timer's own period is twice that and one.
pub write_timer-period :
    (lo hi : ℕ) (p : Pulse)
    → lo < 256
    → let q = write_timer_hi hi (write_timer_lo lo p) in
      (q.real_period ≡ hi % 8 * 256 + lo) × (q.timer.period ≡ 2 * q.real_period + 1)
unfolding write_timer_hi write_timer_lo set_period
write_timer-period lo hi p h =
    let low = timer_lo_sum p.real_period lo h in
    let high = timer_hi_sum (bit_or (bit_and p.real_period 0x0700) lo) hi in
    ground (arith, low, high)

timer_lo-IsValid : (val : ℕ) (p : Pulse) → val < 256 → IsValid p → IsValid (write_timer_lo val p)
unfolding write_timer_lo
timer_lo-IsValid val p h v =
    set_period-IsValid _ p (omega (arith, timer_lo_sum p.real_period val h)) v

timer_hi-IsValid : (val : ℕ) (p : Pulse) → IsValid p → IsValid (write_timer_hi val p)
unfolding write_timer_hi set_period
timer_hi-IsValid val p v =
    ground (arith, timer_hi_sum p.real_period val, restart-IsValid v.envelope)

clock-IsValid' : (p : Pulse) → IsValid p → IsValid (clock p).0
unfolding clock
clock-IsValid' p v = ground (arith, bit_and_mask 3 (sub_u8 p.duty_cycle 1))

pulse_reset-IsValid : (k : ResetKind) (p : Pulse) → IsValid p → IsValid (reset k p)
unfolding reset
pulse_reset-IsValid k p v = ground (arith, reset-IsValid v.envelope)

-- Everything that the APU does to the channel.
pub data Op : Type 0 where
  clock_op quarter_op half_op : Op
  ctrl_op sweep_op timer_lo_op timer_hi_op : ℕ → Op
  enabled_op silent_op : Bool → Op
  reset_op : ResetKind → Op

abbrev pub apply : Op → Pulse → Pulse
apply clock_op p = (clock p).0
apply quarter_op p = clock_quarter_frame p
apply half_op p = clock_half_frame p
apply (ctrl_op val) p = write_ctrl (u8 val) p
apply (sweep_op val) p = write_sweep (u8 val) p
apply (timer_lo_op val) p = write_timer_lo (u8 val) p
apply (timer_hi_op val) p = write_timer_hi (u8 val) p
apply (enabled_op b) p = set_enabled b p
apply (silent_op b) p = set_silent b p
apply (reset_op k) p = reset k p

abbrev pub run : List Op → Pulse → Pulse
run [] p = p
run (op ∷ ops) p = run ops (apply op p)

apply-IsValid : (op : Op) (p : Pulse) → IsValid p → IsValid (apply op p)
unfolding set_enabled set_silent
apply-IsValid clock_op p v = clock-IsValid' p v
apply-IsValid quarter_op p v = quarter-IsValid p v
apply-IsValid half_op p v = half-IsValid p v
apply-IsValid (ctrl_op val) p v = ctrl-IsValid (u8 val) p (omega arith) v
apply-IsValid (sweep_op val) p v = write_sweep-IsValid (u8 val) p v
apply-IsValid (timer_lo_op val) p v = timer_lo-IsValid (u8 val) p (omega arith) v
apply-IsValid (timer_hi_op val) p v = timer_hi-IsValid (u8 val) p v
apply-IsValid (enabled_op b) p v = ground arith
apply-IsValid (silent_op b) p v = ground arith
apply-IsValid (reset_op k) p v = pulse_reset-IsValid k p v

run-IsValid : (ops : List Op) (p : Pulse) → IsValid p → IsValid (run ops p)
run-IsValid [] p v = v
run-IsValid (op ∷ ops) p v = run-IsValid ops (apply op p) (apply-IsValid op p v)

duty_small : All (All (λ (n : ℕ). n ≤ 1)) duty_table
unfolding duty_table
duty_small = omega arith

gate_le : (b v : ℕ) → b ≤ 1 → v ≤ 15 → b * v ≤ 15
gate_le zero v h k = omega arith
gate_le (suc zero) v h k = omega arith
gate_le (suc (suc b)) v h k = absurd (omega arith)

volume_le : (p : Pulse) → IsValid p → volume p ≤ 15
unfolding volume
volume_le p v = ground (arith, output-le v.envelope)

output_le : (p : Pulse) → IsValid p → output p ≤ 15
unfolding output
output_le p v =
    let row = All-get_or (All (λ (n : ℕ). n ≤ 1)) duty_table p.duty [] tt duty_small in
    let bit =
      All-get_or (λ (n : ℕ). n ≤ 1) (get_or duty_table p.duty []) p.duty_cycle 0 (omega arith)
        row in
    let b = get_or (get_or duty_table p.duty []) p.duty_cycle 0 in
    ground (arith, gate_le b (volume p) bit (volume_le p v))

-- After anything that is done to either channel from power-on, sweeps included, the period fits
-- eleven bits, the duty indices lie in the table, and the output fits four bits.
pub pulse_run-bounds :
    (c : PulseChannel) (o : OutputFreq) (ops : List Op)
    → let p = run ops (new c o) in
      (p.real_period ≤ 0x7ff) × (p.duty < 4) × (p.duty_cycle < 8) × (output p ≤ 15)
pulse_run-bounds c o ops =
    let v = run-IsValid ops (new c o) (start-IsValid c o) in
    (v.period_le, v.duty_lt, v.duty_cycle_lt, output_le (run ops (new c o)) v)
