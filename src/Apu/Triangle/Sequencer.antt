-- ===== src/Apu/Triangle/Sequencer.antt =====
-- The triangle's sequencer keeps to its 32 steps and moves only through both gates.
use tetanes.Base.{
  ℕ, ◌+◌, ◌%◌, ◌≤◌, ◌<◌, ◌≡◌, Bool, List, [], ◌∷◌, arith, All, All-get_or, if◌then◌else◌, ltb, ◌&&◌,
  u8,
}
use tetanes.Base.Bits.{bit_and_mask}
use tetanes.Common.{ResetKind}
use tetanes.Apu.Timer
use tetanes.Apu.Triangle.{
  Triangle, new, clock, clock_quarter_frame, clock_half_frame, write_linear_counter, write_timer_lo,
  write_timer_hi, set_enabled, set_silent, reset, output_doubled, sequence_table,
}

-- A tick of the timer moves the sequence on, modulo 32, exactly when both counters let it through;
-- in every other case the sequence stays. The result tells which happened.
clock-sequence :
    (t : Triangle)
    → t.sequence < 32
    → let moves =
        ltb 0 (Timer.clock t.timer).1 && (ltb 0 t.length.counter && ltb 0 t.linear.counter) in
      ((clock t).0.sequence ≡ (if moves then (t.sequence + 1) % 32 else t.sequence))
      × ((clock t).1 ≡ (if moves then 1 else 0))
unfolding clock
clock-sequence t h = ground (arith, bit_and_mask 5 (u8 (t.sequence + 1)))

-- Everything that the APU does to the channel.
pub data Op : Type 0 where
  clock_op quarter_op half_op : Op
  linear_op timer_lo_op timer_hi_op : ℕ → Op
  enabled_op silent_op : Bool → Op
  reset_op : ResetKind → Op

abbrev pub apply : Op → Triangle → Triangle
apply clock_op t = (clock t).0
apply quarter_op t = clock_quarter_frame t
apply half_op t = clock_half_frame t
apply (linear_op val) t = write_linear_counter (u8 val) t
apply (timer_lo_op val) t = write_timer_lo (u8 val) t
apply (timer_hi_op val) t = write_timer_hi (u8 val) t
apply (enabled_op b) t = set_enabled b t
apply (silent_op b) t = set_silent b t
apply (reset_op k) t = reset k t

abbrev pub run : List Op → Triangle → Triangle
run [] t = t
run (op ∷ ops) t = run ops (apply op t)

clock-lt : (t : Triangle) → t.sequence < 32 → (clock t).0.sequence < 32
clock-lt t h = ground (arith, clock-sequence t h)

apply-lt : (op : Op) (t : Triangle) → t.sequence < 32 → (apply op t).sequence < 32
unfolding clock_quarter_frame clock_half_frame write_linear_counter write_timer_lo write_timer_hi
    set_enabled set_silent reset
apply-lt clock_op t h = clock-lt t h
apply-lt (reset_op k) t h = omega arith
apply-lt _ t h = h

run-lt : (ops : List Op) (t : Triangle) → t.sequence < 32 → (run ops t).sequence < 32
run-lt [] t h = h
run-lt (op ∷ ops) t h = run-lt ops (apply op t) (apply-lt op t h)

entries_small : All (λ (n : ℕ). n ≤ 15) sequence_table
unfolding sequence_table
entries_small = omega arith

-- After anything that is done to the channel from power-on, its sequence is an index of the table
-- and twice its output is at most 30.
pub triangle_run-bounds :
    (ops : List Op) → let t = run ops new in (t.sequence < 32) × (output_doubled t ≤ 30)
unfolding output_doubled new
triangle_run-bounds ops =
    let t = run ops new in
    let small =
      All-get_or (λ (n : ℕ). n ≤ 15) sequence_table t.sequence 0 (omega arith) entries_small in
    (run-lt ops new (omega arith), ground (arith, small))
