-- ===== src/Apu/Noise/Register.antt =====
-- The noise channel's shift register never reaches the stuck state 0, and no step loses state.
use tetanes.Base.{ℕ, ◌+◌, ◌*◌, ◌/◌, ◌%◌, ◌<◌, ◌≡◌, Bool, List, [], ◌∷◌, arith}
use tetanes.Base.Bits.{bit_and-one, bit_or_fields_right, bit_xor_bits}
use tetanes.Common.{NesRegion, ResetKind}
use tetanes.Apu.Noise.{
  Noise, ShiftMode, mode_zero, mode_one, new, next_shift, clock, write_ctrl, write_timer,
  write_length, set_enabled, set_silent, clock_quarter_frame, clock_half_frame, set_region, reset,
}

-- The bit that is compared with the lowest one.
abbrev tap : ShiftMode → ℕ → ℕ
tap mode_one shift = shift / 64 % 2
tap mode_zero shift = shift / 2 % 2

next_shift_sum :
    (mode : ShiftMode) (shift : ℕ)
    → shift < 32768
    → next_shift mode shift ≡ (shift % 2 + tap mode shift) % 2 * 16384 + shift / 2
unfolding next_shift
next_shift_sum mode_one shift h =
    rw
      (
        bit_and-one shift,
        bit_and-one (shift / 64),
        bit_xor_bits (shift % 2) (shift / 64 % 2) (omega arith) (omega arith),
      )
      (bit_or_fields_right 14 ((shift % 2 + shift / 64 % 2) % 2) (shift / 2) (omega arith))
next_shift_sum mode_zero shift h =
    rw
      (
        bit_and-one shift,
        bit_and-one (shift / 2),
        bit_xor_bits (shift % 2) (shift / 2 % 2) (omega arith) (omega arith),
      )
      (bit_or_fields_right 14 ((shift % 2 + shift / 2 % 2) % 2) (shift / 2) (omega arith))

abbrev pub IsLive : ℕ → Type 0
IsLive shift = (0 < shift) × (shift < 32768)

pub next_shift-IsLive :
    (mode : ShiftMode) (shift : ℕ) → IsLive shift → IsLive (next_shift mode shift)
next_shift-IsLive mode_one shift h = omega (arith, next_shift_sum mode_one shift h.1)
next_shift-IsLive mode_zero shift h = omega (arith, next_shift_sum mode_zero shift h.1)

-- In either mode two different 15-bit register contents have different successors, so the
-- register's step is a permutation and no content is ever lost.
pub next_shift-injective :
    (mode : ShiftMode) (s t : ℕ)
    → s < 32768
    → t < 32768
    → next_shift mode s ≡ next_shift mode t
    → s ≡ t
next_shift-injective mode_one s t hs ht e =
    omega (arith, next_shift_sum mode_one s hs, next_shift_sum mode_one t ht)
next_shift-injective mode_zero s t hs ht e =
    omega (arith, next_shift_sum mode_zero s hs, next_shift_sum mode_zero t ht)

-- Everything that the APU does to the channel.
pub data Op : Type 0 where
  clock_op quarter_op half_op : Op
  ctrl_op timer_op length_op : ℕ → Op
  enabled_op silent_op : Bool → Op
  region_op : NesRegion → Op
  reset_op : ResetKind → Op

abbrev pub apply : Op → Noise → Noise
apply clock_op n = (clock n).0
apply quarter_op n = clock_quarter_frame n
apply half_op n = clock_half_frame n
apply (ctrl_op val) n = write_ctrl val n
apply (timer_op val) n = write_timer val n
apply (length_op val) n = write_length val n
apply (enabled_op b) n = set_enabled b n
apply (silent_op b) n = set_silent b n
apply (region_op r) n = set_region r n
apply (reset_op k) n = reset k n

abbrev pub run : List Op → Noise → Noise
run [] n = n
run (op ∷ ops) n = run ops (apply op n)

clock-IsLive : (n : Noise) → IsLive n.shift → IsLive (clock n).0.shift
unfolding clock
clock-IsLive n h = ground (arith, next_shift-IsLive n.shift_mode n.shift h)

apply-IsLive : (op : Op) (n : Noise) → IsLive n.shift → IsLive (apply op n).shift
unfolding clock_quarter_frame clock_half_frame write_ctrl write_timer write_length set_enabled
    set_silent set_region reset
apply-IsLive clock_op n h = clock-IsLive n h
apply-IsLive (reset_op k) n h = omega arith
apply-IsLive _ n h = h

-- Whatever is done to the channel after power-on, its register keeps to 15 bits and is never 0,
-- the content from which no noise would come any more.
pub run-IsLive : (ops : List Op) (region : NesRegion) → IsLive (run ops (new region)).shift
unfolding new
run-IsLive ops region = from ops (new region) (omega arith)
  where
    from : (ops : List Op) (n : Noise) → IsLive n.shift → IsLive (run ops n).shift
    from [] n h = h
    from (op ∷ ops) n h = from ops (apply op n) (apply-IsLive op n h)
