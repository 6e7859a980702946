-- ===== src/Apu/FrameCounter.antt =====
-- tetanes-core/src/apu/frame_counter.rs: the sequencer that clocks the channels' envelopes,
-- sweeps and length counters, and raises the frame interrupt. The calls of `on_clock` are the
-- list of frame types in the result, in order.
pub mod Laws
pub mod Running
use tetanes.Base.{
  ℕ, zero, suc, ◌+◌, ◌-◌, ◌<◌, Bool, true, false, not, if◌then◌else◌, ltb, leb, ◌==◌, ◌&&◌, ◌||◌,
  Option, none, some, List, [], ◌∷◌, ◌++◌, get_or, has_bits, usize, u8, sub_u8,
}
use tetanes.Common.{NesRegion, pal, ResetKind, is_hard}
use tetanes.Cpu.Lines
use tetanes.Cpu.Lines.{Lines, IrqSource}

pub data FrameType : Type 0 where
  no_frame quarter half : FrameType

pub record FrameCounter : Type 0 where
  pub region : NesRegion
  pub step_cycles : List (List ℕ)
  pub step : ℕ
  pub mode : ℕ
  pub write_buffer : Option ℕ
  pub write_delay : ℕ
  pub block_counter : ℕ
  pub cycle : ℕ
  pub inhibit_irq : Bool

unfoldable pub step_cycles_ntsc : List (List ℕ)
step_cycles_ntsc =
    (7457 ∷ 14913 ∷ 22371 ∷ 29828 ∷ 29829 ∷ 29830 ∷ [])
    ∷ (7457 ∷ 14913 ∷ 22371 ∷ 29829 ∷ 37281 ∷ 37282 ∷ [])
    ∷ []

unfoldable pub step_cycles_pal : List (List ℕ)
step_cycles_pal =
    (8313 ∷ 16627 ∷ 24939 ∷ 33252 ∷ 33253 ∷ 33254 ∷ [])
    ∷ (8313 ∷ 16627 ∷ 24939 ∷ 33253 ∷ 41565 ∷ 41566 ∷ [])
    ∷ []

unfoldable pub frame_type : List FrameType
frame_type = quarter ∷ half ∷ quarter ∷ no_frame ∷ half ∷ no_frame ∷ []

unfoldable pub step_cycles_of : NesRegion → List (List ℕ)
unfolding step_cycles_ntsc step_cycles_pal
step_cycles_of pal = step_cycles_pal
step_cycles_of _ = step_cycles_ntsc

unfoldable pub new : NesRegion → FrameCounter
unfolding step_cycles_of
new region = record {
  region = region;
  step_cycles = step_cycles_of region;
  step = 0;
  mode = 0;
  write_buffer = none;
  write_delay = 0;
  block_counter = 0;
  cycle = 0;
  inhibit_irq = false;
}

unfoldable pub set_region : NesRegion → FrameCounter → FrameCounter
unfolding step_cycles_of
set_region region f = record f { region = region; step_cycles = step_cycles_of region }

-- A write to $4017 at the given CPU cycle.
unfoldable pub write : ℕ → ℕ → FrameCounter × Lines → FrameCounter × Lines
write val cycle (f, l) =
    let inhibit = has_bits val 0x40 in
    (
      record f {
        write_buffer = some val;
        write_delay = if has_bits cycle 0x01 then 4 else 3;
        inhibit_irq = inhibit;
      },
      if inhibit then Lines.clear_irq IrqSource.frame_counter l else l,
    )

-- `step_cycles[mode][step]`.
abbrev pub step_cycles_at : FrameCounter → ℕ
step_cycles_at f = get_or (get_or f.step_cycles f.mode []) f.step 0

abbrev is_some {ℓ} : {A : Type ℓ} → Option A → Bool
is_some none = false
is_some (some a) = true

-- Whether `clock_with` has to run; the entries of the tables are not 0, so `- 1` is exact.
unfoldable pub should_clock : ℕ → FrameCounter → Bool
should_clock cycles f =
    is_some f.write_buffer
    || ltb 0 f.block_counter
    || leb (step_cycles_at f - 1) (usize (f.cycle + cycles))

abbrev is_no_frame : FrameType → Bool
is_no_frame no_frame = true
is_no_frame _ = false

-- What one call of `clock_with` hands to the next part of it.
pub record Progress : Type 0 where
  pub frame : FrameCounter
  pub lines : Lines
  pub cycles_ran : ℕ
  pub clocked : List FrameType

-- The first part, where a step of the sequence is reached: interrupt, frame, next step.
unfoldable pub finish_step : ℕ → FrameCounter → Lines → Progress
unfolding frame_type
finish_step cycles f l =
    let step_cycles = step_cycles_at f in
    let ty = get_or frame_type f.step no_frame in
    let runs = not (is_no_frame ty) && f.block_counter == 0 in
    let ran = if leb f.cycle step_cycles then step_cycles - f.cycle else 0 in
    let f' = if runs then record f { block_counter = 2 } else f in
    let step = usize (f.step + 1) in
    record {
      frame =
          if step == 6
          then record f' { step = 0; cycle = 0 }
          else record f' { step = step; cycle = usize (f.cycle + ran) };
      lines =
          if not f.inhibit_irq && (f.mode == 0 && leb 3 f.step)
          then Lines.set_irq IrqSource.frame_counter l
          else l;
      cycles_ran = ran;
      clocked = if runs then ty ∷ [] else [];
    }

-- The first part, whole.
unfoldable pub advance : ℕ → FrameCounter → Lines → Progress
unfolding finish_step
advance cycles f l =
    if leb (step_cycles_at f) (usize (f.cycle + cycles)) then finish_step cycles f l else record {
      frame = record f { cycle = usize (f.cycle + cycles) };
      lines = l;
      cycles_ran = cycles;
      clocked = [];
    }

-- The write of $4017 takes effect.
apply_write : ℕ → Progress → Progress
apply_write val p =
    let mode = if has_bits val 0x80 then 1 else 0 in
    let f = record (p.frame) { mode = mode; step = 0; cycle = 0; write_buffer = none } in
    if mode == 1 && f.block_counter == 0
    then record p { frame = record f { block_counter = 2 }; clocked = p.clocked ++ half ∷ [] }
    else record p { frame = f }

-- The second part: a pending write counts down.
delayed_write : Option ℕ → Progress → Progress
unfolding apply_write
delayed_write none p = p
delayed_write (some val) p =
    let delay = sub_u8 p.frame.write_delay 1 in
    let p' = record p { frame = record (p.frame) { write_delay = delay } } in
    if delay == 0 then apply_write val p' else p'

-- The third part: frames are blocked for one call less.
unblock : Progress → Progress
unblock p =
    if ltb 0 p.frame.block_counter
    then record p { frame = record (p.frame) { block_counter = p.frame.block_counter - 1 } }
    else p

unfoldable pub clock_with : ℕ → FrameCounter → Lines → Progress
unfolding advance delayed_write unblock
clock_with cycles f l = let p = advance cycles f l in unblock (delayed_write p.frame.write_buffer p)

unfoldable pub reset : ResetKind → FrameCounter × Lines → FrameCounter × Lines
unfolding write
reset kind (f, l) =
    let f0 = record f { cycle = 0 } in
    let written = write 0x00 0 (record f0 { mode = 0 }, l) in
    let started : FrameCounter × Lines =
      if is_hard kind
      then (record (written.0) { write_delay = sub_u8 written.0.write_delay 1 }, written.1)
      else (f0, l) in
    let (f1, l1) = started in (record f1 { step = 0; block_counter = 0 }, l1)
