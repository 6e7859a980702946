-- ===== src/Apu/Clocking.antt =====
-- The clock of tetanes-core/src/apu.rs: the frame counter and the channels, which it runs only when
-- something depends on them. What mixes and filters the outputs is floating point and a parameter;
-- an output is the integer that the code turns into a float.
pub mod Rounds
use tetanes.Base.{
  ℕ, zero, suc, ◌+◌, ◌-◌, ◌*◌, Bool, true, false, not, ◌||◌, if◌then◌else◌, ltb, ◌==◌, List, [],
  ◌∷◌, replicate, set, usize,
}
use tetanes.Common.{NesRegion}
use tetanes.Cpu.Lines.{Lines}
use tetanes.Apu.Timer.{Timer}
use tetanes.Apu.LengthCounter.{LengthCounter}
use tetanes.Apu.LengthCounter
use tetanes.Apu.FrameCounter.{FrameCounter, FrameType, Progress, clock_with}
use tetanes.Apu.FrameCounter
use tetanes.Apu.Pulse.{Pulse, PulseChannel, OutputFreq}
use tetanes.Apu.Pulse
use tetanes.Apu.Triangle.{Triangle}
use tetanes.Apu.Triangle
use tetanes.Apu.Noise.{Noise}
use tetanes.Apu.Noise
use tetanes.Apu.Dmc.{Dmc}
use tetanes.Apu.Dmc

pub data Channel : Type 0 where
  pulse1 pulse2 triangle noise dmc mapper : Channel

-- The place of a channel among the outputs of a cycle.
unfoldable pub offset : Channel → ℕ
offset Channel.pulse1 = 0
offset Channel.pulse2 = 1
offset Channel.triangle = 2
offset Channel.noise = 3
offset Channel.dmc = 4
offset Channel.mapper = 5

abbrev pub max_channel_count : ℕ
max_channel_count = 6

abbrev pub cycle_size : ℕ
cycle_size = 10000

-- The filters, the rates and the samples.
pub record MixerOps (X : Type 0) : Type 0 where
  pub process : List ℕ → ℕ → Bool → X → X
  pub mixer_set_region : NesRegion → X → X

pub record Apu (X : Type 0) : Type 0 where
  pub frame_counter : FrameCounter
  pub master_cycle : ℕ
  pub cpu_cycle : ℕ
  pub cycle : ℕ
  pub region : NesRegion
  pub pulse1 : Pulse
  pub pulse2 : Pulse
  pub triangle : Triangle
  pub noise : Noise
  pub dmc : Dmc
  pub mixer : X
  pub channel_outputs : List ℕ
  pub mapper_silenced : Bool
  pub skip_mixing : Bool
  pub clocking : Bool  -- the field `should_clock`

unfoldable pub default_channel_outputs : List ℕ
default_channel_outputs = replicate (max_channel_count * cycle_size) 0

unfoldable pub new : {X : Type 0} → NesRegion → X → Apu X
unfolding default_channel_outputs
new region mixer = record {
  frame_counter = FrameCounter.new region;
  master_cycle = 0;
  cpu_cycle = 0;
  cycle = 0;
  region = region;
  pulse1 = Pulse.new PulseChannel.channel_one OutputFreq.default_freq;
  pulse2 = Pulse.new PulseChannel.channel_two OutputFreq.default_freq;
  triangle = Triangle.new;
  noise = Noise.new region;
  dmc = Dmc.new region;
  mixer = mixer;
  channel_outputs = default_channel_outputs;
  mapper_silenced = true;
  skip_mixing = false;
  clocking = false;
}

-- `while instance.cycle() < cycle`: a clock, and its output at the cycle that it ends.
unfoldable pub run_channel :
    {T : Type 0} → (T → T) → (T → ℕ) → (T → ℕ) → ℕ → ℕ → ℕ → T × List ℕ → T × List ℕ
run_channel step time output zero cycle place (t, outputs) = (t, outputs)
run_channel step time output (suc fuel) cycle place (t, outputs) =
    let t1 = step t in
    let rest =
      run_channel step time output fuel cycle place
        (t1, set outputs ((time t1 - 1) * max_channel_count + place) (output t1)) in
    if ltb (time t) cycle then rest else (t, outputs)

abbrev zero_time : Timer → Timer
zero_time t = record t { cycle = 0 }

module _ {X : Type 0} where
  unfoldable pub add_mapper_output : ℕ → Apu X → Apu X
  add_mapper_output output a = record a {
    channel_outputs =
        set a.channel_outputs (a.master_cycle * max_channel_count + offset Channel.mapper) output;
  }

  unfoldable pub frame_clock : FrameType → Apu X → Apu X
  frame_clock FrameType.quarter a = record a {
    pulse1 = Pulse.clock_quarter_frame a.pulse1;
    pulse2 = Pulse.clock_quarter_frame a.pulse2;
    triangle = Triangle.clock_quarter_frame a.triangle;
    noise = Noise.clock_quarter_frame a.noise;
  }
  frame_clock FrameType.half a = record a {
    pulse1 = Pulse.clock_half_frame a.pulse1;
    pulse2 = Pulse.clock_half_frame a.pulse2;
    triangle = Triangle.clock_half_frame a.triangle;
    noise = Noise.clock_half_frame a.noise;
  }
  frame_clock FrameType.no_frame a = a

  -- The frames with which `clock_with` calls back.
  unfoldable pub frame_clocks : List FrameType → Apu X → Apu X
  unfolding frame_clock
  frame_clocks [] a = a
  frame_clocks (ty ∷ rest) a = frame_clocks rest (frame_clock ty a)

  unfoldable pub reload_lengths : Apu X → Apu X
  reload_lengths a = record a {
    pulse1 = record a.pulse1 { length = LengthCounter.reload a.pulse1.length };
    pulse2 = record a.pulse2 { length = LengthCounter.reload a.pulse2.length };
    triangle = record a.triangle { length = LengthCounter.reload a.triangle.length };
    noise = record a.noise { length = LengthCounter.reload a.noise.length };
  }

  -- A channel needs a clock for each cycle that it is behind.
  unfoldable pub channel_clock_to : Channel → ℕ → Apu X → Lines → Apu X × Lines
  unfolding run_channel
  channel_clock_to Channel.pulse1 cycle a l =
      let (p, outputs) =
        run_channel (λ p. (Pulse.clock p).0) (λ (p : Pulse). p.timer.cycle) Pulse.output
          (cycle - a.pulse1.timer.cycle) cycle (offset Channel.pulse1)
          (a.pulse1, a.channel_outputs) in
      (record a { pulse1 = p; channel_outputs = outputs }, l)
  channel_clock_to Channel.pulse2 cycle a l =
      let (p, outputs) =
        run_channel (λ p. (Pulse.clock p).0) (λ (p : Pulse). p.timer.cycle) Pulse.output
          (cycle - a.pulse2.timer.cycle) cycle (offset Channel.pulse2)
          (a.pulse2, a.channel_outputs) in
      (record a { pulse2 = p; channel_outputs = outputs }, l)
  channel_clock_to Channel.triangle cycle a l =
      let (t, outputs) =
        run_channel (λ t. (Triangle.clock t).0) (λ (t : Triangle). t.timer.cycle)
          Triangle.output_doubled (cycle - a.triangle.timer.cycle) cycle (offset Channel.triangle)
          (a.triangle, a.channel_outputs) in
      (record a { triangle = t; channel_outputs = outputs }, l)
  channel_clock_to Channel.noise cycle a l =
      let (n, outputs) =
        run_channel (λ n. (Noise.clock n).0) (λ (n : Noise). n.timer.cycle) Noise.output
          (cycle - a.noise.timer.cycle) cycle (offset Channel.noise) (a.noise, a.channel_outputs) in
      (record a { noise = n; channel_outputs = outputs }, l)
  channel_clock_to Channel.dmc cycle a l =
      let step : Dmc × Lines → Dmc × Lines = λ s. (let (d, l1, ticks) = Dmc.clock s in (d, l1)) in
      let ((d, l1), outputs) =
        run_channel step (λ (s : Dmc × Lines). s.0.timer.cycle)
          (λ (s : Dmc × Lines). Dmc.output s.0) (cycle - a.dmc.timer.cycle) cycle
          (offset Channel.dmc) ((a.dmc, l), a.channel_outputs) in
      (record a { dmc = d; channel_outputs = outputs }, l1)
  channel_clock_to Channel.mapper cycle a l = (a, l)

  abbrev clock_channels : List Channel → Apu X × Lines → Apu X × Lines
  unfolding channel_clock_to
  clock_channels [] r = r
  clock_channels (c ∷ rest) (a, l) = clock_channels rest (channel_clock_to c a.cycle a l)

  -- One round of the loop of `clock_to`.
  unfoldable pub clock_round : Apu X → Lines → Apu X × Lines
  unfolding frame_clocks reload_lengths channel_clock_to
  clock_round a l =
      let p = clock_with (a.master_cycle - a.cycle) a.frame_counter l in
      let a1 = frame_clocks p.clocked (record a { frame_counter = p.frame }) in
      let a2 = reload_lengths (record a1 { cycle = usize (a.cycle + p.cycles_ran) }) in
      clock_channels
        (Channel.pulse1 ∷ Channel.pulse2 ∷ Channel.triangle ∷ Channel.noise ∷ Channel.dmc ∷ [])
        (a2, p.lines)

  unfoldable pub clock_rounds : ℕ → Apu X → Lines → Apu X × Lines
  unfolding clock_round
  clock_rounds zero a l = (a, l)
  clock_rounds (suc fuel) a l =
      let (a1, l1) = clock_round a l in
      let rest = clock_rounds fuel a1 l1 in
      if ltb 0 (a.master_cycle - a.cycle) then rest else (a, l)

  -- A round runs at least one cycle, but for six that leave steps behind which a change of the
  -- region has put in the past.
  unfoldable pub clock_to : ℕ → Apu X → Lines → ℕ × Apu X × Lines
  unfolding clock_rounds
  clock_to cycle a l =
      let a1 = record a { master_cycle = cycle } in
      let (a2, l2) = clock_rounds (cycle - a.cycle + 6) a1 l in (cycle - a.cycle, a2, l2)

  unfoldable pub should_clock : Apu X → Lines → Bool × Apu X × Lines
  should_clock a l =
      let (d, l1, running) = Dmc.should_clock (a.dmc, l) in
      let a1 = record a { dmc = d } in
      let cycles = a.master_cycle - a.cycle in
      if running || a.clocking
      then (true, record a1 { clocking = false }, l1)
      else (FrameCounter.should_clock cycles a.frame_counter || Dmc.irq_pending_in cycles d, a1, l1)

module _ {X : Type 0} (ops : MixerOps X) where
  unfoldable pub process_outputs : Apu X → Apu X
  process_outputs a = if a.skip_mixing then a else record a {
    mixer = ops.process a.channel_outputs a.master_cycle a.mapper_silenced a.mixer;
  }

  unfoldable pub clock_flush : Apu X → Lines → ℕ × Apu X × Lines
  unfolding clock_to process_outputs
  clock_flush a l =
      let (cycles, a1, l1) = clock_to a.master_cycle a l in
      let a2 = process_outputs a1 in
      (
        cycles,
        record a2 {
          master_cycle = 0;
          cycle = 0;
          pulse1 = record a2.pulse1 { timer = zero_time a2.pulse1.timer };
          pulse2 = record a2.pulse2 { timer = zero_time a2.pulse2.timer };
          triangle = record a2.triangle { timer = zero_time a2.triangle.timer };
          noise = record a2.noise { timer = zero_time a2.noise.timer };
          dmc = record a2.dmc { timer = zero_time a2.dmc.timer };
        },
        l1,
      )

  unfoldable pub clock_lazy : Apu X → Lines → ℕ × Apu X × Lines
  unfolding clock_flush should_clock clock_to
  clock_lazy a l =
      let a1 = record a {
        cpu_cycle = usize (a.cpu_cycle + 1);
        master_cycle = a.master_cycle + 1;
      } in
      let (now, a2, l2) = should_clock a1 l in
      if a1.master_cycle == cycle_size - 1
      then clock_flush a1 l
      else if now
      then clock_to a2.master_cycle a2 l2
      else (0, a2, l2)
