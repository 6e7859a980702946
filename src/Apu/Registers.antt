-- ===== src/Apu/Registers.antt =====
-- The registers of tetanes-core/src/apu.rs at $4000 to $4017. `none` stands for the panics on a
-- channel that does not have the register.
pub mod Status
use tetanes.Base.{
  ℕ, ◌+◌, ◌*◌, Bool, true, false, not, ◌||◌, if◌then◌else◌, ltb, set, has_bits, bit_and, Option,
  none, some, bool_to_nat,
}
use mathlib.Core.Option
use tetanes.Common.{NesRegion, ResetKind}
use tetanes.Cpu.Lines.{Lines, IrqSource, has_irq, clear_irq}
use tetanes.Apu.FrameCounter
use tetanes.Apu.Pulse
use tetanes.Apu.Triangle
use tetanes.Apu.Noise
use tetanes.Apu.Dmc
use tetanes.Apu.Clocking.{Apu, Channel, MixerOps, clock_to, max_channel_count, offset}

abbrev same_region : NesRegion → NesRegion → Bool
same_region NesRegion.auto NesRegion.auto = true
same_region NesRegion.ntsc NesRegion.ntsc = true
same_region NesRegion.pal NesRegion.pal = true
same_region NesRegion.dendy NesRegion.dendy = true
same_region _ _ = false

module _ {X : Type 0} where
  unfoldable pub channel_enabled : Channel → Apu X → Bool
  channel_enabled Channel.pulse1 a = not a.pulse1.force_silent
  channel_enabled Channel.pulse2 a = not a.pulse2.force_silent
  channel_enabled Channel.triangle a = not a.triangle.force_silent
  channel_enabled Channel.noise a = not a.noise.force_silent
  channel_enabled Channel.dmc a = not a.dmc.force_silent
  channel_enabled Channel.mapper a = not a.mapper_silenced

  unfoldable pub set_channel_enabled : Channel → Bool → Apu X → Apu X
  set_channel_enabled Channel.pulse1 enabled a = record a {
    pulse1 = Pulse.set_silent (not enabled) a.pulse1;
  }
  set_channel_enabled Channel.pulse2 enabled a = record a {
    pulse2 = Pulse.set_silent (not enabled) a.pulse2;
  }
  set_channel_enabled Channel.triangle enabled a = record a {
    triangle = Triangle.set_silent (not enabled) a.triangle;
  }
  set_channel_enabled Channel.noise enabled a = record a {
    noise = Noise.set_silent (not enabled) a.noise;
  }
  set_channel_enabled Channel.dmc enabled a = record a { dmc = Dmc.set_silent (not enabled) a.dmc }
  set_channel_enabled Channel.mapper enabled a = record a { mapper_silenced = not enabled }

  unfoldable pub toggle_channel : Channel → Apu X → Apu X
  unfolding channel_enabled set_channel_enabled
  toggle_channel channel a = set_channel_enabled channel (not (channel_enabled channel a)) a

  -- The channels up to the present cycle, which every register starts with.
  abbrev pub synced : Apu X → Lines → Apu X × Lines
  unfolding clock_to
  synced a l = let (cycles, a1, l1) = clock_to a.master_cycle a l in (a1, l1)

  abbrev clock_soon : Apu X → Apu X
  clock_soon a = record a { clocking = true }

  put_ctrl : Channel → ℕ → Apu X → Option (Apu X)
  put_ctrl Channel.pulse1 val a =
      some (clock_soon (record a { pulse1 = Pulse.write_ctrl val a.pulse1 }))
  put_ctrl Channel.pulse2 val a =
      some (clock_soon (record a { pulse2 = Pulse.write_ctrl val a.pulse2 }))
  put_ctrl Channel.noise val a =
      some (clock_soon (record a { noise = Noise.write_ctrl val a.noise }))
  put_ctrl _ val a = none

  abbrev with_lines : Lines → Option (Apu X) → Option (Apu X × Lines)
  with_lines l = Option.map (λ a. (a, l))

  unfoldable pub write_ctrl : Channel → ℕ → Apu X → Lines → Option (Apu X × Lines)
  unfolding put_ctrl clock_to
  write_ctrl channel val a l = let (a1, l1) = synced a l in with_lines l1 (put_ctrl channel val a1)

  put_sweep : Channel → ℕ → Apu X → Option (Apu X)
  put_sweep Channel.pulse1 val a = some (record a { pulse1 = Pulse.write_sweep val a.pulse1 })
  put_sweep Channel.pulse2 val a = some (record a { pulse2 = Pulse.write_sweep val a.pulse2 })
  put_sweep _ val a = none

  unfoldable pub write_sweep : Channel → ℕ → Apu X → Lines → Option (Apu X × Lines)
  unfolding put_sweep clock_to
  write_sweep channel val a l =
      let (a1, l1) = synced a l in with_lines l1 (put_sweep channel val a1)

  put_timer_lo : Channel → ℕ → Apu X → Lines → Option (Apu X × Lines)
  put_timer_lo Channel.pulse1 val a l =
      some (record a { pulse1 = Pulse.write_timer_lo val a.pulse1 }, l)
  put_timer_lo Channel.pulse2 val a l =
      some (record a { pulse2 = Pulse.write_timer_lo val a.pulse2 }, l)
  put_timer_lo Channel.triangle val a l =
      some (record a { triangle = Triangle.write_timer_lo val a.triangle }, l)
  put_timer_lo Channel.noise val a l = some (record a { noise = Noise.write_timer val a.noise }, l)
  put_timer_lo Channel.dmc val a l =
      let (d, l1) = Dmc.write_timer val (a.dmc, l) in some (record a { dmc = d }, l1)
  put_timer_lo Channel.mapper val a l = none

  unfoldable pub write_timer_lo : Channel → ℕ → Apu X → Lines → Option (Apu X × Lines)
  unfolding put_timer_lo clock_to
  write_timer_lo channel val a l = let (a1, l1) = synced a l in put_timer_lo channel val a1 l1

  put_timer_hi : Channel → ℕ → Apu X → Option (Apu X)
  put_timer_hi Channel.pulse1 val a =
      let p = Pulse.write_timer_hi val a.pulse1 in
      some (record a { pulse1 = p; clocking = p.length.enabled })
  put_timer_hi Channel.pulse2 val a =
      let p = Pulse.write_timer_hi val a.pulse2 in
      some (record a { pulse2 = p; clocking = p.length.enabled })
  put_timer_hi Channel.triangle val a =
      let t = Triangle.write_timer_hi val a.triangle in
      some (record a { triangle = t; clocking = t.length.enabled })
  put_timer_hi _ val a = none

  unfoldable pub write_timer_hi : Channel → ℕ → Apu X → Lines → Option (Apu X × Lines)
  unfolding put_timer_hi clock_to
  write_timer_hi channel val a l =
      let (a1, l1) = synced a l in with_lines l1 (put_timer_hi channel val a1)

  unfoldable pub write_linear_counter : ℕ → Apu X → Lines → Apu X × Lines
  unfolding clock_to
  write_linear_counter val a l =
      let (a1, l1) = synced a l in
      (clock_soon (record a1 { triangle = Triangle.write_linear_counter val a1.triangle }), l1)

  put_length : Channel → ℕ → Apu X → Option (Apu X)
  put_length Channel.noise val a =
      let n = Noise.write_length val a.noise in
      some (record a { noise = n; clocking = n.length.enabled })
  put_length Channel.dmc val a = some (record a { dmc = Dmc.write_length val a.dmc })
  put_length _ val a = none

  unfoldable pub write_length : Channel → ℕ → Apu X → Lines → Option (Apu X × Lines)
  unfolding put_length clock_to
  write_length channel val a l =
      let (a1, l1) = synced a l in with_lines l1 (put_length channel val a1)

  -- The new level is heard at once.
  unfoldable pub write_dmc_output : ℕ → Apu X → Lines → Apu X × Lines
  unfolding clock_to
  write_dmc_output val a l =
      let (a1, l1) = synced a l in
      let d = Dmc.write_output (bit_and val 0x7f) a1.dmc in
      (
        record a1 {
          dmc = d;
          channel_outputs =
              set a1.channel_outputs (d.timer.cycle * max_channel_count + offset Channel.dmc)
                (Dmc.output d);
        },
        l1,
      )

  unfoldable pub write_dmc_addr : ℕ → Apu X → Lines → Apu X × Lines
  unfolding clock_to
  write_dmc_addr val a l =
      let (a1, l1) = synced a l in (record a1 { dmc = Dmc.write_addr val a1.dmc }, l1)

  unfoldable pub peek_status : Apu X → Lines → ℕ
  peek_status a l =
      bool_to_nat (ltb 0 a.pulse1.length.counter)
      + bool_to_nat (ltb 0 a.pulse2.length.counter) * 0x02
      + bool_to_nat (ltb 0 a.triangle.length.counter) * 0x04
      + bool_to_nat (ltb 0 a.noise.length.counter) * 0x08
      + bool_to_nat (ltb 0 a.dmc.bytes_remaining) * 0x10
      + bool_to_nat (has_irq IrqSource.frame_counter l) * 0x40
      + bool_to_nat (has_irq IrqSource.dmc l) * 0x80

  unfoldable pub read_status : Apu X → Lines → ℕ × Apu X × Lines
  unfolding peek_status clock_to
  read_status a l =
      let (a1, l1) = synced a l in (peek_status a1 l1, a1, clear_irq IrqSource.frame_counter l1)

  unfoldable pub write_status : ℕ → Apu X → Lines → Apu X × Lines
  unfolding clock_to
  write_status val a l =
      let (a1, l1) = synced a l in
      (
        record a1 {
          pulse1 = Pulse.set_enabled (has_bits val 0x01) a1.pulse1;
          pulse2 = Pulse.set_enabled (has_bits val 0x02) a1.pulse2;
          triangle = Triangle.set_enabled (has_bits val 0x04) a1.triangle;
          noise = Noise.set_enabled (has_bits val 0x08) a1.noise;
          dmc = Dmc.set_enabled (has_bits val 0x10) a1.cpu_cycle a1.dmc;
        },
        clear_irq IrqSource.dmc l1,
      )

  unfoldable pub write_frame_counter : ℕ → Apu X → Lines → Apu X × Lines
  unfolding clock_to
  write_frame_counter val a l =
      let (a1, l1) = synced a l in
      let (f, l2) = FrameCounter.write val a1.cpu_cycle (a1.frame_counter, l1) in
      (record a1 { frame_counter = f }, l2)

  unfoldable pub reset : ResetKind → Apu X → Lines → Apu X × Lines
  reset kind a l =
      let (f, l1) = FrameCounter.reset kind (a.frame_counter, l) in
      (
        record a {
          cpu_cycle = 0;
          master_cycle = 0;
          cycle = 0;
          clocking = false;
          frame_counter = f;
          pulse1 = Pulse.reset kind a.pulse1;
          pulse2 = Pulse.reset kind a.pulse2;
          triangle = Triangle.reset kind a.triangle;
          noise = Noise.reset kind a.noise;
          dmc = Dmc.reset kind a.dmc;
        },
        l1,
      )

module _ {X : Type 0} (ops : MixerOps X) where
  unfoldable pub set_region : NesRegion → Apu X → Lines → Apu X × Lines
  unfolding clock_to
  set_region region a l =
      let (a1, l1) = synced a l in
      if same_region a.region region then (a, l) else (
        record a1 {
          region = region;
          mixer = ops.mixer_set_region region a1.mixer;
          frame_counter = FrameCounter.set_region region a1.frame_counter;
          noise = Noise.set_region region a1.noise;
          dmc = Dmc.set_region region a1.dmc;
        },
        l1,
      )
