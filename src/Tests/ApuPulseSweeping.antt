-- ===== src/Tests/ApuPulseSweeping.antt =====
-- Inputs for the theorems of Apu.Pulse.Sweeping.
use tetanes.Base.{◌≤◌, ◌<◌, [], ◌∷◌}
use tetanes.Apu.Pulse.{PulseChannel, OutputFreq, new, output}
use tetanes.Apu.Pulse.Sweeping.{
  clock_op, half_op, pulse_run-bounds, run, sweep_op, timer_hi_op, timer_lo_op,
}

pulse_run-bounds_example :
    let p =
      run
        (timer_lo_op 200 ∷ timer_hi_op 1 ∷ sweep_op 0x91 ∷ half_op ∷ clock_op ∷ [])
        (new PulseChannel.channel_one OutputFreq.default_freq) in
    (p.real_period ≤ 0x7ff) × (p.duty < 4) × (p.duty_cycle < 8) × (output p ≤ 15)
pulse_run-bounds_example =
    pulse_run-bounds PulseChannel.channel_one OutputFreq.default_freq
      (timer_lo_op 200 ∷ timer_hi_op 1 ∷ sweep_op 0x91 ∷ half_op ∷ clock_op ∷ [])
