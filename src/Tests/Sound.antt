-- ===== src/Tests/Sound.antt =====
-- Inputs for the theorems of Apu.Clocking and Apu.Registers.
use tetanes.Base.{◌+◌, ◌-◌, ◌*◌, ◌<◌, ◌≤◌, ◌≡◌, arith, has_bits, bool_to_nat}
use tetanes.Common.{ntsc}
use tetanes.Cpu.Lines.{Lines, IrqSource, has_irq, initial}
use tetanes.Apu.FrameCounter
use tetanes.Apu.FrameCounter.Running.{IsBounded, step_cycles_of-Grows}
use tetanes.Apu.Dmc
use tetanes.Apu.Clocking.{Apu, new, clock_to, clock_rounds}
use tetanes.Apu.Clocking.Rounds.{clock_to-cycle}
use tetanes.Apu.Registers.{synced, peek_status, write_status}
use tetanes.Apu.Registers.Status.{enabled_bit, peek_status-write_status}

abbrev silence : Apu Unit
silence = new ntsc tt

silence-IsBounded : IsBounded silence.frame_counter
unfolding new FrameCounter.new
silence-IsBounded = record {
  step_lt = omega arith;
  mode_lt = omega arith;
  cycle_le = omega arith;
  tables = step_cycles_of-Grows ntsc;
}

silence-le : silence.cycle ≤ 9
unfolding new
silence-le = omega arith

clock_to-cycle_example :
    ((clock_to 9 silence initial).1.cycle ≡ 9)
    × ((clock_to 9 silence initial).0 ≡ 9 - silence.cycle)
clock_to-cycle_example = clock_to-cycle 9 silence initial silence-le (omega arith) silence-IsBounded

abbrev at_write : Apu Unit × Lines
at_write = synced silence initial

at_write-length : 0 < at_write.0.dmc.sample_length
unfolding new Dmc.new clock_to clock_rounds
at_write-length = omega arith

peek_status-write_status_example :
    peek_status (write_status 0x11 silence initial).0 (write_status 0x11 silence initial).1
    ≡ enabled_bit (has_bits 0x11 0x01) at_write.0.pulse1.length.counter
      + enabled_bit (has_bits 0x11 0x02) at_write.0.pulse2.length.counter * 0x02
      + enabled_bit (has_bits 0x11 0x04) at_write.0.triangle.length.counter * 0x04
      + enabled_bit (has_bits 0x11 0x08) at_write.0.noise.length.counter * 0x08
      + bool_to_nat (has_bits 0x11 0x10) * 0x10
      + bool_to_nat (has_irq IrqSource.frame_counter at_write.1) * 0x40
peek_status-write_status_example = peek_status-write_status 0x11 silence initial at_write-length
