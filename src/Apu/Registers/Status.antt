-- ===== src/Apu/Registers/Status.antt =====
-- What $4015 shows of the channels that a write to it has silenced.
use tetanes.Base.{
  ℕ, ◌+◌, ◌*◌, ◌<◌, ◌≡◌, ◌==◌, refl, arith, Bool, true, false, if◌then◌else◌, ltb, Bool-cases, inl,
  inr, has_bits, bool_to_nat,
}
use tetanes.Cpu.Lines.{Lines, IrqSource, has_irq, clear_irq}
use tetanes.Apu.LengthCounter
use tetanes.Apu.Pulse
use tetanes.Apu.Triangle
use tetanes.Apu.Noise
use tetanes.Apu.Dmc
use tetanes.Apu.Dmc.{Dmc}
use tetanes.Apu.Clocking.{Apu, clock_to}
use tetanes.Apu.Registers.{synced, peek_status, write_status}

-- A length counter's bit after a write, from its bit before.
abbrev pub enabled_bit : Bool → ℕ → ℕ
enabled_bit enabled counter = if enabled then bool_to_nat (ltb 0 counter) else 0

length-bit :
    (enabled : Bool) (c : LengthCounter.LengthCounter)
    → bool_to_nat (ltb 0 (LengthCounter.set_enabled enabled c).counter)
      ≡ enabled_bit enabled c.counter
unfolding LengthCounter.set_enabled
length-bit true c = refl
length-bit false c = refl

-- The DMC restarts a sample that is over.
dmc-bit :
    (enabled : Bool) (cycle : ℕ) (d : Dmc)
    → 0 < d.sample_length
    → bool_to_nat (ltb 0 (Dmc.set_enabled enabled cycle d).bytes_remaining) ≡ bool_to_nat enabled
unfolding Dmc.set_enabled Dmc.init_sample
dmc-bit true cycle d pos = elim (Bool-cases (d.bytes_remaining == 0)) [
  | inl e ↦ let b : ltb 0 d.sample_length ≡ true = ground arith in rw (e, b) refl
  | inr e ↦ let b : ltb 0 d.bytes_remaining ≡ true = ground arith in rw (e, b) refl
]
dmc-bit false cycle d pos = refl

module _ {X : Type 0} where
  -- After a write to $4015 the status shows, of the channels as they stood at the write, those that
  -- it enables and whose length counters still run, and the DMC exactly if enabled; the DMC's
  -- interrupt is gone and the frame counter's is as it was.
  pub peek_status-write_status :
      (val : ℕ) (a : Apu X) (l : Lines)
      → let s : Apu X × Lines = synced a l in
        let r : Apu X × Lines = write_status val a l in
        0 < s.0.dmc.sample_length
        → peek_status r.0 r.1
          ≡ enabled_bit (has_bits val 0x01) s.0.pulse1.length.counter
            + enabled_bit (has_bits val 0x02) s.0.pulse2.length.counter * 0x02
            + enabled_bit (has_bits val 0x04) s.0.triangle.length.counter * 0x04
            + enabled_bit (has_bits val 0x08) s.0.noise.length.counter * 0x08
            + bool_to_nat (has_bits val 0x10) * 0x10
            + bool_to_nat (has_irq IrqSource.frame_counter s.1) * 0x40
  unfolding peek_status write_status Pulse.set_enabled Triangle.set_enabled Noise.set_enabled
      has_irq clear_irq clock_to synced
  peek_status-write_status val a l pos =
      let s : Apu X × Lines = synced a l in
      omega (
        arith,
        length-bit (has_bits val 0x01) s.0.pulse1.length,
        length-bit (has_bits val 0x02) s.0.pulse2.length,
        length-bit (has_bits val 0x04) s.0.triangle.length,
        length-bit (has_bits val 0x08) s.0.noise.length,
        dmc-bit (has_bits val 0x10) s.0.cpu_cycle s.0.dmc pos,
      )
