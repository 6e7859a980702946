-- ===== src/Bus/Access.antt =====
-- The clocks, resets and regions of tetanes-core/src/bus.rs, and the bus as the CPU uses it.
use tetanes.Base.{ℕ}
use tetanes.Common.{NesRegion, ResetKind}
use tetanes.Cpu.Lines.{Lines}
use tetanes.Cpu.State.{BusOps}
use tetanes.Bus.{Bus, Parts}
use tetanes.Bus.Reads.{read, peek}
use tetanes.Bus.Writes.{write}

module _ {P A I : Type 0} (parts : Parts P A I) where
  unfoldable pub clock : Bus P A I → Lines → Bus P A I × Lines
  clock b l =
      let (a, l1) = parts.clock_lazy b.apu l in
      let (p, l2) = parts.clock_mapper b.ppu l1 in
      (
        record b { apu = parts.add_mapper_output p a; ppu = p; input = parts.input_clock b.input },
        l2,
      )

  unfoldable pub clock_to : ℕ → Bus P A I → Lines → Bus P A I × Lines
  clock_to clock b l = let (p, l1) = parts.ppu_clock_to clock b.ppu l in (record b { ppu = p }, l1)

  unfoldable pub set_region : NesRegion → Bus P A I → Bus P A I
  set_region region b = record b {
    region = region;
    ppu = parts.ppu_set_region region b.ppu;
    apu = parts.apu_set_region region b.apu;
    input = parts.input_set_region region b.input;
  }

  -- `wram.reset` changes nothing.
  unfoldable pub reset : ResetKind → Bus P A I → Lines → Bus P A I × Lines
  reset kind b l =
      let (p, l1) = parts.ppu_reset kind b.ppu l in
      let (a, l2) = parts.apu_reset kind b.apu l1 in (record b { ppu = p; apu = a }, l2)

  -- The bus as the CPU uses it.
  unfoldable pub bus_ops : BusOps (Bus P A I)
  unfolding read peek write clock clock_to reset set_region
  bus_ops = record {
    bus_read = read parts;
    bus_peek = peek parts;
    bus_write = write parts;
    bus_clock = clock;
    clock_to = clock_to;
    bus_reset = reset;
    bus_set_region = set_region;
    bus_region = λ b. b.region;
    dma_addr = λ b. parts.dma_addr b.apu;
    load_buffer =
        λ val b l. let (a, l1) = parts.load_buffer val b.apu l in (record b { apu = a }, l1);
  }
