-- ===== src/Bus/Subroutines.antt =====
-- Calls and returns of the CPU on the bus of tetanes-core/src/bus.rs.
use tetanes.Base.{ℕ, ◌<◌, ◌≡◌, get_or}
use tetanes.Cpu.State.{Cpu}
use tetanes.Cpu.Flow.{jsr, rts}
use tetanes.Cpu.Flow.Subroutines.{rts-jsr}
use tetanes.Bus.{Bus, Parts}
use tetanes.Bus.Access.{bus_ops}
use tetanes.Bus.WorkRam.{bus_ops-StackRam}

module _ {P A I : Type 0} (parts : Parts P A I) where
  -- The CPU on the console's bus: JSR jumps to its operand, and when a subroutine leaves the stack
  -- pointer and the bytes of the work RAM as it found them, its RTS returns behind the JSR with the
  -- stack pointer of before, whatever the parts do and with the DMA transfers that reads wait for.
  pub rts-jsr_bus :
      (c d : Cpu (Bus P A I))
      → c.pc < 65536
      → c.sp < 256
      → d.sp ≡ (jsr ⦃ops = bus_ops parts⦄ c).sp
      → ((s : ℕ)
          → get_or d.bus.wram.bytes s 0 ≡ get_or (jsr ⦃ops = bus_ops parts⦄ c).bus.wram.bytes s 0)
      → ((jsr ⦃ops = bus_ops parts⦄ c).pc ≡ c.abs_addr)
        × ((rts ⦃ops = bus_ops parts⦄ d).pc ≡ c.pc)
        × ((rts ⦃ops = bus_ops parts⦄ d).sp ≡ c.sp)
  unfolding bus_ops-StackRam
  rts-jsr_bus c d = rts-jsr ⦃ops = bus_ops parts⦄ (bus_ops-StackRam parts) c d
