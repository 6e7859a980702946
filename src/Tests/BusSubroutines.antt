-- ===== src/Tests/BusSubroutines.antt =====
-- Inputs for the theorems of Bus.Subroutines.
use tetanes.Base.{◌≡◌, refl, arith}
use tetanes.Cpu.Flow.{jsr, rts}
use tetanes.Bus.Access.{bus_ops}
use tetanes.Bus.Subroutines.{rts-jsr_bus}
use tetanes.Tests.Console.{dead_parts, console_cpu}

rts-jsr_bus_example :
    ((jsr ⦃ops = bus_ops dead_parts⦄ console_cpu).pc ≡ console_cpu.abs_addr)
    × ((rts ⦃ops = bus_ops dead_parts⦄ (jsr ⦃ops = bus_ops dead_parts⦄ console_cpu)).pc
        ≡ console_cpu.pc)
    × ((rts ⦃ops = bus_ops dead_parts⦄ (jsr ⦃ops = bus_ops dead_parts⦄ console_cpu)).sp
        ≡ console_cpu.sp)
unfolding jsr tetanes.Cpu.Lines.initial tetanes.Cpu.Fetch.push_u16 tetanes.Cpu.Access.write
    tetanes.Cpu.Access.read tetanes.Bus.Access.bus_ops
rts-jsr_bus_example =
    rts-jsr_bus dead_parts console_cpu (jsr ⦃ops = bus_ops dead_parts⦄ console_cpu) (omega arith)
      (omega arith) refl (λ s. refl)
