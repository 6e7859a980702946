-- ===== src/Tests/CpuFlowHandlers.antt =====
-- Inputs for the theorems of Cpu.Flow.Handlers.
use tetanes.Base.{◌≡◌, arith, true, false}
use tetanes.Cpu.Access.{read}
use tetanes.Cpu.Fetch.{push_u16, read_u16}
use tetanes.Cpu.Flow.{irq, rti}
use tetanes.Tests.Machine.{memory_ops, calling_cpu, memory_ram}
use tetanes.Base.{refl}
use tetanes.Cpu.Flow.Handlers.{rti-irq}

rti-irq_example :
    ((irq calling_cpu).status ≡ record (calling_cpu.status) { interrupt = true })
    × ((rti (irq calling_cpu)).pc ≡ calling_cpu.pc)
    × ((rti (irq calling_cpu)).sp ≡ calling_cpu.sp)
    × ((rti (irq calling_cpu)).status ≡ record (calling_cpu.status) { unused = false; brk = false })
unfolding irq tetanes.Cpu.Lines.initial tetanes.Cpu.Fetch.push_u16 tetanes.Cpu.Access.write
    tetanes.Cpu.Access.read tetanes.Cpu.Fetch.read_u16
rti-irq_example = rti-irq memory_ram calling_cpu (irq calling_cpu) (omega arith) refl (λ s. refl)
