-- ===== src/Tests/CpuAccessRegisters.antt =====
-- Inputs for the theorems of Cpu.Access.Registers.
use tetanes.Base.{◌+◌, ◌≡◌, refl, usize}
use tetanes.Common.{ntsc}
use tetanes.Cpu.Access.{read, write}
use tetanes.Tests.Machine.{memory_ops, calling_cpu}
use tetanes.Cpu.Lines.{initial}
use tetanes.Cpu.Access.Registers.{access-cycles, clock_divider, write_ticks}

access-cycles_example :
    ((read 0x10 calling_cpu).1.cycle ≡ usize (calling_cpu.cycle + 1))
    × ((read 0x10 calling_cpu).1.master_clock
        ≡ usize (calling_cpu.master_clock + clock_divider ntsc))
    × ((write 0x10 7 calling_cpu).cycle ≡ usize (calling_cpu.cycle + 1))
    × ((write 0x10 7 calling_cpu).master_clock
        ≡ usize (calling_cpu.master_clock + write_ticks ntsc))
unfolding initial
access-cycles_example = access-cycles 0x10 7 calling_cpu ntsc refl refl refl
