-- ===== src/Tests/BusWorkRam.antt =====
-- Inputs for the theorems of Bus.WorkRam.
use tetanes.Base.{◌%◌, ◌≡◌, arith, if◌then◌else◌, ◌==◌}
use tetanes.Cpu.Lines.{initial}
use tetanes.Bus.Reads.{read}
use tetanes.Bus.Writes.{write}
use tetanes.Bus.WorkRam.{write-read}
use tetanes.Tests.Console.{dead_parts, console}

write-read_example :
    (read dead_parts 0x1812 (write dead_parts 0x0812 7 console initial).0 initial).0
    ≡ (if 0x0812 % 0x800 == 0x1812 % 0x800 then 7 else (read dead_parts 0x1812 console initial).0)
write-read_example =
    write-read dead_parts 0x0812 7 0x1812 console initial initial (omega arith) (omega arith)
