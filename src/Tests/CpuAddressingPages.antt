-- ===== src/Tests/CpuAddressingPages.antt =====
-- Inputs for the theorems of Cpu.Addressing.Pages.
use tetanes.Base.{◌+◌, ◌-◌, ◌/◌, ◌%◌, ◌<◌, ◌≡◌, arith, not, if◌then◌else◌, ltb, ◌==◌}
use tetanes.Cpu.Flow.{branch_target, pages_differ}
use tetanes.Cpu.Addressing.Pages.{branch_target-signed}

branch_target-signed_example :
    let target = branch_target 0x8010 0xe0 in
    (target
      ≡ (if ltb 0xe0 128 then (0x8010 + 0xe0) % 65536 else (0x8010 + 65536 - (256 - 0xe0)) % 65536))
    × (pages_differ target 0x8010 ≡ not (target / 256 == 0x8010 / 256))
    × (target < 65536)
branch_target-signed_example = branch_target-signed 0x8010 0xe0 (omega arith) (omega arith)
