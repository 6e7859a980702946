-- ===== src/Tests/PpuBusMirrors.antt =====
-- Inputs for the theorems of Ppu.Bus.Mirrors.
use tetanes.Base.{◌≡◌, arith, inl}
use tetanes.Mapper.Mirroring.{vertical}
use tetanes.Ppu.Bus.{ciram_mirror}
use tetanes.Ppu.Bus.Mirrors.{ciram_mirror-screens, cell, IsTable}
use tetanes.Tests.Console.{vertical-ne}

abbrev mirror-IsTable : IsTable vertical 0x2c05
mirror-IsTable = record { lo = omega arith; hi = omega arith; plain = inl (omega arith) }

ciram_mirror-screens_example : ciram_mirror 0x2c05 vertical ≡ cell vertical 0x2c05
ciram_mirror-screens_example = ciram_mirror-screens 0x2c05 vertical mirror-IsTable vertical-ne
