-- ===== src/Tests/PpuBusVram.antt =====
-- Inputs for the theorems of Ppu.Bus.Vram.
use tetanes.Base.{◌≡◌, refl, arith, inl, if◌then◌else◌, ◌==◌, some}
use tetanes.Cpu.Lines.{Lines, initial}
use tetanes.Mapper.Mirroring.{vertical}
use tetanes.Ppu.Bus.{Bus, new, write, peek}
use tetanes.Ppu.Bus.Mirrors.{cell, IsTable, entry}
use tetanes.Ppu.Bus.Vram.{write-peek, write-palette}
use tetanes.Tests.Console.{vertical_board, vertical-ne, vertical_board-PlainBoard}

abbrev fresh : Bus Unit
unfolding new
fresh = new tt

abbrev table-IsTable : IsTable vertical 0x2005
table-IsTable = record { lo = omega arith; hi = omega arith; plain = inl (omega arith) }

abbrev below-IsTable : IsTable vertical 0x2805
below-IsTable = record { lo = omega arith; hi = omega arith; plain = inl (omega arith) }

write-peek_example :
    (r : Bus Unit × Lines) × (write vertical_board 0x2005 9 fresh initial ≡ some r)
    × (peek vertical_board 0x2805 r.0 ≡ (
        if cell vertical 0x2005 == cell vertical 0x2805
        then some 9
        else peek vertical_board 0x2805 fresh))
unfolding new
write-peek_example =
    write-peek vertical_board fresh initial 0x2005 9 0x2805 vertical_board-PlainBoard refl
      vertical-ne table-IsTable below-IsTable

write-palette_example :
    (r : Bus Unit × Lines) × (write vertical_board 0x3f10 9 fresh initial ≡ some r)
    × (peek vertical_board 0x3f00 r.0
        ≡ (if entry 0x3f10 == entry 0x3f00 then some 9 else peek vertical_board 0x3f00 fresh))
unfolding new
write-palette_example =
    write-palette vertical_board fresh initial 0x3f10 9 0x3f00 refl (omega arith) (omega arith)
      (omega arith) (omega arith)
