-- ===== src/Tests/PpuScrollMoves.antt =====
-- Inputs for the theorems of Ppu.Scroll.Moves.
use tetanes.Base.{◌<◌, ◌≡◌, arith}
use tetanes.Ppu.Scroll.{increment_x, increment_y}
use tetanes.Ppu.Scroll.Fields.{decode}
use tetanes.Ppu.Scroll.{new}
use tetanes.Ppu.Scroll.Moves.{
  IsSynced, increment_x-next_column, increment_y-next_line, next_column, next_line,
}

increment_y-next_line_example :
    (decode (increment_y (record new { v = 0x73a0 })).v
      ≡ next_line (decode (record new { v = 0x73a0 }).v))
    × ((increment_y (record new { v = 0x73a0 })).v < 0x8000)
    × IsSynced (increment_y (record new { v = 0x73a0 }))
unfolding new
increment_y-next_line_example = increment_y-next_line (record new { v = 0x73a0 }) (omega arith)

increment_x-next_column_example :
    (decode (increment_x (record new { v = 0x001f })).v
      ≡ next_column (decode (record new { v = 0x001f }).v))
    × ((increment_x (record new { v = 0x001f })).v < 0x8000)
    × IsSynced (increment_x (record new { v = 0x001f }))
unfolding new
increment_x-next_column_example = increment_x-next_column (record new { v = 0x001f }) (omega arith)
