-- ===== src/Tests/PpuClock.antt =====
-- Inputs for the theorems of Ppu.Clock.
use tetanes.Base.{Yields, ℕ, ◌+◌, ◌*◌, ◌≤◌, refl, arith}
use tetanes.Cpu.Lines.{Lines, initial}
use tetanes.Ppu.State.{Ppu}
use tetanes.Ppu.Clock.{clock_to}
use tetanes.Ppu.Clock.Progress.{ServesVram}
use tetanes.Ppu.Clock.Position.{IsValid}
use tetanes.Ppu.Clock.Blanks.{AtBlank, clocks, clocks-AtBlank}
use tetanes.Ppu.Clock.CatchingUp.{CatchesUp, clock_to-CatchesUp}
use tetanes.Tests.Console.{vertical_board}
use tetanes.Tests.Picture.{picture}

abbrev vertical_board-ServesVram : ServesVram vertical_board
vertical_board-ServesVram = record { serves = λ at m lo hi. refl }

abbrev picture-IsValid : IsValid picture
picture-IsValid = record {
  cycle_le = omega arith;
  scanline_le = omega arith;
  vblank_lt = omega arith;
}

clocks-AtBlank_example :
    (k : ℕ) × (1 ≤ k)
    × (k ≤ (picture.prerender_scanline + 1) * 341)
    × Yields (λ (r : Ppu Unit × Lines). AtBlank r.0) (clocks vertical_board k picture initial)
clocks-AtBlank_example =
    clocks-AtBlank vertical_board picture initial vertical_board-ServesVram picture-IsValid

clock_to-CatchesUp_example :
    Yields
      (λ (s : ℕ × Ppu Unit × Lines).
        CatchesUp picture.master_clock picture.clock_divider 11 s.0 s.1.master_clock)
      (clock_to vertical_board 11 11 picture initial)
clock_to-CatchesUp_example =
    clock_to-CatchesUp vertical_board 11 11 picture initial vertical_board-ServesVram
      picture-IsValid (omega arith) (omega arith) (omega arith) (omega arith)
