-- ===== src/Tests/PpuAccessRace.antt =====
-- Inputs for the theorems of Ppu.Access.Race.
use tetanes.Base.{ℕ, ◌≡◌, refl, not, ◌&&◌}
use tetanes.Cpu.Lines.{Lines, initial}
use tetanes.Ppu.State.{Ppu}
use tetanes.Ppu.Access.{read_status, start_vblank}
use tetanes.Ppu.Access.Race.{SparesNmi, is_racing, start_vblank-read_status}
use tetanes.Tests.Console.{vertical_board}
use tetanes.Tests.Picture.{picture}

abbrev before_vblank : Ppu Unit
before_vblank = record picture { scanline = 241; cycle = 0 }

abbrev vertical_board-SparesNmi : SparesNmi vertical_board
vertical_board-SparesNmi = record { spares = λ at val m l. refl }

start_vblank-read_status_example :
    let r : ℕ × Ppu Unit × Lines = read_status vertical_board before_vblank initial in
    let s : Ppu Unit × Lines = start_vblank vertical_board r.1 r.2 in
    (s.0.status.in_vblank ≡ not (is_racing before_vblank))
    × (s.1.nmi ≡ (not (is_racing before_vblank) && before_vblank.ctrl.nmi_enabled))
start_vblank-read_status_example =
    start_vblank-read_status vertical_board before_vblank initial vertical_board-SparesNmi refl
