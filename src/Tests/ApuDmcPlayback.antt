-- ===== src/Tests/ApuDmcPlayback.antt =====
-- Inputs for the theorems of Apu.Dmc.Playback.
use tetanes.Base.{◌≤◌, ◌<◌, [], ◌∷◌}
use tetanes.Common.{hard}
use tetanes.Cpu.Lines
use tetanes.Cpu.Lines.{Lines}
use tetanes.Apu.Dmc.{new, reset}
use tetanes.Common.{ntsc}
use tetanes.Base.{true}
use tetanes.Apu.Dmc.Playback.{
  addr_op, clock_op, dmc_run-bounds, enabled_op, length_op, load_op, run,
}

dmc_run-bounds_example :
    let d =
      (run
        (addr_op 4 ∷ length_op 1 ∷ enabled_op true 0 ∷ load_op 9 ∷ clock_op ∷ [])
        (reset hard (new ntsc), Lines.initial)).0 in
    (d.output_level ≤ 127)
    × (0 < d.bits_remaining)
    × (d.bits_remaining ≤ 8)
    × (0 < d.bytes_remaining → 0x8000 ≤ d.addr)
    × (d.addr < 0x10000)
dmc_run-bounds_example =
    dmc_run-bounds ntsc (addr_op 4 ∷ length_op 1 ∷ enabled_op true 0 ∷ load_op 9 ∷ clock_op ∷ [])
      Lines.initial
