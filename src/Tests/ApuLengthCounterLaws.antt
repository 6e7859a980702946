-- ===== src/Tests/ApuLengthCounterLaws.antt =====
-- Inputs for the theorems of Apu.LengthCounter.Laws.
use tetanes.Base.{◌≡◌, refl, true, false, [], ◌∷◌}
use tetanes.Apu.LengthCounter.{set_enabled}
use tetanes.Apu.LengthCounter.{new, Channel}
use tetanes.Apu.LengthCounter.Laws.{clock_op, reload_op, run, run-set_enabled_silent, write_op}

run-set_enabled_silent_example :
    (run
      (write_op 3 ∷ clock_op ∷ reload_op ∷ [])
      (set_enabled false (record (new Channel.noise) { enabled = true; counter = 9 }))).counter
    ≡ 0
unfolding new
run-set_enabled_silent_example =
    run-set_enabled_silent (write_op 3 ∷ clock_op ∷ reload_op ∷ [])
      (record (new Channel.noise) { enabled = true; counter = 9 }) refl
