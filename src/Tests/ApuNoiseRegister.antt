-- ===== src/Tests/ApuNoiseRegister.antt =====
-- Inputs for the theorems of Apu.Noise.Register.
use tetanes.Base.{ℕ, [], ◌∷◌}
use tetanes.Apu.Noise.{new}
use tetanes.Common.{ntsc}
use tetanes.Apu.Noise.Register.{IsLive, clock_op, run, run-IsLive, timer_op}

abbrev content : ℕ
content = 0x4001

run-IsLive_example : IsLive (run (timer_op 0x83 ∷ clock_op ∷ clock_op ∷ []) (new ntsc)).shift
run-IsLive_example = run-IsLive (timer_op 0x83 ∷ clock_op ∷ clock_op ∷ []) ntsc
