-- ===== src/Tests/InputDirections.antt =====
-- Inputs for the theorems of Input.Directions.
use tetanes.Base.{true, [], ◌∷◌}
use tetanes.Input.Pad.{JoypadBtn, new}
use tetanes.Input.Directions.{IsPlain, set_buttons, set_buttons-IsPlain}

set_buttons-IsPlain_example :
    IsPlain (set_buttons ((JoypadBtn.left, true) ∷ (JoypadBtn.right, true) ∷ []) new).buttons
set_buttons-IsPlain_example =
    set_buttons-IsPlain ((JoypadBtn.left, true) ∷ (JoypadBtn.right, true) ∷ [])
