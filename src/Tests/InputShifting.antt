-- ===== src/Tests/InputShifting.antt =====
-- Inputs for the theorems of Input.Shifting.
use tetanes.Base.{replicate, ◌++◌, ◌+◌, ◌≡◌, true}
use tetanes.Input.Pad.{JoypadBtn, new, set_button}
use tetanes.Input.Shifting.{digits, reads, reads-strobed, strobed}

reads-strobed_example :
    let pad = set_button JoypadBtn.start true new in
    (reads (8 + 3) (strobed pad)).0 ≡ digits pad.buttons ++ replicate 3 1
reads-strobed_example = reads-strobed 3 (set_button JoypadBtn.start true new)
