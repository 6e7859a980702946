-- ===== src/Apu/Envelope.antt =====
-- tetanes-core/src/apu/envelope.rs: the volume envelope of the pulse and noise channels.
pub mod Laws
use tetanes.Base.{ℕ, ◌-◌, ◌%◌, Bool, true, false, if◌then◌else◌, ltb, has_bits, bit_and}

pub record Envelope : Type 0 where
  pub start : Bool
  pub constant_volume : Bool
  pub volume : ℕ
  pub divider : ℕ
  pub counter : ℕ
  pub loops : Bool

unfoldable pub new : Envelope
new = record {
  start = false;
  constant_volume = false;
  volume = 0;
  divider = 0;
  counter = 0;
  loops = false;
}

-- The method `volume`.
unfoldable pub output : Envelope → ℕ
output e = if e.constant_volume then e.volume else e.counter

unfoldable pub restart : Envelope → Envelope
restart e = record e { start = true }

unfoldable pub write_ctrl : ℕ → Envelope → Envelope
write_ctrl val e = record e {
  loops = has_bits val 0x20;
  constant_volume = has_bits val 0x10;
  volume = bit_and val 0x0f;
}

unfoldable pub clock : Envelope → Envelope
clock e =
    if e.start
    then record e { start = false; counter = 15; divider = e.volume }
    else if ltb 0 e.divider
    then record e { divider = e.divider - 1 }
    else if ltb 0 e.counter
    then record e { divider = e.volume; counter = e.counter - 1 }
    else if e.loops
    then record e { divider = e.volume; counter = 15 }
    else record e { divider = e.volume }

-- `loops` is left as it was.
unfoldable pub reset : Envelope → Envelope
reset e = record e { start = false; constant_volume = false; volume = 0; divider = 0; counter = 0 }
