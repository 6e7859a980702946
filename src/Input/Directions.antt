-- ===== src/Input/Directions.antt =====
-- A direction of the pad releases the opposite one.
use tetanes.Base.{◌≡◌, refl, Bool, true, false, ◌&&◌, List, [], ◌∷◌}
use tetanes.Input.Pad.{
  Joypad, JoypadBtn, JoypadBtnState, set_button, set_flag, release_opposite, left, right, up, down,
  new, no_buttons,
}

-- Not two opposite directions at once.
pub record IsPlain (s : JoypadBtnState) : Type 0 where
  pub across : (s.left_flag && s.right_flag) ≡ false
  pub along : (s.up_flag && s.down_flag) ≡ false

and_false : (v : Bool) → (v && false) ≡ false
and_false true = refl
and_false false = refl

press :
    (btn : JoypadBtn) (s : JoypadBtnState)
    → IsPlain s
    → IsPlain (set_flag btn true (release_opposite btn s))
unfolding set_flag release_opposite
press left s p = record { across = refl; along = p.along }
press right s p = record { across = refl; along = p.along }
press up s p = record { across = p.across; along = refl }
press down s p = record { across = p.across; along = refl }
press _ s p = record { across = p.across; along = p.along }

lift : (btn : JoypadBtn) (s : JoypadBtnState) → IsPlain s → IsPlain (set_flag btn false s)
unfolding set_flag
lift left s p = record { across = refl; along = p.along }
lift right s p = record { across = and_false s.left_flag; along = p.along }
lift up s p = record { across = p.across; along = refl }
lift down s p = record { across = p.across; along = and_false s.up_flag }
lift _ s p = record { across = p.across; along = p.along }

-- Presses and releases, one after the other.
abbrev pub set_buttons : List (JoypadBtn × Bool) → Joypad → Joypad
set_buttons [] pad = pad
set_buttons ((btn, pressed) ∷ rest) pad = set_buttons rest (set_button btn pressed pad)

set_button-IsPlain :
    (btn : JoypadBtn) (pressed : Bool) (pad : Joypad)
    → pad.concurrent_dpad ≡ false
    → IsPlain pad.buttons
    → IsPlain (set_button btn pressed pad).buttons
unfolding set_button
set_button-IsPlain btn true pad h p = rw h (press btn pad.buttons p)
set_button-IsPlain btn false pad h p = lift btn pad.buttons p

set_buttons-keeps :
    (ops : List (JoypadBtn × Bool)) (pad : Joypad)
    → pad.concurrent_dpad ≡ false
    → IsPlain pad.buttons
    → IsPlain (set_buttons ops pad).buttons
unfolding set_button
set_buttons-keeps [] pad h p = p
set_buttons-keeps ((btn, pressed) ∷ rest) pad h p =
    set_buttons-keeps rest (set_button btn pressed pad) h (set_button-IsPlain btn pressed pad h p)

-- A new controller never has two opposite directions pressed, whatever is pressed and released,
-- unless both are allowed.
pub set_buttons-IsPlain : (ops : List (JoypadBtn × Bool)) → IsPlain (set_buttons ops new).buttons
unfolding new no_buttons
set_buttons-IsPlain ops = set_buttons-keeps ops new refl (record { across = refl; along = refl })
