-- ===== src/Input/Pad.antt =====
-- `Joypad` of tetanes-core/src/input.rs: the state of the buttons and the shift register that the
-- game reads. The flags are a field each, and `bits` is their word.
use tetanes.Base.{
  ℕ, ◌+◌, ◌*◌, Bool, false, not, ◌&&◌, if◌then◌else◌, ltb, bool_to_nat, bit_and, has_bits, u8,
  ◌<<<◌, ◌>>>◌,
}

pub data JoypadBtn : Type 0 where
  left right up down a b turbo_a turbo_b select start : JoypadBtn

pub record JoypadBtnState : Type 0 where
  pub a_flag : Bool
  pub b_flag : Bool
  pub select_flag : Bool
  pub start_flag : Bool
  pub up_flag : Bool
  pub down_flag : Bool
  pub left_flag : Bool
  pub right_flag : Bool
  pub turbo_a_flag : Bool
  pub turbo_b_flag : Bool

unfoldable pub bits : JoypadBtnState → ℕ
bits s =
    bool_to_nat s.a_flag
    + bool_to_nat s.b_flag * 0x02
    + bool_to_nat s.select_flag * 0x04
    + bool_to_nat s.start_flag * 0x08
    + bool_to_nat s.up_flag * 0x10
    + bool_to_nat s.down_flag * 0x20
    + bool_to_nat s.left_flag * 0x40
    + bool_to_nat s.right_flag * 0x80
    + bool_to_nat s.turbo_a_flag * 0x100
    + bool_to_nat s.turbo_b_flag * 0x200

unfoldable pub from_bits_truncate : ℕ → JoypadBtnState
from_bits_truncate val = record {
  a_flag = has_bits val 0x01;
  b_flag = has_bits val 0x02;
  select_flag = has_bits val 0x04;
  start_flag = has_bits val 0x08;
  up_flag = has_bits val 0x10;
  down_flag = has_bits val 0x20;
  left_flag = has_bits val 0x40;
  right_flag = has_bits val 0x80;
  turbo_a_flag = has_bits val 0x100;
  turbo_b_flag = has_bits val 0x200;
}

unfoldable pub no_buttons : JoypadBtnState
no_buttons = record {
  a_flag = false;
  b_flag = false;
  select_flag = false;
  start_flag = false;
  up_flag = false;
  down_flag = false;
  left_flag = false;
  right_flag = false;
  turbo_a_flag = false;
  turbo_b_flag = false;
}

-- `contains` and `set` of the flags.
unfoldable pub contains : JoypadBtn → JoypadBtnState → Bool
contains left s = s.left_flag
contains right s = s.right_flag
contains up s = s.up_flag
contains down s = s.down_flag
contains a s = s.a_flag
contains b s = s.b_flag
contains turbo_a s = s.turbo_a_flag
contains turbo_b s = s.turbo_b_flag
contains select s = s.select_flag
contains start s = s.start_flag

unfoldable pub set_flag : JoypadBtn → Bool → JoypadBtnState → JoypadBtnState
set_flag left v s = record s { left_flag = v }
set_flag right v s = record s { right_flag = v }
set_flag up v s = record s { up_flag = v }
set_flag down v s = record s { down_flag = v }
set_flag a v s = record s { a_flag = v }
set_flag b v s = record s { b_flag = v }
set_flag turbo_a v s = record s { turbo_a_flag = v }
set_flag turbo_b v s = record s { turbo_b_flag = v }
set_flag select v s = record s { select_flag = v }
set_flag start v s = record s { start_flag = v }

pub record Joypad : Type 0 where
  pub buttons : JoypadBtnState
  pub concurrent_dpad : Bool
  pub index : ℕ
  pub strobe : Bool

unfoldable pub from_bytes : ℕ → Joypad
unfolding from_bits_truncate
from_bytes val = record {
  buttons = from_bits_truncate val;
  concurrent_dpad = false;
  index = 0;
  strobe = false;
}

unfoldable pub new : Joypad
unfolding no_buttons
new = record { buttons = no_buttons; concurrent_dpad = false; index = 0; strobe = false }

unfoldable pub button : JoypadBtn → Joypad → Bool
unfolding contains
button btn pad = contains btn pad.buttons

-- The direction that a direction releases.
unfoldable pub release_opposite : JoypadBtn → JoypadBtnState → JoypadBtnState
unfolding set_flag
release_opposite left s = set_flag right false s
release_opposite right s = set_flag left false s
release_opposite up s = set_flag down false s
release_opposite down s = set_flag up false s
release_opposite _ s = s

unfoldable pub set_button : JoypadBtn → Bool → Joypad → Joypad
unfolding set_flag release_opposite
set_button btn pressed pad = record pad {
  buttons = set_flag btn pressed (
      if pressed && not pad.concurrent_dpad then release_opposite btn pad.buttons else pad.buttons);
}

unfoldable pub peek : Joypad → ℕ
unfolding bits
peek pad =
    if ltb pad.index 8
    then bit_and (u8 (bits pad.buttons)) (1 <<< pad.index) >>> pad.index
    else 0x01

unfoldable pub read : Joypad → ℕ × Joypad
unfolding peek
read pad = (
  peek pad,
  if not pad.strobe && ltb pad.index 8 then record pad { index = pad.index + 1 } else pad,
)

unfoldable pub write : ℕ → Joypad → Joypad
write val pad =
    let strobe = has_bits val 0x01 in
    let pad1 = record pad { strobe = strobe } in
    if pad.strobe && not strobe then record pad1 { index = 0 } else pad1

unfoldable pub clear : Joypad → Joypad
unfolding no_buttons
clear pad = record pad { buttons = no_buttons }

unfoldable pub reset : Joypad → Joypad
unfolding no_buttons
reset pad = record pad { buttons = no_buttons; index = 0; strobe = false }
