-- ===== src/Input.antt =====
-- tetanes-core/src/input.rs: the controllers. The zapper counts in floating point and senses the
-- picture: it is a parameter.
pub mod Pad
pub mod Shifting
pub mod Directions
use tetanes.Base.{
  ℕ, zero, suc, ◌+◌, ◌-◌, ◌*◌, Bool, true, false, not, if◌then◌else◌, ltb, ◌==◌, bit_or, ◌<<<◌,
}
use tetanes.Common.{NesRegion}
use tetanes.Input.Pad.{Joypad, JoypadBtn, from_bytes, button, set_button}
use tetanes.Input.Pad

pub data FourPlayer : Type 0 where
  disabled four_score satellite : FourPlayer

-- What the input calls of the zapper, which sees the PPU.
pub record ZapperOps (Z P : Type 0) : Type 0 where
  pub zapper_read : Z → P → ℕ
  pub zapper_clock : Z → Z
  pub zapper_clear : Z → Z
  pub zapper_reset : Z → Z
  pub zapper_connect : Bool → Z → Z
  pub set_trigger_release_delay : NesRegion → Z → Z

-- The arrays of the source, a field for each element.
pub record Input (Z : Type 0) : Type 0 where
  pub joypad1 : Joypad
  pub joypad2 : Joypad
  pub joypad3 : Joypad
  pub joypad4 : Joypad
  pub signature1 : Joypad
  pub signature2 : Joypad
  pub zapper : Z
  pub turbo_timer : ℕ
  pub four_player : FourPlayer

abbrev each_pad : {Z : Type 0} → (Joypad → Joypad) → Input Z → Input Z
each_pad f i = record i {
  joypad1 = f i.joypad1;
  joypad2 = f i.joypad2;
  joypad3 = f i.joypad3;
  joypad4 = f i.joypad4;
}

-- The two players that the bus reads; the other two stand behind them.
pub data Port : Type 0 where
  one two : Port

-- The controllers of a port: the first, the one behind it and its signature.
pub record Chain : Type 0 where
  pub first : Joypad
  pub second : Joypad
  pub signature : Joypad

abbrev chain : {Z : Type 0} → Port → Input Z → Chain
chain one i = record { first = i.joypad1; second = i.joypad3; signature = i.signature1 }
chain two i = record { first = i.joypad2; second = i.joypad4; signature = i.signature2 }

abbrev with_chain : {Z : Type 0} → Port → Chain → Input Z → Input Z
with_chain one c i = record i { joypad1 = c.first; joypad3 = c.second; signature1 = c.signature }
with_chain two c i = record i { joypad2 = c.first; joypad4 = c.second; signature2 = c.signature }

-- `match self.four_player`.
unfoldable pub read_chain : FourPlayer → Chain → ℕ × Chain
read_chain disabled c = let (val, pad) = Pad.read c.first in (val, record c { first = pad })
read_chain four_score c =
    if ltb c.first.index 8
    then (let (val, pad) = Pad.read c.first in (val, record c { first = pad }))
    else if ltb c.second.index 8
    then (let (val, pad) = Pad.read c.second in (val, record c { second = pad }))
    else if ltb c.signature.index 8
    then (let (val, pad) = Pad.read c.signature in (val, record c { signature = pad }))
    else (0x01, c)
read_chain satellite c =
    let (val, pad) = Pad.read c.first in
    let (val2, pad2) = Pad.read c.second in
    (bit_or val (val2 <<< 1), record c { first = pad; second = pad2 })

unfoldable pub peek_chain : FourPlayer → Chain → ℕ
peek_chain disabled c = Pad.peek c.first
peek_chain four_score c =
    if ltb c.first.index 8
    then Pad.peek c.first
    else if ltb c.second.index 8
    then Pad.peek c.second
    else if ltb c.signature.index 8
    then Pad.peek c.signature
    else 0x01
peek_chain satellite c = bit_or (Pad.peek c.first) (Pad.peek c.second <<< 1)

module _ {Z P : Type 0} (ops : ZapperOps Z P) where
  abbrev zapper_bits : Port → P → Input Z → ℕ
  zapper_bits one ppu i = 0
  zapper_bits two ppu i = ops.zapper_read i.zapper ppu

  unfoldable pub read : Port → P → Input Z → ℕ × Input Z
  unfolding read_chain
  read port ppu i =
      let (val, c) = read_chain i.four_player (chain port i) in
      (bit_or (bit_or (zapper_bits port ppu i) val) 0x40, with_chain port c i)

  unfoldable pub peek : Port → P → Input Z → ℕ
  unfolding peek_chain
  peek port ppu i =
      bit_or (bit_or (zapper_bits port ppu i) (peek_chain i.four_player (chain port i))) 0x40

  unfoldable pub write : ℕ → Input Z → Input Z
  write val i =
      let i1 = each_pad (Pad.write val) i in
      record i1 {
        signature1 = Pad.write val i1.signature1;
        signature2 = Pad.write val i1.signature2;
      }

  -- A turbo button presses and releases its button.
  unfoldable pub turbo : JoypadBtn → JoypadBtn → Joypad → Joypad
  turbo held btn pad = if button held pad then set_button btn (not (button btn pad)) pad else pad

  unfoldable pub clock : Input Z → Input Z
  unfolding turbo
  clock i =
      let i1 = record i { zapper = ops.zapper_clock i.zapper; turbo_timer = i.turbo_timer - 1 } in
      if i1.turbo_timer == 0
      then each_pad
          (λ pad. turbo JoypadBtn.turbo_b JoypadBtn.b (turbo JoypadBtn.turbo_a JoypadBtn.a pad))
          (record i1 { turbo_timer = 89500 })
      else i1

  unfoldable pub reset : Input Z → Input Z
  reset i = record (each_pad Pad.reset i) {
    signature1 = from_bytes 0x08;
    signature2 = from_bytes 0x04;
    zapper = ops.zapper_reset i.zapper;
  }

  unfoldable pub new : Z → Input Z
  new zapper = record {
    joypad1 = Pad.new;
    joypad2 = Pad.new;
    joypad3 = Pad.new;
    joypad4 = Pad.new;
    signature1 = from_bytes 0x08;
    signature2 = from_bytes 0x04;
    zapper = zapper;
    turbo_timer = 30;
    four_player = disabled;
  }

  unfoldable pub set_region : NesRegion → Input Z → Input Z
  set_region region i = record i { zapper = ops.set_trigger_release_delay region i.zapper }

  unfoldable pub set_concurrent_dpad : Bool → Input Z → Input Z
  set_concurrent_dpad enabled i = each_pad (λ pad. record pad { concurrent_dpad = enabled }) i

  unfoldable pub connect_zapper : Bool → Input Z → Input Z
  connect_zapper connected i = record i { zapper = ops.zapper_connect connected i.zapper }

  unfoldable pub set_four_player : FourPlayer → Input Z → Input Z
  unfolding reset
  set_four_player four_player i = reset (record i { four_player = four_player })

  unfoldable pub clear : Input Z → Input Z
  clear i = record (each_pad Pad.clear i) { zapper = ops.zapper_clear i.zapper }
