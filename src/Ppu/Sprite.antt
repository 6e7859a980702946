-- ===== src/Ppu/Sprite.antt =====
-- tetanes-core/src/ppu/sprite.rs: a sprite of the line.
use tetanes.Base.{ℕ, Bool, true}

pub record Sprite : Type 0 where
  pub x : ℕ
  pub y : ℕ
  pub tile_addr : ℕ
  pub tile_lo : ℕ
  pub tile_hi : ℕ
  pub palette : ℕ
  pub bg_priority : Bool
  pub flip_horizontal : Bool
  pub flip_vertical : Bool

unfoldable pub new : Sprite
new = record {
  x = 0xff;
  y = 0xff;
  tile_addr = 0;
  tile_lo = 0;
  tile_hi = 0;
  palette = 0x07;
  bg_priority = true;
  flip_horizontal = true;
  flip_vertical = true;
}
