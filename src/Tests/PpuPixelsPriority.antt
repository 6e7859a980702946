-- ===== src/Tests/PpuPixelsPriority.antt =====
-- Inputs for the theorems of Ppu.Pixels.Priority.
use tetanes.Base.{
  ◌+◌, ◌-◌, ◌≡◌, refl, true, not, ◌&&◌, ◌||◌, if◌then◌else◌, ◌==◌, [], ◌∷◌, replicate, u8,
}
use tetanes.Ppu.Sprite.{Sprite}
use tetanes.Ppu.Sprite
use tetanes.Ppu.Mask
use tetanes.Ppu.State.{Ppu}
use tetanes.Ppu.Pixels.{spr_color, column, bg_color, bg_palette, pixel_palette}
use tetanes.Ppu.Pixels.Priority.{pixel_palette-front}
use tetanes.Tests.Picture.{picture}

-- A sprite at the fifth of whose columns the pixel stands.
abbrev block : Sprite
block = record Sprite.new { x = 60; tile_lo = 0xff; tile_hi = 0xff }

abbrev with_block : Ppu Unit
with_block = record picture {
  sprites = block ∷ [];
  spr_count = 1;
  spr_present = replicate 256 true;
  mask = record (Mask.new picture.region) { show_spr = true };
}

pixel_palette-front_example :
    let p = with_block in
    let bg = bg_color p in
    ((pixel_palette p).0 ≡ (
      if (bg == 0) || not block.bg_priority
      then u8 (block.palette + spr_color (column p - block.x) block)
      else bg_palette bg p))
    × ((pixel_palette p).1.status.spr_zero_hit ≡ (
        p.status.spr_zero_hit
        || (true
            && (p.mask.rendering_enabled
                && (p.spr_zero_visible && (not (bg == 0) && not (column p == 255)))))))
unfolding Sprite.new spr_color Mask.new
pixel_palette-front_example = pixel_palette-front with_block [] block [] refl refl refl refl
