-- ===== src/Ppu/Pixels.antt =====
-- The pixels of tetanes-core/src/ppu.rs: the choice between background and sprites.
pub mod Priority
use tetanes.Base.{
  ℕ, suc, ◌+◌, ◌-◌, Bool, true, false, not, ◌&&◌, ◌||◌, if◌then◌else◌, ltb, leb, ◌==◌, List, [],
  ◌∷◌, take, get_or, Option, none, some, bit_and, bit_or, u8, u16, ◌<<<◌, ◌>>>◌,
}
use mathlib.Core.Option
use tetanes.Ppu.Bus.{Board, Bus, read_palette}
use tetanes.Ppu.Scroll.{addr}
use tetanes.Ppu.Status.{set_spr_zero_hit}
use tetanes.Ppu.Sprite.{Sprite}
use tetanes.Ppu.Frame.{set_pixel}
use tetanes.Ppu.State.{Ppu, palette_start}

-- The color of a sprite at a distance of at most 7 from its left edge.
unfoldable pub spr_color : ℕ → Sprite → ℕ
spr_color shift sprite =
    if sprite.flip_horizontal
    then bit_or (bit_and (sprite.tile_hi >>> shift) 0x01 <<< 1)
        (bit_and (sprite.tile_lo >>> shift) 0x01)
    else bit_or (bit_and (u8 (sprite.tile_hi <<< shift)) 0x80 >>> 6)
        (bit_and (u8 (sprite.tile_lo <<< shift)) 0x80 >>> 7)

-- The address of a palette entry; every transparent color is the first of the palette.
unfoldable pub entry_addr : ℕ → ℕ
entry_addr palette = bit_or palette_start (if ltb 0 (bit_and palette 0x03) then palette else 0)

module _ {M : Type 0} where
  -- The position of the pixel on its line.
  abbrev pub column : Ppu M → ℕ
  column p = p.cycle - 1

  unfoldable pub bg_color : Ppu M → ℕ
  bg_color p =
      let left_clip_bg = ltb (column p) 8 && not p.mask.show_left_bg in
      if p.mask.show_bg && not left_clip_bg
      then bit_or (bit_and (u16 (p.tile_shift_hi <<< p.scroll.fine_x)) 0x8000 >>> 14)
          (bit_and (u16 (p.tile_shift_lo <<< p.scroll.fine_x)) 0x8000 >>> 15)
      else 0

  -- A pixel of the sprite at position `i` that is not transparent, under a background color.
  unfoldable pub hit_zero : ℕ → ℕ → Ppu M → Ppu M
  hit_zero i bg p =
      if (i == 0)
        && (p.mask.rendering_enabled
            && (not p.status.spr_zero_hit
                && (p.spr_zero_visible && (not (bg == 0) && not (column p == 255)))))
      then record p { status = set_spr_zero_hit true p.status }
      else p

  -- The loop over the sprites: a palette entry where it returns one.
  unfoldable pub scan_sprites : ℕ → ℕ → List Sprite → Ppu M → Option ℕ × Ppu M
  unfolding spr_color hit_zero
  scan_sprites i bg [] p = (none, p)
  scan_sprites i bg (sprite ∷ rest) p =
      let next = scan_sprites (i + 1) bg rest p in
      let shift = column p - sprite.x in
      let color = spr_color shift sprite in
      let above = (bg == 0) || not sprite.bg_priority in
      if ltb (column p) sprite.x
      then next
      else if leb shift 7 && not (color == 0)
      then (if above then some (u8 (sprite.palette + color)) else none, hit_zero i bg p)
      else next

  unfoldable pub bg_palette : ℕ → Ppu M → ℕ
  bg_palette bg p =
      if ltb (p.scroll.fine_x + bit_and (column p) 0x07) 8
      then u8 (p.prev_palette + bg)
      else u8 (p.curr_palette + bg)

  -- Whether sprites can show at the pixel.
  abbrev pub sprites_shown : Ppu M → Bool
  sprites_shown p =
      p.mask.show_spr
      && (not (ltb (column p) 8 && not p.mask.show_left_spr)
          && get_or p.spr_present (column p) false)

  abbrev pub or_background : ℕ → Option ℕ × Ppu M → ℕ × Ppu M
  or_background bg (some entry, p) = (entry, p)
  or_background bg (none, p) = (bg_palette bg p, p)

  unfoldable pub pixel_palette : Ppu M → ℕ × Ppu M
  unfolding bg_color scan_sprites bg_palette
  pixel_palette p =
      let bg = bg_color p in
      or_background bg
        (if sprites_shown p then scan_sprites 0 bg (take p.spr_count p.sprites) p else (none, p))

  unfoldable pub put_pixel : ℕ → Ppu M → Ppu M
  put_pixel color p = record p {
    frame =
        set_pixel (column p) p.scanline (bit_or (bit_and color p.mask.grayscale) p.mask.emphasis)
          p.frame;
  }

module _ {M : Type 0} (board : Board M) where
  -- With rendering off the palette entry that v points to shows.
  unfoldable pub render_pixel : Ppu M → Ppu M
  unfolding pixel_palette entry_addr put_pixel
  render_pixel p =
      let at = addr p.scroll in
      let (entry, p1) = pixel_palette p in
      let (color, bus) = read_palette board (entry_addr entry) p1.bus in
      let (blank, bus_blank) = read_palette board at p.bus in
      if p.mask.rendering_enabled || not (bit_and at palette_start == palette_start)
      then put_pixel color (record p1 { bus = bus })
      else put_pixel blank (record p { bus = bus_blank })
