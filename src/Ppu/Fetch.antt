-- ===== src/Ppu/Fetch.antt =====
-- The fetches of tetanes-core/src/ppu.rs: the tiles of the background and the sprites of the next
-- line. `none` stands for the panic of a nametable address that a board maps to PRG.
use tetanes.Base.{
  ℕ, zero, suc, ◌+◌, ◌-◌, ◌*◌, ◌/◌, Bool, true, ◌&&◌, if◌then◌else◌, ltb, leb, ◌==◌, List, [], ◌∷◌,
  get_or, set, Option, some, bit_and, bit_or, has_bits, ◌<<<◌, ◌>>>◌,
}
use mathlib.Core.Option
use tetanes.Ppu.Bus.{Board, Bus, read_ciram, read_chr}
use tetanes.Ppu.Scroll.{addr, attr_addr, attr_shift}
use tetanes.Ppu.Sprite.{Sprite}
use tetanes.Ppu.Sprite
use tetanes.Ppu.State.{Ppu, nt_start, spr_fetch_start}
use tetanes.Ppu.Access.{write_oamaddr}

-- `skip` elements further on, `take` elements become true.
unfoldable pub mark : ℕ → ℕ → List Bool → List Bool
mark skip take [] = []
mark (suc skip) take (b ∷ bs) = b ∷ mark skip take bs
mark zero (suc take) (b ∷ bs) = true ∷ mark zero take bs
mark zero zero (b ∷ bs) = b ∷ bs

module _ {M : Type 0} where
  -- The byte of the secondary memory.
  abbrev secondary_at : Ppu M → ℕ → ℕ
  secondary_at p i = get_or p.secondary_oamdata i 0

  -- The position of a sprite among the sprites of the line.
  unfoldable pub sprite_index : Ppu M → ℕ
  sprite_index p = (p.cycle - spr_fetch_start) / 8

  -- The line of the sprite that the scanline shows, from its top after a vertical flip.
  unfoldable pub line_offset : ℕ → Bool → Ppu M → ℕ
  line_offset y flip_vertical p =
      let height = p.ctrl.spr_height in
      let offset = if leb y p.scanline && ltb p.scanline (y + height) then p.scanline - y else 0 in
      if flip_vertical then height - 1 - offset else offset

  -- The address of a line of a tile, for sprites of either height.
  unfoldable pub sprite_tile_addr : ℕ → ℕ → Ppu M → ℕ
  sprite_tile_addr tile_index offset p =
      if p.ctrl.spr_height == 16
      then bit_or (bit_or (bit_and tile_index 0x01 * 0x1000) (bit_and tile_index 0xfe <<< 4))
          (if leb 8 offset then offset + 8 else offset)
      else bit_or (bit_or p.ctrl.spr_select (tile_index <<< 4)) offset

module _ {M : Type 0} (board : Board M) where
  unfoldable pub fetch_bg_nt_byte : Ppu M → Option (Ppu M)
  fetch_bg_nt_byte p =
      let p1 = record p {
        prev_palette = p.curr_palette;
        curr_palette = p.next_palette;
        tile_shift_lo = bit_or p.tile_shift_lo p.tile_lo;
        tile_shift_hi = bit_or p.tile_shift_hi p.tile_hi;
      } in
      let at = bit_or nt_start (bit_and (addr p.scroll) 0x0fff) in
      Option.map
        (λ (r : ℕ × Bus M). record p1 {
          bus = r.1;
          tile_addr = bit_or (bit_or p.ctrl.bg_select (r.0 <<< 4)) p.scroll.fine_y;
        })
        (read_ciram board at p.bus)

  unfoldable pub fetch_bg_attr_byte : Ppu M → Option (Ppu M)
  fetch_bg_attr_byte p =
      Option.map
        (λ (r : ℕ × Bus M). record p {
          bus = r.1;
          next_palette = bit_and (r.0 >>> attr_shift p.scroll) 0x03 <<< 2;
        })
        (read_ciram board (attr_addr p.scroll) p.bus)

  abbrev fetch_tile_lo : Ppu M → Ppu M
  fetch_tile_lo p =
      let (val, bus) = read_chr board p.tile_addr p.bus in record p { tile_lo = val; bus = bus }

  abbrev fetch_tile_hi : Ppu M → Ppu M
  fetch_tile_hi p =
      let (val, bus) = read_chr board (p.tile_addr + 8) p.bus in
      record p { tile_hi = val; bus = bus }

  unfoldable pub fetch_background : Ppu M → Option (Ppu M)
  unfolding fetch_bg_nt_byte fetch_bg_attr_byte
  fetch_background p =
      let step = bit_and p.cycle 0x07 in
      if step == 1
      then fetch_bg_nt_byte p
      else if step == 3
      then fetch_bg_attr_byte p
      else if step == 5
      then some (fetch_tile_lo p)
      else if step == 7
      then some (fetch_tile_hi p)
      else some p

  -- Both planes of a line of a tile.
  abbrev read_tile : ℕ → Ppu M → ℕ × ℕ × Bus M
  read_tile tile_addr p =
      let (lo, bus1) = read_chr board tile_addr p.bus in
      let (hi, bus2) = read_chr board (tile_addr + 8) bus1 in (lo, hi, bus2)

  unfoldable pub load_sprites : Ppu M → Ppu M
  unfolding sprite_index line_offset sprite_tile_addr
  load_sprites p =
      let idx = sprite_index p in
      let y = secondary_at p (idx * 4) in
      let tile_index = secondary_at p (idx * 4 + 1) in
      let attr = secondary_at p (idx * 4 + 2) in
      let x = secondary_at p (idx * 4 + 3) in
      let flip_vertical = has_bits attr 0x80 in
      if ltb idx p.spr_count
      then (let tile_addr = sprite_tile_addr tile_index (line_offset y flip_vertical p) p in
          let (lo, hi, bus) = read_tile tile_addr p in
          let sprite = record (get_or p.sprites idx Sprite.new) {
            x = x;
            y = y;
            tile_lo = lo;
            tile_hi = hi;
            palette = bit_or (bit_and attr 0x03 <<< 2) 0x10;
            bg_priority = has_bits attr 0x20;
            flip_horizontal = has_bits attr 0x40;
            flip_vertical = flip_vertical;
          } in
          record p {
            bus = bus;
            sprites = set p.sprites idx sprite;
            spr_present = mark x 8 p.spr_present;
          })
      else (let (lo, hi, bus) = read_tile (sprite_tile_addr 0xff 0 p) p in record p { bus = bus })

  unfoldable pub fetch_sprites : Ppu M → Option (Ppu M)
  unfolding write_oamaddr fetch_bg_nt_byte fetch_bg_attr_byte load_sprites
  fetch_sprites p =
      let p1 = write_oamaddr 0 p in
      let step = bit_and p.cycle 0x07 in
      if step == 1
      then fetch_bg_nt_byte p1
      else if step == 3
      then fetch_bg_attr_byte p1
      else if step == 4
      then some (load_sprites p1)
      else some p1
