-- ===== src/Ppu/Clock.antt =====
-- The clock of tetanes-core/src/ppu.rs: a cycle of the picture, its frames, and the reset.
pub mod Timing
pub mod Skipping
pub mod Progress
pub mod Position
pub mod Blanks
pub mod CatchingUp
use tetanes.Base.{
  ℕ, zero, suc, ◌+◌, ◌-◌, Bool, true, false, not, ◌&&◌, ◌||◌, if◌then◌else◌, ltb, leb, ◌==◌, List,
  replicate, length, get_or, set, Option, none, some, bit_and, u16, usize, ◌<<<◌,
}
use mathlib.Core.Option
use tetanes.Common.{NesRegion, ResetKind, is_hard, is_pal, is_ntsc}
use tetanes.Cpu.Lines.{Lines}
use tetanes.Mapper.{within}
use tetanes.Ppu.Bus.{Board}
use tetanes.Ppu.Bus
use tetanes.Ppu.Ctrl
use tetanes.Ppu.Mask
use tetanes.Ppu.Status
use tetanes.Ppu.Scroll.{Scroll, addr, copy_x, copy_y, increment_x, increment_y, delayed_update}
use tetanes.Ppu.Scroll
use tetanes.Ppu.Sprite
use tetanes.Ppu.Frame.{number}
use tetanes.Ppu.Frame
use tetanes.Ppu.State.{
  Ppu, vblank, visible_scanline_end, spr_fetch_start, spr_fetch_end, cycle_end, set_region,
}
use tetanes.Ppu.Access.{write_oamaddr, start_vblank, stop_vblank}
use tetanes.Ppu.Evaluation.{evaluate_sprites}
use tetanes.Ppu.Fetch.{fetch_bg_nt_byte, fetch_background, fetch_sprites}
use tetanes.Ppu.Pixels.{render_pixel}

module _ {M : Type 0} where
  abbrev pub visible_cycle : Ppu M → Bool
  visible_cycle p = within p.cycle 1 256

  abbrev pub bg_fetch_cycle : Ppu M → Bool
  bg_fetch_cycle p = within p.cycle 321 336 || visible_cycle p

  abbrev pub visible_scanline : Ppu M → Bool
  visible_scanline p = leb p.scanline visible_scanline_end

  abbrev pub prerendering : Ppu M → Bool
  prerendering p = p.scanline == p.prerender_scanline

  abbrev pub spr_fetch_cycle : Ppu M → Bool
  spr_fetch_cycle p = within p.cycle spr_fetch_start spr_fetch_end

  unfoldable pub evaluation_step : Ppu M → Ppu M
  unfolding evaluate_sprites write_oamaddr
  evaluation_step p =
      if visible_scanline p || (is_pal p.region && leb p.pal_spr_eval_scanline p.scanline)
      then if within p.cycle 1 256
        then evaluate_sprites p
        else if spr_fetch_cycle p
        then write_oamaddr 0 p
        else p
      else p

  -- `match cycle`: the first bytes of the sprite memory, and the vertical part of v.
  unfoldable pub prerender_copies : Ppu M → Ppu M
  prerender_copies p =
      let at = p.cycle - 1 in
      if within p.cycle 1 8 && leb 8 p.oamaddr
      then record p {
        oamdata = set p.oamdata at (get_or p.oamdata (bit_and p.oamaddr 0xf8 + at) 0);
      }
      else if within p.cycle 280 304
      then record p { scroll = copy_y p.scroll }
      else p

  unfoldable pub prerender_step : Ppu M → Ppu M
  unfolding prerender_copies
  prerender_step p = if prerendering p then record (prerender_copies p) { spr_count = 0 } else p

  unfoldable pub scroll_step : Ppu M → Ppu M
  scroll_step p =
      if p.cycle == 256
      then record p { scroll = increment_y p.scroll }
      else if p.cycle == 257
      then record p { scroll = copy_x p.scroll }
      else p

  unfoldable pub clear_present : Ppu M → Ppu M
  clear_present p =
      if p.cycle == spr_fetch_start
      then record p { spr_present = replicate (length p.spr_present) false }
      else p

  -- Each odd frame of an NTSC picture is a cycle shorter.
  unfoldable pub odd_skip : Ppu M → Ppu M
  odd_skip p =
      if is_ntsc p.region
        && (prerendering p && ((bit_and (number p.frame) 0x01 == 0x01) && (p.cycle == 339)))
      then record p { cycle = cycle_end }
      else p

  -- The shift registers move after the pixel.
  unfoldable pub shift_tiles : Ppu M → Ppu M
  shift_tiles p = record p {
    tile_shift_lo = u16 (p.tile_shift_lo <<< 1);
    tile_shift_hi = u16 (p.tile_shift_hi <<< 1);
  }

  -- The line after `p`, whose cycles are over.
  unfoldable pub next_line : Ppu M → Ppu M
  next_line p =
      let p1 = record p { cycle = 0; scanline = p.scanline + 1 } in
      if p1.scanline == p.vblank_scanline - 1
      then record p1 { frame = Frame.increment p.frame }
      else if ltb p.prerender_scanline p1.scanline
      then record p1 { scanline = 0 }
      else p1

module _ {M : Type 0} (board : Board M) where
  unfoldable pub background_step : Ppu M → Option (Ppu M)
  unfolding fetch_background fetch_bg_nt_byte
  background_step p =
      if bg_fetch_cycle p
      then Option.map
          (λ (p1 : Ppu M).
            if bit_and p.cycle 0x07 == 0 then record p1 { scroll = increment_x p1.scroll } else p1)
          (fetch_background board p)
      else if within p.cycle 337 cycle_end
      then fetch_bg_nt_byte board p
      else some p

  unfoldable pub sprite_step : Ppu M → Option (Ppu M)
  unfolding clear_present fetch_sprites
  sprite_step p =
      if spr_fetch_cycle p
      then fetch_sprites board (clear_present p)
      else if within p.cycle 321 cycle_end
      then some (record p { oam_fetch = get_or p.secondary_oamdata 0 0 })
      else some p

  -- What a line that is rendered does in a cycle.
  unfoldable pub line_step : Ppu M → Option (Ppu M)
  unfolding background_step prerender_step scroll_step sprite_step odd_skip
  line_step p =
      Option.bind (background_step p)
        (λ p1. Option.map odd_skip (sprite_step (scroll_step (prerender_step p1))))

  unfoldable pub render_step : Ppu M → Option (Ppu M)
  unfolding evaluation_step line_step
  render_step p =
      let p1 = evaluation_step p in
      if prerendering p || visible_scanline p then line_step p1 else some p1

  -- A write of PPUADDR reaches v with a delay, which the board sees.
  unfoldable pub delayed_step : Ppu M → Lines → Ppu M × Lines
  delayed_step p l =
      let (scroll, updated) = delayed_update p.scroll in
      let p1 = record p { scroll = scroll } in
      let (m, l1) = board.ppu_bus_read (addr scroll) p.bus.mapper l in
      if updated then (record p1 { bus = record p.bus { mapper = m } }, l1) else (p1, l)

  -- The end of the cycle that began as `p`.
  unfoldable pub finish_tick : Ppu M → Lines → Ppu M → Ppu M × Lines
  unfolding delayed_step render_pixel shift_tiles
  finish_tick p l p1 =
      let (p2, l1) = delayed_step p1 l in
      let p3 =
        if visible_scanline p && (visible_cycle p && not p.skip_rendering)
        then render_pixel board p2
        else p2 in
      (if bg_fetch_cycle p then shift_tiles p3 else p3, l1)

  unfoldable pub tick : Ppu M → Lines → Option (Ppu M × Lines)
  unfolding render_step finish_tick
  tick p l =
      Option.map (finish_tick p l) (if p.mask.rendering_enabled then render_step p else some p)

  unfoldable pub blank_step : Ppu M × Lines → Ppu M × Lines
  unfolding start_vblank stop_vblank
  blank_step (p, l) =
      if p.cycle == vblank
      then if p.scanline == p.vblank_scanline
        then start_vblank board p l
        else if p.scanline == p.prerender_scanline
        then stop_vblank board p l
        else (p, l)
      else (p, l)

  abbrev count_cycle : Ppu M × Lines → Ppu M × Lines
  count_cycle (p, l) = (record p { cycle_count = usize (p.cycle_count + 1) }, l)

  unfoldable pub clock : Ppu M → Lines → Option (Ppu M × Lines)
  unfolding next_line tick blank_step
  clock p l =
      if leb cycle_end p.cycle
      then some (count_cycle (next_line p, l))
      else Option.map (λ r. count_cycle (blank_step r)) (tick (record p { cycle = p.cycle + 1 }) l)

  -- The cycles that fit before a time of the master clock; the outer option is the panic, and the
  -- loop runs at most `fuel` times.
  unfoldable pub clock_to : ℕ → ℕ → Ppu M → Lines → Option (ℕ × Ppu M × Lines)
  unfolding clock
  clock_to zero time p l = some (0, p, l)
  clock_to (suc fuel) time p l =
      let rest = λ (r : Ppu M × Lines).
        clock_to fuel time
          (record r.0 { master_clock = usize (r.0.master_clock + r.0.clock_divider) }) r.1 in
      if leb (usize (p.master_clock + p.clock_divider)) time
      then Option.bind (clock p l)
          (λ r. Option.map (λ (s : ℕ × Ppu M × Lines). (suc s.0, s.1, s.2)) (rest r))
      else some (0, p, l)

  unfoldable pub reset : ResetKind → Ppu M → Ppu M
  reset kind p = record p {
    ctrl = Ctrl.reset p.ctrl;
    mask = Mask.reset p.mask;
    status = Status.reset kind p.status;
    scroll = Scroll.reset kind p.scroll;
    reset_signal = p.emulate_warmup;
    oamdata = if is_hard kind then replicate (length p.oamdata) 0 else p.oamdata;
    oamaddr = if is_hard kind then 0 else p.oamaddr;
    secondary_oamaddr = 0;
    vram_buffer = 0;
    cycle = 0;
    scanline = 0;
    master_clock = 0;
    prevent_vbl = false;
    frame = Frame.reset kind p.frame;
    oam_fetch = 0;
    oam_eval_done = false;
    overflow_count = 0;
    spr_in_range = false;
    spr_zero_in_range = false;
    spr_zero_visible = false;
    spr_count = 0;
    sprites = replicate 8 Sprite.new;
    spr_present = replicate (length p.spr_present) false;
    open_bus = 0;
    bus = Bus.reset board kind p.bus;
  }

  unfoldable pub new : NesRegion → M → Ppu M
  unfolding set_region
  new region none_mapper = set_region board region (record {
    master_clock = 0;
    clock_divider = 0;
    cycle = 0;
    scanline = 0;
    vblank_scanline = 0;
    prerender_scanline = 0;
    pal_spr_eval_scanline = 0;
    skip_rendering = false;
    scroll = Scroll.new;
    mask = Mask.new region;
    ctrl = Ctrl.new;
    status = Status.new;
    bus = Bus.new none_mapper;
    curr_palette = 0;
    prev_palette = 0;
    next_palette = 0;
    tile_shift_lo = 0;
    tile_shift_hi = 0;
    tile_lo = 0;
    tile_hi = 0;
    tile_addr = 0;
    oamaddr_lo = 0;
    oamaddr_hi = 0;
    oamaddr = 0;
    oam_fetch = 0;
    oam_eval_done = false;
    secondary_oamaddr = 0;
    overflow_count = 0;
    spr_in_range = false;
    spr_zero_in_range = false;
    spr_zero_visible = false;
    spr_count = 0;
    vram_buffer = 0;
    oamdata = replicate 256 0xff;
    secondary_oamdata = replicate 32 0xff;
    sprites = replicate 8 Sprite.new;
    spr_present = replicate 256 false;
    prevent_vbl = false;
    frame = Frame.new;
    region = region;
    cycle_count = 0;
    reset_signal = false;
    emulate_warmup = false;
    open_bus = 0;
  })
