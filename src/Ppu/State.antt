-- ===== src/Ppu/State.antt =====
-- `Ppu` of tetanes-core/src/ppu.rs, without its debugger.
use tetanes.Base.{ℕ, ◌+◌, Bool, List}
use tetanes.Common.{NesRegion, auto, ntsc, pal, dendy}
use tetanes.Ppu.Bus.{Board, Bus}
use tetanes.Ppu.Bus
use tetanes.Ppu.Ctrl.{Ctrl}
use tetanes.Ppu.Mask.{Mask}
use tetanes.Ppu.Mask
use tetanes.Ppu.Status.{Status}
use tetanes.Ppu.Scroll.{Scroll}
use tetanes.Ppu.Sprite.{Sprite}
use tetanes.Ppu.Frame.{Frame}

pub record Ppu (M : Type 0) : Type 0 where
  pub master_clock : ℕ
  pub clock_divider : ℕ
  pub cycle : ℕ
  pub scanline : ℕ
  pub vblank_scanline : ℕ
  pub prerender_scanline : ℕ
  pub pal_spr_eval_scanline : ℕ
  pub skip_rendering : Bool
  pub scroll : Scroll
  pub mask : Mask
  pub ctrl : Ctrl
  pub status : Status
  pub bus : Bus M
  pub curr_palette : ℕ
  pub prev_palette : ℕ
  pub next_palette : ℕ
  pub tile_shift_lo : ℕ
  pub tile_shift_hi : ℕ
  pub tile_lo : ℕ
  pub tile_hi : ℕ
  pub tile_addr : ℕ
  pub oamaddr_lo : ℕ
  pub oamaddr_hi : ℕ
  pub oamaddr : ℕ
  pub oam_fetch : ℕ
  pub oam_eval_done : Bool
  pub secondary_oamaddr : ℕ
  pub overflow_count : ℕ
  pub spr_in_range : Bool
  pub spr_zero_in_range : Bool
  pub spr_zero_visible : Bool
  pub spr_count : ℕ
  pub vram_buffer : ℕ
  pub oamdata : List ℕ
  pub secondary_oamdata : List ℕ
  pub sprites : List Sprite
  pub spr_present : List Bool
  pub prevent_vbl : Bool
  pub frame : Frame
  pub region : NesRegion
  pub cycle_count : ℕ
  pub reset_signal : Bool
  pub emulate_warmup : Bool
  pub open_bus : ℕ

abbrev pub vblank : ℕ
vblank = 1

abbrev pub palette_start : ℕ
palette_start = 0x3f00

abbrev pub visible_scanline_end : ℕ
visible_scanline_end = 239

abbrev pub spr_fetch_start : ℕ
spr_fetch_start = 257

abbrev pub spr_fetch_end : ℕ
spr_fetch_end = 320

abbrev pub nt_start : ℕ
nt_start = 0x2000

abbrev pub cycle_end : ℕ
cycle_end = 340

-- The clock divider and the lines of the vertical blank and of the prerendering.
unfoldable pub timing : NesRegion → ℕ × ℕ × ℕ
timing auto = (4, 241, 261)
timing ntsc = (4, 241, 261)
timing pal = (5, 241, 311)
timing dendy = (5, 291, 311)

unfoldable pub set_region : {M : Type 0} → Board M → NesRegion → Ppu M → Ppu M
unfolding timing
set_region board region p =
    let (clock_divider, vblank_scanline, prerender_scanline) = timing region in
    record p {
      region = region;
      clock_divider = clock_divider;
      vblank_scanline = vblank_scanline;
      prerender_scanline = prerender_scanline;
      pal_spr_eval_scanline = vblank_scanline + 24;
      bus = Bus.set_region board region p.bus;
      mask = Mask.set_region region p.mask;
    }
