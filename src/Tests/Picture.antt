-- ===== src/Tests/Picture.antt =====
-- A picture unit that the tests use.
use tetanes.Base.{true, false, replicate}
use tetanes.Common.{ntsc}
use tetanes.Ppu.Bus
use tetanes.Ppu.Ctrl
use tetanes.Ppu.Mask
use tetanes.Ppu.Status
use tetanes.Ppu.Scroll
use tetanes.Ppu.Sprite
use tetanes.Ppu.Frame
use tetanes.Ppu.State.{Ppu}

-- On the first even cycle of the evaluation of a line.
abbrev pub picture : Ppu Unit
picture = record {
  master_clock = 0;
  clock_divider = 4;
  cycle = 66;
  scanline = 12;
  vblank_scanline = 241;
  prerender_scanline = 261;
  pal_spr_eval_scanline = 265;
  skip_rendering = false;
  scroll = Scroll.new;
  mask = Mask.new ntsc;
  ctrl = Ctrl.new;
  status = Status.new;
  bus = Bus.new tt;
  curr_palette = 0;
  prev_palette = 0;
  next_palette = 0;
  tile_shift_lo = 0;
  tile_shift_hi = 0;
  tile_lo = 0;
  tile_hi = 0;
  tile_addr = 0;
  oamaddr_lo = 0;
  oamaddr_hi = 0;
  oamaddr = 254;
  oam_fetch = 8;
  oam_eval_done = false;
  secondary_oamaddr = 31;
  overflow_count = 0;
  spr_in_range = true;
  spr_zero_in_range = false;
  spr_zero_visible = false;
  spr_count = 0;
  vram_buffer = 0;
  oamdata = replicate 256 0xff;
  secondary_oamdata = replicate 32 0xff;
  sprites = replicate 8 Sprite.new;
  spr_present = replicate 256 false;
  prevent_vbl = false;
  frame = Frame.new;
  region = ntsc;
  cycle_count = 0;
  reset_signal = false;
  emulate_warmup = false;
  open_bus = 0;
}
