-- ===== src/Ppu/Access.antt =====
-- The registers of the PPU at $2000 to $2007 and the vertical blank, of tetanes-core/src/ppu.rs.
pub mod Filling
pub mod Race
use tetanes.Base.{
  ℕ, ◌+◌, ◌-◌, ◌%◌, Bool, true, false, not, ◌&&◌, ◌||◌, if◌then◌else◌, ltb, leb, ◌==◌, get_or,
  get_elem?, set, Option, bit_and, bit_or, u8,
}
use mathlib.Core.Option
use tetanes.Common.{is_pal}
use tetanes.Cpu.Lines.{Lines, set_nmi, clear_nmi}
use tetanes.Mapper.{within}
use tetanes.Ppu.Bus.{Board}
use tetanes.Ppu.Bus
use tetanes.Ppu.Ctrl
use tetanes.Ppu.Mask
use tetanes.Ppu.Status.{set_in_vblank, set_spr_zero_hit, set_spr_overflow, reset_in_vblank}
use tetanes.Ppu.Status
use tetanes.Ppu.Scroll.{
  addr, increment, increment_x, increment_y, reset_latch, write_nametable_select,
}
use tetanes.Ppu.Scroll
use tetanes.Ppu.State.{
  Ppu, vblank, palette_start, visible_scanline_end, spr_fetch_start, spr_fetch_end,
}

-- The bits 2 to 4 of the third byte of a sprite do not exist.
unfoldable pub oam_byte : ℕ → ℕ → ℕ
oam_byte oamaddr val = if bit_and oamaddr 0x03 == 0x02 then bit_and val 0xe3 else val

module _ {M : Type 0} where
  unfoldable pub increment_vram_addr : Ppu M → Ppu M
  increment_vram_addr p =
      if p.mask.rendering_enabled
        && (p.scanline == p.prerender_scanline || leb p.scanline visible_scanline_end)
      then record p { scroll = increment_y (increment_x p.scroll) }
      else record p { scroll = increment p.ctrl.vram_increment p.scroll }

  -- The registers do not take a write while the PPU warms up.
  abbrev pub is_warming : Ppu M → Bool
  is_warming p = p.reset_signal && p.emulate_warmup

  unfoldable pub write_ctrl : ℕ → Ppu M → Lines → Ppu M × Lines
  write_ctrl val p l =
      if is_warming p
      then (p, l)
      else (let p1 = record p {
        open_bus = val;
        ctrl = Ctrl.write val p.ctrl;
        scroll = write_nametable_select val p.scroll;
      } in
          (
            p1,
            if not p1.ctrl.nmi_enabled
                then clear_nmi l
                else if p1.status.in_vblank
                then set_nmi l
                else l,
          ))

  unfoldable pub write_mask : ℕ → Ppu M → Ppu M
  write_mask val p =
      if is_warming p then p else record p { open_bus = val; mask = Mask.write val p.mask }

  unfoldable pub peek_status : Ppu M → ℕ
  peek_status p = bit_or (bit_and (Status.read p.status) 0xe0) (bit_and p.open_bus 0x1f)

  unfoldable pub write_oamaddr : ℕ → Ppu M → Ppu M
  write_oamaddr val p = record p { open_bus = val; oamaddr = val }

  -- The index panics behind the secondary memory, where the evaluation of a full line leaves it.
  unfoldable pub peek_oamdata : Ppu M → Option ℕ
  peek_oamdata p =
      if leb p.scanline visible_scanline_end
        && (p.mask.rendering_enabled && within p.cycle spr_fetch_start spr_fetch_end)
      then get_elem? p.secondary_oamdata p.secondary_oamaddr
      else get_elem? p.oamdata p.oamaddr

  unfoldable pub read_oamdata : Ppu M → Option (ℕ × Ppu M)
  unfolding peek_oamdata
  read_oamdata p = Option.map (λ val. (val, record p { open_bus = val })) (peek_oamdata p)

  -- Whether the PPU uses its sprite memory.
  unfoldable pub is_using_oam : Ppu M → Bool
  is_using_oam p =
      p.mask.rendering_enabled
      && (leb p.scanline visible_scanline_end
          || (p.scanline == p.prerender_scanline
              || (is_pal p.region && leb p.pal_spr_eval_scanline p.scanline)))

  unfoldable pub write_oamdata : ℕ → Ppu M → Ppu M
  unfolding is_using_oam oam_byte
  write_oamdata val p =
      let p1 = record p { open_bus = val } in
      if is_using_oam p then record p1 { oamaddr = u8 (p.oamaddr + 4) } else record p1 {
        oamdata = set p.oamdata p.oamaddr (oam_byte p.oamaddr val);
        oamaddr = u8 (p.oamaddr + 1);
      }

  unfoldable pub write_scroll : ℕ → Ppu M → Ppu M
  write_scroll val p =
      if is_warming p then p else record p { open_bus = val; scroll = Scroll.write val p.scroll }

  unfoldable pub peek_data : Board M → Ppu M → Option ℕ
  peek_data board p =
      let at = addr p.scroll in
      if ltb at palette_start
      then Option.some p.vram_buffer
      else Option.map (λ val. bit_or val (bit_and p.open_bus 0xc0)) (Bus.peek board at p.bus)

-- The registers that reach the board.
module _ {M : Type 0} (board : Board M) where
  abbrev tell_write : ℕ → ℕ → Ppu M → Lines → Ppu M × Lines
  tell_write at val p l =
      let (m, l1) = board.ppu_bus_write at val p.bus.mapper l in
      (record p { bus = record p.bus { mapper = m } }, l1)

  abbrev tell_read : ℕ → Ppu M → Lines → Ppu M × Lines
  tell_read at p l =
      let (m, l1) = board.ppu_bus_read at p.bus.mapper l in
      (record p { bus = record p.bus { mapper = m } }, l1)

  unfoldable pub start_vblank : Ppu M → Lines → Ppu M × Lines
  unfolding peek_status
  start_vblank p l =
      let p1 = if p.prevent_vbl then p else record p { status = set_in_vblank true p.status } in
      let l1 = if not p.prevent_vbl && p.ctrl.nmi_enabled then set_nmi l else l in
      let p2 = record p1 { prevent_vbl = false } in tell_write 0x2002 (peek_status p2) p2 l1

  unfoldable pub stop_vblank : Ppu M → Lines → Ppu M × Lines
  unfolding peek_status
  stop_vblank p l =
      let p1 = record p {
        status = reset_in_vblank (set_spr_overflow false (set_spr_zero_hit false p.status));
        reset_signal = false;
        open_bus = 0;
      } in
      tell_write 0x2002 (peek_status p1) p1 (clear_nmi l)

  unfoldable pub read_status : Ppu M → Lines → ℕ × Ppu M × Lines
  unfolding peek_status
  read_status p l =
      let status = peek_status p in
      let p1 = record p {
        status = reset_in_vblank p.status;
        scroll = reset_latch p.scroll;
        prevent_vbl = (p.scanline == p.vblank_scanline && p.cycle == vblank - 1) || p.prevent_vbl;
        open_bus = bit_or p.open_bus (bit_and status 0xe0);
      } in
      let (p2, l1) = tell_write 0x2002 status p1 (clear_nmi l) in (status, p2, l1)

  unfoldable pub write_addr : ℕ → Ppu M → Lines → Ppu M × Lines
  write_addr val p l =
      if is_warming p
      then (p, l)
      else (let p1 = record p { open_bus = val; scroll = Scroll.write_addr val p.scroll } in
          tell_write (addr p1.scroll) val p1 l)

  -- The end of a read of PPUDATA: the byte is on the bus and the board sees the next address.
  abbrev finish_read : Lines → ℕ → Ppu M → ℕ × Ppu M × Lines
  finish_read l val p =
      let p1 = record p { open_bus = val } in
      let (p2, l1) = tell_read (addr p1.scroll) p1 l in (val, p2, l1)

  -- A palette read fills the buffer with the nametable behind the palette.
  abbrev palette_read : Lines → ℕ → ℕ → Ppu M → Option (ℕ × Ppu M × Lines)
  palette_read l at val p =
      Option.map
        (λ (r : ℕ × Bus.Bus M).
          finish_read l (bit_or val (bit_and p.open_bus 0xc0))
            (record p { bus = r.1; vram_buffer = r.0 }))
        (Bus.read board (at - 0x1000) p.bus)

  abbrev buffered_read : Lines → ℕ → Ppu M → ℕ × Bus.Bus M → Option (ℕ × Ppu M × Lines)
  buffered_read l at p (val, bus) =
      if ltb at palette_start
      then Option.some (finish_read l p.vram_buffer (record p { bus = bus; vram_buffer = val }))
      else palette_read l at val (record p { bus = bus })

  unfoldable pub read_data : Ppu M → Lines → Option (ℕ × Ppu M × Lines)
  unfolding increment_vram_addr
  read_data p l =
      if is_warming p
      then Option.some (0, record p { open_bus = 0 }, l)
      else (let at = addr p.scroll in
          let p1 = increment_vram_addr p in
          Option.bind (Bus.read board at p1.bus) (buffered_read l at p1))

  unfoldable pub write_data : ℕ → Ppu M → Lines → Option (Ppu M × Lines)
  unfolding increment_vram_addr
  write_data val p l =
      let at = addr p.scroll in
      let p1 = increment_vram_addr (record p { open_bus = val }) in
      Option.map
        (λ (r : Bus.Bus M × Lines).
          (let p2 = record p1 { bus = r.0 } in tell_write (addr p2.scroll) val p2 r.1))
        (Bus.write board at val p1.bus l)
