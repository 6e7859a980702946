-- ===== src/Ppu/Evaluation.antt =====
-- `evaluate_sprites` of tetanes-core/src/ppu.rs: which sprites the next line shows. The source keeps
-- fields in locals during a cycle; here they stay in the record.
pub mod Bounds
pub mod Reading
use tetanes.Base.{
  ℕ, ◌+◌, ◌-◌, ◌%◌, Bool, true, false, not, ◌&&◌, ◌||◌, if◌then◌else◌, ltb, leb, ◌==◌, get_or, set,
  replicate, bit_and, bit_or, u8, ◌<<<◌, ◌>>>◌,
}
use tetanes.Mapper.{within}
use tetanes.Ppu.Status.{set_spr_overflow}
use tetanes.Ppu.State.{Ppu}

module _ {M : Type 0} where
  unfoldable pub clear_secondary : Ppu M → Ppu M
  clear_secondary p = record p { oam_fetch = 0xff; secondary_oamdata = replicate 32 0xff }

  unfoldable pub start_evaluation : Ppu M → Ppu M
  start_evaluation p = record p {
    spr_in_range = false;
    spr_zero_in_range = false;
    secondary_oamaddr = 0;
    oam_eval_done = false;
    oamaddr_hi = bit_and (p.oamaddr >>> 2) 0x3f;
    oamaddr_lo = bit_and p.oamaddr 0x03;
  }

  unfoldable pub end_evaluation : Ppu M → Ppu M
  end_evaluation p = record p {
    spr_zero_visible = p.spr_zero_in_range;
    spr_count = p.secondary_oamaddr >>> 2;
  }

  abbrev pub next_sprite : Ppu M → ℕ
  next_sprite p = bit_and (p.oamaddr_hi + 1) 0x3f

  -- The byte of the secondary memory that the position of the copy selects.
  abbrev pub secondary_byte : Ppu M → ℕ
  secondary_byte p = get_or p.secondary_oamdata (bit_and p.secondary_oamaddr 0x1f) 0

  -- The evaluation is over: it only steps through the sprites.
  unfoldable pub idle : Ppu M → Ppu M
  idle p = record p {
    oamaddr_hi = next_sprite p;
    oam_fetch = if leb 0x20 p.secondary_oamaddr then secondary_byte p else p.oam_fetch;
  }

  -- A byte that is no further byte of a sprite is a vertical position.
  unfoldable pub check_range : Ppu M → Ppu M
  check_range p = record p {
    spr_in_range =
        p.spr_in_range
        || (not p.spr_in_range
            && (leb p.oam_fetch p.scanline && ltb p.scanline (p.oam_fetch + p.ctrl.spr_height)));
  }

  -- Fewer than eight sprites: the byte is copied, and kept if its sprite is in range.
  unfoldable pub copy_byte : Ppu M → Ppu M
  copy_byte p =
      let p1 = record p {
        secondary_oamdata = set p.secondary_oamdata (bit_and p.secondary_oamaddr 0x1f) p.oam_fetch;
      } in
      let skipped = record p1 {
        oamaddr_hi = next_sprite p;
        oam_eval_done = p.oam_eval_done || (next_sprite p == 0);
      } in
      let kept = record p1 {
        oamaddr_lo = p.oamaddr_lo + 1;
        secondary_oamaddr = p.secondary_oamaddr + 1;
        spr_zero_in_range = p.spr_zero_in_range || (p.oamaddr_hi == 0);
      } in
      let last = record kept {
        spr_in_range = false;
        oamaddr_lo = 0;
        oamaddr_hi = next_sprite p;
        oam_eval_done = p.oam_eval_done || (next_sprite p == 0);
      } in
      if p.spr_in_range then (if p.oamaddr_lo + 1 == 4 then last else kept) else skipped

  -- `match self.overflow_count.cmp(&0)`.
  unfoldable pub count_overflow : Ppu M → Ppu M
  count_overflow p =
      let no_overflow = p.overflow_count - 1 == 0 in
      let counted = record p {
        overflow_count = p.overflow_count - 1;
        oam_eval_done = p.oam_eval_done || no_overflow;
        oamaddr_lo = if no_overflow then 0 else p.oamaddr_lo;
      } in
      if p.overflow_count == 0 then record p { overflow_count = 3 } else counted

  -- Eight sprites already: a further one sets the overflow flag, and the search for it moves on
  -- both within and between the sprites.
  unfoldable pub check_overflow : Ppu M → Ppu M
  unfolding count_overflow
  check_overflow p =
      let p1 = record p { oam_fetch = secondary_byte p } in
      let p2 = record p1 {
        status = set_spr_overflow true p.status;
        oamaddr_lo = p.oamaddr_lo + 1;
      } in
      let wrapped = record p2 { oamaddr_lo = 0; oamaddr_hi = next_sprite p } in
      let missed = record p1 {
        oamaddr_hi = next_sprite p;
        oamaddr_lo = bit_and (p.oamaddr_lo + 1) 0x03;
        oam_eval_done = p.oam_eval_done || (next_sprite p == 0);
      } in
      if p.spr_in_range
      then count_overflow (if p.oamaddr_lo + 1 == 4 then wrapped else p2)
      else missed

  unfoldable pub write_secondary : Ppu M → Ppu M
  unfolding idle check_range copy_byte check_overflow
  write_secondary p =
      let p1 = check_range p in
      if p.oam_eval_done
      then idle p
      else if ltb p.secondary_oamaddr 0x20
      then copy_byte p1
      else check_overflow p1

  unfoldable pub store_oamaddr : Ppu M → Ppu M
  store_oamaddr p = record p {
    oamaddr = bit_or (u8 (p.oamaddr_hi <<< 2)) (bit_and p.oamaddr_lo 0x03);
  }

  -- Odd cycles read the sprite memory, even cycles write the secondary one.
  unfoldable pub evaluate_byte : Ppu M → Ppu M
  unfolding write_secondary store_oamaddr
  evaluate_byte p =
      if bit_and p.cycle 0x01 == 0x01
      then record p { oam_fetch = get_or p.oamdata p.oamaddr 0 }
      else store_oamaddr (write_secondary p)

  unfoldable pub evaluate_sprites : Ppu M → Ppu M
  unfolding clear_secondary start_evaluation end_evaluation evaluate_byte
  evaluate_sprites p =
      if within p.cycle 1 64
      then clear_secondary p
      else if within p.cycle 65 256
      then evaluate_byte (
          if p.cycle == 65
          then start_evaluation p
          else if p.cycle == 256
          then end_evaluation p
          else p)
      else p
