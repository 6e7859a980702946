-- ===== src/Ppu/Clock/Timing.antt =====
-- What a cycle of the picture keeps: its position, but for the clock itself, and the times.
use tetanes.Base.{
  ℕ, ◌≡◌, refl, ◌∙◌, ap, Bool, true, false, if◌then◌else◌, ◌+◌, ◌-◌, not, ◌||◌, ◌&&◌, ◌==◌, ltb,
  leb, Bool-cases, inl, inr, List, [], ◌∷◌, Option, none, some, take, bit_and,
}
use tetanes.Common.{is_pal}
use tetanes.Cpu.Lines.{Lines}
use tetanes.Mapper.{within}
use tetanes.Ppu.Bus.{Board}
use tetanes.Ppu.Scroll.{addr, delayed_update}
use tetanes.Ppu.Sprite.{Sprite}
use tetanes.Ppu.State.{Ppu, palette_start, spr_fetch_start}
use tetanes.Ppu.Access.{write_oamaddr}
use tetanes.Ppu.Evaluation.{
  evaluate_sprites, evaluate_byte, clear_secondary, start_evaluation, end_evaluation, idle,
  check_range, copy_byte, count_overflow, check_overflow, write_secondary, store_oamaddr,
}
use tetanes.Ppu.Fetch.{load_sprites, sprite_index}
use tetanes.Ppu.Pixels.{
  bg_color, spr_color, column, hit_zero, scan_sprites, sprites_shown, or_background, pixel_palette,
  put_pixel, render_pixel,
}
use tetanes.Ppu.Clock.{
  evaluation_step, prerender_copies, prerender_step, scroll_step, clear_present, delayed_step,
  shift_tiles, finish_tick, prerendering, visible_scanline, visible_cycle, spr_fetch_cycle,
  bg_fetch_cycle,
}

abbrev Times : Type 0
Times = ℕ × ℕ × ℕ × ℕ × ℕ × ℕ

-- The times, the bounds of the picture and the position.
abbrev pub timing : {M : Type 0} → Ppu M → ℕ × ℕ × ℕ × ℕ × ℕ × ℕ
timing p =
    (p.master_clock, p.clock_divider, p.vblank_scanline, p.prerender_scanline, p.scanline, p.cycle)

-- A step keeps the timing.
pub record Keeps {M : Type 0} (p q : Ppu M) : Type 0 where
  pub same : timing q ≡ timing p

module _ {M : Type 0} where
  pub keep : {p q : Ppu M} → timing q ≡ timing p → Keeps p q
  keep h = record { same = h }

  pub after : {p q r : Ppu M} → Keeps p q → Keeps q r → Keeps p r
  after h k = record { same = k.same ∙ h.same }

  pub same_master : {p q : Ppu M} → Keeps p q → q.master_clock ≡ p.master_clock
  same_master h = ap (λ (t : Times). t.0) h.same

  pub same_divider : {p q : Ppu M} → Keeps p q → q.clock_divider ≡ p.clock_divider
  same_divider h = ap (λ (t : Times). t.1) h.same

  pub same_vblank : {p q : Ppu M} → Keeps p q → q.vblank_scanline ≡ p.vblank_scanline
  same_vblank h = ap (λ (t : Times). t.2) h.same

  pub same_prerender : {p q : Ppu M} → Keeps p q → q.prerender_scanline ≡ p.prerender_scanline
  same_prerender h = ap (λ (t : Times). t.3) h.same

  pub same_scanline : {p q : Ppu M} → Keeps p q → q.scanline ≡ p.scanline
  same_scanline h = ap (λ (t : Times). t.4) h.same

  pub same_cycle : {p q : Ppu M} → Keeps p q → q.cycle ≡ p.cycle
  same_cycle h = ap (λ (t : Times). t.5) h.same

  -- A step that skips to the last cycle, after one that keeps the timing.
  pub skip : {p q : Ppu M} → Keeps p q → Keeps (record p { cycle = 340 }) (record q { cycle = 340 })
  skip h = record { same = ap (λ (t : Times). (t.0, t.1, t.2, t.3, t.4, 340)) h.same }

  pub branch : {p a b : Ppu M} (c : Bool) → Keeps p a → Keeps p b → Keeps p (if c then a else b)
  branch true first second = first
  branch false first second = second

  count_overflow-Keeps : (p : Ppu M) → Keeps p (count_overflow p)
  unfolding count_overflow
  count_overflow-Keeps p = branch (p.overflow_count == 0) (keep refl) (keep refl)

  check_overflow-Keeps : (p : Ppu M) → Keeps p (check_overflow p)
  unfolding check_overflow
  check_overflow-Keeps p =
      branch p.spr_in_range
        (after (branch (p.oamaddr_lo + 1 == 4) (keep refl) (keep refl)) (count_overflow-Keeps _))
        (keep refl)

  copy_byte-Keeps : (p : Ppu M) → Keeps p (copy_byte p)
  unfolding copy_byte
  copy_byte-Keeps p =
      branch p.spr_in_range (branch (p.oamaddr_lo + 1 == 4) (keep refl) (keep refl)) (keep refl)

  write_secondary-Keeps : (p : Ppu M) → Keeps p (write_secondary p)
  unfolding write_secondary idle check_range
  write_secondary-Keeps p = branch p.oam_eval_done (keep refl) (
      branch (ltb p.secondary_oamaddr 0x20) (after (keep refl) (copy_byte-Keeps (check_range p)))
        (after (keep refl) (check_overflow-Keeps (check_range p))))

  evaluate_byte-Keeps : (p : Ppu M) → Keeps p (evaluate_byte p)
  unfolding evaluate_byte store_oamaddr
  evaluate_byte-Keeps p =
      branch (bit_and p.cycle 0x01 == 0x01) (keep refl)
        (after (write_secondary-Keeps p) (keep refl))

  evaluate_sprites-Keeps : (p : Ppu M) → Keeps p (evaluate_sprites p)
  unfolding evaluate_sprites clear_secondary start_evaluation end_evaluation
  evaluate_sprites-Keeps p = branch (within p.cycle 1 64) (keep refl) (
      branch (within p.cycle 65 256)
        (after
          (branch (p.cycle == 65) (keep refl) (branch (p.cycle == 256) (keep refl) (keep refl)))
          (evaluate_byte-Keeps _))
        (keep refl))

  hit_zero-Keeps : (i bg : ℕ) (p : Ppu M) → Keeps p (hit_zero i bg p)
  unfolding hit_zero
  hit_zero-Keeps i bg p =
      branch
        ((i == 0)
          && (p.mask.rendering_enabled
              && (not p.status.spr_zero_hit
                  && (p.spr_zero_visible && (not (bg == 0) && not (column p == 255))))))
        (keep refl) (keep refl)

  prerender_copies-Keeps : (p : Ppu M) → Keeps p (prerender_copies p)
  unfolding prerender_copies
  prerender_copies-Keeps p =
      branch (within p.cycle 1 8 && leb 8 p.oamaddr) (keep refl)
        (branch (within p.cycle 280 304) (keep refl) (keep refl))

  pub prerender_step-Keeps : (p : Ppu M) → Keeps p (prerender_step p)
  unfolding prerender_step
  prerender_step-Keeps p =
      branch (prerendering p) (after (prerender_copies-Keeps p) (keep refl)) (keep refl)

  pub scroll_step-Keeps : (p : Ppu M) → Keeps p (scroll_step p)
  unfolding scroll_step
  scroll_step-Keeps p =
      branch (p.cycle == 256) (keep refl) (branch (p.cycle == 257) (keep refl) (keep refl))

  pub clear_present-Keeps : (p : Ppu M) → Keeps p (clear_present p)
  unfolding clear_present
  clear_present-Keeps p = branch (p.cycle == spr_fetch_start) (keep refl) (keep refl)

  pub evaluation_step-Keeps : (p : Ppu M) → Keeps p (evaluation_step p)
  unfolding evaluation_step write_oamaddr
  evaluation_step-Keeps p =
      branch (visible_scanline p || (is_pal p.region && leb p.pal_spr_eval_scanline p.scanline))
        (branch (within p.cycle 1 256) (evaluate_sprites-Keeps p)
          (branch (spr_fetch_cycle p) (keep refl) (keep refl)))
        (keep refl)

  scan_sprites-Keeps :
      (i bg : ℕ) (sprites : List Sprite) (p : Ppu M) → Keeps p (scan_sprites i bg sprites p).1
  unfolding scan_sprites
  scan_sprites-Keeps i bg [] p = keep refl
  scan_sprites-Keeps i bg (sprite ∷ rest) p =
      let next = scan_sprites-Keeps (i + 1) bg rest p in
      let shift = column p - sprite.x in
      elim (Bool-cases (ltb (column p) sprite.x)) [
        | inl e ↦ rw e next
        | inr e ↦ elim (Bool-cases (leb shift 7 && not (spr_color shift sprite == 0))) [
          | inl f ↦ rw (e, f) (hit_zero-Keeps i bg p)
          | inr f ↦ rw (e, f) next
        ]
      ]

  or_background-Keeps :
      (bg : ℕ) (p : Ppu M) (r : Option ℕ × Ppu M) → Keeps p r.1 → Keeps p (or_background bg r).1
  or_background-Keeps bg p (some entry, q) h = h
  or_background-Keeps bg p (none, q) h = h

  pixel_palette-Keeps : (p : Ppu M) → Keeps p (pixel_palette p).1
  unfolding pixel_palette
  pixel_palette-Keeps p =
      let bg = bg_color p in
      elim (Bool-cases (sprites_shown p)) [
        | inl e ↦ rw e (
            or_background-Keeps bg p (scan_sprites 0 bg (take p.spr_count p.sprites) p)
              (scan_sprites-Keeps 0 bg (take p.spr_count p.sprites) p))
        | inr e ↦ rw e (or_background-Keeps bg p (none, p) (keep refl))
      ]

module _ {M : Type 0} (board : Board M) where
  render_pixel-Keeps : (p : Ppu M) → Keeps p (render_pixel board p)
  unfolding render_pixel put_pixel
  render_pixel-Keeps p =
      branch
        (p.mask.rendering_enabled || not (bit_and (addr p.scroll) palette_start == palette_start))
        (after (pixel_palette-Keeps p) (keep refl)) (keep refl)

  pub load_sprites-Keeps : (p : Ppu M) → Keeps p (load_sprites board p)
  unfolding load_sprites
  load_sprites-Keeps p = branch (ltb (sprite_index p) p.spr_count) (keep refl) (keep refl)

  delayed_step-Keeps : (p : Ppu M) (l : Lines) → Keeps p (delayed_step board p l).0
  unfolding delayed_step
  delayed_step-Keeps p l = elim (Bool-cases (delayed_update p.scroll).1) [
    | inl e ↦ rw e (keep refl)
    | inr e ↦ rw e (keep refl)
  ]

  pub finish_tick-Keeps : (p : Ppu M) (l : Lines) (q : Ppu M) → Keeps q (finish_tick board p l q).0
  unfolding finish_tick shift_tiles
  finish_tick-Keeps p l q =
      let rendered =
        branch (visible_scanline p && (visible_cycle p && not p.skip_rendering))
          (render_pixel-Keeps (delayed_step board q l).0) (keep refl) in
      branch (bg_fetch_cycle p) (after (after (delayed_step-Keeps q l) rendered) (keep refl))
        (after (delayed_step-Keeps q l) rendered)
