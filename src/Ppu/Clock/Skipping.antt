-- ===== src/Ppu/Clock/Skipping.antt =====
-- The cycle that odd frames skip.
use tetanes.Base.{◌≡◌, sym, ◌∙◌, arith, ◌&&◌, ◌==◌, Bool-cases, ◌⊎◌, inl, inr, bit_and}
use tetanes.Common.{is_ntsc}
use tetanes.Ppu.Frame.{number}
use tetanes.Ppu.State.{Ppu}
use tetanes.Ppu.Clock.{odd_skip, prerendering}
use tetanes.Ppu.Clock.Timing.{Keeps, after, skip, same_cycle, same_scanline, same_prerender}

module _ {M : Type 0} where
  -- A cycle keeps the timing, or is the one before the last of the line before the picture, and
  -- skips that.
  pub record Ticks (p q : Ppu M) : Type 0 where
    pub step :
        Keeps p q
        ⊎ ((p.cycle ≡ 339)
            × (p.scanline ≡ p.prerender_scanline)
            × Keeps (record p { cycle = 340 }) q)

  pub odd_skip-Ticks : (p q : Ppu M) → Keeps p q → Ticks p (odd_skip q)
  unfolding odd_skip
  odd_skip-Ticks p q h =
      let skips =
        is_ntsc q.region
        && (prerendering q && ((bit_and (number q.frame) 0x01 == 0x01) && (q.cycle == 339))) in
      elim (Bool-cases skips) [
        | inl e ↦
            let last : q.cycle ≡ 339 = ground arith in
            let line : q.scanline ≡ q.prerender_scanline = ground arith in
            rw e (record {
              step = inr (
                sym (same_cycle h) ∙ last,
                sym (same_scanline h) ∙ line ∙ same_prerender h,
                skip h,
              );
            })
        | inr e ↦ rw e (record { step = inl h })
      ]

  pub Ticks-after : (p q r : Ppu M) → Ticks p q → Keeps q r → Ticks p r
  Ticks-after p q r h k = elim h.step [
    | inl a ↦ record { step = inl (after a k) }
    | inr (c, s, a) ↦ record { step = inr (c, s, after a k) }
  ]

  pub Ticks-before : (p q r : Ppu M) → Keeps p q → Ticks q r → Ticks p r
  Ticks-before p q r h k = elim k.step [
    | inl a ↦ record { step = inl (after h a) }
    | inr (c, s, a) ↦ record {
      step =
          inr (
            sym (same_cycle h) ∙ c,
            sym (same_scanline h) ∙ s ∙ same_prerender h,
            after (skip h) a,
          );
    }
  ]
