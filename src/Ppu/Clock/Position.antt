-- ===== src/Ppu/Clock/Position.antt =====
-- The position of the picture, counted in cycles from the first line, and how a clock moves it.
use tetanes.Base.{
  Yields, yields, map-Yields, ℕ, ◌+◌, ◌-◌, ◌*◌, ◌≤◌, ◌<◌, ◌≡◌, refl, ◌∙◌, arith, ◌==◌, ltb, leb,
  Bool-cases, ◌⊎◌, inl, inr,
}
use tetanes.Cpu.Lines.{Lines}
use tetanes.Ppu.Bus.{Board}
use tetanes.Ppu.State.{Ppu}
use tetanes.Ppu.Clock.{tick, next_line, clock}
use tetanes.Ppu.Clock.Timing.{
  Keeps, keep, after, same_master, same_divider, same_vblank, same_prerender, same_scanline,
  same_cycle,
}
use tetanes.Ppu.Clock.Skipping.{Ticks}
use tetanes.Ppu.Clock.Progress.{ServesVram, tick-Yields, blank_step-Keeps}

-- A position inside the picture, and a vertical blank before its last line.
pub record IsValid {M : Type 0} (p : Ppu M) : Type 0 where
  pub cycle_le : p.cycle ≤ 340
  pub scanline_le : p.scanline ≤ p.prerender_scanline
  pub vblank_lt : p.vblank_scanline < p.prerender_scanline

abbrev pub place : {M : Type 0} → Ppu M → ℕ
place p = p.scanline * 341 + p.cycle

-- The next position: the following one, the one after that on the line before the picture, or the
-- first one after the last.
abbrev pub Follows : {M : Type 0} → Ppu M → Ppu M → Type 0
Follows p q =
    (place q ≡ place p + 1)
    ⊎ ((place q ≡ place p + 2) × (p.prerender_scanline * 341 ≤ place p))
    ⊎ ((place q ≡ 0) × (place p + 1 ≡ (p.prerender_scanline + 1) * 341))

-- A clock's effect on the times and the position.
pub record Moves {M : Type 0} (p q : Ppu M) : Type 0 where
  pub valid : IsValid q
  pub follows : Follows p q
  pub master : q.master_clock ≡ p.master_clock
  pub divider : q.clock_divider ≡ p.clock_divider
  pub vblank_line : q.vblank_scanline ≡ p.vblank_scanline
  pub prerender_line : q.prerender_scanline ≡ p.prerender_scanline

module _ {M : Type 0} where
  -- The rest of a line.
  ticked-Moves :
      (p q : Ppu M)
      → IsValid p
      → p.cycle < 340
      → Ticks (record p { cycle = p.cycle + 1 }) q
      → Moves p q
  ticked-Moves p q v lt h = elim h.step [
    | inl a ↦
        let c = same_cycle a in
        let s = same_scanline a in
        let b = same_vblank a in
        let e = same_prerender a in
        record {
          valid = record {
            cycle_le = omega arith;
            scanline_le = omega (arith, v.scanline_le);
            vblank_lt = omega (arith, v.vblank_lt);
          };
          follows = inl (omega arith);
          master = same_master a;
          divider = same_divider a;
          vblank_line = b;
          prerender_line = e;
        }
    | inr (last, line, a) ↦
        let c = same_cycle a in
        let s = same_scanline a in
        let b = same_vblank a in
        let e = same_prerender a in
        record {
          valid = record {
            cycle_le = omega arith;
            scanline_le = omega (arith, v.scanline_le);
            vblank_lt = omega (arith, v.vblank_lt);
          };
          follows = inr (inl (omega arith, omega arith));
          master = same_master a;
          divider = same_divider a;
          vblank_line = b;
          prerender_line = e;
        }
  ]

  next_line-Moves : (p : Ppu M) → IsValid p → p.cycle ≡ 340 → Moves p (next_line p)
  unfolding next_line
  next_line-Moves p v last = elim (Bool-cases (p.scanline + 1 == p.vblank_scanline - 1)) [
    | inl e ↦
        let line : p.scanline + 1 ≡ p.vblank_scanline - 1 = ground arith in
        rw e (record {
          valid = record {
            cycle_le = omega arith;
            scanline_le = omega (arith, line, v.vblank_lt);
            vblank_lt = v.vblank_lt;
          };
          follows = inl (omega arith);
          master = refl;
          divider = refl;
          vblank_line = refl;
          prerender_line = refl;
        })
    | inr e ↦ elim (Bool-cases (ltb p.prerender_scanline (p.scanline + 1))) [
      | inl f ↦
          let over : p.prerender_scanline < p.scanline + 1 = ground arith in
          rw (e, f)
            (record {
              valid = record {
                cycle_le = omega arith;
                scanline_le = omega arith;
                vblank_lt = v.vblank_lt;
              };
              follows = inr (inr (omega arith, omega (arith, v.scanline_le)));
              master = refl;
              divider = refl;
              vblank_line = refl;
              prerender_line = refl;
            })
      | inr f ↦
          let inside : p.scanline + 1 ≤ p.prerender_scanline = ground arith in
          rw (e, f)
            (record {
              valid = record {
                cycle_le = omega arith;
                scanline_le = inside;
                vblank_lt = v.vblank_lt;
              };
              follows = inl (omega arith);
              master = refl;
              divider = refl;
              vblank_line = refl;
              prerender_line = refl;
            })
    ]
  ]

  counted : (p q r : Ppu M) → Moves p q → Keeps q r → Moves p r
  counted p q r m k =
      let c = same_cycle k in
      let s = same_scanline k in
      let b = same_vblank k in
      let e = same_prerender k in
      let v = m.valid in
      record {
        valid = record {
          cycle_le = omega (arith, v.cycle_le);
          scanline_le = omega (arith, v.scanline_le);
          vblank_lt = omega (arith, v.vblank_lt);
        };
        follows = elim m.follows [
          | inl h ↦ inl (omega arith)
          | inr (inl (h, i)) ↦ inr (inl (omega arith, i))
          | inr (inr (h, i)) ↦ inr (inr (omega arith, i))
        ];
        master = same_master k ∙ m.master;
        divider = same_divider k ∙ m.divider;
        vblank_line = b ∙ m.vblank_line;
        prerender_line = e ∙ m.prerender_line;
      }

module _ {M : Type 0} (board : Board M) where
  -- A clock of the PPU always comes to an end on a board that serves the nametables, and moves the
  -- position on by one, by two on the line before the picture, or to the start of the next frame.
  pub clock-Moves :
      (p : Ppu M) (l : Lines)
      → ServesVram board
      → IsValid p
      → Yields (λ r. Moves p r.0) (clock board p l)
  unfolding clock
  clock-Moves p l b v = elim (Bool-cases (leb 340 p.cycle)) [
    | inl e ↦
        let last : p.cycle ≡ 340 = let le = v.cycle_le in ground arith in
        rw e (yields _ (counted p (next_line p) _ (next_line-Moves p v last) (keep refl)))
    | inr e ↦
        let inside : p.cycle < 340 = ground arith in
        let p1 = record p { cycle = p.cycle + 1 } in
        rw e (
          map-Yields _ (tick board p1 l) (tick-Yields board b p1 l) (λ r h.
            (let (q, l1) = r in
              let moved = ticked-Moves p q v inside h in
              counted p q _ moved (after (blank_step-Keeps board b q l1) (keep refl)))))
  ]
