-- ===== src/Ppu/Clock/CatchingUp.antt =====
-- The loop that takes the PPU to a time of the master clock.
use tetanes.Base.{
  usize, usize_mod, Yields, yields, map-Yields, bind-Yields, ℕ, zero, suc, ◌+◌, ◌-◌, ◌*◌, ◌≤◌, ◌<◌,
  ◌≡◌, ap, arith, leb, Bool-cases, inl, inr,
}
use tetanes.Cpu.Lines.{Lines}
use tetanes.Ppu.Bus.{Board}
use tetanes.Ppu.State.{Ppu}
use tetanes.Ppu.Clock.{clock, clock_to}
use tetanes.Ppu.Clock.Progress.{ServesVram}
use tetanes.Ppu.Clock.Position.{IsValid, clock-Moves}

-- A number of cycles that leads from a time to the last one, before another, at which a cycle ends.
pub record CatchesUp (from divider time count end : ℕ) : Type 0 where
  pub counted : end ≡ from + count * divider
  pub reached : end ≤ time
  pub last : time < end + divider

step-CatchesUp :
    (from divider from1 divider1 time count end : ℕ)
    → from1 ≡ from + divider
    → divider1 ≡ divider
    → CatchesUp from1 divider1 time count end
    → CatchesUp from divider time (suc count) end
step-CatchesUp from divider from1 divider1 time count end f d c =
    let times : count * divider1 ≡ count * divider = ap (λ x. count * x) d in
    record {
      counted = omega (arith, c.counted, times);
      reached = c.reached;
      last = omega (arith, c.last);
    }

module _ {M : Type 0} (board : Board M) where
  -- With a clock divider other than 0 and fuel for the time to catch up, which lies not behind the
  -- PPU's and which a divider does not lead past the machine's integers, `clock_to` ends, with the
  -- PPU at the last multiple of its clock divider before the time, after as many cycles as that
  -- takes, from a valid position on a board that serves the nametables.
  pub clock_to-CatchesUp :
      (fuel time : ℕ) (p : Ppu M) (l : Lines)
      → ServesVram board
      → IsValid p
      → 0 < p.clock_divider
      → p.master_clock ≤ time
      → time + p.clock_divider < usize_mod
      → time - p.master_clock ≤ fuel
      → Yields
          (λ s. CatchesUp p.master_clock p.clock_divider time s.0 s.1.master_clock)
          (clock_to board fuel time p l)
  unfolding clock_to
  clock_to-CatchesUp zero time p l b v pos le small enough =
      yields (0, p, l) (record { counted = omega arith; reached = le; last = omega arith })
  clock_to-CatchesUp (suc fuel) time p l b v pos le small enough =
      let fits : usize (p.master_clock + p.clock_divider) ≡ p.master_clock + p.clock_divider =
        omega arith in
      elim (Bool-cases (leb (p.master_clock + p.clock_divider) time)) [
        | inl c ↦
            let before : p.master_clock + p.clock_divider ≤ time = ground arith in
            rw (fits, c)
              (bind-Yields _ (clock board p l) (clock-Moves board p l b v) (λ r m.
                (let q = r.0 in
                  let p1 = record q { master_clock = usize (q.master_clock + q.clock_divider) } in
                  let v1 : IsValid p1 = record {
                    cycle_le = m.valid.cycle_le;
                    scanline_le = m.valid.scanline_le;
                    vblank_lt = m.valid.vblank_lt;
                  } in
                  let master = m.master in
                  let divider = m.divider in
                  map-Yields _ (clock_to board fuel time p1 r.1)
                    (clock_to-CatchesUp fuel time p1 r.1 b v1 (omega arith) (omega arith)
                      (omega arith) (omega arith))
                    (λ s h.
                      step-CatchesUp p.master_clock p.clock_divider p1.master_clock q.clock_divider
                        time s.0 s.1.master_clock (omega arith) divider h))))
        | inr c ↦
            rw (fits, c)
              (yields (0, p, l)
                (record { counted = omega arith; reached = le; last = ground arith }))
      ]
