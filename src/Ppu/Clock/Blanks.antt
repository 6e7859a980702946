-- ===== src/Ppu/Clock/Blanks.antt =====
-- The vertical blank comes, again and again.
use tetanes.Base.{
  Yields, yields, ℕ, zero, suc, ◌+◌, ◌-◌, ◌*◌, ◌≤◌, ◌<◌, ◌≡◌, ◌∙◌, ap, arith, if◌then◌else◌, ltb,
  Bool-cases, inl, inr, Option, some,
}
use mathlib.Core.Option
use tetanes.Cpu.Lines.{Lines}
use tetanes.Ppu.Bus.{Board}
use tetanes.Ppu.State.{Ppu}
use tetanes.Ppu.Clock.{clock}
use tetanes.Ppu.Clock.Progress.{ServesVram}
use tetanes.Ppu.Clock.Position.{IsValid, Moves, place, clock-Moves}

-- The cycle in which the blank starts.
abbrev pub AtBlank : {M : Type 0} → Ppu M → Type 0
AtBlank p = (p.scanline ≡ p.vblank_scanline) × (p.cycle ≡ 1)

-- The cycles that are left to it from a place, and why a clock makes them fewer.
abbrev gap : ℕ → ℕ → ℕ → ℕ
gap at blank last =
    if ltb at (blank * 341 + 2)
    then blank * 341 + 1 - at
    else (last + 1) * 341 + blank * 341 + 1 - at

gap-next :
    (at blank last : ℕ)
    → at < (last + 1) * 341
    → 0 < gap at blank last
    → gap (at + 1) blank last < gap at blank last
gap-next at blank last lt pos = ground arith

gap-skip :
    (at blank last : ℕ)
    → at < (last + 1) * 341
    → blank < last
    → last * 341 ≤ at
    → gap (at + 2) blank last < gap at blank last
gap-skip at blank last lt inside le = ground arith

gap-wrap :
    (at blank last : ℕ)
    → blank < last
    → at + 1 ≡ (last + 1) * 341
    → gap 0 blank last < gap at blank last
gap-wrap at blank last inside h = ground arith

gap-lt : (at blank last : ℕ) → blank < last → gap at blank last < (last + 1) * 341
gap-lt at blank last inside = ground arith

module _ {M : Type 0} where
  abbrev left : Ppu M → ℕ
  left p = gap (place p) p.vblank_scanline p.prerender_scanline

  place-lt : (p : Ppu M) → IsValid p → place p < (p.prerender_scanline + 1) * 341
  place-lt p v = omega (arith, v.cycle_le, v.scanline_le)

  left-Moves : (p q : Ppu M) → IsValid p → Moves p q → 0 < left p → left q < left p
  left-Moves p q v m pos =
      let blank = p.vblank_scanline in
      let last = p.prerender_scanline in
      let lt = place-lt p v in
      let moved : left q ≡ gap (place q) blank last =
        λ k. gap (place q) (m.vblank_line k) (m.prerender_line k) in
      let at : (a : ℕ) → place q ≡ a → left q ≡ gap a blank last =
        λ a h. moved ∙ ap (λ x. gap x blank last) h in
      elim m.follows [
        | inl h ↦ omega (arith, at (place p + 1) h, gap-next (place p) blank last lt pos)
        | inr (inl (h, i)) ↦
            omega (arith, at (place p + 2) h, gap-skip (place p) blank last lt v.vblank_lt i)
        | inr (inr (h, i)) ↦ omega (arith, at 0 h, gap-wrap (place p) blank last v.vblank_lt i)
      ]

  left-zero : (p : Ppu M) → IsValid p → left p ≡ 0 → AtBlank p
  left-zero p v h =
      let lt = place-lt p v in
      let le = v.cycle_le in
      let at : place p ≡ p.vblank_scanline * 341 + 1 = ground arith in (omega arith, omega arith)

module _ {M : Type 0} (board : Board M) where
  abbrev pub clocks : ℕ → Ppu M → Lines → Option (Ppu M × Lines)
  clocks zero p l = some (p, l)
  clocks (suc n) p l = Option.bind (clock board p l) (λ r. clocks n r.0 r.1)

  clocks-within :
      (n : ℕ) (p : Ppu M) (l : Lines)
      → ServesVram board
      → IsValid p
      → left p ≤ n
      → (k : ℕ) × (k ≤ n) × Yields (λ r. AtBlank r.0) (clocks k p l)
  unfolding Option.bind
  clocks-within zero p l b v le = (0, omega arith, yields (p, l) (left-zero p v (omega arith)))
  clocks-within (suc n) p l b v le = elim (Bool-cases (ltb 0 (left p))) [
    | inl c ↦
        let pos : 0 < left p = ground arith in
        let (r, e, m) = clock-Moves board p l b v in
        let less = left-Moves p r.0 v m pos in
        let (k, bound, (s, f, h)) = clocks-within n r.0 r.1 b m.valid (omega arith) in
        (
          suc k,
          omega arith,
          (s, ap (λ x. Option.bind x (λ (q : Ppu M × Lines). clocks k q.0 q.1)) e ∙ f, h),
        )
    | inr c ↦ (0, omega arith, yields (p, l) (left-zero p v (ground arith)))
  ]

  -- From any position of the picture, whatever is rendered, the cycle that starts the next vertical
  -- blank comes within a frame, on a board that serves the nametables.
  pub clocks-AtBlank :
      (p : Ppu M) (l : Lines)
      → ServesVram board
      → IsValid p
      → (k : ℕ) × (1 ≤ k)
        × (k ≤ (p.prerender_scanline + 1) * 341)
        × Yields (λ r. AtBlank r.0) (clocks k p l)
  unfolding Option.bind
  clocks-AtBlank p l b v =
      let frame = (p.prerender_scanline + 1) * 341 in
      let (r, e, m) = clock-Moves board p l b v in
      let ahead : left r.0 ≤ frame - 1 = omega (
        arith,
        gap-lt (place r.0) r.0.vblank_scanline r.0.prerender_scanline m.valid.vblank_lt,
        m.prerender_line,
      ) in
      let (k, bound, (s, f, h)) = clocks-within (frame - 1) r.0 r.1 b m.valid ahead in
      (
        suc k,
        omega arith,
        omega arith,
        (s, ap (λ x. Option.bind x (λ (q : Ppu M × Lines). clocks k q.0 q.1)) e ∙ f, h),
      )
