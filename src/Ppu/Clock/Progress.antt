-- ===== src/Ppu/Clock/Progress.antt =====
-- A cycle of the picture comes to an end, and moves the position by one but for the odd frames.
use tetanes.Base.{
  Yields, yields, weaken, map-Yields, bind-Yields, ℕ, ◌+◌, ◌-◌, ◌*◌, ◌^◌, ◌≤◌, ◌<◌, ◌≡◌, refl, sym,
  ◌∙◌, arith, Bool, true, false, ◌||◌, if◌then◌else◌, ◌==◌, Bool-cases, inl, inr, Option, some,
  bit_and, bit_or, ◌>>>◌,
}
use tetanes.Base.Bits.{bit_or_split, bit_or_lt, bit_and-le}
use tetanes.Cpu.Lines.{Lines}
use tetanes.Mapper.{MappedRead, within}
use tetanes.Ppu.Bus.{Board, Bus, read_ciram, mapped_ciram}
use tetanes.Ppu.Scroll.{addr, attr_addr}
use tetanes.Ppu.State.{Ppu, nt_start}
use tetanes.Ppu.Access.{write_oamaddr, start_vblank, stop_vblank}
use tetanes.Ppu.Fetch.{fetch_bg_nt_byte, fetch_bg_attr_byte, fetch_background, fetch_sprites}
use tetanes.Ppu.Clock.{
  background_step, prerender_step, scroll_step, clear_present, sprite_step, line_step, odd_skip,
  render_step, finish_tick, tick, blank_step, evaluation_step, prerendering, visible_scanline,
  spr_fetch_cycle, bg_fetch_cycle,
}
use tetanes.Ppu.Clock.Skipping.{Ticks, Ticks-after, Ticks-before, odd_skip-Ticks}
use tetanes.Ppu.Clock.Timing.{
  Keeps, keep, after, evaluation_step-Keeps, prerender_step-Keeps, scroll_step-Keeps,
  clear_present-Keeps, load_sprites-Keeps, finish_tick-Keeps,
}

abbrev pub is_prg : MappedRead → Bool
is_prg (MappedRead.prg_rom mapped) = true
is_prg (MappedRead.prg_ram mapped) = true
is_prg _ = false

-- A board that answers for the nametables with other memory than PRG.
pub record ServesVram {M : Type 0} (board : Board M) : Type 0 where
  pub serves : (at : ℕ) (m : M) → 0x2000 ≤ at → at < 0x4000 → is_prg (board.map_read at m).0 ≡ false

or-nametable :
    (a s : ℕ) → 0x2000 ≤ a → a < 0x4000 → s < 0x2000 → (0x2000 ≤ bit_or a s) × (bit_or a s < 0x4000)
or-nametable a s lo hi h =
    let low : bit_or (a - 0x2000) s < 2 ^ 13 =
      bit_or_lt 13 (a - 0x2000) s (omega arith) (omega arith) in
    let split : bit_or (1 * 2 ^ 13 + (a - 0x2000)) (0 * 2 ^ 13 + s)
        ≡ bit_or 1 0 * 2 ^ 13 + bit_or (a - 0x2000) s =
      bit_or_split 13 1 0 (a - 0x2000) s (omega arith) (omega arith) in
    let left : 1 * 2 ^ 13 + (a - 0x2000) ≡ a = omega arith in
    let right : 0 * 2 ^ 13 + s ≡ s = omega arith in
    let whole : bit_or a s ≡ 0x2000 + bit_or (a - 0x2000) s =
      (λ k. bit_or (sym left k) (sym right k)) ∙ split ∙ omega arith in
    (omega (arith, whole), omega (arith, whole, low))

attr_addr-nametable :
    (s : tetanes.Ppu.Scroll.Scroll) → (0x2000 ≤ attr_addr s) × (attr_addr s < 0x4000)
unfolding attr_addr
attr_addr-nametable s =
    let nt = bit_and s.v 0xc00 in
    let ys = bit_and (s.v >>> 4) 0x38 in
    let xs = bit_and (s.v >>> 2) 0x07 in
    let (a, b) =
      or-nametable 0x23c0 nt (omega arith) (omega arith) (omega (arith, bit_and-le s.v 0xc00)) in
    let (c, d) =
      or-nametable (bit_or 0x23c0 nt) ys a b (omega (arith, bit_and-le (s.v >>> 4) 0x38)) in
    or-nametable (bit_or (bit_or 0x23c0 nt) ys) xs c d (omega (arith, bit_and-le (s.v >>> 2) 0x07))

module _ {M : Type 0} (board : Board M) (b : ServesVram board) where
  mapped-Yields :
      (mapped : MappedRead) (at : ℕ) (bus : Bus M)
      → is_prg mapped ≡ false
      → Yields (λ val. Unit) (mapped_ciram board mapped at bus)
  unfolding mapped_ciram
  mapped-Yields MappedRead.bus at bus h = yields _ tt
  mapped-Yields (MappedRead.ciram mapped) at bus h = yields _ tt
  mapped-Yields (MappedRead.exram mapped) at bus h = yields _ tt
  mapped-Yields (MappedRead.data_byte val) at bus h = yields _ tt
  mapped-Yields (MappedRead.chr mapped) at bus h = yields _ tt
  mapped-Yields (MappedRead.prg_rom mapped) at bus h = absurd (ground arith)
  mapped-Yields (MappedRead.prg_ram mapped) at bus h = absurd (ground arith)

  read_ciram-Yields :
      (at : ℕ) (bus : Bus M)
      → 0x2000 ≤ at
      → at < 0x4000
      → Yields (λ r. Unit) (read_ciram board at bus)
  unfolding read_ciram
  read_ciram-Yields at bus lo hi =
      let (mapped, m) = board.map_read at bus.mapper in
      map-Yields _ (mapped_ciram board mapped at (record bus { mapper = m }))
        (mapped-Yields mapped at (record bus { mapper = m }) (b.serves at bus.mapper lo hi))
        (λ val h. tt)

  fetch_bg_nt_byte-Yields : (p : Ppu M) → Yields (Keeps p) (fetch_bg_nt_byte board p)
  unfolding fetch_bg_nt_byte
  fetch_bg_nt_byte-Yields p =
      let low = bit_and-le (addr p.scroll) 0xfff in
      let (lo, hi) =
        or-nametable nt_start (bit_and (addr p.scroll) 0x0fff) (omega arith) (omega arith)
          (omega (arith, low)) in
      map-Yields _ (read_ciram board (bit_or nt_start (bit_and (addr p.scroll) 0x0fff)) p.bus)
        (read_ciram-Yields _ p.bus lo hi) (λ r h. keep refl)

  fetch_bg_attr_byte-Yields : (p : Ppu M) → Yields (Keeps p) (fetch_bg_attr_byte board p)
  unfolding fetch_bg_attr_byte
  fetch_bg_attr_byte-Yields p =
      let (lo, hi) = attr_addr-nametable p.scroll in
      map-Yields _ (read_ciram board (attr_addr p.scroll) p.bus)
        (read_ciram-Yields (attr_addr p.scroll) p.bus lo hi) (λ r h. keep refl)

  after-Yields :
      (p q : Ppu M) (o : Option (Ppu M)) → Keeps p q → Yields (Keeps q) o → Yields (Keeps p) o
  after-Yields p q o h y = weaken o y (λ r k. after h k)

  branch-Yields :
      (P : Ppu M → Type 0) (c : Bool) (x y : Option (Ppu M))
      → Yields P x
      → Yields P y
      → Yields P (if c then x else y)
  branch-Yields P true x y first second = first
  branch-Yields P false x y first second = second

  fetch_background-Yields : (p : Ppu M) → Yields (Keeps p) (fetch_background board p)
  unfolding fetch_background
  fetch_background-Yields p =
      let step = bit_and p.cycle 0x07 in
      branch-Yields (Keeps p) (step == 1) _ _ (fetch_bg_nt_byte-Yields p) (
        branch-Yields (Keeps p) (step == 3) _ _ (fetch_bg_attr_byte-Yields p) (
          branch-Yields (Keeps p) (step == 5) _ _ (yields _ (keep refl)) (
            branch-Yields (Keeps p) (step == 7) _ _ (yields _ (keep refl)) (yields p (keep refl)))))

  fetch_sprites-Yields : (p : Ppu M) → Yields (Keeps p) (fetch_sprites board p)
  unfolding fetch_sprites write_oamaddr
  fetch_sprites-Yields p =
      let step = bit_and p.cycle 0x07 in
      let p1 = write_oamaddr 0 p in
      let start : Keeps p p1 = keep refl in
      branch-Yields (Keeps p) (step == 1) _ _
        (after-Yields p p1 _ start (fetch_bg_nt_byte-Yields p1))
        (branch-Yields (Keeps p) (step == 3) _ _
          (after-Yields p p1 _ start (fetch_bg_attr_byte-Yields p1))
          (branch-Yields (Keeps p) (step == 4) _ _
            (yields _ (after start (load_sprites-Keeps board p1))) (yields p1 start)))

  background_step-Yields : (p : Ppu M) → Yields (Keeps p) (background_step board p)
  unfolding background_step
  background_step-Yields p =
      branch-Yields (Keeps p) (bg_fetch_cycle p) _ _
        (map-Yields _ (fetch_background board p) (fetch_background-Yields p) (λ q h.
          elim (Bool-cases (bit_and p.cycle 0x07 == 0)) [
            | inl e ↦ rw e (after h (keep refl))
            | inr e ↦ rw e h
          ]))
        (branch-Yields (Keeps p) (within p.cycle 337 340) _ _ (fetch_bg_nt_byte-Yields p)
          (yields p (keep refl)))

  sprite_step-Yields : (p : Ppu M) → Yields (Keeps p) (sprite_step board p)
  unfolding sprite_step
  sprite_step-Yields p =
      branch-Yields (Keeps p) (spr_fetch_cycle p) _ _
        (after-Yields p (clear_present p) _ (clear_present-Keeps p)
          (fetch_sprites-Yields (clear_present p)))
        (branch-Yields (Keeps p) (within p.cycle 321 340) _ _ (yields _ (keep refl))
          (yields p (keep refl)))

  line_step-Yields : (p : Ppu M) → Yields (Ticks p) (line_step board p)
  unfolding line_step
  line_step-Yields p = bind-Yields _ (background_step board p) (background_step-Yields p) (λ p1 h.
      (let p2 = scroll_step (prerender_step p1) in
        let moved : Keeps p1 p2 =
          after (prerender_step-Keeps p1) (scroll_step-Keeps (prerender_step p1)) in
        map-Yields odd_skip (sprite_step board p2) (sprite_step-Yields p2)
          (λ q k. odd_skip-Ticks p q (after h (after moved k)))))

  render_step-Yields : (p : Ppu M) → Yields (Ticks p) (render_step board p)
  unfolding render_step
  render_step-Yields p =
      let p1 = evaluation_step p in
      let start = evaluation_step-Keeps p in
      branch-Yields (Ticks p) (prerendering p || visible_scanline p) _ _
        (weaken (line_step board p1) (line_step-Yields p1) (λ q k. Ticks-before p p1 q start k))
        (yields p1 (record { step = inl start }))

  pub tick-Yields : (p : Ppu M) (l : Lines) → Yields (λ r. Ticks p r.0) (tick board p l)
  unfolding tick
  tick-Yields p l =
      map-Yields (finish_tick board p l)
        (if p.mask.rendering_enabled then render_step board p else some p)
        (branch-Yields (Ticks p) p.mask.rendering_enabled _ _ (render_step-Yields p)
          (yields p (record { step = inl (keep refl) })))
        (λ q h. Ticks-after p q (finish_tick board p l q).0 h (finish_tick-Keeps board p l q))

  pub blank_step-Keeps : (p : Ppu M) (l : Lines) → Keeps p (blank_step board (p, l)).0
  unfolding blank_step start_vblank stop_vblank
  blank_step-Keeps p l = elim (Bool-cases (p.cycle == 1)) [
    | inl e ↦ elim (Bool-cases (p.scanline == p.vblank_scanline)) [
      | inl f ↦ elim (Bool-cases p.prevent_vbl) [
        | inl g ↦ rw (e, f, g) (keep refl)
        | inr g ↦ rw (e, f, g) (keep refl)
      ]
      | inr f ↦ elim (Bool-cases (p.scanline == p.prerender_scanline)) [
        | inl g ↦ rw (e, f, g) (keep refl)
        | inr g ↦ rw (e, f, g) (keep refl)
      ]
    ]
    | inr e ↦ rw e (keep refl)
  ]
