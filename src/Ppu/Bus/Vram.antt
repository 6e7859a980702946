-- ===== src/Ppu/Bus/Vram.antt =====
-- What is written to the nametables and the palette is read back.
use tetanes.Base.{
  get_or-set, ℕ, ◌≤◌, ◌<◌, ◌≡◌, ◌≢◌, refl, sym, ◌∙◌, ap, arith, true, false, if◌then◌else◌, ◌==◌,
  Bool-cases, inl, inr, length, get_or, set, some,
}
use tetanes.Cpu.Lines.{Lines}
use tetanes.Mapper.Mirroring.{four_screen}
use tetanes.Mapper.{MappedRead, MappedWrite, within}
use tetanes.Ppu.Bus.{
  Board, Bus, ciram_mirror, palette_mirror, mapped_ciram, write_mapped, end_write, write, peek,
  peek_ciram, peek_palette,
}
use tetanes.Ppu.Bus.Mirrors.{
  cell, IsTable, entry, ciram_mirror-screens, ciram_mirror-lt, palette_mirror-entry,
  palette_mirror-lt,
}

-- A board that leaves the nametables to the console's RAM, and watches the bus without a change of
-- the mirroring.
pub record PlainBoard {M : Type 0} (board : Board M) (m : M) : Type 0 where
  pub peeks : (addr : ℕ) → 0x2000 ≤ addr → addr ≤ 0x3eff → board.map_peek addr m ≡ MappedRead.bus
  pub writes :
      (addr val : ℕ) (l : Lines)
      → 0x2000 ≤ addr
      → addr ≤ 0x3eff
      → board.map_write addr val m l ≡ (MappedWrite.bus_write, m, l)
  pub watches : (addr val : ℕ) (l : Lines) → ((board.ppu_bus_write addr val m l).0 ≡ m)

module _ {M : Type 0} (board : Board M) where
  peek-table :
      (b : Bus M) (addr : ℕ)
      → PlainBoard board b.mapper
      → 0x2000 ≤ addr
      → addr ≤ 0x3eff
      → peek board addr b ≡ some (get_or b.ciram (ciram_mirror addr (board.mirroring b.mapper)) 0)
  unfolding peek peek_ciram mapped_ciram
  peek-table b addr p lo hi =
      let inside : within addr 0x2000 0x3eff ≡ true = ground arith in
      rw (inside, p.peeks addr lo hi) refl

  write-cells :
      (b : Bus M) (l : Lines) (addr val at : ℕ)
      → PlainBoard board b.mapper
      → length b.ciram ≡ 0x800
      → 0x2000 ≤ addr
      → addr ≤ 0x3eff
      → 0x2000 ≤ at
      → at ≤ 0x3eff
      → let cell : ℕ → ℕ = λ a. ciram_mirror a (board.mirroring b.mapper) in
        (r : Bus M × Lines) × (write board addr val b l ≡ some r)
        × (peek board at r.0 ≡ (if cell addr == cell at then some val else peek board at b))
  unfolding write write_mapped end_write
  write-cells b l addr val at p size lo hi lo' hi' =
      let cell : ℕ → ℕ = λ a. ciram_mirror a (board.mirroring b.mapper) in
      let inside : within addr 0x0000 0x3eff ≡ true = ground arith in
      let ram = set b.ciram (cell addr) val in
      let done = end_write board addr val (record b { ciram = ram }) l in
      let kept : done.0.mapper ≡ b.mapper = p.watches addr val l in
      let plain : PlainBoard board done.0.mapper = rw kept p in
      let at_cell : ciram_mirror at (board.mirroring done.0.mapper) ≡ cell at =
        ap (λ m. ciram_mirror at (board.mirroring m)) kept in
      let fits : cell addr < length b.ciram =
        omega (arith, size, ciram_mirror-lt addr (board.mirroring b.mapper)) in
      (
        done,
        rw (inside, p.writes addr val l lo hi) refl,
        peek-table done.0 at plain lo' hi'
            ∙ ap (λ c. some (get_or ram c 0)) at_cell
            ∙ ap some (get_or-set b.ciram (cell addr) (cell at) val 0 fits)
            ∙ elim (Bool-cases (cell addr == cell at)) [
              | inl e ↦ rw e refl
              | inr e ↦ rw e (sym (peek-table b at p lo' hi'))
            ],
      )

  -- On a board that leaves the nametables to the console's 2K of RAM, and whose mirroring is not that
  -- of four tables, a byte written to a nametable is what an address of the same cell by the layout
  -- then shows, and every other address of the nametables shows what it did; the mirrors from $3000
  -- on count but for single screen A.
  pub write-peek :
      (b : Bus M) (l : Lines) (addr val at : ℕ)
      → PlainBoard board b.mapper
      → length b.ciram ≡ 0x800
      → board.mirroring b.mapper ≢ four_screen
      → IsTable (board.mirroring b.mapper) addr
      → IsTable (board.mirroring b.mapper) at
      → let m = board.mirroring b.mapper in
        (r : Bus M × Lines) × (write board addr val b l ≡ some r)
        × (peek board at r.0 ≡ (if cell m addr == cell m at then some val else peek board at b))
  write-peek b l addr val at p size ne t u =
      let m = board.mirroring b.mapper in
      let (r, e, shown) = write-cells b l addr val at p size t.lo t.hi u.lo u.hi in
      (
        r,
        e,
        shown
            ∙ ap (λ c. if c == ciram_mirror at m then some val else peek board at b)
                (ciram_mirror-screens addr m t ne)
            ∙ ap (λ c. if cell m addr == c then some val else peek board at b)
                (ciram_mirror-screens at m u ne),
      )

  peek-palette :
      (b : Bus M) (addr : ℕ)
      → 0x3f00 ≤ addr
      → addr ≤ 0x3fff
      → peek board addr b ≡ some (get_or b.palette (palette_mirror addr) 0)
  unfolding peek peek_palette
  peek-palette b addr lo hi =
      let table : within addr 0x2000 0x3eff ≡ false = ground arith in
      let chr : within addr 0x0000 0x1fff ≡ false = ground arith in
      let inside : within addr 0x3f00 0x3fff ≡ true = ground arith in rw (table, chr, inside) refl

  write-colors :
      (b : Bus M) (l : Lines) (addr val at : ℕ)
      → length b.palette ≡ 32
      → 0x3f00 ≤ addr
      → addr ≤ 0x3fff
      → 0x3f00 ≤ at
      → at ≤ 0x3fff
      → (r : Bus M × Lines) × (write board addr val b l ≡ some r)
        × (peek board at r.0
            ≡ (if palette_mirror addr == palette_mirror at then some val else peek board at b))
  unfolding write end_write
  write-colors b l addr val at size lo hi lo' hi' =
      let outside : within addr 0x0000 0x3eff ≡ false = ground arith in
      let inside : within addr 0x3f00 0x3fff ≡ true = ground arith in
      let colors = set b.palette (palette_mirror addr) val in
      let done = end_write board addr val (record b { palette = colors }) l in
      let fits : palette_mirror addr < length b.palette =
        omega (arith, size, palette_mirror-lt addr) in
      (
        done,
        rw (outside, inside) refl,
        peek-palette done.0 at lo' hi'
            ∙ ap some (get_or-set b.palette (palette_mirror addr) (palette_mirror at) val 0 fits)
            ∙ elim (Bool-cases (palette_mirror addr == palette_mirror at)) [
              | inl e ↦ rw e refl
              | inr e ↦ rw e (sym (peek-palette b at lo' hi'))
            ],
      )

  -- A color written to the palette is what each address of the same entry then shows, the first of
  -- each four of the upper half being that of the lower, and every other address of the palette
  -- shows what it did, whatever the board.
  pub write-palette :
      (b : Bus M) (l : Lines) (addr val at : ℕ)
      → length b.palette ≡ 32
      → 0x3f00 ≤ addr
      → addr ≤ 0x3fff
      → 0x3f00 ≤ at
      → at ≤ 0x3fff
      → (r : Bus M × Lines) × (write board addr val b l ≡ some r)
        × (peek board at r.0 ≡ (if entry addr == entry at then some val else peek board at b))
  write-palette b l addr val at size lo hi lo' hi' =
      let (r, e, shown) = write-colors b l addr val at size lo hi lo' hi' in
      (
        r,
        e,
        shown
            ∙ ap (λ c. if c == palette_mirror at then some val else peek board at b)
                (palette_mirror-entry addr)
            ∙ ap (λ c. if entry addr == c then some val else peek board at b)
                (palette_mirror-entry at),
      )
