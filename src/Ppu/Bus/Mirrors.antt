-- ===== src/Ppu/Bus/Mirrors.antt =====
-- Where the nametables and the palette lie behind the addresses of the PPU.
use tetanes.Base.{
  ℕ, ◌+◌, ◌-◌, ◌*◌, ◌/◌, ◌%◌, ◌^◌, ◌<◌, ◌≤◌, ◌≡◌, ◌≢◌, ◌⊎◌, inl, inr, refl, sym, ◌∙◌, ap, arith,
  if◌then◌else◌, ◌==◌, bit_and,
}
use tetanes.Base.Bits.{bit_and_mask, bit_and_bit, bit_or_fields, bit_and_split, bit_and_comm}
use tetanes.Mapper.Mirroring.{
  Mirroring, discriminant, vertical, horizontal, single_screen_a, single_screen_b, four_screen,
}
use tetanes.Ppu.Bus.{ciram_mirror, palette_mirror}

-- A mask whose low ten bits are set keeps those of the address.
low_ten : (q addr : ℕ) → bit_and (bit_and (q * 1024 + 1023) addr) 1023 ≡ addr % 1024
low_ten q addr =
    let split = bit_and_split 10 q (addr / 1024) 1023 (addr % 1024) (omega arith) (omega arith) in
    let whole : addr / 1024 * 1024 + addr % 1024 ≡ addr = omega arith in
    let kept : bit_and 1023 (addr % 1024) ≡ addr % 1024 =
      bit_and_comm 1023 (addr % 1024) ∙ bit_and_mask 10 (addr % 1024) ∙ omega arith in
    bit_and_mask 10 (bit_and (q * 1024 + 1023) addr)
    ∙ ap (λ (t : ℕ). bit_and (q * 1024 + 1023) t % 1024) (sym whole)
    ∙ omega (arith, split, kept)

-- The bit that the mirroring selects, above the ten bits of the position in the table.
pub ciram_mirror-bit :
    (addr : ℕ) (m : Mirroring)
    → ciram_mirror addr m ≡ addr / 2 ^ discriminant m / 1024 % 2 * 1024 + addr % 1024
unfolding ciram_mirror
ciram_mirror-bit addr m =
    let top = addr / 2 ^ discriminant m / 1024 % 2 in
    let bit : bit_and (addr / 2 ^ discriminant m) 1024 ≡ top * 1024 =
      bit_and_bit 10 (addr / 2 ^ discriminant m) in
    let mask : 65535 - top * 1024 ≡ (63 - top) * 1024 + 1023 = omega arith in
    rw (bit, mask, low_ten (63 - top) addr) (bit_or_fields 10 top (addr % 1024) (omega arith))

-- The layouts of the four nametables: the rows or the columns of the picture share a table, all
-- tables are one, or they are four.
abbrev pub screen : Mirroring → ℕ → ℕ
screen vertical table = table % 2
screen horizontal table = table / 2
screen single_screen_a table = 0
screen single_screen_b table = 1
screen four_screen table = table

-- The cell of the RAM that an address shows by the layout.
abbrev pub cell : Mirroring → ℕ → ℕ
cell m addr = screen m (addr / 1024 % 4) * 1024 + addr % 1024

-- An address of the nametables or, but for single screen A, of their mirrors from $3000 on.
pub record IsTable (m : Mirroring) (addr : ℕ) : Type 0 where
  pub lo : 0x2000 ≤ addr
  pub hi : addr ≤ 0x3eff
  pub plain : (addr < 0x3000) ⊎ (m ≢ single_screen_a)

-- Every mirroring but the one of four tables, which the boards serve themselves, puts the tables
-- from $2000 to $2FFF where its layout says, and every one of them but single screen A their mirrors
-- from $3000 to $3EFF too.
pub ciram_mirror-screens :
    (addr : ℕ) (m : Mirroring)
    → IsTable m addr
    → m ≢ four_screen
    → ciram_mirror addr m ≡ cell m addr
ciram_mirror-screens addr vertical t ne = ciram_mirror-bit addr vertical ∙ omega arith
ciram_mirror-screens addr horizontal t ne = ciram_mirror-bit addr horizontal ∙ omega arith
ciram_mirror-screens addr single_screen_a t ne =
    let lo = t.lo in
    elim t.plain [
      | inl lt ↦ ciram_mirror-bit addr single_screen_a ∙ omega arith
      | inr other ↦ absurd (other refl)
    ]
ciram_mirror-screens addr single_screen_b t ne =
    let lo = t.lo in let hi = t.hi in ciram_mirror-bit addr single_screen_b ∙ omega arith
ciram_mirror-screens addr four_screen t ne = absurd (ne refl)

pub ciram_mirror-lt : (addr : ℕ) (m : Mirroring) → ciram_mirror addr m < 0x800
ciram_mirror-lt addr m = omega (arith, ciram_mirror-bit addr m)

-- The entry of the palette behind an address: of its 32, the first of each four of the upper half is
-- that of the lower.
abbrev pub entry : ℕ → ℕ
entry addr = if addr % 4 == 0 then addr % 16 else addr % 32

pub palette_mirror-entry : (addr : ℕ) → palette_mirror addr ≡ entry addr
unfolding palette_mirror
palette_mirror-entry addr = rw (bit_and_mask 5 addr) (ground arith)

pub palette_mirror-lt : (addr : ℕ) → palette_mirror addr < 32
palette_mirror-lt addr = rw (palette_mirror-entry addr) (ground arith)
