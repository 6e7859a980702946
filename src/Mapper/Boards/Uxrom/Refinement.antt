-- ===== src/Mapper/Boards/Uxrom/Refinement.antt =====
-- The board of UxROM as a page number: what its writes and reads do to a cartridge of whole pages.
use tetanes.Base.{
  not, if-each, ℕ, ◌+◌, ◌-◌, ◌*◌, ◌/◌, ◌%◌, ◌≤◌, ◌<◌, ◌≡◌, refl, ◌∙◌, ap, arith, true, false,
  if◌then◌else◌, ◌==◌, ◌&&◌, Bool-cases, inl, inr, Option, some, List, [], ◌∷◌, length, get_or,
  bit_and, usize_mod,
}
use tetanes.Base.Bits.{bit_and_self, bit_and-zero_left}
use tetanes.Mem.Banks.{Banks, set_bank, ok, last, new}
use tetanes.Mem.Banks.Laws.{set_bank-switched, switched}
use tetanes.Mem.Banks.Initial.{new-initial_table}
use tetanes.Mapper.{MappedRead, MappedWrite, Loaded, loaded, with_banks, option_loaded, within}
use tetanes.Mem.Banks.Halves.{
  IsShowing, IsShowing-eq, switched_low-IsShowing, switched_high-IsShowing, table, table-IsValid,
  table-IsShowing,
}
use tetanes.Mapper.Boards.Uxrom.{Uxrom, load, map_peek, map_write}
use tetanes.Cart.{Cart, add_chr_ram, has_chr_rom, mirroring}
use mathlib.Core.Option

-- The board of a cartridge with `c` pages of 16K that shows page `p`: the page at $8000, as far as
-- the ROM goes, and the last page at $C000.
abbrev pub page_read : ℕ → ℕ → ℕ → MappedRead
page_read c p addr =
    if within addr 0x0000 0x1fff
    then MappedRead.chr addr
    else if within addr 0x8000 0xbfff
    then MappedRead.prg_rom (bit_and p (c - 1) * 0x4000 + addr % 0x4000)
    else if within addr 0xc000 0xffff
    then MappedRead.prg_rom ((c - 1) * 0x4000 + addr % 0x4000)
    else MappedRead.bus

-- A write to the ROM sets the page.
abbrev pub page_write : ℕ → ℕ → ℕ → ℕ
page_write addr val p = if within addr 0x8000 0xffff then val else p

abbrev pub write_all : List (ℕ × ℕ) → Uxrom → Option Uxrom
write_all [] m = some m
write_all ((addr, val) ∷ ws) m = Option.bind (map_write addr val m) (λ r. write_all ws r.1)

abbrev pub pages : List (ℕ × ℕ) → ℕ → ℕ
pages [] p = p
pages ((addr, val) ∷ ws) p = pages ws (page_write addr val p)

-- The board shows page `p`, and at $C000 the last one.
abbrev IsAt : ℕ → ℕ → Uxrom → Type 0
IsAt c p m = IsShowing c (bit_and p (c - 1) * 0x4000) ((c - 1) * 0x4000) m.prg_rom_banks

map_peek-page :
    (c p : ℕ) (m : Uxrom) (addr : ℕ) → IsAt c p m → map_peek addr m ≡ some (page_read c p addr)
unfolding map_peek
map_peek-page c p m addr s = elim (Bool-cases (within addr 0x8000 0xbfff)) [
  | inl h ↦
      let outside : within addr 0x0000 0x1fff ≡ false = ground arith in
      let inside : within addr 0x8000 0xffff ≡ true = ground arith in
      let half : addr / 0x4000 % 2 ≡ 0 = ground arith in
      rw (outside, inside, h, s.low addr half) refl
  | inr h ↦ elim (Bool-cases (within addr 0xc000 0xffff)) [
    | inl k ↦
        let outside : within addr 0x0000 0x1fff ≡ false = ground arith in
        let inside : within addr 0x8000 0xffff ≡ true = ground arith in
        let half : addr / 0x4000 % 2 ≡ 1 = ground arith in
        rw (outside, inside, h, k, s.high addr half) refl
    | inr k ↦
        let apart : within addr 0x8000 0xffff ≡ false = ground arith in
        elim (Bool-cases (within addr 0x0000 0x1fff)) [
          | inl e ↦ rw e refl
          | inr e ↦ rw (e, apart, h, k) refl
        ]
  ]
]

map_write-page :
    (c p : ℕ) (m : Uxrom) (addr val : ℕ)
    → IsAt c p m
    → (r : MappedWrite × Uxrom) × (map_write addr val m ≡ some r)
      × IsAt c (page_write addr val p) r.1
unfolding map_write
map_write-page c p m addr val s =
    let facts = set_bank-switched 1 0 val m.prg_rom_banks s.valid in
    elim (Bool-cases (within addr 0x8000 0xffff)) [
      | inl h ↦
          let outside : within addr 0x0000 0x1fff ≡ false = ground arith in
          (
            (MappedWrite.bus_write, record m { prg_rom_banks = switched 0 val m.prg_rom_banks }),
            rw (outside, h, facts.0) refl,
            rw h (switched_low-IsShowing c _ _ val m.prg_rom_banks s),
          )
      | inr h ↦ elim (Bool-cases (within addr 0x0000 0x1fff)) [
        | inl e ↦ ((MappedWrite.chr_ram addr val, m), rw e refl, rw h s)
        | inr e ↦ ((MappedWrite.bus_write, m), rw (e, h) refl, rw h s)
      ]
    ]

-- Writes one after the other, and the page that they leave.
write_all-page :
    (c : ℕ) (ws : List (ℕ × ℕ)) (p : ℕ) (m : Uxrom)
    → IsAt c p m
    → (m' : Uxrom) × (write_all ws m ≡ some m') × IsAt c (pages ws p) m'
unfolding Option.bind
write_all-page c [] p m s = (m, refl, s)
write_all-page c ((addr, val) ∷ ws) p m s =
    let (r, done, shows) = map_write-page c p m addr val s in
    let (m', all, last_shows) = write_all-page c ws (page_write addr val p) r.1 shows in
    (m', ap (λ o. Option.bind o (λ r. write_all ws r.1)) done ∙ all, last_shows)

-- The cartridge that the board is made of.
abbrev with_chr_ram : (ℕ → ℕ) → Cart → Cart
with_chr_ram rng c =
    if not (has_chr_rom c) && (length c.chr_ram == 0) then add_chr_ram rng 8192 c else c

with_chr_ram-prg_rom : (rng : ℕ → ℕ) (c : Cart) → (with_chr_ram rng c).prg_rom ≡ c.prg_rom
unfolding add_chr_ram
with_chr_ram-prg_rom rng c =
    if-each (λ (d : Cart). d.prg_rom ≡ c.prg_rom) (not (has_chr_rom c) && (length c.chr_ram == 0))
      refl refl

load-page :
    (rng : ℕ → ℕ) (cart : Cart) (c : ℕ)
    → length cart.prg_rom ≡ c * 0x4000
    → 0 < c
    → c * 0x4000 ≤ usize_mod
    → (m : Uxrom) × (cart' : Cart) × (load rng cart ≡ loaded m cart') × IsAt c 0 m
unfolding load last
load-page rng cart c h hc fits =
    let c1 = with_chr_ram rng cart in
    let shown = table-IsShowing c hc fits in
    let board : Banks → Loaded Uxrom =
      λ banks. loaded (record { mirroring = mirroring c1; prg_rom_banks = banks }) c1 in
    let rest : Banks → Loaded Uxrom =
      λ banks. option_loaded (set_bank 1 (last banks) banks) board in
    let size : length c1.prg_rom ≡ c * 0x4000 = ap length (with_chr_ram-prg_rom rng cart) ∙ h in
    let made : new 0x8000 0xffff (length c1.prg_rom) 0x4000 ≡ ok (table c hc fits) =
      ap (λ n. new 0x8000 0xffff n 0x4000) size
      ∙ new-initial_table 1 14 c 0x8000 0xffff (omega arith) (omega arith) refl hc fits in
    let set : set_bank 1 (last (table c hc fits)) (table c hc fits)
        ≡ some (switched 1 (c - 1) (table c hc fits)) =
      (set_bank-switched 1 1 (c - 1) (table c hc fits) (table-IsValid c hc fits)).0 in
    let shown_at =
      switched_high-IsShowing c 0 (get_or (table c hc fits).banks 1 0) (c - 1) (table c hc fits)
        shown in
    let zero_low : 0 ≡ bit_and 0 (c - 1) * 0x4000 = omega (arith, bit_and-zero_left (c - 1)) in
    let last_high : bit_and (c - 1) (c - 1) * 0x4000 ≡ (c - 1) * 0x4000 =
      omega (arith, bit_and_self (c - 1)) in
    (
      record { mirroring = mirroring c1; prg_rom_banks = switched 1 (c - 1) (table c hc fits) },
      c1,
      ap (λ r. with_banks r rest) made ∙ ap (λ o. option_loaded o board) set,
      IsShowing-eq zero_low last_high shown_at,
    )

-- A loaded UxROM board is a page number. Whatever is written to the board, no write fails, and
-- every address then reads from the page that was written last, from page 0 before the first
-- write, and in the upper half of the ROM's range from the last page of the ROM.
pub load-refines :
    (rng : ℕ → ℕ) (cart : Cart) (c : ℕ) (ws : List (ℕ × ℕ))
    → length cart.prg_rom ≡ c * 0x4000
    → 0 < c
    → c * 0x4000 ≤ usize_mod
    → (m : Uxrom) × (cart' : Cart) × (m' : Uxrom) × (load rng cart ≡ loaded m cart')
      × (write_all ws m ≡ some m')
      × ((addr : ℕ) → map_peek addr m' ≡ some (page_read c (pages ws 0) addr))
load-refines rng cart c ws h hc fits =
    let (m, cart', done, shows) = load-page rng cart c h hc fits in
    let (m', all, shows') = write_all-page c ws 0 m shows in
    (m, cart', m', done, all, λ addr. map_peek-page c (pages ws 0) m' addr shows')
