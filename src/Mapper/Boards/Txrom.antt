-- ===== src/Mapper/Boards/Txrom.antt =====
-- `Txrom` (MMC3) of tetanes-core/src/mapper/m004_txrom.rs; `none` where the source panics.
pub mod Interrupts
use tetanes.Base.{
  ℕ, ◌-◌, ◌*◌, Bool, true, false, not, ◌&&◌, ◌||◌, if◌then◌else◌, ltb, ◌==◌, List, [], ◌∷◌, Option,
  some, none, length, replicate, get_elem?, get_or, set, bit_and, has_bits, ◌>>>◌,
}
use mathlib.Core.Option
use tetanes.Cpu.Lines.{Lines, IrqSource, set_irq, clear_irq}
use tetanes.Mem.Banks.{Banks, new, set_range, last, translate}
use tetanes.Mapper.{
  MappedRead, MappedWrite, Loaded, loaded, with_banks, option_loaded, within, translated, switch,
}
use tetanes.Mapper.Mirroring.{Mirroring}
use tetanes.Cart.{
  Cart, has_chr_rom, mirroring, add_prg_ram, add_chr_ram, add_exram, mapper_num, submapper_num,
}
use tetanes.Cart

pub data Revision : Type 0 where
  rev_a rev_bc acc : Revision

pub record Regs : Type 0 where
  pub bank_select : ℕ
  pub bank_values : List ℕ
  pub irq_latch : ℕ
  pub irq_counter : ℕ
  pub irq_enabled : Bool
  pub irq_reload : Bool
  pub last_clock : ℕ

pub record Txrom : Type 0 where
  pub regs : Regs
  pub mirroring : Mirroring
  pub mapper_num : ℕ
  pub submapper_num : ℕ
  pub revision : Revision
  pub chr_banks : Banks
  pub prg_ram_banks : Banks
  pub prg_rom_banks : Banks

abbrev pub is_acc : Revision → Bool
is_acc Revision.acc = true
is_acc _ = false

abbrev pub is_bc : Revision → Bool
is_bc Revision.rev_bc = true
is_bc _ = false

abbrev pub is_four_screen : Mirroring → Bool
is_four_screen Mirroring.four_screen = true
is_four_screen _ = false

abbrev pub default_regs : Regs
default_regs = record {
  bank_select = 0;
  bank_values = replicate 8 0;
  irq_latch = 0;
  irq_counter = 0;
  irq_enabled = false;
  irq_reload = false;
  last_clock = 0;
}

-- `last() - 1`, which underflows where the ROM has one page.
abbrev pub before_last : Banks → Option ℕ
before_last b = if last b == 0 then none else some (last b - 1)

-- The memories that `new` adds to the cartridge.
unfoldable pub with_memories : (ℕ → ℕ) → Cart → Cart
with_memories rng c =
    let c1 = add_prg_ram rng (8 * 1024) c in
    let c2 = if is_four_screen (Cart.mirroring c1) then add_exram rng (4 * 1024) c1 else c1 in
    if not (has_chr_rom c2) && (length c2.chr_ram == 0) then add_chr_ram rng (8 * 1024) c2 else c2

unfoldable pub load : (ℕ → ℕ) → ℕ → Cart → Loaded Txrom
unfolding with_memories
load rng chr_window c =
    let c1 = with_memories rng c in
    let chr_len = if has_chr_rom c1 then length c1.chr_rom else length c1.chr_ram in
    with_banks (new 0x0000 0x1fff chr_len chr_window) (λ chr_banks.
      with_banks (new 0x6000 0x7fff (length c1.prg_ram) (8 * 1024)) (λ prg_ram_banks.
        with_banks (new 0x8000 0xffff (length c1.prg_rom) (8 * 1024)) (λ prg_rom_banks.
          let fixed =
            Option.bind (before_last prg_rom_banks)
              (λ page. switch ((2, page) ∷ (3, last prg_rom_banks) ∷ []) prg_rom_banks) in
          option_loaded fixed (λ banks.
            loaded
              (record {
                regs = default_regs;
                mirroring = Cart.mirroring c1;
                mapper_num = Cart.mapper_num c1;
                submapper_num = Cart.submapper_num c1;
                revision = Revision.rev_bc;
                chr_banks = chr_banks;
                prg_ram_banks = prg_ram_banks;
                prg_rom_banks = banks;
              })
              c1))))

unfoldable pub bank_register : Txrom → ℕ → Option ℕ
bank_register m index = get_elem? m.regs.bank_values index

unfoldable pub set_revision : Revision → Txrom → Txrom
set_revision rev m = record m { revision = rev }

unfoldable pub update_prg_banks : Txrom → Option Txrom
update_prg_banks m =
    let prg_last = last m.prg_rom_banks in
    let prg_lo = get_or m.regs.bank_values 6 0 in
    let prg_hi = get_or m.regs.bank_values 7 0 in
    Option.map (λ banks. record m { prg_rom_banks = banks })
      (Option.bind (before_last m.prg_rom_banks) (λ before.
        switch
          (if has_bits m.regs.bank_select 0x40
            then (0, before) ∷ (1, prg_hi) ∷ (2, prg_lo) ∷ (3, prg_last) ∷ []
            else (0, prg_lo) ∷ (1, prg_hi) ∷ (2, before) ∷ (3, prg_last) ∷ [])
          m.prg_rom_banks))

unfoldable pub set_chr_banks : (Banks → List ℕ → Banks × List ℕ) → Txrom → Txrom
set_chr_banks f m =
    let (banks, values) = f m.chr_banks m.regs.bank_values in
    record m { chr_banks = banks; regs = record m.regs { bank_values = values } }

unfoldable pub update_chr_banks : Txrom → Option Txrom
update_chr_banks m =
    let chr = λ (i : ℕ). get_or m.regs.bank_values i 0 in
    let lo = bit_and (chr 0) 0xfe in
    let hi = bit_and (chr 1) 0xfe in
    Option.map (λ banks. record m { chr_banks = banks })
      (if has_bits m.regs.bank_select 0x80
        then Option.bind
            (switch ((0, chr 2) ∷ (1, chr 3) ∷ (2, chr 4) ∷ (3, chr 5) ∷ []) m.chr_banks)
            (λ b. Option.bind (set_range 4 5 lo b) (set_range 6 7 hi))
        else Option.bind (set_range 0 1 lo m.chr_banks) (λ b.
          Option.bind (set_range 2 3 hi b)
            (switch ((4, chr 2) ∷ (5, chr 3) ∷ (6, chr 4) ∷ (7, chr 5) ∷ []))))

-- Two boards on this one set their CHR banks themselves.
unfoldable pub update_banks : Txrom → Option Txrom
unfolding update_prg_banks update_chr_banks
update_banks m =
    Option.bind (update_prg_banks m) (λ m1.
      if (m1.mapper_num == 76) || (m1.mapper_num == 88) then some m1 else update_chr_banks m1)

-- A clock of the interrupt counter, at an edge of bit 12 of the address.
unfoldable pub count_irq : Txrom → Lines → Txrom × Lines
count_irq m l =
    let r = m.regs in
    let counter = if (r.irq_counter == 0) || r.irq_reload then r.irq_latch else r.irq_counter - 1 in
    let counts = has_bits r.irq_counter 0x01 || (is_bc m.revision || r.irq_reload) in
    (
      record m { regs = record r { irq_counter = counter; irq_reload = false } },
      if counts && ((counter == 0) && r.irq_enabled) then set_irq IrqSource.mapper l else l,
    )

unfoldable pub clock_irq : ℕ → Txrom → Lines → Txrom × Lines
unfolding count_irq
clock_irq addr m l =
    let next_clock = bit_and (addr >>> 12) 1 in
    let last_clock = m.regs.last_clock in
    let edge =
      if is_acc m.revision
      then (last_clock == 1) && (next_clock == 0)
      else (last_clock == 0) && (next_clock == 1) in
    let (m1, l1) = if edge then count_irq m l else (m, l) in
    if ltb addr 0x2000
    then (record m1 { regs = record m1.regs { last_clock = next_clock } }, l1)
    else (m, l)

unfoldable pub map_peek : ℕ → Txrom → Option MappedRead
map_peek addr m =
    if within addr 0x0000 0x1fff
    then translated MappedRead.chr m.chr_banks addr
    else if within addr 0x2000 0x3eff && is_four_screen m.mirroring
    then some (MappedRead.exram (bit_and addr 0x1fff))
    else if within addr 0x6000 0x7fff
    then translated MappedRead.prg_ram m.prg_ram_banks addr
    else if within addr 0x8000 0xffff
    then translated MappedRead.prg_rom m.prg_rom_banks addr
    else some MappedRead.bus

unfoldable pub map_read : ℕ → Txrom → Lines → Option MappedRead × Txrom × Lines
unfolding clock_irq map_peek
map_read addr m l = let (m1, l1) = clock_irq addr m l in (map_peek addr m1, m1, l1)

-- The write of a register, by `addr & 0xE001`.
unfoldable pub write_register : ℕ → ℕ → Txrom → Lines → Option (Txrom × Lines)
unfolding update_banks
write_register reg val m l =
    let r = m.regs in
    let with_regs = λ (r1 : Regs). record m { regs = r1 } in
    let updated =
      λ (m1 : Txrom). Option.map {B = Txrom × Lines} (λ m2. (m2, l)) (update_banks m1) in
    if reg == 0x8000
    then updated (with_regs (record r { bank_select = val }))
    else if reg == 0x8001
    then updated
        (with_regs (record r { bank_values = set r.bank_values (bit_and r.bank_select 0x07) val }))
    else if reg == 0xa000
    then (if is_four_screen m.mirroring
        then some (m, l)
        else updated (record m {
          mirroring = if bit_and val 0x01 == 0 then Mirroring.vertical else Mirroring.horizontal;
        }))
    else if reg == 0xa001
    then some (m, l)
    else if reg == 0xc000
    then some (with_regs (record r { irq_latch = val }), l)
    else if reg == 0xc001
    then some (with_regs (record r { irq_reload = true }), l)
    else if reg == 0xe000
    then some (with_regs (record r { irq_enabled = false }), clear_irq IrqSource.mapper l)
    else some (with_regs (record r { irq_enabled = true }), l)

unfoldable pub map_write : ℕ → ℕ → Txrom → Lines → Option (MappedWrite × Txrom × Lines)
unfolding write_register
map_write addr val m l =
    if within addr 0x0000 0x1fff
    then Option.map (λ at. (MappedWrite.chr_ram at val, m, l)) (translate m.chr_banks addr)
    else if within addr 0x2000 0x3eff && is_four_screen m.mirroring
    then some (MappedWrite.exram (bit_and addr 0x1fff) val, m, l)
    else if within addr 0x6000 0x7fff
    then Option.map (λ at. (MappedWrite.prg_ram at val, m, l)) (translate m.prg_ram_banks addr)
    else if within addr 0x8000 0xffff
    then Option.map (λ r. (MappedWrite.bus_write, r.0, r.1))
        (write_register (bit_and addr 0xe001) val m l)
    else some (MappedWrite.bus_write, m, l)

unfoldable pub reset : Txrom → Option Txrom
unfolding update_banks
reset m = update_banks (record m { regs = default_regs })
