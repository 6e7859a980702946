-- ===== src/Mapper/Boards/Uxrom.antt =====
-- `Uxrom` of tetanes-core/src/mapper/m002_uxrom.rs; `none` where the source panics.
pub mod Refinement
use tetanes.Base.{
  ℕ, ◌+◌, ◌-◌, ◌*◌, ◌/◌, Bool, true, false, not, ◌&&◌, ◌||◌, if◌then◌else◌, ltb, leb, ◌==◌, Option,
  some, none, length, bit_and, bit_or, has_bits, ◌>>>◌,
}
use mathlib.Core.Option
use tetanes.Mem.Banks.{Banks, new, set_bank, translate, last}
use tetanes.Mapper.{
  MappedRead, MappedWrite, Loaded, loaded, with_banks, option_loaded, within, translated,
}
use tetanes.Mapper.Mirroring.{Mirroring}
use tetanes.Cart.{Cart, has_chr_rom, mirroring, add_chr_ram, add_prg_ram, submapper_num, mapper_num}

pub record Uxrom : Type 0 where
  pub mirroring : Mirroring
  pub prg_rom_banks : Banks

unfoldable pub load : (ℕ → ℕ) → Cart → Loaded Uxrom
load rng c =
    let c1 = if not (has_chr_rom c) && (length c.chr_ram == 0) then add_chr_ram rng 8192 c else c in
    with_banks (new 0x8000 0xffff (length c1.prg_rom) (16 * 1024)) (λ banks.
      option_loaded (set_bank 1 (last banks) banks) (λ prg_rom_banks.
        loaded (record { mirroring = mirroring c1; prg_rom_banks = prg_rom_banks }) c1))

unfoldable pub map_peek : ℕ → Uxrom → Option MappedRead
map_peek addr m =
    if within addr 0x0000 0x1fff
    then some (MappedRead.chr addr)
    else if within addr 0x8000 0xffff
    then translated MappedRead.prg_rom m.prg_rom_banks addr
    else some MappedRead.bus

unfoldable pub map_write : ℕ → ℕ → Uxrom → Option (MappedWrite × Uxrom)
map_write addr val m =
    if within addr 0x0000 0x1fff
    then some (MappedWrite.chr_ram addr val, m)
    else if within addr 0x8000 0xffff
    then Option.map (λ banks. (MappedWrite.bus_write, record m { prg_rom_banks = banks }))
        (set_bank 0 val m.prg_rom_banks)
    else some (MappedWrite.bus_write, m)
