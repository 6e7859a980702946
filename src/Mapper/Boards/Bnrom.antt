-- ===== src/Mapper/Boards/Bnrom.antt =====
-- `Bnrom` of tetanes-core/src/mapper/m034_bnrom.rs; `none` where the source panics.
use tetanes.Base.{ℕ, ◌-◌, ◌*◌, if◌then◌else◌, ◌==◌, Option, some, length, bit_and}
use mathlib.Core.Option
use tetanes.Mem.Banks.{Banks, new, set_bank}
use tetanes.Mapper.{MappedRead, MappedWrite, Loaded, loaded, with_banks, within, translated}
use tetanes.Mapper.Mirroring.{Mirroring}
use tetanes.Cart.{Cart, mirroring, add_chr_ram}

pub record Bnrom : Type 0 where
  pub mirroring : Mirroring
  pub prg_rom_banks : Banks

unfoldable pub load : (ℕ → ℕ) → Cart → Loaded Bnrom
load rng c =
    let c1 = if length c.chr_ram == 0 then add_chr_ram rng 8192 c else c in
    with_banks (new 0x8000 0xffff (length c1.prg_rom) (32 * 1024)) (λ prg_rom_banks.
      loaded (record { mirroring = mirroring c1; prg_rom_banks = prg_rom_banks }) c1)

unfoldable pub map_peek : ℕ → Bnrom → Option MappedRead
map_peek addr m =
    if within addr 0x0000 0x1fff
    then some (MappedRead.chr (bit_and addr (8 * 1024 - 1)))
    else if within addr 0x8000 0xffff
    then translated MappedRead.prg_rom m.prg_rom_banks addr
    else some MappedRead.bus

unfoldable pub map_write : ℕ → ℕ → Bnrom → Option (MappedWrite × Bnrom)
map_write addr val m =
    if within addr 0x0000 0x1fff
    then some (MappedWrite.chr_ram addr val, m)
    else if within addr 0x8000 0xffff
    then Option.map (λ banks. (MappedWrite.bus_write, record m { prg_rom_banks = banks }))
        (set_bank 0 val m.prg_rom_banks)
    else some (MappedWrite.bus_write, m)
