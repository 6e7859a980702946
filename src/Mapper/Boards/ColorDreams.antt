-- ===== src/Mapper/Boards/ColorDreams.antt =====
-- `ColorDreams` of tetanes-core/src/mapper/m011_color_dreams.rs; `none` where the source panics.
use tetanes.Base.{ℕ, ◌*◌, if◌then◌else◌, Option, some, length, bit_and, ◌>>>◌}
use mathlib.Core.Option
use tetanes.Mem.Banks.{Banks, new, set_bank}
use tetanes.Mapper.{MappedRead, MappedWrite, Loaded, loaded, with_banks, within, translated}
use tetanes.Mapper.Mirroring.{Mirroring}
use tetanes.Cart.{Cart, mirroring}

pub record ColorDreams : Type 0 where
  pub mirroring : Mirroring
  pub chr_banks : Banks
  pub prg_rom_banks : Banks

unfoldable pub load : Cart → Loaded ColorDreams
load c = with_banks (new 0x0000 0x1fff (length c.chr_rom) (8 * 1024)) (λ chr_banks.
    with_banks (new 0x8000 0xffff (length c.prg_rom) (32 * 1024)) (λ prg_rom_banks.
      loaded
        (record { mirroring = mirroring c; chr_banks = chr_banks; prg_rom_banks = prg_rom_banks })
        c))

unfoldable pub map_peek : ℕ → ColorDreams → Option MappedRead
map_peek addr m =
    if within addr 0x0000 0x1fff
    then translated MappedRead.chr m.chr_banks addr
    else if within addr 0x8000 0xffff
    then translated MappedRead.prg_rom m.prg_rom_banks addr
    else some MappedRead.bus

-- The CHR bank is set first, then the PRG bank.
unfoldable pub map_write : ℕ → ℕ → ColorDreams → Option (MappedWrite × ColorDreams)
map_write addr val m =
    if within addr 0x8000 0xffff
    then Option.bind (set_bank 0 (bit_and val 0xf0 >>> 4) m.chr_banks) (λ chr_banks.
      Option.map
        (λ banks.
          (MappedWrite.bus_write, record m { chr_banks = chr_banks; prg_rom_banks = banks }))
        (set_bank 0 (bit_and val 0x03) m.prg_rom_banks))
    else some (MappedWrite.bus_write, m)
