-- ===== src/Mapper/Boards/Cnrom.antt =====
-- `Cnrom` of tetanes-core/src/mapper/m003_cnrom.rs; `none` where the source panics. The CHR window
-- is declared up to 0x1FFFF, as there.
use tetanes.Base.{ℕ, ◌*◌, Bool, if◌then◌else◌, leb, Option, some, length, bit_and}
use mathlib.Core.Option
use tetanes.Mem.Banks.{Banks, new, set_bank}
use tetanes.Mapper.{MappedRead, MappedWrite, Loaded, loaded, with_banks, within, translated}
use tetanes.Mapper.Mirroring.{Mirroring}
use tetanes.Cart.{Cart, mirroring}

pub record Cnrom : Type 0 where
  pub mirroring : Mirroring
  pub chr_banks : Banks
  pub mirror_prg_rom : Bool

unfoldable pub load : Cart → Loaded Cnrom
load c = with_banks (new 0x0000 0x1ffff (length c.chr_rom) (8 * 1024)) (λ chr_banks.
    loaded
      (record {
        mirroring = mirroring c;
        chr_banks = chr_banks;
        mirror_prg_rom = leb (length c.prg_rom) 0x4000;
      })
      c)

unfoldable pub map_peek : ℕ → Cnrom → Option MappedRead
map_peek addr m =
    if within addr 0x0000 0x1fff
    then translated MappedRead.chr m.chr_banks addr
    else if within addr 0x8000 0xbfff
    then some (MappedRead.prg_rom (bit_and addr 0x3fff))
    else if within addr 0xc000 0xffff
    then some (MappedRead.prg_rom (bit_and addr (if m.mirror_prg_rom then 0x3fff else 0x7fff)))
    else some MappedRead.bus

unfoldable pub map_write : ℕ → ℕ → Cnrom → Option (MappedWrite × Cnrom)
map_write addr val m =
    if within addr 0x8000 0xffff
    then Option.map (λ banks. (MappedWrite.bus_write, record m { chr_banks = banks }))
        (set_bank 0 val m.chr_banks)
    else some (MappedWrite.bus_write, m)
