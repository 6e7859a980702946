-- ===== src/Mapper/Boards/Nina003006.antt =====
-- `Nina003006` of tetanes-core/src/mapper/m079_nina003_006.rs; `none` where the source panics.
use tetanes.Base.{
  ℕ, ◌*◌, not, ◌&&◌, if◌then◌else◌, ◌==◌, Option, some, length, bit_and, bit_or, has_bits, ◌>>>◌,
}
use mathlib.Core.Option
use tetanes.Mem.Banks.{Banks, new, set_bank}
use tetanes.Mapper.{MappedRead, MappedWrite, Loaded, loaded, with_banks, within, translated}
use tetanes.Mapper.Mirroring.{Mirroring}
use tetanes.Cart.{Cart, mirroring, mapper_num}

pub record Nina003006 : Type 0 where
  pub mirroring : Mirroring
  pub mapper_num : ℕ
  pub chr_banks : Banks
  pub prg_rom_banks : Banks

unfoldable pub load : Cart → Loaded Nina003006
load c = with_banks (new 0x0000 0x1fff (length c.chr_rom) (8 * 1024)) (λ chr_banks.
    with_banks (new 0x8000 0xffff (length c.prg_rom) (32 * 1024)) (λ prg_rom_banks.
      loaded
        (record {
          mirroring = mirroring c;
          mapper_num = mapper_num c;
          chr_banks = chr_banks;
          prg_rom_banks = prg_rom_banks;
        })
        c))

unfoldable pub map_peek : ℕ → Nina003006 → Option MappedRead
map_peek addr m =
    if within addr 0x0000 0x1fff
    then translated MappedRead.chr m.chr_banks addr
    else if within addr 0x8000 0xffff
    then translated MappedRead.prg_rom m.prg_rom_banks addr
    else some MappedRead.bus

unfoldable pub set_mirroring : Mirroring → Nina003006 → Nina003006
set_mirroring mirroring m = record m { mirroring = mirroring }

unfoldable pub set_pages : ℕ → ℕ → Nina003006 → Option Nina003006
set_pages prg_page chr_page m = Option.bind (set_bank 0 prg_page m.prg_rom_banks) (λ prg_rom_banks.
    Option.map (λ banks. record m { prg_rom_banks = prg_rom_banks; chr_banks = banks })
      (set_bank 0 chr_page m.chr_banks))

unfoldable pub write_register : ℕ → Nina003006 → Option Nina003006
unfolding set_pages set_mirroring
write_register val m =
    if m.mapper_num == 113
    then Option.map
        (set_mirroring (if has_bits val 0x80 then Mirroring.vertical else Mirroring.horizontal))
        (set_pages (bit_and (val >>> 3) 0x07) (bit_or (bit_and val 0x07) (bit_and (val >>> 3) 0x08))
          m)
    else set_pages (bit_and (val >>> 3) 0x01) (bit_and val 0x07) m

unfoldable pub map_write : ℕ → ℕ → Nina003006 → Option (MappedWrite × Nina003006)
unfolding write_register
map_write addr val m =
    Option.map (λ m1. (MappedWrite.bus_write, m1))
      (if not (within addr 0x0000 0x1fff) && (bit_and addr 0xe100 == 0x4100)
        then write_register val m
        else some m)
