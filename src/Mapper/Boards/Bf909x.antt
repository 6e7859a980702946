-- ===== src/Mapper/Boards/Bf909x.antt =====
-- `Bf909x` of tetanes-core/src/mapper/m071_bf909x.rs; `none` where the source panics.
use tetanes.Base.{
  ℕ, ◌*◌, Bool, true, false, not, ◌&&◌, ◌||◌, if◌then◌else◌, leb, ◌==◌, Option, some, length,
  has_bits,
}
use mathlib.Core.Option
use tetanes.Mem.Banks.{Banks, new, set_bank, last}
use tetanes.Mapper.{
  MappedRead, MappedWrite, Loaded, loaded, with_banks, option_loaded, within, translated,
}
use tetanes.Mapper.Mirroring.{Mirroring}
use tetanes.Cart.{Cart, has_chr_rom, mirroring, add_chr_ram, submapper_num}

pub data Revision : Type 0 where
  bf909x bf9097 : Revision

pub record Bf909x : Type 0 where
  pub revision : Revision
  pub mirroring : Mirroring
  pub prg_rom_banks : Banks

abbrev is_bf9097 : Revision → Bool
is_bf9097 Revision.bf9097 = true
is_bf9097 Revision.bf909x = false

unfoldable pub load : (ℕ → ℕ) → Cart → Loaded Bf909x
load rng c =
    let c1 = if not (has_chr_rom c) && (length c.chr_ram == 0) then add_chr_ram rng 8192 c else c in
    with_banks (new 0x8000 0xffff (length c1.prg_rom) (16 * 1024)) (λ banks.
      option_loaded (set_bank 1 (last banks) banks) (λ prg_rom_banks.
        loaded
          (record {
            revision = if submapper_num c1 == 1 then Revision.bf9097 else Revision.bf909x;
            mirroring = mirroring c1;
            prg_rom_banks = prg_rom_banks;
          })
          c1))

unfoldable pub set_revision : Revision → Bf909x → Bf909x
set_revision rev m = record m { revision = rev }

unfoldable pub map_peek : ℕ → Bf909x → Option MappedRead
map_peek addr m =
    if within addr 0x0000 0x1fff
    then some (MappedRead.chr addr)
    else if within addr 0x8000 0xffff
    then translated MappedRead.prg_rom m.prg_rom_banks addr
    else some MappedRead.bus

-- Of the two sorts of register, the one that an address reaches.
unfoldable pub write_register : ℕ → ℕ → Bf909x → Option Bf909x
write_register addr val m =
    if leb 0xc000 addr || not (is_bf9097 m.revision)
    then Option.map (λ banks. record m { prg_rom_banks = banks }) (set_bank 0 val m.prg_rom_banks)
    else some (record m {
      mirroring =
          if has_bits val 0x10 then Mirroring.single_screen_a else Mirroring.single_screen_b;
    })

unfoldable pub map_write : ℕ → ℕ → Bf909x → Option (MappedWrite × Bf909x)
unfolding write_register set_revision
map_write addr val m =
    let m1 = if addr == 0x9000 then record m { revision = Revision.bf9097 } else m in
    if within addr 0x0000 0x1fff
    then some (MappedWrite.chr_ram addr val, m1)
    else if within addr 0x8000 0xffff
    then Option.map (λ m2. (MappedWrite.bus_write, m2)) (write_register addr val m1)
    else some (MappedWrite.bus_write, m1)
