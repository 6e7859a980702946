-- ===== src/Mapper/Boards/Nrom.antt =====
-- `Nrom` of tetanes-core/src/mapper/m000_nrom.rs.
use tetanes.Base.{ℕ, Bool, not, ◌&&◌, if◌then◌else◌, leb, ◌==◌, length, bit_and}
use tetanes.Mapper.{MappedRead, MappedWrite, Loaded, loaded, within}
use tetanes.Mapper.Mirroring.{Mirroring}
use tetanes.Cart.{Cart, has_chr_rom, mirroring, add_chr_ram, add_prg_ram}

pub record Nrom : Type 0 where
  pub mirroring : Mirroring
  pub mirror_prg_rom : Bool

unfoldable pub load : (ℕ → ℕ) → Cart → Loaded Nrom
load rng cart =
    let c = add_prg_ram rng 8192 cart in
    let c1 = if not (has_chr_rom c) && (length c.chr_ram == 0) then add_chr_ram rng 8192 c else c in
    loaded (record { mirroring = mirroring c1; mirror_prg_rom = leb (length c1.prg_rom) 0x4000 }) c1

unfoldable pub map_peek : ℕ → Nrom → MappedRead
map_peek addr m =
    if within addr 0x0000 0x1fff
    then MappedRead.chr addr
    else if within addr 0x6000 0x7fff
    then MappedRead.prg_ram (bit_and addr 0x1fff)
    else if within addr 0x8000 0xbfff
    then MappedRead.prg_rom (bit_and addr 0x3fff)
    else if within addr 0xc000 0xffff
    then MappedRead.prg_rom (bit_and addr (if m.mirror_prg_rom then 0x3fff else 0x7fff))
    else MappedRead.bus

unfoldable pub map_write : ℕ → ℕ → Nrom → MappedWrite × Nrom
map_write addr val m = (
  if within addr 0x0000 0x1fff
      then MappedWrite.chr_ram addr val
      else if within addr 0x6000 0x7fff
      then MappedWrite.prg_ram (bit_and addr 0x1fff) val
      else MappedWrite.bus_write,
  m,
)
