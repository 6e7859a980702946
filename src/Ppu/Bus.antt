-- ===== src/Ppu/Bus.antt =====
-- tetanes-core/src/ppu/bus.rs: the memory that the PPU sees. The board is a parameter; `none`
-- stands for the panics on a PRG address.
pub mod Mirrors
pub mod Vram
use tetanes.Base.{
  ℕ, [], ◌+◌, ◌-◌, ◌%◌, Bool, true, false, not, ◌&&◌, if◌then◌else◌, leb, ◌==◌, List, length,
  get_or, set, replicate, Option, none, some, bit_and, bit_or, not_u16, ◌>>>◌,
}
use mathlib.Core.Option
use tetanes.Common.{NesRegion, ResetKind}
use tetanes.Cpu.Lines.{Lines}
use tetanes.Mapper.{MappedRead, MappedWrite, within}
use tetanes.Mapper.Mirroring.{Mirroring, discriminant}

-- What the PPU uses of a board: `MemMap`, `Mapped`, `Regional` and `Reset`.
pub record Board (M : Type 0) : Type 0 where
  pub map_read : ℕ → M → MappedRead × M
  pub map_peek : ℕ → M → MappedRead
  pub map_write : ℕ → ℕ → M → Lines → MappedWrite × M × Lines
  pub mirroring : M → Mirroring
  pub ppu_bus_read : ℕ → M → Lines → M × Lines
  pub ppu_bus_write : ℕ → ℕ → M → Lines → M × Lines
  pub set_region : NesRegion → M → M
  pub reset : ResetKind → M → M

pub record Bus (M : Type 0) : Type 0 where
  pub mapper : M
  pub chr_ram : List ℕ
  pub chr_rom : List ℕ
  pub ciram : List ℕ
  pub palette : List ℕ
  pub exram : List ℕ
  pub open_bus : ℕ

-- `PpuAddr`.
unfoldable pub is_attr : ℕ → Bool
is_attr addr = leb 0x3c0 (bit_and addr (0x400 - 1))

unfoldable pub is_palette : ℕ → Bool
is_palette addr = leb 0x3f00 addr

unfoldable pub new : {M : Type 0} → M → Bus M
new none_mapper = record {
  mapper = none_mapper;
  chr_ram = [];
  chr_rom = [];
  ciram = replicate 0x800 0;
  palette = replicate 32 0;
  exram = [];
  open_bus = 0;
}

unfoldable pub load_chr_rom : {M : Type 0} → List ℕ → Bus M → Bus M
load_chr_rom chr_rom b = record b { chr_rom = chr_rom }

unfoldable pub load_chr_ram : {M : Type 0} → List ℕ → Bus M → Bus M
load_chr_ram chr_ram b = record b { chr_ram = chr_ram }

unfoldable pub load_ex_ram : {M : Type 0} → List ℕ → Bus M → Bus M
load_ex_ram ex_ram b = record b { exram = ex_ram }

unfoldable pub ciram_mirror : ℕ → Mirroring → ℕ
ciram_mirror addr mirroring =
    let nametable = bit_and (addr >>> discriminant mirroring) 0x400 in
    bit_or nametable (bit_and (bit_and (not_u16 nametable) addr) 0x3ff)

-- An address from 16 on whose two lowest bits are 0.
unfoldable pub palette_mirror : ℕ → ℕ
palette_mirror addr = let a = bit_and addr 0x1f in if leb 16 a && (a % 4 == 0) then a - 16 else a

module _ {M : Type 0} (board : Board M) where
  abbrev chr_byte : Bus M → ℕ → ℕ
  chr_byte b addr =
      if length b.chr_ram == 0 then get_or b.chr_rom addr 0 else get_or b.chr_ram addr 0

  -- The byte behind a nametable address.
  unfoldable pub mapped_ciram : MappedRead → ℕ → Bus M → Option ℕ
  unfolding ciram_mirror
  mapped_ciram MappedRead.bus addr b =
      some (get_or b.ciram (ciram_mirror addr (board.mirroring b.mapper)) 0)
  mapped_ciram (MappedRead.ciram mapped) addr b = some (get_or b.ciram (bit_and mapped 0x7ff) 0)
  mapped_ciram (MappedRead.exram mapped) addr b = some (get_or b.exram mapped 0)
  mapped_ciram (MappedRead.data_byte val) addr b = some val
  mapped_ciram (MappedRead.chr mapped) addr b = some (chr_byte b mapped)
  mapped_ciram (MappedRead.prg_rom mapped) addr b = none
  mapped_ciram (MappedRead.prg_ram mapped) addr b = none

  abbrev with_open_bus : Bus M → Option ℕ → Option (ℕ × Bus M)
  with_open_bus b = Option.map (λ val. (val, record b { open_bus = val }))

  unfoldable pub read_ciram : ℕ → Bus M → Option (ℕ × Bus M)
  unfolding mapped_ciram
  read_ciram addr b =
      let (mapped, m) = board.map_read addr b.mapper in
      let b1 = record b { mapper = m } in with_open_bus b1 (mapped_ciram mapped addr b1)

  unfoldable pub peek_ciram : ℕ → Bus M → Option ℕ
  unfolding mapped_ciram
  peek_ciram addr b = mapped_ciram (board.map_peek addr b.mapper) addr b

  chr_addr : MappedRead → ℕ → ℕ
  chr_addr (MappedRead.chr mapped) addr = mapped
  chr_addr _ addr = addr

  unfoldable pub read_chr : ℕ → Bus M → ℕ × Bus M
  unfolding chr_addr
  read_chr addr b =
      let (mapped, m) = board.map_read addr b.mapper in
      let val = chr_byte b (chr_addr mapped addr) in (val, record b { mapper = m; open_bus = val })

  unfoldable pub peek_chr : ℕ → Bus M → ℕ
  unfolding chr_addr
  peek_chr addr b = chr_byte b (chr_addr (board.map_peek addr b.mapper) addr)

  unfoldable pub read_palette : ℕ → Bus M → ℕ × Bus M
  unfolding palette_mirror
  read_palette addr b =
      let val = get_or b.palette (palette_mirror addr) 0 in (val, record b { open_bus = val })

  unfoldable pub peek_palette : ℕ → Bus M → ℕ
  unfolding palette_mirror
  peek_palette addr b = get_or b.palette (palette_mirror addr) 0

  unfoldable pub read : ℕ → Bus M → Option (ℕ × Bus M)
  unfolding read_ciram read_chr read_palette
  read addr b =
      if within addr 0x2000 0x3eff
      then read_ciram addr b
      else if within addr 0x0000 0x1fff
      then some (read_chr addr b)
      else if within addr 0x3f00 0x3fff
      then some (read_palette addr b)
      else some (0, b)

  unfoldable pub peek : ℕ → Bus M → Option ℕ
  unfolding peek_ciram peek_chr peek_palette
  peek addr b =
      if within addr 0x2000 0x3eff
      then peek_ciram addr b
      else if within addr 0x0000 0x1fff
      then some (peek_chr addr b)
      else if within addr 0x3f00 0x3fff
      then some (peek_palette addr b)
      else some 0

  -- What a write that the board has mapped does to the memories.
  unfoldable pub write_mapped : MappedWrite → ℕ → ℕ → Bus M → Option (Bus M)
  unfolding ciram_mirror
  write_mapped MappedWrite.bus_write addr val b =
      some (record b { ciram = set b.ciram (ciram_mirror addr (board.mirroring b.mapper)) val })
  write_mapped (MappedWrite.ciram mapped v) addr val b =
      some (record b { ciram = set b.ciram (bit_and mapped 0x7ff) v })
  write_mapped (MappedWrite.exram mapped v) addr val b =
      some (record b { exram = set b.exram mapped v })
  write_mapped (MappedWrite.chr_ram mapped v) addr val b = some (record b {
    chr_ram = if not (length b.chr_ram == 0) then set b.chr_ram mapped v else b.chr_ram;
  })
  write_mapped (MappedWrite.prg_ram mapped v) addr val b = none
  write_mapped (MappedWrite.prg_ram_protect v) addr val b = none
  write_mapped MappedWrite.none_write addr val b = some b

  -- What follows a write of any kind.
  unfoldable pub end_write : ℕ → ℕ → Bus M → Lines → Bus M × Lines
  end_write addr val b l =
      let (m, l1) = board.ppu_bus_write addr val b.mapper l in
      (record b { mapper = m; open_bus = val }, l1)

  unfoldable pub write : ℕ → ℕ → Bus M → Lines → Option (Bus M × Lines)
  unfolding write_mapped end_write palette_mirror
  write addr val b l =
      if within addr 0x0000 0x3eff
      then (let (mapped, m, l1) = board.map_write addr val b.mapper l in
          Option.map (λ b1. end_write addr val b1 l1)
            (write_mapped mapped addr val (record b { mapper = m })))
      else if within addr 0x3f00 0x3fff
      then some
          (end_write addr val (record b { palette = set b.palette (palette_mirror addr) val }) l)
      else some (end_write addr val b l)

  unfoldable pub set_region : NesRegion → Bus M → Bus M
  set_region region b = record b { mapper = board.set_region region b.mapper }

  unfoldable pub reset : ResetKind → Bus M → Bus M
  reset kind b = record b { open_bus = 0; mapper = board.reset kind b.mapper }
