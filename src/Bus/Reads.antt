-- ===== src/Bus/Reads.antt =====
-- The reads of tetanes-core/src/bus.rs. The source recurs once for a mirrored address, on an address
-- that is none: `read_direct` and `peek_direct` are its arms without the mirrors, `end_read` is what
-- follows them.
use tetanes.Base.{ℕ, Bool, ◌||◌, if◌then◌else◌, ◌==◌, get_or, bit_and}
use tetanes.Cpu.Lines.{Lines}
use tetanes.Mapper.{MappedRead, within}
use tetanes.Bus.{
  Bus, Parts, Player, PpuRead, genie_read, one, two, read_status, read_oamdata, read_data,
}

module _ {P A I : Type 0} (parts : Parts P A I) where
  -- The byte that the board's answer stands for.
  unfoldable pub mapped_byte : MappedRead → Bus P A I → ℕ
  mapped_byte (MappedRead.data_byte val) b = val
  mapped_byte (MappedRead.prg_ram mapped) b = get_or b.prg_ram mapped 0
  mapped_byte (MappedRead.prg_rom mapped) b = get_or b.prg_rom mapped 0
  mapped_byte _ b = b.open_bus

  abbrev Access : Type 0
  Access = ℕ × Bus P A I × Lines

  abbrev from_ppu : PpuRead → Bus P A I → Lines → Access
  from_ppu r b l = let (val, p, l1) = parts.ppu_read r b.ppu l in (val, record b { ppu = p }, l1)

  abbrev from_input : Player → Bus P A I → Lines → Access
  from_input player b l =
      let (val, i) = parts.input_read player b.ppu b.input in (val, record b { input = i }, l)

  unfoldable pub read_cart : ℕ → Bus P A I → Lines → Access
  unfolding mapped_byte genie_read
  read_cart addr b l =
      let (mapped, p) = parts.map_read addr b.ppu in
      let b1 = record b { ppu = p } in (genie_read addr (mapped_byte mapped b1) b1, b1, l)

  unfoldable pub read_apu_status : Bus P A I → Lines → Access
  read_apu_status b l =
      let (val, a, l1) = parts.apu_read_status b.apu l in (val, record b { apu = a }, l1)

  -- The registers of which the bus reads nothing back but what was last on the PPU's own bus.
  abbrev is_write_only : ℕ → Bool
  is_write_only addr =
      (addr == 0x2000)
      || (addr == 0x2001)
      || (addr == 0x2003)
      || (addr == 0x2005)
      || (addr == 0x2006)

  unfoldable pub read_direct : ℕ → Bus P A I → Lines → Access
  unfolding read_cart read_apu_status
  read_direct addr b l =
      if within addr 0x0000 0x07ff
      then (get_or b.wram.bytes addr 0, b, l)
      else if within addr 0x4020 0xffff
      then read_cart addr b l
      else if addr == 0x2002
      then from_ppu read_status b l
      else if addr == 0x2004
      then from_ppu read_oamdata b l
      else if addr == 0x2007
      then from_ppu read_data b l
      else if addr == 0x4015
      then read_apu_status b l
      else if addr == 0x4016
      then from_input one b l
      else if addr == 0x4017
      then from_input two b l
      else if is_write_only addr
      then (parts.ppu_open_bus b.ppu, b, l)
      else (b.open_bus, b, l)

  unfoldable pub end_read : ℕ → Access → Access
  end_read addr (val, b, l) =
      let (p, l1) = parts.cpu_bus_read addr b.ppu l in
      (val, record b { open_bus = val; ppu = p }, l1)

  unfoldable pub read : ℕ → Bus P A I → Lines → Access
  unfolding read_direct end_read
  read addr b l =
      if within addr 0x0800 0x1fff
      then end_read addr (end_read (bit_and addr 0x07ff) (read_direct (bit_and addr 0x07ff) b l))
      else if within addr 0x2008 0x3fff
      then end_read addr (end_read (bit_and addr 0x2007) (read_direct (bit_and addr 0x2007) b l))
      else end_read addr (read_direct addr b l)

  unfoldable pub peek_direct : ℕ → Bus P A I → ℕ
  unfolding mapped_byte genie_read
  peek_direct addr b =
      if within addr 0x0000 0x07ff
      then get_or b.wram.bytes addr 0
      else if within addr 0x4020 0xffff
      then genie_read addr (mapped_byte (parts.map_peek addr b.ppu) b) b
      else if addr == 0x2002
      then parts.ppu_peek read_status b.ppu
      else if addr == 0x2004
      then parts.ppu_peek read_oamdata b.ppu
      else if addr == 0x2007
      then parts.ppu_peek read_data b.ppu
      else if addr == 0x4015
      then parts.apu_peek_status b.apu
      else if addr == 0x4016
      then parts.input_peek one b.ppu b.input
      else if addr == 0x4017
      then parts.input_peek two b.ppu b.input
      else if is_write_only addr
      then parts.ppu_open_bus b.ppu
      else b.open_bus

  unfoldable pub peek : ℕ → Bus P A I → ℕ
  unfolding peek_direct
  peek addr b =
      if within addr 0x0800 0x1fff
      then peek_direct (bit_and addr 0x07ff) b
      else if within addr 0x2008 0x3fff
      then peek_direct (bit_and addr 0x2007) b
      else peek_direct addr b
