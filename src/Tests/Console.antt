-- ===== src/Tests/Console.antt =====
-- A console whose PPU, APU and controllers do nothing.
use tetanes.Base.{ℕ, ◌≢◌, refl, false, [], replicate, length-replicate}
use tetanes.Common.{ntsc}
use tetanes.Mem.Memory.{all_zeros}
use tetanes.Mapper.{MappedRead, MappedWrite}
use tetanes.Mapper.Mirroring.{vertical, four_screen}
use tetanes.Cpu.Lines.{initial}
use tetanes.Cpu.State.{Cpu}
use tetanes.Ppu.Bus.{Board}
use tetanes.Ppu.Bus.Vram.{PlainBoard}
use tetanes.Bus.{Parts, Bus, wram_size}
use tetanes.Tests.Machine.{cpu_on}

abbrev pub dead_parts : Parts Unit Unit Unit
dead_parts = record {
  ppu_read = λ r p l. (0, p, l);
  ppu_peek = λ r p. 0;
  ppu_write = λ w val p l. (p, l);
  ppu_open_bus = λ p. 0;
  set_ppu_open_bus = λ val p. p;
  ppu_clock_to = λ t p l. (p, l);
  ppu_set_region = λ region p. p;
  ppu_reset = λ kind p l. (p, l);
  map_read = λ addr p. (MappedRead.bus, p);
  map_peek = λ addr p. MappedRead.bus;
  map_write = λ addr val p l. (MappedWrite.bus_write, p, l);
  cpu_bus_read = λ addr p l. (p, l);
  cpu_bus_write = λ addr val p l. (p, l);
  clock_mapper = λ p l. (p, l);
  apu_read_status = λ a l. (0, a, l);
  apu_peek_status = λ a. 0;
  apu_write = λ w val a l. (a, l);
  clock_lazy = λ a l. (a, l);
  add_mapper_output = λ p a. a;
  apu_set_region = λ region a. a;
  apu_reset = λ kind a l. (a, l);
  dma_addr = λ a. 0xc000;
  load_buffer = λ val a l. (a, l);
  input_read = λ player p i. (0, i);
  input_peek = λ player p i. 0;
  input_write = λ val i. i;
  input_clock = λ i. i;
  input_set_region = λ region i. i;
}

abbrev pub console : Bus Unit Unit Unit
console = record {
  apu = tt;
  genie_codes = [];
  input = tt;
  open_bus = 0;
  ppu = tt;
  prg_ram_protect = false;
  prg_ram = [];
  prg_rom = [];
  ram_state = all_zeros;
  region = ntsc;
  wram = record { bytes = replicate wram_size 0; size_eq = length-replicate {A = ℕ} wram_size 0 };
}

abbrev pub console_cpu : Cpu (Bus Unit Unit Unit)
console_cpu = cpu_on console initial

abbrev pub vertical_board : Board Unit
vertical_board = record {
  map_read = λ addr m. (MappedRead.bus, m);
  map_peek = λ addr m. MappedRead.bus;
  map_write = λ addr val m l. (MappedWrite.bus_write, m, l);
  mirroring = λ m. vertical;
  ppu_bus_read = λ addr m l. (m, l);
  ppu_bus_write = λ addr val m l. (m, l);
  set_region = λ region m. m;
  reset = λ kind m. m;
}

pub vertical_board-PlainBoard : PlainBoard vertical_board tt
vertical_board-PlainBoard = record {
  peeks = λ addr lo hi. refl;
  writes = λ addr val l lo hi. refl;
  watches = λ addr val l. refl;
}

pub vertical-ne : vertical ≢ four_screen
vertical-ne e = cc
