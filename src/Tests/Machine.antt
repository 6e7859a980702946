-- ===== src/Tests/Machine.antt =====
-- A machine of 64 KiB of memory, which stands in for the bus of tetanes-core/src/bus.rs, and its
-- CPU behind a JSR's operand.
use tetanes.Base.{ℕ, ◌<◌, ◌≡◌, ◌≢◌, refl, ap, arith, true, false, if◌then◌else◌, ◌==◌}
use tetanes.Common.{ntsc}
use tetanes.Cpu.Lines.{Lines, initial}
use tetanes.Cpu.Status.{power_on_status}
use tetanes.Cpu.Instr.{instructions}
use tetanes.Cpu.State.{BusOps, Cpu, region_cycles, read_cycles_of, write_cycles_of}
use tetanes.Cpu.Flow.StackRam.{StackRam}

abbrev pub Memory : Type 0
Memory = ℕ → ℕ

abbrev pub store : ℕ → ℕ → Memory → Memory
store addr val b a = if a == addr then val else b a

instance abbrev pub memory_ops : BusOps Memory
memory_ops = record {
  bus_read = λ addr b l. (b addr, b, l);
  bus_peek = λ addr b. b addr;
  bus_write = λ addr val b l. (store addr val b, l);
  bus_clock = λ b l. (b, l);
  clock_to = λ t b l. (b, l);
  bus_reset = λ kind b l. (b, l);
  bus_set_region = λ region b. b;
  bus_region = λ b. ntsc;
  dma_addr = λ b. 0;
  load_buffer = λ val b l. (b, l);
}

abbrev pub empty_memory : Memory
empty_memory a = 0

abbrev pub cpu_on : {B : Type 0} → B → Lines → Cpu B
cpu_on bus lines = record {
  cycle = 100;
  pc = 0x8003;
  bus = bus;
  read_cycles = read_cycles_of (region_cycles ntsc);
  write_cycles = write_cycles_of (region_cycles ntsc);
  master_clock = 1200;
  instr = instructions 0x20;
  fetched_data = 0;
  status = power_on_status;
  acc = 1;
  x = 2;
  y = 3;
  sp = 0xfd;
  abs_addr = 0x9000;
  rel_addr = 0;
  run_irq = false;
  prev_run_irq = false;
  nmi = false;
  prev_nmi = false;
  prev_nmi_pending = false;
  corrupted = false;
  region = ntsc;
  cycle_accurate = true;
  lines = lines;
}

abbrev pub calling_cpu : Cpu Memory
calling_cpu = cpu_on empty_memory initial

store_self : (addr val : ℕ) (b : Memory) → store addr val b addr ≡ val
store_self addr val b = ground arith

store_ne : (addr val : ℕ) (b : Memory) (a : ℕ) → a ≢ addr → store addr val b a ≡ b a
store_ne addr val b a ne = ground arith

abbrev memory_cell : Memory → ℕ → ℕ
memory_cell b a = if a == 0x2004 then 0 else b a

pub memory_cell-store :
    (addr val : ℕ) (b : Memory) → addr < 512 → memory_cell (store addr val b) addr ≡ val
memory_cell-store addr val b lt = ground (arith, store_self addr val b)

pub memory_cell-ne :
    (addr val : ℕ) (b : Memory) (a : ℕ)
    → a ≢ addr
    → memory_cell (store addr val b) a ≡ memory_cell b a
memory_cell-ne addr val b a ne = ap (λ x. if a == 0x2004 then 0 else x) (store_ne addr val b a ne)

pub memory_cell-read : (b : Memory) (a : ℕ) → a < 512 → b a ≡ memory_cell b a
memory_cell-read b a lt = ground arith

pub memory_cell-sprite :
    (val : ℕ) (b : Memory) (a : ℕ) → memory_cell (store 0x2004 val b) a ≡ memory_cell b a
memory_cell-sprite val b a = ground arith

-- All cells but $2004, which is a register.
abbrev pub memory_ram : StackRam memory_ops
memory_ram = record {
  cell = memory_cell;
  read_cell = λ addr b l lo hi. memory_cell-read b addr hi;
  read_keeps = λ addr b l a. refl;
  write_cell = λ addr val b l lo hi. memory_cell-store addr val b hi;
  write_keeps = λ addr val b l lo hi a ne. memory_cell-ne addr val b a ne;
  clock_keeps = λ b l a. refl;
  clock_to_keeps = λ t b l a. refl;
  sprite_keeps = λ val b l a. memory_cell-sprite val b a;
  load_keeps = λ val b l a. refl;
}
