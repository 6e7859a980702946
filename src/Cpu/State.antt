-- ===== src/Cpu/State.antt =====
-- tetanes-core/src/cpu.rs: the registers and what the CPU asks of the bus of bus.rs. The thread's
-- interrupt and DMA lines are a field, which the bus takes and returns.
use tetanes.Base.{ℕ, ◌+◌, ◌-◌, Bool, true, false, ◌==◌, bit_and}
use tetanes.Common.{NesRegion, auto, ntsc, pal, dendy, ResetKind}
use tetanes.Cpu.Lines.{Lines}
use tetanes.Cpu.Status.{Status, power_on_status}
use tetanes.Cpu.Instr.{Instr, instructions}

-- `Bus`, with `clock_to` for `bus.ppu.clock_to` and the last two for `bus.apu.dmc`.
pub record BusOps (B : Type 0) : Type 0 where
  pub bus_read : ℕ → B → Lines → ℕ × B × Lines
  pub bus_peek : ℕ → B → ℕ
  pub bus_write : ℕ → ℕ → B → Lines → B × Lines
  pub bus_clock : B → Lines → B × Lines
  pub clock_to : ℕ → B → Lines → B × Lines
  pub bus_reset : ResetKind → B → Lines → B × Lines
  pub bus_set_region : NesRegion → B → B
  pub bus_region : B → NesRegion
  pub dma_addr : B → ℕ
  pub load_buffer : ℕ → B → Lines → B × Lines

pub record Cycle : Type 0 where
  pub start : ℕ
  pub end : ℕ

-- `Cpu` without `disasm`, which only the debug trace uses.
pub record Cpu (B : Type 0) : Type 0 where
  pub cycle : ℕ
  pub pc : ℕ
  pub bus : B
  pub read_cycles : Cycle
  pub write_cycles : Cycle
  pub master_clock : ℕ
  pub instr : Instr
  pub fetched_data : ℕ
  pub status : Status
  pub acc : ℕ
  pub x : ℕ
  pub y : ℕ
  pub sp : ℕ
  pub abs_addr : ℕ
  pub rel_addr : ℕ
  pub run_irq : Bool
  pub prev_run_irq : Bool
  pub nmi : Bool
  pub prev_nmi : Bool
  pub prev_nmi_pending : Bool
  pub corrupted : Bool
  pub region : NesRegion
  pub cycle_accurate : Bool
  pub lines : Lines

abbrev pub nmi_vector : ℕ
nmi_vector = 65530

abbrev pub irq_vector : ℕ
irq_vector = 65534

abbrev pub reset_vector : ℕ
reset_vector = 65532

abbrev pub power_on_sp : ℕ
power_on_sp = 253

abbrev pub sp_base : ℕ
sp_base = 256

-- `(start_cycles, end_cycles)` of `set_region`, half the clock divider of the region each.
abbrev pub region_cycles : NesRegion → ℕ × ℕ
region_cycles auto = (6, 6)
region_cycles ntsc = (6, 6)
region_cycles pal = (8, 8)
region_cycles dendy = (7, 8)

abbrev pub read_cycles_of : ℕ × ℕ → Cycle
read_cycles_of (s, e) = record { start = s - 1; end = e + 1 }

abbrev pub write_cycles_of : ℕ × ℕ → Cycle
write_cycles_of (s, e) = record { start = e + 1; end = e - 1 }

unfoldable pub set_zn : ℕ → Status → Status
set_zn val s = record s { zero_flag = val == 0; negative = bit_and val 128 == 128 }

module _ {B : Type 0} ⦃ops : BusOps B⦄ where
  unfoldable pub set_region : NesRegion → Cpu B → Cpu B
  set_region region c = record c {
    region = region;
    read_cycles = read_cycles_of (region_cycles region);
    write_cycles = write_cycles_of (region_cycles region);
    bus = ops.bus_set_region region c.bus;
  }

  unfoldable pub new : Lines → B → Cpu B
  unfolding set_region
  new lines bus = set_region (ops.bus_region bus) (record {
    cycle = 0;
    pc = 0;
    bus = bus;
    read_cycles = record { start = 0; end = 0 };
    write_cycles = record { start = 0; end = 0 };
    master_clock = 0;
    instr = instructions 0;
    fetched_data = 0;
    status = power_on_status;
    acc = 0;
    x = 0;
    y = 0;
    sp = 0;
    abs_addr = 0;
    rel_addr = 0;
    run_irq = false;
    prev_run_irq = false;
    nmi = false;
    prev_nmi = false;
    prev_nmi_pending = false;
    corrupted = false;
    region = ops.bus_region bus;
    cycle_accurate = true;
    lines = lines;
  })

  unfoldable pub peek : ℕ → Cpu B → ℕ
  peek addr c = ops.bus_peek addr c.bus

  -- `next_instr`.
  unfoldable pub next_instr : Cpu B → Instr
  unfolding peek
  next_instr c = instructions (peek c.pc c)

  unfoldable pub set_zn_status : ℕ → Cpu B → Cpu B
  unfolding set_zn
  set_zn_status val c = record c { status = set_zn val c.status }
