-- ===== src/Cpu/Access.antt =====
-- tetanes-core/src/cpu.rs: the cycles of the CPU, its reads and writes and the DMA transfers that
-- a read waits for. `handle_dma` runs on fuel: `dma_fuel` rounds are more than the 513 of a
-- sprite transfer with the four of a sample that starts inside it.
pub mod Registers
pub mod Interrupts
pub mod Transfers
pub mod Sprites
use tetanes.Base.{
  ℕ, zero, suc, ◌+◌, ◌-◌, Bool, true, false, not, ◌&&◌, ◌||◌, if◌then◌else◌, ◌==◌, Option, none,
  some, usize, u16, u8, sub_usize, bit_and,
}
use tetanes.Cpu.Lines.{
  Lines, DmaSource, nmi_pending, any_irq, dmas_running, clear_dma, clear_dma_halt,
  clear_dma_dummy_read,
}
use tetanes.Cpu.State.{BusOps, Cpu}

-- The locals of `handle_dma`.
pub record Transfer : Type 0 where
  pub oam_offset : ℕ
  pub oam_dma_count : ℕ
  pub read_val : ℕ

abbrev pub dma_fuel : ℕ
dma_fuel = 1024

abbrev pub no_transfer : Transfer
no_transfer = record { oam_offset = 0; oam_dma_count = 0; read_val = 0 }

-- `while let Some((dmc_dma, oam_dma))`.
abbrev pub while_some {ℓ} : {A : Type ℓ} → Option (Bool × Bool) → A → (Bool → Bool → A) → A
while_some none stop go = stop
while_some (some (dmc_dma, oam_dma)) stop go = go dmc_dma oam_dma

module _ {B : Type 0} ⦃ops : BusOps B⦄ where
  unfoldable pub handle_interrupts : Cpu B → Cpu B
  handle_interrupts c =
      let pending = nmi_pending c.lines in
      record c {
        prev_nmi = c.nmi;
        nmi = c.nmi || (not c.prev_nmi_pending && pending);
        prev_nmi_pending = pending;
        prev_run_irq = c.run_irq;
        run_irq = any_irq c.lines && not c.status.interrupt;
      }

  -- `self.bus.ppu.clock_to(self.master_clock - Self::PPU_OFFSET)`.
  unfoldable pub clock_ppu : Cpu B → Cpu B
  clock_ppu c =
      let (b, l) = ops.clock_to (sub_usize c.master_clock 1) c.bus c.lines in
      record c { bus = b; lines = l }

  unfoldable pub clock_bus : Cpu B → Cpu B
  clock_bus c = let (b, l) = ops.bus_clock c.bus c.lines in record c { bus = b; lines = l }

  unfoldable pub start_cycle : ℕ → Cpu B → Cpu B
  unfolding clock_ppu clock_bus
  start_cycle increment c =
      let c1 = record c {
        master_clock = usize (c.master_clock + increment);
        cycle = usize (c.cycle + 1);
      } in
      if c.cycle_accurate then clock_bus (clock_ppu c1) else c1

  unfoldable pub end_cycle : ℕ → Cpu B → Cpu B
  unfolding clock_ppu handle_interrupts
  end_cycle increment c =
      let c1 = record c { master_clock = usize (c.master_clock + increment) } in
      handle_interrupts (if c.cycle_accurate then clock_ppu c1 else c1)

  unfoldable pub start_dma_cycle : Cpu B → Cpu B
  unfolding start_cycle clear_dma_halt clear_dma_dummy_read
  start_dma_cycle c = start_cycle c.read_cycles.start (record c {
    lines = if c.lines.dma_halt then clear_dma_halt c.lines else clear_dma_dummy_read c.lines;
  })

  -- `bus.read` and `bus.write` between the two halves of a cycle.
  unfoldable pub access_read : ℕ → Cpu B → ℕ × Cpu B
  access_read addr c =
      let (val, b, l) = ops.bus_read addr c.bus c.lines in (val, record c { bus = b; lines = l })

  unfoldable pub access_write : ℕ → ℕ → Cpu B → Cpu B
  access_write addr val c =
      let (b, l) = ops.bus_write addr val c.bus c.lines in record c { bus = b; lines = l }

  -- A round that waits: the halted read is repeated and thrown away.
  unfoldable pub dma_wait : ℕ → Bool → Cpu B → Cpu B
  unfolding start_dma_cycle access_read end_cycle
  dma_wait addr skip_dummy_reads c =
      let c1 = start_dma_cycle c in
      let c2 = if not skip_dummy_reads then (access_read addr c1).1 else c1 in
      end_cycle c2.read_cycles.end c2

  unfoldable pub dma_sample : Transfer → Cpu B → Transfer × Cpu B
  unfolding start_dma_cycle access_read end_cycle clear_dma
  dma_sample t c =
      let c1 = start_dma_cycle c in
      let (val, c2) = access_read (ops.dma_addr c1.bus) c1 in
      let c3 = end_cycle c2.read_cycles.end c2 in
      let (b, l) = ops.load_buffer val c3.bus c3.lines in
      (record t { read_val = val }, record c3 { bus = b; lines = clear_dma DmaSource.dmc l })

  unfoldable pub dma_get : Transfer → Cpu B → Transfer × Cpu B
  unfolding start_dma_cycle access_read end_cycle
  dma_get t c =
      let c1 = start_dma_cycle c in
      let (val, c2) = access_read (c1.lines.dma_oam_addr + t.oam_offset) c1 in
      (
        record t {
          read_val = val;
          oam_offset = t.oam_offset + 1;
          oam_dma_count = t.oam_dma_count + 1;
        },
        end_cycle c2.read_cycles.end c2,
      )

  unfoldable pub dma_put : Transfer → Cpu B → Transfer × Cpu B
  unfolding start_dma_cycle access_write end_cycle clear_dma
  dma_put t c =
      let c1 = access_write 8196 t.read_val (start_dma_cycle c) in
      let c2 = end_cycle c1.read_cycles.end c1 in
      let count = t.oam_dma_count + 1 in
      (
        record t { oam_dma_count = count },
        if count == 512 then record c2 { lines = clear_dma DmaSource.oam c2.lines } else c2,
      )

  -- One round of the loop, with the transfers that run.
  unfoldable pub dma_round : ℕ → Bool → Bool → Bool → Transfer → Cpu B → Transfer × Cpu B
  unfolding dma_wait dma_sample dma_get dma_put
  dma_round addr skip_dummy_reads dmc_dma oam_dma t c =
      if bit_and c.cycle 1 == 0
      then (if dmc_dma && not c.lines.dma_halt && not c.lines.dma_dummy_read
          then dma_sample t c
          else if oam_dma
          then dma_get t c
          else (t, dma_wait addr skip_dummy_reads c))
      else if oam_dma && (bit_and t.oam_dma_count 1 == 1)
      then dma_put t c
      else (t, dma_wait addr skip_dummy_reads c)

  unfoldable pub dma_loop : ℕ → ℕ → Bool → Transfer → Cpu B → Transfer × Cpu B
  unfolding dma_round dmas_running
  dma_loop zero addr skip_dummy_reads t c = (t, c)
  dma_loop (suc fuel) addr skip_dummy_reads t c =
      while_some (dmas_running c.lines) (t, c)
        (λ dmc_dma oam_dma.
          let (t1, c1) = dma_round addr skip_dummy_reads dmc_dma oam_dma t c in
          dma_loop fuel addr skip_dummy_reads t1 c1)

  -- The cycle of a read.
  unfoldable pub read_cycle : ℕ → Cpu B → ℕ × Cpu B
  unfolding start_cycle access_read end_cycle
  read_cycle addr c =
      let (val, c1) = access_read addr (start_cycle c.read_cycles.start c) in
      (val, end_cycle c1.read_cycles.end c1)

  -- The read that the DMA halts.
  unfoldable pub halted_read : ℕ → Cpu B → Cpu B
  unfolding read_cycle clear_dma_halt
  halted_read addr c =
      let c1 = (read_cycle addr c).1 in record c1 { lines = clear_dma_halt c1.lines }

  unfoldable pub handle_dma : ℕ → Cpu B → Cpu B
  unfolding dma_loop halted_read
  handle_dma addr c =
      (dma_loop dma_fuel addr (addr == 16406 || addr == 16407) no_transfer (halted_read addr c)).1

  unfoldable pub read : ℕ → Cpu B → ℕ × Cpu B
  unfolding handle_dma read_cycle
  read addr c = read_cycle addr (if c.lines.dma_halt then handle_dma addr c else c)

  unfoldable pub write : ℕ → ℕ → Cpu B → Cpu B
  unfolding start_cycle access_write end_cycle
  write addr val c =
      let c1 = access_write addr val (start_cycle c.write_cycles.start c) in
      end_cycle c1.write_cycles.end c1
