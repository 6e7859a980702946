-- ===== src/Cpu/Flow/StackRam.antt =====
-- What the stack asks of the bus: its page $0100-$01FF is memory that only writes to it change. The
-- DMA transfers that a read waits for leave it, since they write to $2004 and to the APU's buffer.
use tetanes.Base.{
  if-each, ℕ, zero, suc, ◌+◌, ◌<◌, ◌≤◌, ◌≡◌, ◌≢◌, refl, ◌∙◌, Bool, true, false, not, ◌&&◌, ◌||◌,
  ◌==◌, if◌then◌else◌, bit_and, usize,
}
use tetanes.Cpu.Lines.{Lines, clear_dma_halt, clear_dma_dummy_read, dmas_running}
use tetanes.Cpu.State.{BusOps, Cpu}
use tetanes.Cpu.Access.{
  Transfer, dma_fuel, no_transfer, start_cycle, start_dma_cycle, end_cycle, access_read,
  access_write, read_cycle, halted_read, dma_wait, dma_sample, dma_get, dma_put, dma_round,
  dma_loop, handle_dma, read, write, clock_ppu, clock_bus, handle_interrupts,
}
use tetanes.Cpu.Access.Registers.{while_some-each}

pub record StackRam {B : Type 0} (ops : BusOps B) : Type 0 where
  pub cell : B → ℕ → ℕ
  pub read_cell :
      (addr : ℕ) (b : B) (l : Lines)
      → 256 ≤ addr
      → addr < 512
      → (ops.bus_read addr b l).0 ≡ cell b addr
  pub read_keeps :
      (addr : ℕ) (b : B) (l : Lines) (a : ℕ) → cell (ops.bus_read addr b l).1 a ≡ cell b a
  pub write_cell :
      (addr val : ℕ) (b : B) (l : Lines)
      → 256 ≤ addr
      → addr < 512
      → cell (ops.bus_write addr val b l).0 addr ≡ val
  pub write_keeps :
      (addr val : ℕ) (b : B) (l : Lines)
      → 256 ≤ addr
      → addr < 512
      → (a : ℕ) → a ≢ addr
      → cell (ops.bus_write addr val b l).0 a ≡ cell b a
  pub clock_keeps : (b : B) (l : Lines) (a : ℕ) → cell (ops.bus_clock b l).0 a ≡ cell b a
  pub clock_to_keeps :
      (t : ℕ) (b : B) (l : Lines) (a : ℕ) → cell (ops.clock_to t b l).0 a ≡ cell b a
  pub sprite_keeps :
      (val : ℕ) (b : B) (l : Lines) (a : ℕ) → cell (ops.bus_write 0x2004 val b l).0 a ≡ cell b a
  pub load_keeps :
      (val : ℕ) (b : B) (l : Lines) (a : ℕ) → cell (ops.load_buffer val b l).0 a ≡ cell b a

module _ {B : Type 0} ⦃ops : BusOps B⦄ (ram : StackRam ops) where
  -- The stack page is as in the other state.
  pub record Keeps (c d : Cpu B) : Type 0 where
    pub cells : (a : ℕ) → ram.cell d.bus a ≡ ram.cell c.bus a

  pub Keeps-refl : (c : Cpu B) → Keeps c c
  Keeps-refl c = record { cells = λ a. refl }

  pub Keeps-trans : {c d e : Cpu B} → Keeps c d → Keeps d e → Keeps c e
  Keeps-trans h k = record { cells = λ a. k.cells a ∙ h.cells a }

  clock_ppu-Keeps : (c : Cpu B) → Keeps c (clock_ppu c)
  unfolding clock_ppu
  clock_ppu-Keeps c = record { cells = ram.clock_to_keeps _ c.bus c.lines }

  clock_bus-Keeps : (c : Cpu B) → Keeps c (clock_bus c)
  unfolding clock_bus
  clock_bus-Keeps c = record { cells = ram.clock_keeps c.bus c.lines }

  handle_interrupts-Keeps : (c : Cpu B) → Keeps c (handle_interrupts c)
  unfolding handle_interrupts
  handle_interrupts-Keeps c = record { cells = λ a. refl }

  start_cycle-Keeps : (n : ℕ) (c : Cpu B) → Keeps c (start_cycle n c)
  unfolding start_cycle
  start_cycle-Keeps n c =
      let c1 = record c {
        master_clock = usize (c.master_clock + n);
        cycle = usize (c.cycle + 1);
      } in
      let same : Keeps c c1 = record { cells = λ a. refl } in
      if-each (Keeps c) c.cycle_accurate
        (Keeps-trans same (Keeps-trans (clock_ppu-Keeps c1) (clock_bus-Keeps (clock_ppu c1)))) same

  end_cycle-Keeps : (n : ℕ) (c : Cpu B) → Keeps c (end_cycle n c)
  unfolding end_cycle
  end_cycle-Keeps n c =
      let c1 = record c { master_clock = usize (c.master_clock + n) } in
      let same : Keeps c c1 = record { cells = λ a. refl } in
      let c2 = if c.cycle_accurate then clock_ppu c1 else c1 in
      Keeps-trans (if-each (Keeps c) c.cycle_accurate (Keeps-trans same (clock_ppu-Keeps c1)) same)
        (handle_interrupts-Keeps c2)

  access_read-Keeps : (addr : ℕ) (c : Cpu B) → Keeps c (access_read addr c).1
  unfolding access_read
  access_read-Keeps addr c = record { cells = ram.read_keeps addr c.bus c.lines }

  read_cycle-Keeps : (addr : ℕ) (c : Cpu B) → Keeps c (read_cycle addr c).1
  unfolding read_cycle
  read_cycle-Keeps addr c =
      let c1 = start_cycle c.read_cycles.start c in
      let c2 = (access_read addr c1).1 in
      Keeps-trans (start_cycle-Keeps c.read_cycles.start c)
        (Keeps-trans (access_read-Keeps addr c1) (end_cycle-Keeps c2.read_cycles.end c2))

  read_cycle-cell :
      (addr : ℕ) (c : Cpu B) → 256 ≤ addr → addr < 512 → (read_cycle addr c).0 ≡ ram.cell c.bus addr
  unfolding read_cycle access_read
  read_cycle-cell addr c lo hi =
      let c1 = start_cycle c.read_cycles.start c in
      ram.read_cell addr c1.bus c1.lines lo hi
      ∙ (start_cycle-Keeps c.read_cycles.start c).cells addr

  start_dma_cycle-Keeps : (c : Cpu B) → Keeps c (start_dma_cycle c)
  unfolding start_dma_cycle
  start_dma_cycle-Keeps c =
      let k = start_cycle-Keeps c.read_cycles.start (record c {
        lines = if c.lines.dma_halt then clear_dma_halt c.lines else clear_dma_dummy_read c.lines;
      }) in
      record { cells = k.cells }

  -- The end of a cycle, a read or a write of a transfer behind its start.
  ended :
      {c : Cpu B} (d : Cpu B)
      → Keeps (start_dma_cycle c) d
      → Keeps c (end_cycle d.read_cycles.end d)
  ended {c} d k =
      Keeps-trans (start_dma_cycle-Keeps c) (Keeps-trans k (end_cycle-Keeps d.read_cycles.end d))

  dma_wait-Keeps : (addr : ℕ) (skip : Bool) (c : Cpu B) → Keeps c (dma_wait addr skip c)
  unfolding dma_wait
  dma_wait-Keeps addr true c = ended (start_dma_cycle c) (Keeps-refl (start_dma_cycle c))
  dma_wait-Keeps addr false c =
      let c1 = start_dma_cycle c in ended (access_read addr c1).1 (access_read-Keeps addr c1)

  dma_sample-Keeps : (t : Transfer) (c : Cpu B) → Keeps c (dma_sample t c).1
  unfolding dma_sample
  dma_sample-Keeps t c =
      let c1 = start_dma_cycle c in
      let r = access_read (ops.dma_addr c1.bus) c1 in
      let c3 = end_cycle r.1.read_cycles.end r.1 in
      let k = ended {c = c} r.1 (access_read-Keeps (ops.dma_addr c1.bus) c1) in
      record { cells = λ a. ram.load_keeps r.0 c3.bus c3.lines a ∙ k.cells a }

  dma_get-Keeps : (t : Transfer) (c : Cpu B) → Keeps c (dma_get t c).1
  unfolding dma_get
  dma_get-Keeps t c =
      let c1 = start_dma_cycle c in
      let addr = c1.lines.dma_oam_addr + t.oam_offset in
      ended (access_read addr c1).1 (access_read-Keeps addr c1)

  dma_put-Keeps : (t : Transfer) (c : Cpu B) → Keeps c (dma_put t c).1
  unfolding dma_put access_write
  dma_put-Keeps t c =
      let c1 = start_dma_cycle c in
      let put : Keeps c1 (access_write 0x2004 t.read_val c1) = record {
        cells = ram.sprite_keeps t.read_val c1.bus c1.lines;
      } in
      let k = ended {c = c} (access_write 0x2004 t.read_val c1) put in
      if-each (Keeps c) (t.oam_dma_count + 1 == 512) (record { cells = k.cells }) k

  dma_round-Keeps :
      (addr : ℕ) (skip dmc oam : Bool) (t : Transfer) (c : Cpu B)
      → Keeps c (dma_round addr skip dmc oam t c).1
  unfolding dma_round
  dma_round-Keeps addr skip dmc oam t c =
      let Same : Transfer × Cpu B → Type 0 = λ r. Keeps c r.1 in
      if-each Same (bit_and c.cycle 1 == 0)
        (if-each Same (dmc && not c.lines.dma_halt && not c.lines.dma_dummy_read)
          (dma_sample-Keeps t c)
          (if-each Same oam (dma_get-Keeps t c) (dma_wait-Keeps addr skip c)))
        (if-each Same (oam && (bit_and t.oam_dma_count 1 == 1)) (dma_put-Keeps t c)
          (dma_wait-Keeps addr skip c))

  dma_loop-Keeps :
      (fuel addr : ℕ) (skip : Bool) (t : Transfer) (c : Cpu B)
      → Keeps c (dma_loop fuel addr skip t c).1
  unfolding dma_loop
  dma_loop-Keeps zero addr skip t c = Keeps-refl c
  dma_loop-Keeps (suc fuel) addr skip t c =
      while_some-each (λ (r : Transfer × Cpu B). Keeps c r.1) (dmas_running c.lines) (Keeps-refl c)
        (λ dmc oam.
          let r = dma_round addr skip dmc oam t c in
          Keeps-trans (dma_round-Keeps addr skip dmc oam t c)
            (dma_loop-Keeps fuel addr skip r.0 r.1))

  handle_dma-Keeps : (addr : ℕ) (c : Cpu B) → Keeps c (handle_dma addr c)
  unfolding handle_dma halted_read
  handle_dma-Keeps addr c =
      let k = read_cycle-Keeps addr c in
      let halted : Keeps c (halted_read addr c) = record { cells = k.cells } in
      Keeps-trans halted (
        dma_loop-Keeps dma_fuel addr (addr == 16406 || addr == 16407) no_transfer
          (halted_read addr c))

  waited-Keeps :
      (addr : ℕ) (c : Cpu B) → Keeps c (if c.lines.dma_halt then handle_dma addr c else c)
  waited-Keeps addr c = if-each (Keeps c) c.lines.dma_halt (handle_dma-Keeps addr c) (Keeps-refl c)

  pub read-Keeps : (addr : ℕ) (c : Cpu B) → Keeps c (read addr c).1
  unfolding read
  read-Keeps addr c =
      let c1 = if c.lines.dma_halt then handle_dma addr c else c in
      Keeps-trans (waited-Keeps addr c) (read_cycle-Keeps addr c1)

  pub read-cell :
      (addr : ℕ) (c : Cpu B) → 256 ≤ addr → addr < 512 → (read addr c).0 ≡ ram.cell c.bus addr
  unfolding read
  read-cell addr c lo hi =
      let c1 = if c.lines.dma_halt then handle_dma addr c else c in
      read_cycle-cell addr c1 lo hi ∙ (waited-Keeps addr c).cells addr

  pub write-cell :
      (addr val : ℕ) (c : Cpu B)
      → 256 ≤ addr
      → addr < 512
      → ram.cell (write addr val c).bus addr ≡ val
  unfolding write access_write
  write-cell addr val c lo hi =
      let c1 = start_cycle c.write_cycles.start c in
      let c2 = access_write addr val c1 in
      (end_cycle-Keeps c2.write_cycles.end c2).cells addr
      ∙ ram.write_cell addr val c1.bus c1.lines lo hi

  pub write-cells :
      (addr val : ℕ) (c : Cpu B)
      → 256 ≤ addr
      → addr < 512
      → (a : ℕ) → a ≢ addr
      → ram.cell (write addr val c).bus a ≡ ram.cell c.bus a
  unfolding write access_write
  write-cells addr val c lo hi a ne =
      let c1 = start_cycle c.write_cycles.start c in
      let c2 = access_write addr val c1 in
      (end_cycle-Keeps c2.write_cycles.end c2).cells a
      ∙ ram.write_keeps addr val c1.bus c1.lines lo hi a ne
      ∙ (start_cycle-Keeps c.write_cycles.start c).cells a
