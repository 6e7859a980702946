-- ===== src/Cpu/Access/Registers.antt =====
-- What an access to the bus leaves of the CPU, whatever the bus does and with the DMA transfers
-- that a read waits for, and the time that it takes.
use tetanes.Base.{
  if-each, ℕ, zero, suc, ◌+◌, ◌-◌, ◌≡◌, refl, ◌∙◌, arith, Bool, true, false, Bool-cases, inl, inr,
  Option, none, ◌==◌, ◌&&◌, ◌||◌, not, bit_and, some, usize,
}
use tetanes.Common.{NesRegion, auto, ntsc, pal, dendy}
use tetanes.Cpu.Lines.{dmas_running}
use tetanes.Cpu.Status.{Status}
use tetanes.Cpu.Instr.{Instr}
use tetanes.Cpu.State.{BusOps, Cycle, Cpu, region_cycles, read_cycles_of, write_cycles_of}
use tetanes.Cpu.Access.{
  Transfer, dma_fuel, start_cycle, end_cycle, access_read, access_write, dma_wait, dma_sample,
  dma_get, dma_put, dma_round, dma_loop, handle_dma, halted_read, read_cycle, no_transfer,
  while_some, clock_bus, read, write, clock_ppu, handle_interrupts, start_dma_cycle,
}

-- The fields that belong to the program that runs.
pub record Registers : Type 0 where
  pub pc : ℕ
  pub acc : ℕ
  pub x : ℕ
  pub y : ℕ
  pub sp : ℕ
  pub status : Status
  pub instr : Instr
  pub abs_addr : ℕ
  pub rel_addr : ℕ
  pub fetched_data : ℕ
  pub corrupted : Bool
  pub region : NesRegion
  pub read_cycles : Cycle
  pub write_cycles : Cycle
  pub cycle_accurate : Bool

abbrev pub registers : {B : Type 0} → Cpu B → Registers
registers c = record {
  pc = c.pc;
  acc = c.acc;
  x = c.x;
  y = c.y;
  sp = c.sp;
  status = c.status;
  instr = c.instr;
  abs_addr = c.abs_addr;
  rel_addr = c.rel_addr;
  fetched_data = c.fetched_data;
  corrupted = c.corrupted;
  region = c.region;
  read_cycles = c.read_cycles;
  write_cycles = c.write_cycles;
  cycle_accurate = c.cycle_accurate;
}

pub while_some-each {ℓ κ} :
    {A : Type ℓ} (P : A → Type κ) (o : Option (Bool × Bool)) {stop : A} {go : Bool → Bool → A}
    → P stop
    → ((dmc oam : Bool) → P (go dmc oam))
    → P (while_some o stop go)
while_some-each P none p q = p
while_some-each P (some (dmc, oam)) p q = q dmc oam

module _ {B : Type 0} ⦃ops : BusOps B⦄ where
  start_cycle-registers : (n : ℕ) (c : Cpu B) → registers (start_cycle n c) ≡ registers c
  unfolding start_cycle
  start_cycle-registers n c = elim (Bool-cases c.cycle_accurate) [
    | inl h ↦ rw h refl
    | inr h ↦ rw h refl
  ]

  end_cycle-registers : (n : ℕ) (c : Cpu B) → registers (end_cycle n c) ≡ registers c
  unfolding end_cycle
  end_cycle-registers n c = elim (Bool-cases c.cycle_accurate) [
    | inl h ↦ rw h refl
    | inr h ↦ rw h refl
  ]

  dma_wait-registers :
      (addr : ℕ) (skip : Bool) (c : Cpu B) → registers (dma_wait addr skip c) ≡ registers c
  unfolding dma_wait start_dma_cycle access_read
  dma_wait-registers addr true c = end_cycle-registers _ _ ∙ start_cycle-registers _ _
  dma_wait-registers addr false c = end_cycle-registers _ _ ∙ start_cycle-registers _ _

  dma_sample-registers : (t : Transfer) (c : Cpu B) → registers (dma_sample t c).1 ≡ registers c
  unfolding dma_sample start_dma_cycle access_read
  dma_sample-registers t c = end_cycle-registers _ _ ∙ start_cycle-registers _ _

  dma_get-registers : (t : Transfer) (c : Cpu B) → registers (dma_get t c).1 ≡ registers c
  unfolding dma_get start_dma_cycle access_read
  dma_get-registers t c = end_cycle-registers _ _ ∙ start_cycle-registers _ _

  dma_put-registers : (t : Transfer) (c : Cpu B) → registers (dma_put t c).1 ≡ registers c
  unfolding dma_put start_dma_cycle access_write
  dma_put-registers t c =
      let same = end_cycle-registers _ _ ∙ start_cycle-registers _ _ in
      if-each (λ (d : Cpu B). registers d ≡ registers c) (t.oam_dma_count + 1 == 512) same same

  dma_round-registers :
      (addr : ℕ) (skip dmc oam : Bool) (t : Transfer) (c : Cpu B)
      → registers (dma_round addr skip dmc oam t c).1 ≡ registers c
  unfolding dma_round
  dma_round-registers addr skip dmc oam t c =
      let Same : Transfer × Cpu B → Type 0 = λ r. registers r.1 ≡ registers c in
      if-each Same (bit_and c.cycle 1 == 0)
        (if-each Same (dmc && not c.lines.dma_halt && not c.lines.dma_dummy_read)
          (dma_sample-registers t c)
          (if-each Same oam (dma_get-registers t c) (dma_wait-registers addr skip c)))
        (if-each Same (oam && (bit_and t.oam_dma_count 1 == 1)) (dma_put-registers t c)
          (dma_wait-registers addr skip c))

  dma_loop-registers :
      (fuel addr : ℕ) (skip : Bool) (t : Transfer) (c : Cpu B)
      → registers (dma_loop fuel addr skip t c).1 ≡ registers c
  unfolding dma_loop
  dma_loop-registers zero addr skip t c = refl
  dma_loop-registers (suc fuel) addr skip t c =
      while_some-each (λ (r : Transfer × Cpu B). registers r.1 ≡ registers c) (dmas_running c.lines)
        refl
        (λ dmc oam.
          dma_loop-registers fuel addr skip (dma_round addr skip dmc oam t c).0
            (dma_round addr skip dmc oam t c).1
          ∙ dma_round-registers addr skip dmc oam t c)

  read_cycle-registers : (addr : ℕ) (c : Cpu B) → registers (read_cycle addr c).1 ≡ registers c
  unfolding read_cycle access_read
  read_cycle-registers addr c = end_cycle-registers _ _ ∙ start_cycle-registers _ _

  halted_read-registers : (addr : ℕ) (c : Cpu B) → registers (halted_read addr c) ≡ registers c
  unfolding halted_read
  halted_read-registers addr c = read_cycle-registers addr c

  handle_dma-registers : (addr : ℕ) (c : Cpu B) → registers (handle_dma addr c) ≡ registers c
  unfolding handle_dma
  handle_dma-registers addr c =
      dma_loop-registers dma_fuel addr (addr == 16406 || addr == 16407) no_transfer
        (halted_read addr c)
      ∙ halted_read-registers addr c

  -- A read leaves every register as it is, with or without DMA transfers before it.
  pub read-registers : (addr : ℕ) (c : Cpu B) → registers (read addr c).1 ≡ registers c
  unfolding read
  read-registers addr c =
      read_cycle-registers addr _
      ∙ if-each (λ (d : Cpu B). registers d ≡ registers c) c.lines.dma_halt
          (handle_dma-registers addr c) refl

  -- A write leaves every register as it is.
  pub write-registers : (addr val : ℕ) (c : Cpu B) → registers (write addr val c) ≡ registers c
  unfolding write access_write
  write-registers addr val c = end_cycle-registers _ _ ∙ start_cycle-registers _ _

-- The master clock's ticks in a cycle of the CPU.
abbrev pub clock_divider : NesRegion → ℕ
clock_divider auto = 12
clock_divider ntsc = 12
clock_divider pal = 16
clock_divider dendy = 15

-- The ticks that the code gives a write: twice the second half, one more than 15 on a Dendy.
abbrev pub write_ticks : NesRegion → ℕ
write_ticks dendy = 16
write_ticks r = clock_divider r

-- The two parts of a cycle, of a read and of a write.
cycle_parts :
    (r : NesRegion) (m : ℕ)
    → let (s, e) = region_cycles r in
      (usize (usize (m + (s - 1)) + (e + 1)) ≡ usize (m + clock_divider r))
      × (usize (usize (m + (e + 1)) + (e - 1)) ≡ usize (m + write_ticks r))
cycle_parts auto m = (omega arith, omega arith)
cycle_parts ntsc m = (omega arith, omega arith)
cycle_parts pal m = (omega arith, omega arith)
cycle_parts dendy m = (omega arith, omega arith)

module _ {B : Type 0} ⦃ops : BusOps B⦄ where
  -- With no DMA to wait for, a read and a write take one cycle of the CPU each: 12 ticks of the
  -- master clock, 16 for PAL, and for a Dendy 15 in a read but 16 in a write.
  pub access-cycles :
      (addr val : ℕ) (c : Cpu B) (r : NesRegion)
      → c.lines.dma_halt ≡ false
      → c.read_cycles ≡ read_cycles_of (region_cycles r)
      → c.write_cycles ≡ write_cycles_of (region_cycles r)
      → ((read addr c).1.cycle ≡ usize (c.cycle + 1))
        × ((read addr c).1.master_clock ≡ usize (c.master_clock + clock_divider r))
        × ((write addr val c).cycle ≡ usize (c.cycle + 1))
        × ((write addr val c).master_clock ≡ usize (c.master_clock + write_ticks r))
  unfolding read read_cycle write access_read access_write start_cycle end_cycle handle_interrupts
      clock_ppu clock_bus
  access-cycles addr val c r quiet hr hw =
      let ticks = cycle_parts r c.master_clock in
      elim (Bool-cases c.cycle_accurate) [
        | inl h ↦ rw (quiet, h, hr, hw) (refl, ticks.0, refl, ticks.1)
        | inr h ↦ rw (quiet, h, hr, hw) (refl, ticks.0, refl, ticks.1)
      ]
