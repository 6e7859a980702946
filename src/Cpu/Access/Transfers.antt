-- ===== src/Cpu/Access/Transfers.antt =====
-- What a sprite transfer asks of the bus, and the cycles of `handle_dma` seen through it.
use tetanes.Base.{
  if-each, ℕ, ◌+◌, ◌<◌, ◌≡◌, refl, ◌∙◌, ap, Bool, true, false, if◌then◌else◌, List, ◌∷◌, usize,
  Bool-cases, inl, inr, ◌==◌, sub_usize,
}
use tetanes.Cpu.Lines.{Lines, clear_dma, clear_dma_halt, clear_dma_dummy_read}
use tetanes.Cpu.State.{BusOps, Cpu}
use tetanes.Cpu.Access.{
  Transfer, clock_ppu, clock_bus, handle_interrupts, start_cycle, end_cycle, start_dma_cycle,
  access_read, access_write, dma_wait, dma_get, dma_put, read_cycle, halted_read,
}

-- The lines that `handle_dma` goes by.
pub record Requests : Type 0 where
  pub oam : Bool
  pub dmc : Bool
  pub halt : Bool
  pub page : ℕ

abbrev pub requests : Lines → Requests
requests l = record { oam = l.dmas.oam; dmc = l.dmas.dmc; halt = l.dma_halt; page = l.dma_oam_addr }

-- A bus whose page holds bytes that nothing changes meanwhile, which keeps what is written to
-- $2004 (the last byte first) and starts no transfer of its own.
pub record TransferBus {B : Type 0} (ops : BusOps B) (page : ℕ) : Type 0 where
  pub byte : B → ℕ → ℕ
  pub sent : B → List ℕ
  pub read_byte : (i : ℕ) (b : B) (l : Lines) → i < 256 → (ops.bus_read (page + i) b l).0 ≡ byte b i
  pub read_bytes : (addr : ℕ) (b : B) (l : Lines) → byte (ops.bus_read addr b l).1 ≡ byte b
  pub read_sent : (addr : ℕ) (b : B) (l : Lines) → sent (ops.bus_read addr b l).1 ≡ sent b
  pub read_requests :
      (addr : ℕ) (b : B) (l : Lines) → requests (ops.bus_read addr b l).2 ≡ requests l
  pub write_bytes : (val : ℕ) (b : B) (l : Lines) → byte (ops.bus_write 0x2004 val b l).0 ≡ byte b
  pub write_sent :
      (val : ℕ) (b : B) (l : Lines) → sent (ops.bus_write 0x2004 val b l).0 ≡ val ∷ sent b
  pub write_requests :
      (val : ℕ) (b : B) (l : Lines) → requests (ops.bus_write 0x2004 val b l).1 ≡ requests l
  pub clock_bytes : (b : B) (l : Lines) → byte (ops.bus_clock b l).0 ≡ byte b
  pub clock_sent : (b : B) (l : Lines) → sent (ops.bus_clock b l).0 ≡ sent b
  pub clock_requests : (b : B) (l : Lines) → requests (ops.bus_clock b l).1 ≡ requests l
  pub clock_to_bytes : (t : ℕ) (b : B) (l : Lines) → byte (ops.clock_to t b l).0 ≡ byte b
  pub clock_to_sent : (t : ℕ) (b : B) (l : Lines) → sent (ops.clock_to t b l).0 ≡ sent b
  pub clock_to_requests : (t : ℕ) (b : B) (l : Lines) → requests (ops.clock_to t b l).1 ≡ requests l

-- What the transfer is about.
pub record View : Type 0 where
  pub cycle : ℕ
  pub lines : Requests
  pub bytes : ℕ → ℕ
  pub sent : List ℕ

-- The state one cycle later.
abbrev pub later : View → View
later v = record v { cycle = usize (v.cycle + 1) }

-- The state after a put, the last one or another.
abbrev pub put_view : ℕ → Bool → View → View
put_view val final v = record (later v) {
  sent = val ∷ v.sent;
  lines = record (v.lines) { oam = if final then false else v.lines.oam };
}

module _ {B : Type 0} ⦃ops : BusOps B⦄ {page : ℕ} (t : TransferBus ops page) where
  abbrev pub view : Cpu B → View
  view c = record {
    cycle = c.cycle;
    lines = requests c.lines;
    bytes = t.byte c.bus;
    sent = t.sent c.bus;
  }

  clock_ppu-view : (c : Cpu B) → view (clock_ppu c) ≡ view c
  unfolding clock_ppu
  clock_ppu-view c = λ i. record {
    cycle = c.cycle;
    lines = t.clock_to_requests (sub_usize c.master_clock 1) c.bus c.lines i;
    bytes = t.clock_to_bytes (sub_usize c.master_clock 1) c.bus c.lines i;
    sent = t.clock_to_sent (sub_usize c.master_clock 1) c.bus c.lines i;
  }

  clock_bus-view : (c : Cpu B) → view (clock_bus c) ≡ view c
  unfolding clock_bus
  clock_bus-view c = λ i. record {
    cycle = c.cycle;
    lines = t.clock_requests c.bus c.lines i;
    bytes = t.clock_bytes c.bus c.lines i;
    sent = t.clock_sent c.bus c.lines i;
  }

  start_cycle-view :
      (n : ℕ) (c : Cpu B) → view (start_cycle n c) ≡ record (view c) { cycle = usize (c.cycle + 1) }
  unfolding start_cycle
  start_cycle-view n c =
      let c1 = record c {
        master_clock = usize (c.master_clock + n);
        cycle = usize (c.cycle + 1);
      } in
      let After : Cpu B → Type 0 = λ d. view d ≡ record (view c) { cycle = usize (c.cycle + 1) } in
      if-each After c.cycle_accurate (clock_bus-view (clock_ppu c1) ∙ clock_ppu-view c1) refl

  end_cycle-view : (n : ℕ) (c : Cpu B) → view (end_cycle n c) ≡ view c
  unfolding end_cycle handle_interrupts
  end_cycle-view n c =
      let c1 = record c { master_clock = usize (c.master_clock + n) } in
      if-each (λ (d : Cpu B). view d ≡ view c) c.cycle_accurate (clock_ppu-view c1) refl

  access_read-view : (addr : ℕ) (c : Cpu B) → view (access_read addr c).1 ≡ view c
  unfolding access_read
  access_read-view addr c = λ i. record {
    cycle = c.cycle;
    lines = t.read_requests addr c.bus c.lines i;
    bytes = t.read_bytes addr c.bus c.lines i;
    sent = t.read_sent addr c.bus c.lines i;
  }

  start_dma_cycle-view :
      (c : Cpu B) → c.lines.dma_halt ≡ false → view (start_dma_cycle c) ≡ later (view c)
  unfolding start_dma_cycle clear_dma_halt clear_dma_dummy_read
  start_dma_cycle-view c h =
      let ls = if c.lines.dma_halt then clear_dma_halt c.lines else clear_dma_dummy_read c.lines in
      let same : requests ls ≡ requests c.lines =
        ap (λ b. requests (if b then clear_dma_halt c.lines else clear_dma_dummy_read c.lines)) h in
      start_cycle-view c.read_cycles.start (record c { lines = ls })
      ∙ ap (λ r. record (later (view c)) { lines = r }) same

  -- A round that waits takes a cycle.
  pub dma_wait-view :
      (addr : ℕ) (skip : Bool) (c : Cpu B)
      → c.lines.dma_halt ≡ false
      → view (dma_wait addr skip c) ≡ later (view c)
  unfolding dma_wait
  dma_wait-view addr true c h = end_cycle-view _ _ ∙ start_dma_cycle-view c h
  dma_wait-view addr false c h =
      end_cycle-view _ _ ∙ access_read-view addr (start_dma_cycle c) ∙ start_dma_cycle-view c h

  -- A round that gets takes a cycle, and has the byte of the page at its offset.
  pub dma_get-view :
      (x : Transfer) (c : Cpu B)
      → c.lines.dma_halt ≡ false
      → c.lines.dma_oam_addr ≡ page
      → x.oam_offset < 256
      → (view (dma_get x c).1 ≡ later (view c))
        × ((dma_get x c).0 ≡ record {
          oam_offset = x.oam_offset + 1;
          oam_dma_count = x.oam_dma_count + 1;
          read_val = t.byte c.bus x.oam_offset;
        })
  unfolding dma_get access_read
  dma_get-view x c h e lt =
      let c1 = start_dma_cycle c in
      let started = start_dma_cycle-view c h in
      let addr = c1.lines.dma_oam_addr + x.oam_offset in
      let at : c1.lines.dma_oam_addr ≡ page = ap (λ v. v.lines.page) started ∙ e in
      let val : (ops.bus_read addr c1.bus c1.lines).0 ≡ t.byte c.bus x.oam_offset =
        ap (λ p. (ops.bus_read (p + x.oam_offset) c1.bus c1.lines).0) at
        ∙ t.read_byte x.oam_offset c1.bus c1.lines lt
        ∙ ap (λ v. v.bytes x.oam_offset) started in
      (
        end_cycle-view _ _ ∙ access_read-view addr c1 ∙ started,
        λ i. record {
          oam_offset = x.oam_offset + 1;
          oam_dma_count = x.oam_dma_count + 1;
          read_val = val i;
        },
      )

  access_write-view :
      (val : ℕ) (c : Cpu B)
      → view (access_write 0x2004 val c) ≡ record (view c) { sent = val ∷ t.sent c.bus }
  unfolding access_write
  access_write-view val c = λ i. record {
    cycle = c.cycle;
    lines = t.write_requests val c.bus c.lines i;
    bytes = t.write_bytes val c.bus c.lines i;
    sent = t.write_sent val c.bus c.lines i;
  }

  -- A round that puts takes a cycle, writes the byte that it has, and with the last one the
  -- transfer is over.
  pub dma_put-view :
      (x : Transfer) (c : Cpu B)
      → c.lines.dma_halt ≡ false
      → view (dma_put x c).1 ≡ put_view x.read_val (x.oam_dma_count + 1 == 512) (view c)
  unfolding dma_put clear_dma
  dma_put-view x c h =
      let c1 = access_write 8196 x.read_val (start_dma_cycle c) in
      let c2 = end_cycle c1.read_cycles.end c1 in
      let sent : view c2 ≡ put_view x.read_val false (view c) =
        end_cycle-view c1.read_cycles.end c1
        ∙ access_write-view x.read_val (start_dma_cycle c)
        ∙ ap (λ (v : View). record v { sent = x.read_val ∷ v.sent }) (start_dma_cycle-view c h) in
      elim (Bool-cases (x.oam_dma_count + 1 == 512)) [
        | inl e ↦
            rw e (ap (λ (v : View). record v { lines = record (v.lines) { oam = false } }) sent)
        | inr e ↦ rw e sent
      ]

  -- The read that the transfer halts takes a cycle.
  pub halted_read-view :
      (addr : ℕ) (c : Cpu B)
      → view (halted_read addr c)
        ≡ record (later (view c)) { lines = record (requests c.lines) { halt = false } }
  unfolding halted_read read_cycle clear_dma_halt
  halted_read-view addr c =
      let c1 = start_cycle c.read_cycles.start c in
      ap (λ (v : View). record v { lines = record (v.lines) { halt = false } })
        (end_cycle-view _ _ ∙ access_read-view addr c1 ∙ start_cycle-view c.read_cycles.start c)
