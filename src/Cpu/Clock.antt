-- ===== src/Cpu/Clock.antt =====
-- tetanes-core/src/cpu.rs: one instruction (`clock`) and the reset.
use tetanes.Base.{
  ℕ, zero, suc, ◌+◌, true, false, not, ◌||◌, if◌then◌else◌, sub_usize, sub_u8, from_le_bytes,
}
use tetanes.Common.{ResetKind, soft, hard}
use tetanes.Cpu.Lines.{
  Lines, IrqSource, DmaSource, clear_nmi, clear_irq, clear_dma, clear_dma_halt,
  clear_dma_dummy_read,
}
use tetanes.Cpu.Instr.{Operation, instructions}
use tetanes.Cpu.State.{BusOps, Cpu, power_on_sp, reset_vector}
use tetanes.Cpu.Status.{power_on_status}
use tetanes.Cpu.Access.{
  handle_interrupts, clock_ppu, clock_bus, start_cycle, end_cycle, access_read,
}
use tetanes.Cpu.Fetch.{read_instr}
use tetanes.Cpu.Addressing.{address}
use tetanes.Cpu.Storage.{
  clc, cld, cli, clv, lda, ldx, ldy, nop, skb, ign, sec, sed, sei, sta, stx, sty, tax, tay, tsx,
  txa, txs, tya, xxx,
}
use tetanes.Cpu.Arithmetic.{
  adc, and, asl, bit, cmp, cpx, cpy, dec, dex, dey, eor, inc, inx, iny, lsr, ora, rol, ror, sbc,
}
use tetanes.Cpu.Flow.{
  bcc, bcs, beq, bmi, bne, bpl, brk, bvc, bvs, jmp, jsr, pha, php, pla, plp, rti, rts, irq,
}
use tetanes.Cpu.Unofficial.{
  isb, dcp, axs, las, lax, ahx, sax, xaa, sxa, rra, tas, sya, arr, sre, alr, rla, anc, slo,
}

-- `clear_nmi`, `clear_irq(Irq::all())`, `clear_dma_halt`, `clear_dma(Dma::all())` and
-- `clear_dma_dummy_read`.
unfoldable pub clear_lines : Lines → Lines
clear_lines l =
    let l1 =
      clear_irq IrqSource.dmc
        (clear_irq IrqSource.frame_counter (clear_irq IrqSource.mapper (clear_nmi l))) in
    clear_dma_dummy_read (clear_dma DmaSource.dmc (clear_dma DmaSource.oam (clear_dma_halt l1)))

module _ {B : Type 0} ⦃ops : BusOps B⦄ where
  -- The second `match` of `clock`.
  unfoldable pub execute : Operation → Cpu B → Cpu B
  execute Operation.adc c = adc c
  execute Operation.and c = and c
  execute Operation.asl c = asl c
  execute Operation.bcc c = bcc c
  execute Operation.bcs c = bcs c
  execute Operation.beq c = beq c
  execute Operation.bit c = bit c
  execute Operation.bmi c = bmi c
  execute Operation.bne c = bne c
  execute Operation.bpl c = bpl c
  execute Operation.brk c = brk c
  execute Operation.bvc c = bvc c
  execute Operation.bvs c = bvs c
  execute Operation.clc c = clc c
  execute Operation.cld c = cld c
  execute Operation.cli c = cli c
  execute Operation.clv c = clv c
  execute Operation.cmp c = cmp c
  execute Operation.cpx c = cpx c
  execute Operation.cpy c = cpy c
  execute Operation.dec c = dec c
  execute Operation.dex c = dex c
  execute Operation.dey c = dey c
  execute Operation.eor c = eor c
  execute Operation.inc c = inc c
  execute Operation.inx c = inx c
  execute Operation.iny c = iny c
  execute Operation.jmp c = jmp c
  execute Operation.jsr c = jsr c
  execute Operation.lda c = lda c
  execute Operation.ldx c = ldx c
  execute Operation.ldy c = ldy c
  execute Operation.lsr c = lsr c
  execute Operation.nop c = nop c
  execute Operation.skb c = skb c
  execute Operation.ign c = ign c
  execute Operation.ora c = ora c
  execute Operation.pha c = pha c
  execute Operation.php c = php c
  execute Operation.pla c = pla c
  execute Operation.plp c = plp c
  execute Operation.rol c = rol c
  execute Operation.ror c = ror c
  execute Operation.rti c = rti c
  execute Operation.rts c = rts c
  execute Operation.sbc c = sbc c
  execute Operation.sec c = sec c
  execute Operation.sed c = sed c
  execute Operation.sei c = sei c
  execute Operation.sta c = sta c
  execute Operation.stx c = stx c
  execute Operation.sty c = sty c
  execute Operation.tax c = tax c
  execute Operation.tay c = tay c
  execute Operation.tsx c = tsx c
  execute Operation.txa c = txa c
  execute Operation.txs c = txs c
  execute Operation.tya c = tya c
  execute Operation.isb c = isb c
  execute Operation.dcp c = dcp c
  execute Operation.axs c = axs c
  execute Operation.las c = las c
  execute Operation.lax c = lax c
  execute Operation.ahx c = ahx c
  execute Operation.sax c = sax c
  execute Operation.xaa c = xaa c
  execute Operation.sxa c = sxa c
  execute Operation.rra c = rra c
  execute Operation.tas c = tas c
  execute Operation.sya c = sya c
  execute Operation.arr c = arr c
  execute Operation.sre c = sre c
  execute Operation.alr c = alr c
  execute Operation.rla c = rla c
  execute Operation.anc c = anc c
  execute Operation.slo c = slo c
  execute Operation.xxx c = xxx c

  -- The clocks of the bus that a CPU which is not cycle accurate makes up for.
  unfoldable pub clock_bus_times : ℕ → Cpu B → Cpu B
  clock_bus_times zero c = c
  clock_bus_times (suc n) c = clock_bus_times n (clock_bus c)

  -- One instruction; the number is the cycles it ran.
  unfoldable pub clock : Cpu B → ℕ × Cpu B
  unfolding execute clock_bus_times
  clock c =
      let (opcode, c1) = read_instr c in
      let i = instructions opcode in
      let c2 = execute i.op (address i.addr_mode (record c1 { instr = i })) in
      let c3 = if c2.prev_run_irq || c2.prev_nmi then irq c2 else c2 in
      let cycles_ran = sub_usize c3.cycle c.cycle in
      (
        cycles_ran,
        if not c3.cycle_accurate
            then handle_interrupts (clock_bus_times cycles_ran (clock_ppu c3))
            else c3,
      )

  unfoldable pub reset_registers : ResetKind → Cpu B → Cpu B
  reset_registers soft c = record c {
    status = record (c.status) { interrupt = true };
    sp = sub_u8 c.sp 3;
  }
  reset_registers hard c = record c {
    acc = 0;
    x = 0;
    y = 0;
    status = power_on_status;
    sp = power_on_sp;
  }

  unfoldable pub idle_cycles : ℕ → Cpu B → Cpu B
  idle_cycles zero c = c
  idle_cycles (suc n) c =
      let c1 = start_cycle c.read_cycles.start c in idle_cycles n (end_cycle c1.read_cycles.end c1)

  unfoldable pub reset : ResetKind → Cpu B → Cpu B
  unfolding reset_registers clear_lines idle_cycles
  reset kind c =
      let c1 = reset_registers kind c in
      let (b, l) = ops.bus_reset kind c1.bus c1.lines in
      let c2 = record c1 {
        bus = b;
        cycle = 0;
        master_clock = 0;
        run_irq = false;
        prev_run_irq = false;
        nmi = false;
        prev_nmi = false;
        prev_nmi_pending = false;
        corrupted = false;
        lines = clear_lines l;
      } in
      let (lo, c3) = access_read reset_vector c2 in
      let (hi, c4) = access_read (reset_vector + 1) c3 in
      idle_cycles 7 (record c4 { pc = from_le_bytes lo hi })
