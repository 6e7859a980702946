-- ===== src/Cpu/Flow/Handlers.antt =====
-- What an interrupt pushes, RTI takes back.
use tetanes.Base.{
  if-each, ℕ, ◌+◌, ◌/◌, ◌%◌, ◌<◌, ◌≡◌, ◌≢◌, sym, ◌∙◌, ap, arith, true, false, u8, sub_u8, u16,
  from_le_bytes,
}
use tetanes.Cpu.Status.{Status, bits, from_bits_truncate}
use tetanes.Cpu.Status.Bits.{from_bits_truncate-bits}
use tetanes.Cpu.State.{BusOps, Cpu, nmi_vector, irq_vector}
use tetanes.Cpu.Access.{read}
use tetanes.Cpu.Access.Registers.{Registers, registers, read-registers}
use tetanes.Cpu.Fetch.{push, pop, push_u16, read_u16}
use tetanes.Cpu.Flow.{read_stack, irq, rti, enter_handler, enter_vector}
use tetanes.Cpu.Flow.StackRam.{StackRam, Keeps, Keeps-trans, read-Keeps}
use tetanes.Cpu.Flow.Returns.{
  at, pop_u16-word, push_u16-word, read_stack-Keeps, push-cell, push-cells, push-registers,
  pop-value, pop-registers, pop-Keeps,
}

module _ {B : Type 0} ⦃ops : BusOps B⦄ (ram : StackRam ops) where
  read_u16-Keeps :
      (addr : ℕ) (c : Cpu B)
      → Keeps ram c (read_u16 addr c).1 × (registers (read_u16 addr c).1 ≡ registers c)
  unfolding read_u16
  read_u16-Keeps addr c =
      let c1 = (read addr c).1 in
      let k = read-Keeps ram addr c in
      (
        Keeps-trans ram k (read-Keeps ram (u16 (addr + 1)) c1),
        read-registers (u16 (addr + 1)) c1 ∙ read-registers addr c,
      )

  -- The state in a handler: the status is on top of the stack of before and I is set.
  record Entered (status : ℕ) (c e : Cpu B) : Type 0 where
    pushed : at ram e c.sp ≡ status
    below : (s : ℕ) → s ≢ c.sp → at ram e s ≡ at ram c s
    sp_eq : e.sp ≡ sub_u8 c.sp 1
    status_eq : e.status ≡ record (c.status) { interrupt = true }

  enter_vector-Entered :
      (vector status : ℕ) (c : Cpu B) → c.sp < 256 → Entered status c (enter_vector vector status c)
  unfolding enter_vector
  enter_vector-Entered vector status c h =
      let c1 = push status c in
      let c2 = record c1 { status = record (c1.status) { interrupt = true } } in
      let (k, same) = read_u16-Keeps vector c2 in
      record {
        pushed = k.cells (256 + c.sp) ∙ push-cell ram status c h;
        below = λ s ne. k.cells (256 + s) ∙ push-cells ram status c h s ne;
        sp_eq = ap (λ r. r.sp) same ∙ ap (λ r. r.sp) (push-registers ram status c);
        status_eq =
            ap (λ r. r.status) same
            ∙ ap (λ (r : Registers). record (r.status) { interrupt = true })
                (push-registers ram status c);
      }

  enter_handler-Entered :
      (status : ℕ) (c : Cpu B) → c.sp < 256 → Entered status c (enter_handler status c)
  unfolding enter_handler
  enter_handler-Entered status c h =
      let c' = record c { nmi = false } in
      let e = enter_vector-Entered nmi_vector status c' h in
      if-each (Entered status c) c.nmi
        (record { pushed = e.pushed; below = e.below; sp_eq = e.sp_eq; status_eq = e.status_eq })
        (enter_vector-Entered irq_vector status c h)

  -- The stack and the status after `irq`.
  irq-word :
      (c : Cpu B)
      → c.sp < 256
      → (at ram (irq c) c.sp ≡ c.pc / 256)
        × (at ram (irq c) (sub_u8 c.sp 1) ≡ c.pc % 256)
        × (at ram (irq c) (sub_u8 c.sp 2) ≡ bits (record (c.status) { unused = true; brk = false }))
        × ((irq c).sp ≡ sub_u8 c.sp 3)
        × ((irq c).status ≡ record (c.status) { interrupt = true })
  unfolding irq
  irq-word c h =
      let c1 = (read c.pc c).1 in
      let c2 = (read c1.pc c1).1 in
      let k1 = read-Keeps ram c.pc c in
      let k = Keeps-trans ram k1 (read-Keeps ram c1.pc c1) in
      let same : registers c2 ≡ registers c = read-registers c1.pc c1 ∙ read-registers c.pc c in
      let sp2 : c2.sp ≡ c.sp = ap (λ r. r.sp) same in
      let pc2 : c2.pc ≡ c.pc = ap (λ r. r.pc) same in
      let c3 = push_u16 c2.pc c2 in
      let (hi, lo, regs) = push_u16-word ram c2.pc c2 (omega arith) in
      let sp3 : c3.sp ≡ sub_u8 c.sp 2 = ap (λ r. r.sp) regs ∙ ap (λ p. sub_u8 p 2) sp2 in
      let status3 : c3.status ≡ c.status = ap (λ r. r.status) regs ∙ ap (λ r. r.status) same in
      let status = bits (record (c3.status) { unused = true; brk = false }) in
      let e = enter_handler-Entered status c3 (omega arith) in
      (
        e.below c.sp (omega arith) ∙ ap (at ram c3) (sym sp2) ∙ hi ∙ ap (λ p. p / 256) pc2,
        e.below (sub_u8 c.sp 1) (omega arith)
            ∙ ap (λ p. at ram c3 (sub_u8 p 1)) (sym sp2)
            ∙ lo
            ∙ ap (λ p. p % 256) pc2,
        ap (at ram (enter_handler status c3)) (sym sp3)
            ∙ e.pushed
            ∙ ap (λ s. bits (record s { unused = true; brk = false })) status3,
        e.sp_eq ∙ omega arith,
        e.status_eq ∙ ap (λ (s : Status). record s { interrupt = true }) status3,
      )

  rti-word :
      (d : Cpu B)
      → ((rti d).status
          ≡ record (from_bits_truncate (at ram d (u8 (d.sp + 1)))) { unused = false; brk = false })
        × ((rti d).pc ≡ from_le_bytes (at ram d (u8 (d.sp + 2))) (at ram d (u8 (d.sp + 3))))
        × ((rti d).sp ≡ u8 (d.sp + 3))
  unfolding rti
  rti-word d =
      let d1 = read_stack d in
      let (k1, same1) = read_stack-Keeps ram d in
      let sp1 : d1.sp ≡ d.sp = ap (λ r. r.sp) same1 in
      let byte = (pop d1).0 in
      let d2 = record ((pop d1).1) {
        status = record (from_bits_truncate byte) { unused = false; brk = false };
      } in
      let k2 = pop-Keeps ram d1 in
      let k = Keeps-trans ram k1 k2 in
      let sp2 : d2.sp ≡ u8 (d.sp + 1) =
        ap (λ r. r.sp) (pop-registers ram d1) ∙ ap (λ p. u8 (p + 1)) sp1 in
      let (word, regs, _) = pop_u16-word ram d2 in
      let s1 : u8 (d2.sp + 1) ≡ u8 (d.sp + 2) = omega arith in
      let s2 : u8 (d2.sp + 2) ≡ u8 (d.sp + 3) = omega arith in
      let value : byte ≡ at ram d (u8 (d.sp + 1)) =
        pop-value ram d1 ∙ ap (λ p. at ram d1 (u8 (p + 1))) sp1 ∙ k1.cells (256 + u8 (d.sp + 1)) in
      let lo : at ram d2 (u8 (d2.sp + 1)) ≡ at ram d (u8 (d.sp + 2)) =
        k.cells (256 + u8 (d2.sp + 1)) ∙ ap (at ram d) s1 in
      let hi : at ram d2 (u8 (d2.sp + 2)) ≡ at ram d (u8 (d.sp + 3)) =
        k.cells (256 + u8 (d2.sp + 2)) ∙ ap (at ram d) s2 in
      (
        ap (λ r. r.status) regs
            ∙ ap (λ b. record (from_bits_truncate b) { unused = false; brk = false }) value,
        word ∙ omega arith,
        ap (λ r. r.sp) regs ∙ s2,
      )

  -- RTI after an interrupt: a handler that leaves the stack pointer and the stack's page as it
  -- found them goes back to the instruction that was interrupted, with the stack pointer and the
  -- status of before, B and U clear. In the handler, I is set.
  pub rti-irq :
      (c d : Cpu B)
      → c.sp < 256
      → d.sp ≡ (irq c).sp
      → ((s : ℕ) → ram.cell d.bus s ≡ ram.cell (irq c).bus s)
      → ((irq c).status ≡ record (c.status) { interrupt = true })
        × ((rti d).pc ≡ c.pc)
        × ((rti d).sp ≡ c.sp)
        × ((rti d).status ≡ record (c.status) { unused = false; brk = false })
  rti-irq c d hsp sp cells =
      let (hi, lo, byte, down, entered) = irq-word c hsp in
      let (status, pc, up) = rti-word d in
      let s1 : u8 (d.sp + 1) ≡ sub_u8 c.sp 2 = omega arith in
      let s2 : u8 (d.sp + 2) ≡ sub_u8 c.sp 1 = omega arith in
      let s3 : u8 (d.sp + 3) ≡ c.sp = omega arith in
      let back : (s t : ℕ) → s ≡ t → at ram d s ≡ at ram (irq c) t =
        λ s t e. cells (256 + s) ∙ ap (at ram (irq c)) e in
      let low = back (u8 (d.sp + 2)) (sub_u8 c.sp 1) s2 in
      let high = back (u8 (d.sp + 3)) c.sp s3 in
      let read_back =
        ap from_bits_truncate (back (u8 (d.sp + 1)) (sub_u8 c.sp 2) s1 ∙ byte)
        ∙ from_bits_truncate-bits (record (c.status) { unused = true; brk = false }) in
      (
        entered,
        omega arith,
        omega arith,
        status ∙ ap (λ (s : Status). record s { unused = false; brk = false }) read_back,
      )
