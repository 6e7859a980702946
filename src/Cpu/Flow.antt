-- ===== src/Cpu/Flow.antt =====
-- tetanes-core/src/cpu/instr.rs and `irq` of cpu.rs: branches, jumps, the stack and interrupts.
pub mod StackRam
pub mod Returns
pub mod Subroutines
pub mod Handlers
use tetanes.Base.{
  ℕ, ◌+◌, Bool, true, false, not, ◌&&◌, if◌then◌else◌, ◌==◌, u16, sub_u16, bit_and, bit_or,
}
use tetanes.Cpu.Status.{bits, from_bits_truncate}
use tetanes.Cpu.State.{BusOps, Cpu, sp_base, nmi_vector, irq_vector, set_zn_status}
use tetanes.Cpu.Access.{read}
use tetanes.Cpu.Fetch.{push, pop, push_u16, pop_u16, fetch_data, read_u16}

unfoldable pub pages_differ : ℕ → ℕ → Bool
pages_differ addr1 addr2 = not (bit_and addr1 65280 == bit_and addr2 65280)

-- The address that a branch goes to: the offset is extended by its sign.
unfoldable pub branch_target : ℕ → ℕ → ℕ
branch_target pc rel_addr =
    if bit_and rel_addr 128 == 128 then u16 (pc + bit_or rel_addr 65280) else u16 (pc + rel_addr)

module _ {B : Type 0} ⦃ops : BusOps B⦄ where
  unfoldable pub branch : Cpu B → Cpu B
  unfolding pages_differ branch_target
  branch c =
      let c1 = if c.run_irq && not c.prev_run_irq then record c { run_irq = false } else c in
      let c2 = (read c1.pc c1).1 in
      let c3 = record c2 { abs_addr = branch_target c2.pc c2.rel_addr } in
      let c4 = if pages_differ c3.abs_addr c3.pc then (read c3.pc c3).1 else c3 in
      record c4 { pc = c4.abs_addr }

  branch_if : Bool → Cpu B → Cpu B
  unfolding branch
  branch_if taken c = if taken then branch c else c

  unfoldable pub bcc : Cpu B → Cpu B
  unfolding branch_if
  bcc c = branch_if (not c.status.carry) c

  unfoldable pub bcs : Cpu B → Cpu B
  unfolding branch_if
  bcs c = branch_if c.status.carry c

  unfoldable pub beq : Cpu B → Cpu B
  unfolding branch_if
  beq c = branch_if c.status.zero_flag c

  unfoldable pub bmi : Cpu B → Cpu B
  unfolding branch_if
  bmi c = branch_if c.status.negative c

  unfoldable pub bne : Cpu B → Cpu B
  unfolding branch_if
  bne c = branch_if (not c.status.zero_flag) c

  unfoldable pub bpl : Cpu B → Cpu B
  unfolding branch_if
  bpl c = branch_if (not c.status.negative) c

  unfoldable pub bvc : Cpu B → Cpu B
  unfolding branch_if
  bvc c = branch_if (not c.status.overflow) c

  unfoldable pub bvs : Cpu B → Cpu B
  unfolding branch_if
  bvs c = branch_if c.status.overflow c

  unfoldable pub jmp : Cpu B → Cpu B
  jmp c = record c { pc = c.abs_addr }

  -- The read at the stack pointer that precedes a pull.
  unfoldable pub read_stack : Cpu B → Cpu B
  read_stack c = (read (bit_or sp_base c.sp) c).1

  unfoldable pub jsr : Cpu B → Cpu B
  unfolding read_stack
  jsr c =
      let c1 = read_stack c in
      let c2 = push_u16 (sub_u16 c1.pc 1) c1 in record c2 { pc = c2.abs_addr }

  unfoldable pub rti : Cpu B → Cpu B
  unfolding read_stack
  rti c =
      let (byte, c1) = pop (read_stack c) in
      let c2 = record c1 {
        status = record (from_bits_truncate byte) { unused = false; brk = false };
      } in
      let (pc, c3) = pop_u16 c2 in record c3 { pc = pc }

  unfoldable pub rts : Cpu B → Cpu B
  unfolding read_stack
  rts c =
      let (pc, c1) = pop_u16 (read_stack c) in
      let c2 = record c1 { pc = u16 (pc + 1) } in (read c2.pc c2).1

  unfoldable pub php : Cpu B → Cpu B
  php c = push (bits (record (c.status) { unused = true; brk = true })) c

  unfoldable pub plp : Cpu B → Cpu B
  unfolding read_stack
  plp c = let (byte, c1) = pop (read_stack c) in record c1 { status = from_bits_truncate byte }

  unfoldable pub pha : Cpu B → Cpu B
  pha c = push c.acc c

  unfoldable pub pla : Cpu B → Cpu B
  unfolding read_stack
  pla c = let (byte, c1) = pop (read_stack c) in set_zn_status byte (record c1 { acc = byte })

  -- A branch of the test for an NMI in BRK and `irq`.
  unfoldable pub enter_vector : ℕ → ℕ → Cpu B → Cpu B
  enter_vector vector status c =
      let c1 = push status c in
      let (pc, c2) =
        read_u16 vector (record c1 { status = record (c1.status) { interrupt = true } }) in
      record c2 { pc = pc }

  -- What BRK and `irq` share: the status is pushed and the NMI, if there is one, takes the vector.
  unfoldable pub enter_handler : ℕ → Cpu B → Cpu B
  unfolding enter_vector
  enter_handler status c =
      if c.nmi
      then enter_vector nmi_vector status (record c { nmi = false })
      else enter_vector irq_vector status c

  unfoldable pub brk : Cpu B → Cpu B
  unfolding enter_handler
  brk c =
      let c1 = fetch_data c in
      let c2 = push_u16 c1.pc c1 in
      let c3 = enter_handler (bits (record (c2.status) { unused = true; brk = true })) c2 in
      record c3 { prev_nmi = false }

  unfoldable pub irq : Cpu B → Cpu B
  unfolding enter_handler
  irq c =
      let c1 = (read c.pc c).1 in
      let c2 = (read c1.pc c1).1 in
      let c3 = push_u16 c2.pc c2 in
      enter_handler (bits (record (c3.status) { unused = true; brk = false })) c3
