-- ===== src/Cpu/Flow/Subroutines.antt =====
-- A subroutine and an interrupt handler return to where they were called from.
use tetanes.Base.{
  ℕ, ◌+◌, ◌/◌, ◌%◌, ◌<◌, ◌≡◌, sym, ◌∙◌, ap, arith, u8, sub_u8, u16, sub_u16, from_le_bytes,
}
use tetanes.Cpu.State.{BusOps, Cpu}
use tetanes.Cpu.Access.Registers.{read-registers}
use tetanes.Cpu.Fetch.{push_u16, pop_u16}
use tetanes.Cpu.Flow.{read_stack, jsr, rts}
use tetanes.Cpu.Flow.StackRam.{StackRam}
use tetanes.Cpu.Flow.Returns.{at, pop_u16-word, push_u16-word, read_stack-Keeps, top}

module _ {B : Type 0} ⦃ops : BusOps B⦄ (ram : StackRam ops) where
  jsr-word :
      (c : Cpu B)
      → c.sp < 256
      → let v = sub_u16 c.pc 1 in
        (at ram (jsr c) c.sp ≡ v / 256)
        × (at ram (jsr c) (sub_u8 c.sp 1) ≡ v % 256)
        × ((jsr c).sp ≡ sub_u8 c.sp 2)
        × ((jsr c).pc ≡ c.abs_addr)
  unfolding jsr
  jsr-word c h =
      let c1 = read_stack c in
      let (k, same) = read_stack-Keeps ram c in
      let pc1 : c1.pc ≡ c.pc = ap (λ r. r.pc) same in
      let sp1 : c1.sp ≡ c.sp = ap (λ r. r.sp) same in
      let (hi, lo, regs) = push_u16-word ram (sub_u16 c1.pc 1) c1 (omega arith) in
      let d = push_u16 (sub_u16 c1.pc 1) c1 in
      (
        ap (at ram d) (sym sp1) ∙ hi ∙ ap (λ p. sub_u16 p 1 / 256) pc1,
        ap (λ p. at ram d (sub_u8 p 1)) (sym sp1) ∙ lo ∙ ap (λ p. sub_u16 p 1 % 256) pc1,
        ap (λ r. r.sp) regs ∙ ap (λ p. sub_u8 p 2) sp1,
        ap (λ r. r.abs_addr) regs ∙ ap (λ r. r.abs_addr) same,
      )

  rts-word : (d : Cpu B) → ((rts d).pc ≡ u16 (top ram d + 1)) × ((rts d).sp ≡ u8 (d.sp + 2))
  unfolding rts
  rts-word d =
      let d1 = read_stack d in
      let (k, same) = read_stack-Keeps ram d in
      let sp1 : d1.sp ≡ d.sp = ap (λ r. r.sp) same in
      let (word, regs, _) = pop_u16-word ram d1 in
      let last =
        read-registers (u16 ((pop_u16 d1).0 + 1))
          (record ((pop_u16 d1).1) { pc = u16 ((pop_u16 d1).0 + 1) }) in
      let kept : top ram d1 ≡ top ram d =
        ap (λ p. from_le_bytes (at ram d1 (u8 (p + 1))) (at ram d1 (u8 (p + 2)))) sp1
        ∙ ap (λ lo. from_le_bytes lo (at ram d1 (u8 (d.sp + 2)))) (k.cells (256 + u8 (d.sp + 1)))
        ∙ ap (from_le_bytes (at ram d (u8 (d.sp + 1)))) (k.cells (256 + u8 (d.sp + 2))) in
      (
        ap (λ r. r.pc) last ∙ ap (λ n. u16 (n + 1)) (word ∙ kept),
        ap (λ r. r.sp) last ∙ ap (λ r. r.sp) regs ∙ ap (λ p. u8 (p + 2)) sp1,
      )

  -- JSR jumps to the address that was read. Where a subroutine leaves the stack pointer and the
  -- stack's page as it found them, its RTS goes back to the instruction after the JSR and restores the
  -- stack pointer.
  pub rts-jsr :
      (c d : Cpu B)
      → c.pc < 65536
      → c.sp < 256
      → d.sp ≡ (jsr c).sp
      → ((s : ℕ) → ram.cell d.bus s ≡ ram.cell (jsr c).bus s)
      → ((jsr c).pc ≡ c.abs_addr) × ((rts d).pc ≡ c.pc) × ((rts d).sp ≡ c.sp)
  rts-jsr c d hpc hsp sp cells =
      let (hi, lo, down, jump) = jsr-word c hsp in
      let (pc, up) = rts-word d in
      let s1 : u8 (d.sp + 1) ≡ sub_u8 c.sp 1 = omega arith in
      let s2 : u8 (d.sp + 2) ≡ c.sp = omega arith in
      let low : at ram d (u8 (d.sp + 1)) ≡ sub_u16 c.pc 1 % 256 =
        cells (256 + u8 (d.sp + 1)) ∙ ap (at ram (jsr c)) s1 ∙ lo in
      let high : at ram d (u8 (d.sp + 2)) ≡ sub_u16 c.pc 1 / 256 =
        cells (256 + u8 (d.sp + 2)) ∙ ap (at ram (jsr c)) s2 ∙ hi in
      (jump, omega arith, omega arith)
