-- ===== src/Cpu/Flow/Returns.antt =====
-- A subroutine and an interrupt handler return to where they were called from.
use tetanes.Base.{
  ℕ, ◌+◌, ◌/◌, ◌%◌, ◌<◌, ◌≡◌, ◌≢◌, sym, ◌∙◌, ap, arith, bit_or, u8, sub_u8, from_le_bytes,
}
use tetanes.Base.Bits.{bit_or_fields}
use tetanes.Cpu.State.{BusOps, Cpu, sp_base}
use tetanes.Cpu.Access.Registers.{Registers, registers, read-registers, write-registers}
use tetanes.Cpu.Fetch.{push, pop, push_u16, pop_u16}
use tetanes.Cpu.Flow.{read_stack}
use tetanes.Cpu.Flow.StackRam.{
  StackRam, Keeps, Keeps-trans, read-Keeps, read-cell, write-cell, write-cells,
}

stack_addr : (sp : ℕ) → sp < 256 → bit_or sp_base sp ≡ 256 + sp
stack_addr sp h = bit_or_fields 8 1 sp h

module _ {B : Type 0} ⦃ops : BusOps B⦄ (ram : StackRam ops) where
  -- The byte in the stack's page.
  abbrev pub at : Cpu B → ℕ → ℕ
  at c sp = ram.cell c.bus (256 + sp)

  pub push-cell : (val : ℕ) (c : Cpu B) → c.sp < 256 → at (push val c) c.sp ≡ val
  unfolding push
  push-cell val c h =
      rw (stack_addr c.sp h) (write-cell ram (256 + c.sp) val c (omega arith) (omega arith))

  pub push-cells :
      (val : ℕ) (c : Cpu B) → c.sp < 256 → (s : ℕ) → s ≢ c.sp → at (push val c) s ≡ at c s
  unfolding push
  push-cells val c h s ne =
      rw (stack_addr c.sp h)
        (write-cells ram (256 + c.sp) val c (omega arith) (omega arith) (256 + s) (omega arith))

  -- The registers after a push but for the stack pointer, which goes down.
  pub push-registers :
      (val : ℕ) (c : Cpu B) → registers (push val c) ≡ record (registers c) { sp = sub_u8 c.sp 1 }
  unfolding push
  push-registers val c =
      ap (λ (r : Registers). record r { sp = sub_u8 r.sp 1 })
        (write-registers (bit_or sp_base c.sp) val c)

  pub pop-value : (c : Cpu B) → (pop c).0 ≡ at c (u8 (c.sp + 1))
  unfolding pop
  pop-value c =
      let c1 = record c { sp = u8 (c.sp + 1) } in
      rw (stack_addr (u8 (c.sp + 1)) (omega arith))
        (read-cell ram (256 + u8 (c.sp + 1)) c1 (omega arith) (omega arith))

  pub pop-registers :
      (c : Cpu B) → registers (pop c).1 ≡ record (registers c) { sp = u8 (c.sp + 1) }
  unfolding pop
  pop-registers c =
      read-registers (bit_or sp_base (u8 (c.sp + 1))) (record c { sp = u8 (c.sp + 1) })

  pub pop-Keeps : (c : Cpu B) → Keeps ram c (pop c).1
  unfolding pop
  pop-Keeps c =
      let c1 = record c { sp = u8 (c.sp + 1) } in
      let k = read-Keeps ram (bit_or sp_base c1.sp) c1 in record { cells = k.cells }

  -- The word that the next two pulls give.
  abbrev pub top : Cpu B → ℕ
  top c = from_le_bytes (at c (u8 (c.sp + 1))) (at c (u8 (c.sp + 2)))

  pub pop_u16-word :
      (c : Cpu B)
      → ((pop_u16 c).0 ≡ top c)
        × (registers (pop_u16 c).1 ≡ record (registers c) { sp = u8 (c.sp + 2) })
        × Keeps ram c (pop_u16 c).1
  unfolding pop_u16
  pop_u16-word c =
      let c1 = (pop c).1 in
      let k = pop-Keeps c in
      let sp1 : c1.sp ≡ u8 (c.sp + 1) = ap (λ r. r.sp) (pop-registers c) in
      let next : u8 (c1.sp + 1) ≡ u8 (c.sp + 2) = omega arith in
      (
        ap (λ lo. from_le_bytes lo (pop c1).0) (pop-value c)
            ∙ ap (from_le_bytes (at c (u8 (c.sp + 1))))
                (pop-value c1 ∙ ap (at c1) next ∙ k.cells (256 + u8 (c.sp + 2))),
        pop-registers c1
            ∙ ap (λ n. record (registers c1) { sp = n }) next
            ∙ ap (λ (r : Registers). record r { sp = u8 (c.sp + 2) }) (pop-registers c),
        Keeps-trans ram k (pop-Keeps c1),
      )

  pub push_u16-word :
      (val : ℕ) (c : Cpu B)
      → c.sp < 256
      → let d = push_u16 val c in
        (at d c.sp ≡ val / 256)
        × (at d (sub_u8 c.sp 1) ≡ val % 256)
        × (registers d ≡ record (registers c) { sp = sub_u8 c.sp 2 })
  unfolding push_u16
  push_u16-word val c h =
      let c1 = push (val / 256) c in
      let sp1 : c1.sp ≡ sub_u8 c.sp 1 = ap (λ r. r.sp) (push-registers (val / 256) c) in
      let lt : c1.sp < 256 = omega arith in
      let next : sub_u8 c1.sp 1 ≡ sub_u8 c.sp 2 = omega arith in
      (
        push-cells (val % 256) c1 lt c.sp (omega arith) ∙ push-cell (val / 256) c h,
        ap (at (push (val % 256) c1)) (sym sp1) ∙ push-cell (val % 256) c1 lt,
        push-registers (val % 256) c1
            ∙ ap (λ n. record (registers c1) { sp = n }) next
            ∙ ap (λ (r : Registers). record r { sp = sub_u8 c.sp 2 })
                (push-registers (val / 256) c),
      )

  pub read_stack-Keeps :
      (c : Cpu B) → Keeps ram c (read_stack c) × (registers (read_stack c) ≡ registers c)
  unfolding read_stack
  read_stack-Keeps c =
      (read-Keeps ram (bit_or sp_base c.sp) c, read-registers (bit_or sp_base c.sp) c)
