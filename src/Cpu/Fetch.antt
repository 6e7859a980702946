-- ===== src/Cpu/Fetch.antt =====
-- tetanes-core/src/cpu.rs: the stack, the operand of an instruction and the words of its code.
use tetanes.Base.{
  ℕ, ◌+◌, ◌/◌, ◌%◌, Bool, true, false, if◌then◌else◌, ltb, u8, u16, sub_u8, from_le_bytes, bit_and,
  bit_or,
}
use tetanes.Cpu.Instr.{AddrMode, m_imm, m_abx, m_aby, m_idy, m_acc, m_imp}
use tetanes.Cpu.State.{BusOps, Cpu, sp_base}
use tetanes.Cpu.Access.{read, write}

-- `matches!(mode, IMP | ACC)`.
abbrev pub is_implied : AddrMode → Bool
is_implied m_imp = true
is_implied m_acc = true
is_implied _ = false

abbrev pub is_immediate : AddrMode → Bool
is_immediate m_imm = true
is_immediate _ = false

-- The register that an indexed mode adds, where the mode can cross a page.
abbrev pub index_of {ℓ} : {A : Type ℓ} → AddrMode → A → (ℕ → A) → ℕ → ℕ → A
index_of m_abx other f x y = f x
index_of m_aby other f x y = f y
index_of m_idy other f x y = f y
index_of _ other f x y = other

-- "This checks if it wrapped around to 0."
unfoldable pub page_crossed : ℕ → ℕ → Bool
page_crossed abs_addr reg = ltb (bit_and abs_addr 255) reg

module _ {B : Type 0} ⦃ops : BusOps B⦄ where
  unfoldable pub push : ℕ → Cpu B → Cpu B
  push val c = let c1 = write (bit_or sp_base c.sp) val c in record c1 { sp = sub_u8 c1.sp 1 }

  unfoldable pub pop : Cpu B → ℕ × Cpu B
  pop c = let c1 = record c { sp = u8 (c.sp + 1) } in read (bit_or sp_base c1.sp) c1

  unfoldable pub push_u16 : ℕ → Cpu B → Cpu B
  unfolding push
  push_u16 val c = push (val % 256) (push (val / 256) c)

  unfoldable pub pop_u16 : Cpu B → ℕ × Cpu B
  unfolding pop
  pop_u16 c = let (lo, c1) = pop c in let (hi, c2) = pop c1 in (from_le_bytes lo hi, c2)

  unfoldable pub fetch_data : Cpu B → Cpu B
  fetch_data c =
      if is_implied c.instr.addr_mode
      then record c { fetched_data = c.acc }
      else (let (val, c1) = read c.abs_addr c in record c1 { fetched_data = val })

  unfoldable pub fetch_data_cross : Cpu B → Cpu B
  unfolding fetch_data page_crossed
  fetch_data_cross c =
      index_of c.instr.addr_mode (fetch_data c)
        (λ reg.
          if page_crossed c.abs_addr reg
          then (let (val, c1) = read c.abs_addr c in record c1 { fetched_data = val })
          else c)
        c.x c.y

  unfoldable pub write_fetched : ℕ → Cpu B → Cpu B
  write_fetched val c =
      if is_implied c.instr.addr_mode
      then record c { acc = val }
      else if is_immediate c.instr.addr_mode
      then c
      else write c.abs_addr val c

  unfoldable pub read_instr : Cpu B → ℕ × Cpu B
  read_instr c = let (val, c1) = read c.pc c in (val, record c1 { pc = u16 (c1.pc + 1) })

  unfoldable pub read_instr_u16 : Cpu B → ℕ × Cpu B
  unfolding read_instr
  read_instr_u16 c =
      let (lo, c1) = read_instr c in let (hi, c2) = read_instr c1 in (from_le_bytes lo hi, c2)

  unfoldable pub read_u16 : ℕ → Cpu B → ℕ × Cpu B
  read_u16 addr c =
      let (lo, c1) = read addr c in
      let (hi, c2) = read (u16 (addr + 1)) c1 in (from_le_bytes lo hi, c2)

  unfoldable pub read_zp_u16 : ℕ → Cpu B → ℕ × Cpu B
  read_zp_u16 addr c =
      let (lo, c1) = read addr c in
      let (hi, c2) = read (u8 (addr + 1)) c1 in (from_le_bytes lo hi, c2)
