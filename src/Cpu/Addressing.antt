-- ===== src/Cpu/Addressing.antt =====
-- tetanes-core/src/cpu/instr.rs: the addressing modes.
pub mod Pages
use tetanes.Base.{ℕ, ◌+◌, if◌then◌else◌, ◌==◌, u8, u16, from_le_bytes, bit_and, bit_or}
use tetanes.Cpu.Instr.{
  AddrMode, m_imm, m_zp0, m_zpx, m_zpy, m_abs, m_abx, m_aby, m_ind, m_idx, m_idy, m_rel, m_acc,
  m_imp,
}
use tetanes.Cpu.State.{BusOps, Cpu}
use tetanes.Cpu.Access.{read}
use tetanes.Cpu.Fetch.{read_instr, read_instr_u16, read_u16, read_zp_u16}

-- The page of the one and the offset of the other address.
unfoldable pub uncarried : ℕ → ℕ → ℕ
uncarried addr abs_addr = bit_or (bit_and addr 65280) (bit_and abs_addr 255)

module _ {B : Type 0} ⦃ops : BusOps B⦄ where
  unfoldable pub acc_mode : Cpu B → Cpu B
  acc_mode c = (read c.pc c).1

  unfoldable pub imp : Cpu B → Cpu B
  imp c = (read c.pc c).1

  unfoldable pub imm : Cpu B → Cpu B
  imm c = record c { abs_addr = c.pc; pc = u16 (c.pc + 1) }

  unfoldable pub zp0 : Cpu B → Cpu B
  zp0 c = let (addr, c1) = read_instr c in record c1 { abs_addr = addr }

  unfoldable pub zpx : Cpu B → Cpu B
  zpx c =
      let (addr, c1) = read_instr c in
      let c2 = (read addr c1).1 in record c2 { abs_addr = bit_and (u16 (addr + c2.x)) 255 }

  unfoldable pub zpy : Cpu B → Cpu B
  zpy c =
      let (addr, c1) = read_instr c in
      let c2 = (read addr c1).1 in record c2 { abs_addr = bit_and (u16 (addr + c2.y)) 255 }

  unfoldable pub rel : Cpu B → Cpu B
  rel c = let (addr, c1) = read_instr c in record c1 { rel_addr = addr }

  unfoldable pub abs : Cpu B → Cpu B
  abs c = let (addr, c1) = read_instr_u16 c in record c1 { abs_addr = addr }

  -- `abs_addr` of an address and an index, with the read at the address of the uncarried sum.
  unfoldable pub indexed : ℕ → ℕ → Cpu B → Cpu B
  unfolding uncarried
  indexed addr reg c =
      let c1 = record c { abs_addr = u16 (addr + reg) } in
      let (val, c2) = read (uncarried addr c1.abs_addr) c1 in record c2 { fetched_data = val }

  unfoldable pub abx : Cpu B → Cpu B
  unfolding indexed
  abx c = let (addr, c1) = read_instr_u16 c in indexed addr c1.x c1

  unfoldable pub aby : Cpu B → Cpu B
  unfolding indexed
  aby c = let (addr, c1) = read_instr_u16 c in indexed addr c1.y c1

  -- The high byte of a pointer at the end of a page comes from the start of the same page.
  unfoldable pub ind : Cpu B → Cpu B
  ind c =
      let (addr, c1) = read_instr_u16 c in
      if bit_and addr 255 == 255
      then (let (lo, c2) = read addr c1 in
          let (hi, c3) = read (bit_and addr 65280) c2 in
          record c3 { abs_addr = from_le_bytes lo hi })
      else (let (ptr, c2) = read_u16 addr c1 in record c2 { abs_addr = ptr })

  unfoldable pub idx : Cpu B → Cpu B
  idx c =
      let (addr, c1) = read_instr c in
      let c2 = (read addr c1).1 in
      let (ptr, c3) = read_zp_u16 (u8 (addr + c2.x)) c2 in record c3 { abs_addr = ptr }

  unfoldable pub idy : Cpu B → Cpu B
  unfolding indexed
  idy c = let (zp, c1) = read_instr c in let (addr, c2) = read_zp_u16 zp c1 in indexed addr c2.y c2

  -- The first `match` of `clock`.
  unfoldable pub address : AddrMode → Cpu B → Cpu B
  unfolding acc_mode imp imm zp0 zpx zpy rel abs abx aby ind idx idy
  address m_imm c = imm c
  address m_zp0 c = zp0 c
  address m_zpx c = zpx c
  address m_zpy c = zpy c
  address m_abs c = abs c
  address m_abx c = abx c
  address m_aby c = aby c
  address m_ind c = ind c
  address m_idx c = idx c
  address m_idy c = idy c
  address m_rel c = rel c
  address m_acc c = acc_mode c
  address m_imp c = imp c
