-- ===== src/Cpu/Unofficial.antt =====
-- tetanes-core/src/cpu/instr.rs: the unofficial operations. `wrapping_shr(8)` of a byte shifts by
-- 8 modulo 8 bits, so it leaves the byte.
use tetanes.Base.{
  ℕ, ◌+◌, ◌*◌, ◌/◌, Bool, true, false, if◌then◌else◌, ltb, ◌==◌, bool_to_nat, u8, sub_u8, sub_u32,
  from_le_bytes, bit_and, bit_or, bit_xor,
}
use tetanes.Cpu.Instr.{AddrMode, m_idy}
use tetanes.Cpu.State.{BusOps, Cpu, set_zn_status}
use tetanes.Cpu.Access.{write}
use tetanes.Cpu.Fetch.{fetch_data, write_fetched}
use tetanes.Cpu.Alu.{
  add_with_carry, sub_with_carry, shift_left, shift_right, rotate_left, rotate_right, compare_flags,
}
use tetanes.Cpu.Storage.{lda, tsx, tax}
use tetanes.Cpu.Arithmetic.{set_acc, fetch_modify}

abbrev is_idy : AddrMode → Bool
is_idy m_idy = true
is_idy _ = false

module _ {B : Type 0} ⦃ops : BusOps B⦄ where
  unfoldable pub isb : Cpu B → Cpu B
  isb c =
      let c1 = fetch_modify c in
      let val = u8 (c1.fetched_data + 1) in
      write_fetched val (set_acc (sub_with_carry val c1.acc c1.status) c1)

  unfoldable pub dcp : Cpu B → Cpu B
  dcp c =
      let c1 = fetch_modify c in
      let val = sub_u8 c1.fetched_data 1 in
      write_fetched val (record c1 { status = compare_flags c1.acc val c1.status })

  unfoldable pub axs : Cpu B → Cpu B
  axs c =
      let c1 = fetch_data c in
      let t = sub_u32 (bit_and c1.acc c1.x) c1.fetched_data in
      let c2 = set_zn_status (bit_and t 255) c1 in
      record c2 {
        status = record (c2.status) { carry = bit_xor (bit_and (t / 256) 1) 1 == 1 };
        x = bit_and t 255;
      }

  unfoldable pub las : Cpu B → Cpu B
  las c = tsx (lda c)

  unfoldable pub lax : Cpu B → Cpu B
  lax c = tax (lda c)

  unfoldable pub ahx : Cpu B → Cpu B
  ahx c = write_fetched (bit_and (bit_and c.acc c.x) (u8 (sub_u8 c.fetched_data c.y + 1))) c

  unfoldable pub sax : Cpu B → Cpu B
  sax c =
      let c1 = if is_idy c.instr.addr_mode then fetch_data c else c in
      write_fetched (bit_and c1.acc c1.x) c1

  unfoldable pub xaa : Cpu B → Cpu B
  xaa c =
      let c1 = fetch_data c in
      let acc = bit_and (bit_and (bit_or c1.acc 238) c1.x) c1.fetched_data in
      set_zn_status acc (record c1 { acc = acc })

  -- SXA and SYA, whose register is the argument.
  store_high : ℕ → Cpu B → Cpu B
  store_high reg c =
      let hi = u8 (c.abs_addr / 256) in
      let lo = bit_and c.abs_addr 255 in
      let val = bit_and reg (u8 (hi + 1)) in
      write_fetched val (record c { abs_addr = from_le_bytes lo val })

  unfoldable pub sxa : Cpu B → Cpu B
  unfolding store_high
  sxa c = store_high c.x c

  unfoldable pub sya : Cpu B → Cpu B
  unfolding store_high
  sya c = store_high c.y c

  unfoldable pub rra : Cpu B → Cpu B
  rra c =
      let c1 = fetch_modify c in
      let (ret, status) = rotate_right c1.fetched_data c1.status in
      write_fetched ret (set_acc (add_with_carry ret c1.acc status) c1)

  unfoldable pub tas : Cpu B → Cpu B
  tas c = let c1 = write c.abs_addr c.acc c in record c1 { sp = c1.x }

  unfoldable pub arr : Cpu B → Cpu B
  arr c =
      let c1 = fetch_data c in
      let masked = bit_and c1.acc c1.fetched_data in
      let t = masked / 128 in
      let acc = bit_or (masked / 2) (u8 (bool_to_nat c1.status.carry * 128)) in
      set_zn_status acc (record c1 {
        acc = acc;
        status = record (c1.status) {
          overflow = bit_and (bit_xor masked (masked / 2)) 64 == 64;
          carry = bit_and t 1 == 1;
        };
      })

  unfoldable pub sre : Cpu B → Cpu B
  sre c =
      let c1 = fetch_modify c in
      let (val, status) = shift_right c1.fetched_data c1.status in
      let acc = bit_xor c1.acc val in
      write_fetched val (set_zn_status acc (record c1 { acc = acc; status = status }))

  unfoldable pub alr : Cpu B → Cpu B
  alr c =
      let c1 = fetch_data c in
      let masked = bit_and c1.acc c1.fetched_data in
      set_zn_status (masked / 2) (record c1 {
        acc = masked / 2;
        status = record (c1.status) { carry = bit_and masked 1 == 1 };
      })

  unfoldable pub rla : Cpu B → Cpu B
  rla c =
      let c1 = fetch_modify c in
      let (val, status) = rotate_left c1.fetched_data c1.status in
      let acc = bit_and c1.acc val in
      write_fetched val (set_zn_status acc (record c1 { acc = acc; status = status }))

  unfoldable pub anc : Cpu B → Cpu B
  anc c =
      let c1 = fetch_data c in
      let acc = bit_and c1.acc c1.fetched_data in
      let c2 = set_zn_status acc (record c1 { acc = acc }) in
      record c2 { status = record (c2.status) { carry = ltb 0 (bit_and (acc / 128) 1) } }

  -- SLO writes the shifted value back before it changes the accumulator.
  unfoldable pub slo : Cpu B → Cpu B
  slo c =
      let c1 = fetch_modify c in
      let (val, status) = shift_left c1.fetched_data c1.status in
      let c2 = write_fetched val (record c1 { status = status }) in
      let acc = bit_or c2.acc val in set_zn_status acc (record c2 { acc = acc })
