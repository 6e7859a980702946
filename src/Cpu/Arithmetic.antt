-- ===== src/Cpu/Arithmetic.antt =====
-- tetanes-core/src/cpu/instr.rs: the official operations on bytes.
use tetanes.Base.{ℕ, ◌+◌, ltb, ◌==◌, u8, sub_u8, bit_and, bit_or, bit_xor}
use tetanes.Cpu.Status.{Status}
use tetanes.Cpu.State.{BusOps, Cpu, set_zn_status}
use tetanes.Cpu.Fetch.{fetch_data_cross, fetch_data, write_fetched}
use tetanes.Cpu.Alu.{
  add_with_carry, sub_with_carry, shift_left, shift_right, rotate_left, rotate_right, compare_flags,
}

module _ {B : Type 0} ⦃ops : BusOps B⦄ where
  abbrev pub set_acc : ℕ × Status → Cpu B → Cpu B
  set_acc (acc, status) c = record c { acc = acc; status = status }

  unfoldable pub adc : Cpu B → Cpu B
  adc c =
      let c1 = fetch_data_cross c in set_acc (add_with_carry c1.fetched_data c1.acc c1.status) c1

  unfoldable pub sbc : Cpu B → Cpu B
  sbc c =
      let c1 = fetch_data_cross c in set_acc (sub_with_carry c1.fetched_data c1.acc c1.status) c1

  -- A read, the dummy write of the value read and the state after them.
  unfoldable pub fetch_modify : Cpu B → Cpu B
  fetch_modify c = let c1 = fetch_data c in write_fetched c1.fetched_data c1

  unfoldable pub dec : Cpu B → Cpu B
  unfolding fetch_modify
  dec c =
      let c1 = fetch_modify c in
      let val = sub_u8 c1.fetched_data 1 in set_zn_status val (write_fetched val c1)

  unfoldable pub dex : Cpu B → Cpu B
  dex c = let x = sub_u8 c.x 1 in set_zn_status x (record c { x = x })

  unfoldable pub dey : Cpu B → Cpu B
  dey c = let y = sub_u8 c.y 1 in set_zn_status y (record c { y = y })

  unfoldable pub inc : Cpu B → Cpu B
  unfolding fetch_modify
  inc c =
      let c1 = fetch_modify c in
      let val = u8 (c1.fetched_data + 1) in write_fetched val (set_zn_status val c1)

  unfoldable pub inx : Cpu B → Cpu B
  inx c = let x = u8 (c.x + 1) in set_zn_status x (record c { x = x })

  unfoldable pub iny : Cpu B → Cpu B
  iny c = let y = u8 (c.y + 1) in set_zn_status y (record c { y = y })

  unfoldable pub and : Cpu B → Cpu B
  and c =
      let c1 = fetch_data_cross c in
      let acc = bit_and c1.acc c1.fetched_data in set_zn_status acc (record c1 { acc = acc })

  unfoldable pub eor : Cpu B → Cpu B
  eor c =
      let c1 = fetch_data_cross c in
      let acc = bit_xor c1.acc c1.fetched_data in set_zn_status acc (record c1 { acc = acc })

  unfoldable pub ora : Cpu B → Cpu B
  ora c =
      let c1 = fetch_data_cross c in
      let acc = bit_or c1.acc c1.fetched_data in set_zn_status acc (record c1 { acc = acc })

  unfoldable pub bit : Cpu B → Cpu B
  bit c =
      let c1 = fetch_data_cross c in
      record c1 {
        status = record (c1.status) {
          zero_flag = bit_and c1.acc c1.fetched_data == 0;
          negative = ltb 0 (bit_and c1.fetched_data 128);
          overflow = ltb 0 (bit_and c1.fetched_data 64);
        };
      }

  -- The value and the flags of a shift, written back.
  unfoldable pub modify_with : (ℕ → Status → ℕ × Status) → Cpu B → Cpu B
  unfolding fetch_modify
  modify_with shift c =
      let c1 = fetch_modify c in
      let (val, status) = shift c1.fetched_data c1.status in
      write_fetched val (set_zn_status val (record c1 { status = status }))

  unfoldable pub asl : Cpu B → Cpu B
  unfolding modify_with
  asl c = modify_with shift_left c

  unfoldable pub lsr : Cpu B → Cpu B
  unfolding modify_with
  lsr c = modify_with shift_right c

  unfoldable pub rol : Cpu B → Cpu B
  unfolding modify_with
  rol c = modify_with rotate_left c

  unfoldable pub ror : Cpu B → Cpu B
  unfolding modify_with
  ror c = modify_with rotate_right c

  unfoldable pub compare : ℕ → ℕ → Cpu B → Cpu B
  compare a b c = record c { status = compare_flags a b c.status }

  unfoldable pub cmp : Cpu B → Cpu B
  unfolding compare
  cmp c = let c1 = fetch_data_cross c in compare c1.acc c1.fetched_data c1

  unfoldable pub cpx : Cpu B → Cpu B
  unfolding compare
  cpx c = let c1 = fetch_data c in compare c1.x c1.fetched_data c1

  unfoldable pub cpy : Cpu B → Cpu B
  unfolding compare
  cpy c = let c1 = fetch_data c in compare c1.y c1.fetched_data c1
