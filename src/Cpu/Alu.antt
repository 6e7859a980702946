-- ===== src/Cpu/Alu.antt =====
-- tetanes-core/src/cpu/instr.rs: the arithmetic on bytes that its operations share, ADC with RRA,
-- SBC with ISB, ROL with RLA and ROR with RRA.
pub mod Signs
pub mod Laws
use tetanes.Base.{
  ℕ, ◌+◌, ◌-◌, ◌*◌, ◌/◌, ◌%◌, Bool, not, ◌&&◌, ◌||◌, if◌then◌else◌, ltb, leb, ◌==◌, bool_to_nat, u8,
  sub_u8, bit_and, bit_or, bit_xor,
}
use tetanes.Cpu.Status.{Status}
use tetanes.Cpu.State.{set_zn}

-- `overflowing_add` and `overflowing_sub` of a byte.
abbrev pub overflowing_add : ℕ → ℕ → ℕ × Bool
overflowing_add a b = (u8 (a + b), leb 256 (a + b))

abbrev pub overflowing_sub : ℕ → ℕ → ℕ × Bool
overflowing_sub a b = (sub_u8 a b, ltb a b)

unfoldable pub add_with_carry : ℕ → ℕ → Status → ℕ × Status
unfolding set_zn
add_with_carry val a s =
    let (x1, o1) = overflowing_add val a in
    let (x2, o2) = overflowing_add x1 (bool_to_nat s.carry) in
    (
      x2,
      set_zn x2 (record s {
        carry = o1 || o2;
        overflow = (bit_and (bit_xor a val) 128 == 0) && not (bit_and (bit_xor a x2) 128 == 0);
      }),
    )

unfoldable pub sub_with_carry : ℕ → ℕ → Status → ℕ × Status
unfolding set_zn
sub_with_carry val a s =
    let (x1, o1) = overflowing_sub a val in
    let (x2, o2) = overflowing_sub x1 (1 - bool_to_nat s.carry) in
    (
      x2,
      set_zn x2 (record s {
        carry = not (o1 || o2);
        overflow = not (bit_and (bit_xor a val) 128 == 0) && not (bit_and (bit_xor a x2) 128 == 0);
      }),
    )

-- The carry and the byte of a shift or rotation.
unfoldable pub shift_left : ℕ → Status → ℕ × Status
shift_left m s = (u8 (m * 2), record s { carry = ltb 0 (bit_and (m / 128) 1) })

unfoldable pub shift_right : ℕ → Status → ℕ × Status
shift_right m s = (m / 2, record s { carry = ltb 0 (bit_and m 1) })

unfoldable pub rotate_left : ℕ → Status → ℕ × Status
rotate_left m s =
    (bit_or (u8 (m * 2)) (bool_to_nat s.carry), record s { carry = ltb 0 (bit_and (m / 128) 1) })

unfoldable pub rotate_right : ℕ → Status → ℕ × Status
rotate_right m s =
    let ret = m / 2 + m % 2 * 128 in
    (if s.carry then bit_or ret 128 else bit_and ret 127, record s { carry = ltb 0 (bit_and m 1) })

-- The flags of a comparison.
unfoldable pub compare_flags : ℕ → ℕ → Status → Status
unfolding set_zn
compare_flags a b s = record (set_zn (sub_u8 a b) s) { carry = leb b a }
