-- ===== src/Cpu/Alu/Laws.antt =====
-- The arithmetic of ADC, SBC, the comparisons and the rotations against numbers.
use tetanes.Base.{
  ℕ, ◌+◌, ◌-◌, ◌*◌, ◌/◌, ◌%◌, ◌^◌, ◌<◌, ◌≡◌, ◌∙◌, ap, refl, arith, Bool, true, false, not, ◌&&◌,
  if◌then◌else◌, ltb, leb, ◌==◌, bool_to_nat, ==_iff, all_below, all_below_sound, u8, sub_u8,
  bit_and, bit_or,
}
use tetanes.Base.Bits.{bit_and-one, bit_and_mask, bit_or_fields}
use tetanes.Cpu.Status.{Status}
use tetanes.Cpu.State.{set_zn}
use tetanes.Cpu.Alu.{add_with_carry, sub_with_carry, rotate_left, rotate_right, compare_flags}
use tetanes.Cpu.Alu.Signs.{bit_xor_sign, negative-byte}

-- The number that a byte stands for in two's complement, plus 128.
abbrev pub signed_above : ℕ → ℕ
signed_above n = if ltb n 128 then n + 128 else n - 128

-- ADC: the byte and the carry are the digits of the sum of the two bytes and the carry; V is set
-- where the sum of the signed numbers is outside of -128 to 127, Z at 0 and N from 128.
pub add_with_carry-sum :
    (val a : ℕ) (s : Status)
    → val < 256
    → a < 256
    → let (r, s') = add_with_carry val a s in
      let t = signed_above a + signed_above val + bool_to_nat s.carry in
      (r + 256 * bool_to_nat s'.carry ≡ a + val + bool_to_nat s.carry)
      × (r < 256)
      × (s'.overflow ≡ not (leb 128 t && ltb t 384))
      × (s'.zero_flag ≡ (r == 0))
      × (s'.negative ≡ leb 128 r)
unfolding add_with_carry set_zn
add_with_carry-sum val a s hv ha =
    let r = u8 (u8 (val + a) + bool_to_nat s.carry) in
    let small : r < 256 = ground arith in
    let same = bit_xor_sign a val ha hv in
    let kept = bit_xor_sign a r ha small in
    (ground arith, small, ground arith, refl, negative-byte r small)

-- SBC: the byte is the difference of the two bytes and the borrow (the carry's complement) modulo
-- 256 and the carry is clear where it is negative; V is set where the difference of the signed
-- numbers is outside of -128 to 127, Z at 0 and N from 128.
pub sub_with_carry-difference :
    (val a : ℕ) (s : Status)
    → val < 256
    → a < 256
    → let (r, s') = sub_with_carry val a s in
      let t = signed_above a + bool_to_nat s.carry + 255 - signed_above val in
      (r + val + 1 + 256 * bool_to_nat s'.carry ≡ a + bool_to_nat s.carry + 256)
      × (r < 256)
      × (s'.overflow ≡ not (leb 128 t && ltb t 384))
      × (s'.zero_flag ≡ (r == 0))
      × (s'.negative ≡ leb 128 r)
unfolding sub_with_carry set_zn
sub_with_carry-difference val a s hv ha =
    let r = sub_u8 (sub_u8 a val) (1 - bool_to_nat s.carry) in
    let small : r < 256 = ground arith in
    let same = bit_xor_sign a val ha hv in
    let kept = bit_xor_sign a r ha small in
    (ground arith, small, ground arith, refl, negative-byte r small)

-- CMP, CPX and CPY: C, Z and N tell the order of the two bytes.
pub compare_flags-order :
    (a b : ℕ) (s : Status)
    → a < 256
    → b < 256
    → ((compare_flags a b s).carry ≡ leb b a)
      × ((compare_flags a b s).zero_flag ≡ (a == b))
      × ((compare_flags a b s).negative ≡ (if leb b a then leb 128 (a - b) else leb b (a + 128)))
unfolding compare_flags set_zn
compare_flags-order a b s ha hb =
    let small : sub_u8 a b < 256 = ground arith in
    let sign = negative-byte (sub_u8 a b) small in (refl, ground arith, ground arith)

rotated_left :
    (m : ℕ) (c : Bool) → m < 256 → bit_or (u8 (m * 2)) (bool_to_nat c) ≡ m % 128 * 2 + bool_to_nat c
rotated_left m c h =
    let e : u8 (m * 2) ≡ m % 128 * 2 ^ 1 = omega arith in
    ap (λ t. bit_or t (bool_to_nat c)) e ∙ bit_or_fields 1 (m % 128) (bool_to_nat c) (ground arith)

rotated_right :
    (m : ℕ) (c : Bool)
    → m < 256
    → (let ret = m / 2 + m % 2 * 128 in if c then bit_or ret 128 else bit_and ret 127)
      ≡ m / 2 + 128 * bool_to_nat c
unfolding all_below
rotated_right m false h = omega (arith, bit_and_mask 7 (m / 2 + m % 2 * 128))
rotated_right m true h =
    (==_iff _ _).0
      (all_below_sound 256 (λ m. bit_or (m / 2 + m % 2 * 128) 128 == m / 2 + 128) m refl h)

high_bit : (m : ℕ) → m < 256 → ltb 0 (bit_and (m / 128) 1) ≡ (m / 128 == 1)
high_bit m h = ground (arith, bit_and-one (m / 128))

low_bit : (m : ℕ) → ltb 0 (bit_and m 1) ≡ (m % 2 == 1)
low_bit m = ground (arith, bit_and-one m)

-- ROR undoes ROL and ROL undoes ROR, with the carry as the ninth bit of the byte.
pub rotate-rotate :
    (m : ℕ) (s : Status)
    → m < 256
    → (let (l, s') = rotate_left m s in
        let (r, s2) = rotate_right l s' in
        (r ≡ m)
        × (s2.carry ≡ s.carry)
        × (l + 256 * bool_to_nat s'.carry ≡ 2 * m + bool_to_nat s.carry))
      × (let (r, s') = rotate_right m s in
          let (l, s2) = rotate_left r s' in (l ≡ m) × (s2.carry ≡ s.carry))
unfolding rotate_left rotate_right
rotate-rotate m s h =
    let l = m % 128 * 2 + bool_to_nat s.carry in
    let r = m / 2 + 128 * bool_to_nat s.carry in
    let l-lt : l < 256 = ground arith in
    let r-lt : r < 256 = ground arith in
    (
      rw (rotated_left m s.carry h, high_bit m h, rotated_right l (m / 128 == 1) l-lt, low_bit l)
          (ground arith, ground arith, ground arith),
      rw (rotated_right m s.carry h, low_bit m, rotated_left r (m % 2 == 1) r-lt, high_bit r r-lt)
          (ground arith, ground arith),
    )
