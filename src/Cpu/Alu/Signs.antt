-- ===== src/Cpu/Alu/Signs.antt =====
-- The sign bit of a byte and of the exclusive or of two bytes.
use tetanes.Base.{ℕ, ◌+◌, ◌*◌, ◌/◌, ◌%◌, ◌^◌, ◌<◌, ◌≡◌, ◌∙◌, ap, arith, leb, ◌==◌, bit_and, bit_xor}
use tetanes.Base.Bits.{bit_and_bit, bit_xor_bits, bit_xor_split, bit_xor_lt}

-- The test of the sign bits of two bytes.
pub bit_xor_sign :
    (a b : ℕ) → a < 256 → b < 256 → (bit_and (bit_xor a b) 128 == 0) ≡ (a / 128 == b / 128)
bit_xor_sign a b ha hb =
    let low = bit_xor_lt 7 (a % 128) (b % 128) (omega arith) (omega arith) in
    let top = bit_xor_bits (a / 128) (b / 128) (omega arith) (omega arith) in
    let bit = bit_and_bit 7 (bit_xor a b) in
    let ea : a ≡ a / 128 * 2 ^ 7 + a % 128 = omega arith in
    let eb : b ≡ b / 128 * 2 ^ 7 + b % 128 = omega arith in
    let parts : bit_xor a b ≡ bit_xor (a / 128) (b / 128) * 2 ^ 7 + bit_xor (a % 128) (b % 128) =
      ap (λ t. bit_xor t b) ea
      ∙ ap (bit_xor (a / 128 * 2 ^ 7 + a % 128)) eb
      ∙ bit_xor_split 7 (a / 128) (b / 128) (a % 128) (b % 128) (omega arith) (omega arith) in
    ground arith

-- The test of `set_zn_status`.
pub negative-byte : (n : ℕ) → n < 256 → (bit_and n 128 == 128) ≡ leb 128 n
negative-byte n h = ground (arith, bit_and_bit 7 n)
