-- ===== src/Cpu/Status/Bits.antt =====
-- The status register as a byte: what PHP, BRK and interrupts push, PLP and RTI read back.
use tetanes.Base.{
  ℕ, ◌<◌, ◌≤◌, ◌≡◌, ◌+◌, ◌*◌, ◌/◌, ◌%◌, arith, refl, Bool, ◌==◌, ==_iff, all_below, all_below_sound,
  bool_to_nat,
}
use tetanes.Cpu.Status.{Status, bits, from_bits_truncate}

bool_to_nat-le : (b : Bool) → bool_to_nat b ≤ 1
bool_to_nat-le b = ground arith

bool_to_nat-digit : (b : Bool) (n k : ℕ) → n ≡ bool_to_nat b + 2 * k → (n % 2 == 1) ≡ b
bool_to_nat-digit b n k h = ground arith

pub from_bits_truncate-bits : (s : Status) → from_bits_truncate (bits s) ≡ s
unfolding bits from_bits_truncate
from_bits_truncate-bits s =
    let c = bool_to_nat-le s.carry in
    let z = bool_to_nat-le s.zero_flag in
    let i = bool_to_nat-le s.interrupt in
    let d = bool_to_nat-le s.decimal in
    let b = bool_to_nat-le s.brk in
    let u = bool_to_nat-le s.unused in
    let v = bool_to_nat-le s.overflow in
    let n = bool_to_nat-le s.negative in
    let e0 : (bits s % 2 == 1) ≡ s.carry =
      bool_to_nat-digit s.carry (bits s) (bits s / 2) (omega arith) in
    let e1 : (bits s / 2 % 2 == 1) ≡ s.zero_flag =
      bool_to_nat-digit s.zero_flag (bits s / 2) (bits s / 4) (omega arith) in
    let e2 : (bits s / 4 % 2 == 1) ≡ s.interrupt =
      bool_to_nat-digit s.interrupt (bits s / 4) (bits s / 8) (omega arith) in
    let e3 : (bits s / 8 % 2 == 1) ≡ s.decimal =
      bool_to_nat-digit s.decimal (bits s / 8) (bits s / 16) (omega arith) in
    let e4 : (bits s / 16 % 2 == 1) ≡ s.brk =
      bool_to_nat-digit s.brk (bits s / 16) (bits s / 32) (omega arith) in
    let e5 : (bits s / 32 % 2 == 1) ≡ s.unused =
      bool_to_nat-digit s.unused (bits s / 32) (bits s / 64) (omega arith) in
    let e6 : (bits s / 64 % 2 == 1) ≡ s.overflow =
      bool_to_nat-digit s.overflow (bits s / 64) (bits s / 128) (omega arith) in
    let e7 : (bits s / 128 % 2 == 1) ≡ s.negative =
      bool_to_nat-digit s.negative (bits s / 128) (bits s / 256) (omega arith) in
    λ t. record {
      carry = e0 t;
      zero_flag = e1 t;
      interrupt = e2 t;
      decimal = e3 t;
      brk = e4 t;
      unused = e5 t;
      overflow = e6 t;
      negative = e7 t;
    }

bits-byte : (n : ℕ) → n < 256 → bits (from_bits_truncate n) ≡ n
unfolding bits from_bits_truncate all_below
bits-byte n h =
    (==_iff _ _).0 (all_below_sound 256 (λ n. bits (from_bits_truncate n) == n) n refl h)

-- The byte of a status register is below 256 and reads back as that register, and a byte read
-- into the register gives itself back.
pub status_round_trip :
    (s : Status) (n : ℕ)
    → n < 256
    → (from_bits_truncate (bits s) ≡ s) × (bits (from_bits_truncate n) ≡ n) × (bits s < 256)
unfolding bits
status_round_trip s n h = (from_bits_truncate-bits s, bits-byte n h, below)
  where
    below : bits s < 256
    below = omega (
      arith,
      bool_to_nat-le s.carry,
      bool_to_nat-le s.zero_flag,
      bool_to_nat-le s.interrupt,
      bool_to_nat-le s.decimal,
      bool_to_nat-le s.brk,
      bool_to_nat-le s.unused,
      bool_to_nat-le s.overflow,
      bool_to_nat-le s.negative,
    )
