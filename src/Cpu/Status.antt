-- ===== src/Cpu/Status.antt =====
-- tetanes-core/src/cpu.rs: the status register `bitflags! struct Status`, a field for each flag.
pub mod Bits
use tetanes.Base.{ℕ, ◌+◌, ◌*◌, ◌/◌, ◌%◌, Bool, true, false, ◌==◌, bool_to_nat}

pub record Status : Type 0 where
  pub carry : Bool
  pub zero_flag : Bool
  pub interrupt : Bool
  pub decimal : Bool
  pub brk : Bool
  pub unused : Bool
  pub overflow : Bool
  pub negative : Bool

-- `Status::U.union(Status::I)`.
abbrev pub power_on_status : Status
power_on_status = record {
  carry = false;
  zero_flag = false;
  interrupt = true;
  decimal = false;
  brk = false;
  unused = true;
  overflow = false;
  negative = false;
}

-- `bits()`: C is bit 0 and N is bit 7.
unfoldable pub bits : Status → ℕ
bits s =
    bool_to_nat s.carry
    + 2 * bool_to_nat s.zero_flag
    + 4 * bool_to_nat s.interrupt
    + 8 * bool_to_nat s.decimal
    + 16 * bool_to_nat s.brk
    + 32 * bool_to_nat s.unused
    + 64 * bool_to_nat s.overflow
    + 128 * bool_to_nat s.negative

unfoldable pub from_bits_truncate : ℕ → Status
from_bits_truncate n = record {
  carry = n % 2 == 1;
  zero_flag = n / 2 % 2 == 1;
  interrupt = n / 4 % 2 == 1;
  decimal = n / 8 % 2 == 1;
  brk = n / 16 % 2 == 1;
  unused = n / 32 % 2 == 1;
  overflow = n / 64 % 2 == 1;
  negative = n / 128 % 2 == 1;
}
