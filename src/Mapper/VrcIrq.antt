-- ===== src/Mapper/VrcIrq.antt =====
-- `VrcIrq` of tetanes-core/src/mapper/vrc_irq.rs: the interrupt counter of the VRC boards. The
-- prescaler, an i16, is kept within its range by wrapping at 2 ^ 16, its negative numbers from
-- 2 ^ 15 on.
use tetanes.Base.{ℕ, ◌+◌, Bool, false, ◌||◌, if◌then◌else◌, leb, ◌==◌, has_bits, u16, sub_u16}
use tetanes.Common.{ResetKind}
use tetanes.Cpu.Lines.{Lines, IrqSource, set_irq, clear_irq}

pub record VrcIrq : Type 0 where
  pub reload : ℕ
  pub counter : ℕ
  pub prescalar_counter : ℕ
  pub enabled : Bool
  pub enabled_after_ack : Bool
  pub cycle_mode : Bool

unfoldable pub write_reload : ℕ → VrcIrq → VrcIrq
write_reload val v = record v { reload = val }

unfoldable pub write_control : ℕ → VrcIrq → Lines → VrcIrq × Lines
write_control val v l =
    let v1 = record v {
      enabled_after_ack = has_bits val 0x01;
      enabled = has_bits val 0x02;
      cycle_mode = has_bits val 0x04;
    } in
    (
      if v1.enabled then record v1 { counter = v1.reload; prescalar_counter = 341 } else v1,
      clear_irq IrqSource.mapper l,
    )

unfoldable pub acknowledge : VrcIrq → Lines → VrcIrq × Lines
acknowledge v l = (record v { enabled = v.enabled_after_ack }, clear_irq IrqSource.mapper l)

-- `prescalar_counter <= 0`.
abbrev pub spent : ℕ → Bool
spent n = (n == 0) || leb 32768 n

-- A step of the counter, which raises the line when it leaves 0xFF.
unfoldable pub clock_counter : VrcIrq → Lines → VrcIrq × Lines
clock_counter v l =
    if v.counter == 0xff
    then (record v { counter = v.reload }, set_irq IrqSource.mapper l)
    else (record v { counter = v.counter + 1 }, l)

unfoldable pub clock : VrcIrq → Lines → ℕ × VrcIrq × Lines
unfolding clock_counter
clock v l =
    if v.enabled
    then (let v1 = record v { prescalar_counter = sub_u16 v.prescalar_counter 3 } in
        let (v2, l2) = clock_counter v1 l in
        if v1.cycle_mode || spent v1.prescalar_counter
        then (1, record v2 { prescalar_counter = u16 (v2.prescalar_counter + 341) }, l2)
        else (1, v1, l))
    else (0, v, l)

unfoldable pub reset : ResetKind → VrcIrq → VrcIrq
reset kind v = record {
  reload = 0;
  counter = 0;
  prescalar_counter = 0;
  enabled = false;
  enabled_after_ack = false;
  cycle_mode = false;
}
