-- ===== src/Tests/CpuAluLaws.antt =====
-- Inputs for the theorems of Cpu.Alu.Laws.
use tetanes.Base.{◌+◌, ◌-◌, ◌*◌, ◌<◌, ◌≡◌, arith, not, ◌&&◌, ltb, leb, ◌==◌, bool_to_nat}
use tetanes.Cpu.Alu.{add_with_carry, sub_with_carry}
use tetanes.Cpu.Status.{power_on_status}
use tetanes.Cpu.Alu.Laws.{add_with_carry-sum, signed_above, sub_with_carry-difference}

add_with_carry-sum_example :
    let (r, s') = add_with_carry 80 80 power_on_status in
    let t = signed_above 80 + signed_above 80 + bool_to_nat power_on_status.carry in
    (r + 256 * bool_to_nat s'.carry ≡ 80 + 80 + bool_to_nat power_on_status.carry)
    × (r < 256)
    × (s'.overflow ≡ not (leb 128 t && ltb t 384))
    × (s'.zero_flag ≡ (r == 0))
    × (s'.negative ≡ leb 128 r)
add_with_carry-sum_example = add_with_carry-sum 80 80 power_on_status (omega arith) (omega arith)

sub_with_carry-difference_example :
    let (r, s') = sub_with_carry 176 80 power_on_status in
    let t = signed_above 80 + bool_to_nat power_on_status.carry + 255 - signed_above 176 in
    (r + 176 + 1 + 256 * bool_to_nat s'.carry ≡ 80 + bool_to_nat power_on_status.carry + 256)
    × (r < 256)
    × (s'.overflow ≡ not (leb 128 t && ltb t 384))
    × (s'.zero_flag ≡ (r == 0))
    × (s'.negative ≡ leb 128 r)
sub_with_carry-difference_example =
    sub_with_carry-difference 176 80 power_on_status (omega arith) (omega arith)
