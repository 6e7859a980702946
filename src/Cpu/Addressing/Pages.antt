-- ===== src/Cpu/Addressing/Pages.antt =====
-- The addresses of the indexed modes and of branches against sums of numbers.
use tetanes.Base.{
  ℕ, ◌+◌, ◌-◌, ◌*◌, ◌/◌, ◌%◌, ◌<◌, ◌≡◌, ◌∙◌, ap, arith, false, not, if◌then◌else◌, ltb, ◌==◌, u16,
  bit_and, bit_or,
}
use tetanes.Base.Bits.{bit_and_bit, bit_and_mask, bit_and_field, bit_or_fields, bit_or_fields_right}
use tetanes.Cpu.Fetch.{page_crossed}
use tetanes.Cpu.Addressing.{uncarried}
use tetanes.Cpu.Flow.{branch_target, pages_differ}

page_of : (a : ℕ) → a < 65536 → bit_and a 65280 ≡ a / 256 * 256
page_of a h = omega (arith, bit_and_field 8 a 255, bit_and_mask 8 (a / 256))

-- An indexed mode first reads in the page of the address without the index. `fetch_data_cross`
-- reads again exactly where the sum lies in another page; where it does not, the first read was
-- at the sum.
uncarried-page_crossed :
    (addr reg : ℕ)
    → addr < 65536
    → reg < 256
    → let sum = u16 (addr + reg) in
      (uncarried addr sum ≡ addr / 256 * 256 + sum % 256)
      × (page_crossed sum reg ≡ not (addr / 256 == (addr + reg) / 256))
      × (page_crossed sum reg ≡ false → uncarried addr sum ≡ sum)
unfolding uncarried page_crossed
uncarried-page_crossed addr reg ha hr =
    let sum = u16 (addr + reg) in
    let low = bit_and_mask 8 sum in
    let join : bit_or (bit_and addr 65280) (bit_and sum 255) ≡ addr / 256 * 256 + sum % 256 =
      ap (λ p. bit_or p (bit_and sum 255)) (page_of addr ha)
      ∙ ap (bit_or (addr / 256 * 256)) low
      ∙ bit_or_fields 8 (addr / 256) (sum % 256) (omega arith) in
    (join, ground arith, λ h. join ∙ ground arith)

-- A branch goes to the sum of the program counter and the offset as a signed byte, modulo 65536,
-- and pays for a page where the high bytes differ.
pub branch_target-signed :
    (pc off : ℕ)
    → pc < 65536
    → off < 256
    → let target = branch_target pc off in
      (target ≡ (if ltb off 128 then (pc + off) % 65536 else (pc + 65536 - (256 - off)) % 65536))
      × (pages_differ target pc ≡ not (target / 256 == pc / 256))
      × (target < 65536)
unfolding branch_target pages_differ
branch_target-signed pc off hp ho =
    let sign = bit_and_bit 7 off in
    let ext : bit_or off 65280 ≡ off + 65280 = omega (arith, bit_or_fields_right 8 255 off ho) in
    let target = branch_target pc off in
    let small : target < 65536 = ground arith in
    let p = page_of target small in let q = page_of pc hp in (ground arith, ground arith, small)
