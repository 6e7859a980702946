-- ===== src/Tests/PpuScrollWrites.antt =====
-- Inputs for the theorems of Ppu.Scroll.Writes.
use tetanes.Base.{◌+◌, ◌*◌, ◌/◌, ◌%◌, ◌≡◌, refl, arith, true, false}
use tetanes.Ppu.Scroll.{write, write_addr, delayed_update}
use tetanes.Ppu.Scroll.Fields.{decode}
use tetanes.Ppu.Scroll.{new}
use tetanes.Ppu.Scroll.Writes.{write-write, write_addr-delayed}

write-write_example :
    let s' = write 94 (write 125 new) in
    (decode s'.t ≡ record (decode new.t) { fine_y = 94 % 8; coarse_y = 94 / 8; coarse_x = 125 / 8 })
    × (s'.fine_x ≡ 125 % 8)
    × (s'.write_latch ≡ false)
    × (s'.v ≡ new.v)
unfolding new
write-write_example = write-write 125 94 new refl (omega arith) (omega arith) (omega arith)

write_addr-delayed_example :
    let s' = write_addr 0x08 (write_addr 0x21 new) in
    let (s1, updated1) = delayed_update s' in
    let (s2, updated2) = delayed_update s1 in
    (s'.v ≡ new.v)
    × (updated1 ≡ false)
    × (s1.v ≡ new.v)
    × (updated2 ≡ true)
    × (s2.v ≡ 0x21 % 64 * 256 + 0x08)
    × (s2.t ≡ 0x21 % 64 * 256 + 0x08)
    × (s2.write_latch ≡ false)
unfolding new
write_addr-delayed_example = write_addr-delayed 0x21 0x08 new refl (omega arith) (omega arith)
