-- ===== src/Ppu/Ctrl.antt =====
-- tetanes-core/src/ppu/ctrl.rs: PPUCTRL ($2000), decoded when it is written.
use tetanes.Base.{ℕ, ◌+◌, ◌*◌, Bool, false, if◌then◌else◌, ◌==◌, has_bits, bit_and, bool_to_nat}

-- `bits` is the byte of the bitflags type, all of whose bits are flags.
pub record Ctrl : Type 0 where
  pub spr_select : ℕ
  pub bg_select : ℕ
  pub spr_height : ℕ
  pub master_slave : ℕ
  pub nmi_enabled : Bool
  pub nametable_addr : ℕ
  pub vram_increment : ℕ
  pub bits : ℕ

-- The last arm of the source's match is unreachable.
unfoldable pub nametable : ℕ → ℕ
nametable select =
    if select == 0
    then 0x2000
    else if select == 1
    then 0x2400
    else if select == 2
    then 0x2800
    else 0x2c00

unfoldable pub write : ℕ → Ctrl → Ctrl
unfolding nametable
write val c = record {
  spr_select = bool_to_nat (has_bits val 0x08) * 0x1000;
  bg_select = bool_to_nat (has_bits val 0x10) * 0x1000;
  spr_height = bool_to_nat (has_bits val 0x20) * 8 + 8;
  master_slave = bool_to_nat (has_bits val 0x40);
  nmi_enabled = has_bits val 0x80;
  nametable_addr = nametable (bit_and val 0x03);
  vram_increment = bool_to_nat (has_bits val 0x04) * 31 + 1;
  bits = val;
}

unfoldable pub new : Ctrl
unfolding write
new = write 0 (record {
  spr_select = 0;
  bg_select = 0;
  spr_height = 0;
  master_slave = 0;
  nmi_enabled = false;
  nametable_addr = 0;
  vram_increment = 0;
  bits = 0;
})

unfoldable pub nametable_select : Ctrl → ℕ
nametable_select c = bit_and c.bits 0x03

unfoldable pub reset : Ctrl → Ctrl
unfolding write
reset c = write 0 c
