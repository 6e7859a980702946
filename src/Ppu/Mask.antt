-- ===== src/Ppu/Mask.antt =====
-- tetanes-core/src/ppu/mask.rs: PPUMASK ($2001), decoded when it is written.
use tetanes.Base.{
  ℕ, ◌*◌, Bool, false, ◌||◌, if◌then◌else◌, has_bits, bit_and, bit_or, bool_to_nat, ◌<<<◌,
}
use tetanes.Common.{NesRegion, auto, ntsc, pal, dendy}

pub record Mask : Type 0 where
  pub rendering_enabled : Bool
  pub grayscale : ℕ
  pub emphasis : ℕ
  pub show_left_bg : Bool
  pub show_left_spr : Bool
  pub show_bg : Bool
  pub show_spr : Bool
  pub region : NesRegion
  pub bits : ℕ

-- `Bits::set` on a flag that is not set yet.
abbrev flag_if : Bool → ℕ → ℕ
flag_if b m = bool_to_nat b * m

-- On PAL and Dendy red and green change places.
unfoldable pub emphasis_bits : NesRegion → ℕ → ℕ
emphasis_bits auto val = bit_and val 0xe0
emphasis_bits ntsc val = bit_and val 0xe0
emphasis_bits pal val =
    bit_or (bit_or (bit_and val 0x80) (flag_if (has_bits val 0x20) 0x40))
      (flag_if (has_bits val 0x40) 0x20)
emphasis_bits dendy val =
    bit_or (bit_or (bit_and val 0x80) (flag_if (has_bits val 0x20) 0x40))
      (flag_if (has_bits val 0x40) 0x20)

unfoldable pub write : ℕ → Mask → Mask
unfolding emphasis_bits
write val m =
    let show_bg = has_bits val 0x08 in
    let show_spr = has_bits val 0x10 in
    record {
      rendering_enabled = show_bg || show_spr;
      grayscale = if has_bits val 0x01 then 0x30 else 0x3f;
      emphasis = emphasis_bits m.region val <<< 1;
      show_left_bg = has_bits val 0x02;
      show_left_spr = has_bits val 0x04;
      show_bg = show_bg;
      show_spr = show_spr;
      region = m.region;
      bits = val;
    }

unfoldable pub new : NesRegion → Mask
unfolding write
new region = write 0 (record {
  rendering_enabled = false;
  grayscale = 0;
  emphasis = 0;
  show_left_bg = false;
  show_left_spr = false;
  show_bg = false;
  show_spr = false;
  region = region;
  bits = 0;
})

unfoldable pub set_region : NesRegion → Mask → Mask
unfolding write
set_region region m = write m.bits (record m { region = region })

unfoldable pub reset : Mask → Mask
unfolding write
reset m = write 0 m
