-- ===== src/Ppu/Status.antt =====
-- tetanes-core/src/ppu/status.rs: PPUSTATUS ($2002), a byte with a copy of its flags.
use tetanes.Base.{ℕ, ◌-◌, Bool, false, if◌then◌else◌, has_bits, bit_and, bit_or}
use tetanes.Common.{ResetKind, soft, hard}

pub record Status : Type 0 where
  pub spr_overflow : Bool
  pub spr_zero_hit : Bool
  pub in_vblank : Bool
  pub bits : ℕ

-- `Bits::set` and `Bits::remove`, on a byte.
abbrev pub put_flag : ℕ → Bool → ℕ → ℕ
put_flag m b bits = if b then bit_or bits m else bit_and bits (0xff - m)

-- The source sets `spr_overflow` from the flag SPR_ZERO_HIT.
unfoldable pub write : ℕ → Status → Status
write val s = record {
  spr_overflow = has_bits val 0x40;
  spr_zero_hit = has_bits val 0x40;
  in_vblank = has_bits val 0x80;
  bits = val;
}

unfoldable pub new : Status
unfolding write
new = write 0 (record { spr_overflow = false; spr_zero_hit = false; in_vblank = false; bits = 0 })

unfoldable pub read : Status → ℕ
read s = s.bits

unfoldable pub set_spr_overflow : Bool → Status → Status
set_spr_overflow val s = record s { bits = put_flag 0x20 val s.bits; spr_overflow = val }

unfoldable pub set_spr_zero_hit : Bool → Status → Status
set_spr_zero_hit val s = record s { bits = put_flag 0x40 val s.bits; spr_zero_hit = val }

unfoldable pub set_in_vblank : Bool → Status → Status
set_in_vblank val s = record s { bits = put_flag 0x80 val s.bits; in_vblank = val }

unfoldable pub reset_in_vblank : Status → Status
reset_in_vblank s = record s { bits = bit_and s.bits (0xff - 0x80); in_vblank = false }

unfoldable pub reset : ResetKind → Status → Status
unfolding set_in_vblank set_spr_zero_hit set_spr_overflow
reset soft s = s
reset hard s = set_spr_overflow false (set_spr_zero_hit false (set_in_vblank false s))
