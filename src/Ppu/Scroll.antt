-- ===== src/Ppu/Scroll.antt =====
-- tetanes-core/src/ppu/scroll.rs: the scroll registers v and t, shared by PPUSCROLL and PPUADDR.
pub mod Fields
pub mod Moves
pub mod Writes
use tetanes.Base.{
  ℕ, ◌+◌, ◌-◌, Bool, true, false, not, if◌then◌else◌, ltb, ◌==◌, bit_and, bit_or, bit_xor, ◌<<<◌,
  ◌>>>◌, u16, not_u16,
}
use tetanes.Common.{ResetKind, is_hard}

pub record Scroll : Type 0 where
  pub fine_x : ℕ
  pub coarse_x : ℕ
  pub fine_y : ℕ
  pub coarse_y : ℕ
  pub v : ℕ
  pub t : ℕ
  pub write_latch : Bool
  pub delay_v_cycles : ℕ
  pub delay_v : ℕ

abbrev pub coarse_x_mask : ℕ
coarse_x_mask = 0x001f

abbrev pub coarse_y_mask : ℕ
coarse_y_mask = 0x03e0

abbrev pub nt_x_mask : ℕ
nt_x_mask = 0x0400

abbrev pub nt_y_mask : ℕ
nt_y_mask = 0x0800

abbrev pub fine_y_mask : ℕ
fine_y_mask = 0x7000

unfoldable pub new : Scroll
new = record {
  fine_x = 0;
  coarse_x = 0;
  fine_y = 0;
  coarse_y = 0;
  v = 0;
  t = 0;
  write_latch = false;
  delay_v_cycles = 0;
  delay_v = 0;
}

unfoldable pub attr_addr : Scroll → ℕ
attr_addr s =
    let nametable_select = bit_and s.v (bit_or nt_x_mask nt_y_mask) in
    let y_bits = bit_and (s.v >>> 4) 0x38 in
    let x_bits = bit_and (s.v >>> 2) 0x07 in
    bit_or (bit_or (bit_or 0x23c0 nametable_select) y_bits) x_bits

unfoldable pub attr_shift : Scroll → ℕ
attr_shift s = bit_or (bit_and s.v 0x02) (bit_and (s.v >>> 4) 0x04)

unfoldable pub addr : Scroll → ℕ
addr s = bit_and s.v 0x3fff

-- PPUSCROLL: X on the first write, Y on the second.
unfoldable pub write : ℕ → Scroll → Scroll
write val s =
    let s' =
      if s.write_latch
      then record s {
        t =
            bit_or
              (bit_or (bit_and s.t (not_u16 (bit_or fine_y_mask coarse_y_mask)))
                (bit_and (val >>> 3) 0x1f <<< 5))
              (bit_and val 0x07 <<< 12);
      }
      else record s {
        t = bit_or (bit_and s.t (not_u16 coarse_x_mask)) (bit_and (val >>> 3) 0x1f);
        fine_x = bit_and val 0x07;
      } in
    record s' { write_latch = not s.write_latch }

-- PPUADDR: the upper six bits on the first write, the lower eight on the second.
unfoldable pub write_addr : ℕ → Scroll → Scroll
write_addr val s =
    let s' =
      if s.write_latch
      then (let t = bit_or (bit_and s.t 0x7f00) val in
          record s { t = t; delay_v_cycles = 2; delay_v = t })
      else record s { t = bit_or (bit_and s.t 0x00ff) (bit_and val 0x3f <<< 8) } in
    record s' { write_latch = not s.write_latch }

unfoldable pub set_v : ℕ → Scroll → Scroll
set_v val s = record s {
  v = val;
  coarse_x = bit_and val coarse_x_mask;
  fine_y = val >>> 12;
  coarse_y = bit_and val coarse_y_mask >>> 5;
}

-- The result tells whether v was updated.
unfoldable pub delayed_update : Scroll → Scroll × Bool
delayed_update s =
    if ltb 0 s.delay_v_cycles
    then (let s' = record s { delay_v_cycles = s.delay_v_cycles - 1 } in
        if s'.delay_v_cycles == 0 then (set_v s'.delay_v s', true) else (s', false))
    else (s, false)

unfoldable pub increment : ℕ → Scroll → Scroll
increment val s = set_v (u16 (s.v + val)) s

unfoldable pub copy_x : Scroll → Scroll
copy_x s =
    let x_mask = bit_or nt_x_mask coarse_x_mask in
    set_v (bit_or (bit_and s.v (not_u16 x_mask)) (bit_and s.t x_mask)) s

unfoldable pub copy_y : Scroll → Scroll
copy_y s =
    let y_mask = bit_or (bit_or fine_y_mask nt_y_mask) coarse_y_mask in
    set_v (bit_or (bit_and s.v (not_u16 y_mask)) (bit_and s.t y_mask)) s

unfoldable pub increment_x : Scroll → Scroll
increment_x s =
    if bit_and s.v coarse_x_mask == 31
    then set_v (bit_xor (bit_and s.v (not_u16 coarse_x_mask)) nt_x_mask) s
    else set_v (u16 (s.v + 1)) s

-- The row and v when fine Y has overflowed: row 29 switches the nametable, row 31 does not.
carry_row : ℕ → ℕ → ℕ × ℕ
carry_row y v = if y == 29 then (0, bit_xor v nt_y_mask) else if y == 31 then (0, v) else (y + 1, v)

unfoldable pub increment_y : Scroll → Scroll
unfolding carry_row
increment_y s =
    if bit_and s.v fine_y_mask == fine_y_mask
    then (let v = bit_and s.v (not_u16 fine_y_mask) in
        let (y, v') = carry_row (bit_and v coarse_y_mask >>> 5) v in
        set_v (bit_or (bit_and v' (not_u16 coarse_y_mask)) (y <<< 5)) s)
    else set_v (u16 (s.v + 0x1000)) s

unfoldable pub reset_latch : Scroll → Scroll
reset_latch s = record s { write_latch = false }

unfoldable pub write_nametable_select : ℕ → Scroll → Scroll
write_nametable_select val s =
    let nt_mask = bit_or nt_y_mask nt_x_mask in
    record s { t = bit_or (bit_and s.t (not_u16 nt_mask)) (bit_and val 0x03 <<< 10) }

unfoldable pub reset : ResetKind → Scroll → Scroll
reset kind s =
    let s' = if is_hard kind then record s { v = 0 } else s in
    record s' { fine_x = 0; write_latch = false; delay_v_cycles = 0; delay_v = 0 }
