-- ===== src/Ppu/Scroll/Moves.antt =====
-- The moves of v during rendering, against their description on the fields of a position.
use tetanes.Base.{
  ℕ, ◌+◌, ◌-◌, ◌*◌, ◌/◌, ◌%◌, ◌<◌, ◌≡◌, refl, arith, bit_and, bit_or, bit_xor, if◌then◌else◌, ◌==◌,
}
use tetanes.Base.Bits.Masks.{bit_or_masks, bit_xor_bit, bit_and_idem}
use tetanes.Ppu.Scroll.{Scroll, increment_x, increment_y, copy_x, copy_y, set_v}
use tetanes.Ppu.Scroll.Fields.{
  Position, decode, and_coarse_x, and_coarse_y, and_fine_y, and_not_coarse_x, and_not_coarse_y,
  and_not_fine_y, and_x, and_not_x, and_y, and_not_y,
}

-- One tile to the right: behind the last of 32 columns comes the first of the other nametable.
abbrev pub next_column : Position → Position
next_column p =
    if p.coarse_x == 31
    then record p { coarse_x = 0; nt_x = 1 - p.nt_x }
    else record p { coarse_x = p.coarse_x + 1 }

-- One line down: behind the eight lines of a tile comes the next row. Row 29 is the last of a
-- nametable; row 31, out of bounds, wraps without a change of nametable.
abbrev pub next_line : Position → Position
next_line p =
    if p.fine_y == 7
    then (if p.coarse_y == 29
        then record p { fine_y = 0; coarse_y = 0; nt_y = 1 - p.nt_y }
        else if p.coarse_y == 31
        then record p { fine_y = 0; coarse_y = 0 }
        else record p { fine_y = 0; coarse_y = p.coarse_y + 1 })
    else record p { fine_y = p.fine_y + 1 }

-- The copies of the fields of v that the record keeps.
pub record IsSynced (s : Scroll) : Type 0 where
  pub coarse_x_eq : s.coarse_x ≡ s.v % 32
  pub coarse_y_eq : s.coarse_y ≡ s.v / 32 % 32
  pub fine_y_eq : s.fine_y ≡ s.v / 4096

pub set_v-IsSynced : (val : ℕ) (s : Scroll) → IsSynced (set_v val s)
unfolding set_v
set_v-IsSynced val s = ground (arith, and_coarse_x val, and_coarse_y val)

-- v one column on, in numbers.
abbrev column : ℕ → ℕ
column v =
    if v % 32 == 31 then (if v / 1024 % 2 == 0 then v - 31 + 1024 else v - 31 - 1024) else v + 1

increment_x-v : (s : Scroll) → s.v < 0x8000 → increment_x s ≡ set_v (column s.v) s
unfolding increment_x
increment_x-v s h =
    let cleared = bit_and s.v 0xffe0 in
    ground (arith, and_coarse_x s.v, and_not_coarse_x s.v, bit_xor_bit 10 cleared)

column-decode : (v : ℕ) → v < 0x8000 → decode (column v) ≡ next_column (decode v)
column-decode v h = ground arith

column-lt : (v : ℕ) → v < 0x8000 → column v < 0x8000
column-lt v h = ground arith

-- `increment_x` moves a 15-bit v one column on, keeps it in 15 bits, and keeps the copies in step.
pub increment_x-next_column :
    (s : Scroll)
    → s.v < 0x8000
    → (decode (increment_x s).v ≡ next_column (decode s.v))
      × ((increment_x s).v < 0x8000)
      × IsSynced (increment_x s)
unfolding set_v
increment_x-next_column s h =
    rw (increment_x-v s h) (column-decode s.v h, column-lt s.v h, set_v-IsSynced (column s.v) s)

or_rows : (v y : ℕ) → y < 32 → bit_or (bit_and v 0xfc1f) (y * 32) ≡ bit_and v 0xfc1f + y * 32
or_rows v y h =
    bit_or_masks (bit_and v 0xfc1f) (y * 32) 0xfc1f 0x03e0 (bit_and_idem v 0xfc1f)
      (omega (arith, and_coarse_y (y * 32))) refl

-- v one line down, in numbers.
abbrev line : ℕ → ℕ
line v =
    if v / 4096 % 8 == 7
    then (let top = v - 7 * 4096 in
        if v / 32 % 32 == 29
        then (if v / 2048 % 2 == 0 then top - 29 * 32 + 2048 else top - 29 * 32 - 2048)
        else if v / 32 % 32 == 31
        then top - 31 * 32
        else top + 32)
    else v + 4096

line-decode : (v : ℕ) → v < 0x8000 → decode (line v) ≡ next_line (decode v)
line-decode v h = ground arith

line-lt : (v : ℕ) → v < 0x8000 → line v < 0x8000
line-lt v h = ground arith

increment_y-v : (s : Scroll) → s.v < 0x8000 → increment_y s ≡ set_v (line s.v) s
unfolding increment_y
increment_y-v s h =
    let top = bit_and s.v 0x8fff in
    let row = s.v / 32 % 32 in
    let flipped = bit_xor top 0x0800 in
    ground (
      arith,
      and_fine_y s.v,
      and_not_fine_y s.v,
      and_coarse_y top,
      bit_xor_bit 11 top,
      and_not_coarse_y flipped,
      and_not_coarse_y top,
      or_rows flipped 0 (omega arith),
      or_rows top 0 (omega arith),
      or_rows top (row + 1),
    )

-- `increment_y` moves a 15-bit v one line down, keeps it in 15 bits, and keeps the copies in step.
pub increment_y-next_line :
    (s : Scroll)
    → s.v < 0x8000
    → (decode (increment_y s).v ≡ next_line (decode s.v))
      × ((increment_y s).v < 0x8000)
      × IsSynced (increment_y s)
unfolding set_v
increment_y-next_line s h =
    rw (increment_y-v s h) (line-decode s.v h, line-lt s.v h, set_v-IsSynced (line s.v) s)

or_x :
    (v t : ℕ) → bit_or (bit_and v 0xfbe0) (bit_and t 0x041f) ≡ bit_and v 0xfbe0 + bit_and t 0x041f
or_x v t =
    bit_or_masks (bit_and v 0xfbe0) (bit_and t 0x041f) 0xfbe0 0x041f (bit_and_idem v 0xfbe0)
      (bit_and_idem t 0x041f) refl

or_y :
    (v t : ℕ) → bit_or (bit_and v 0x841f) (bit_and t 0x7be0) ≡ bit_and v 0x841f + bit_and t 0x7be0
or_y v t =
    bit_or_masks (bit_and v 0x841f) (bit_and t 0x7be0) 0x841f 0x7be0 (bit_and_idem v 0x841f)
      (bit_and_idem t 0x7be0) refl

-- `copy_x` takes the column and the horizontal nametable from t, and the rest from v.
pub copy_x-decode :
    (s : Scroll)
    → s.v < 0x8000
    → decode (copy_x s).v
      ≡ record (decode s.v) { nt_x = (decode s.t).nt_x; coarse_x = (decode s.t).coarse_x }
unfolding copy_x set_v
copy_x-decode s h = ground (arith, or_x s.v s.t, and_not_x s.v, and_x s.t)

-- `copy_y` takes the line, the row and the vertical nametable from t, and the rest from v.
pub copy_y-decode :
    (s : Scroll)
    → s.v < 0x8000
    → decode (copy_y s).v
      ≡ record (decode s.t) { nt_x = (decode s.v).nt_x; coarse_x = (decode s.v).coarse_x }
unfolding copy_y set_v
copy_y-decode s h = ground (arith, or_y s.v s.t, and_not_y s.v, and_y s.t)
