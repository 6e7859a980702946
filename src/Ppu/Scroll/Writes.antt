-- ===== src/Ppu/Scroll/Writes.antt =====
-- The CPU's pairs of writes to PPUSCROLL and PPUADDR, and the attribute address.
use tetanes.Base.{ℕ, ◌+◌, ◌*◌, ◌/◌, ◌%◌, ◌<◌, ◌≡◌, refl, arith, bit_and, bit_or, true, false}
use tetanes.Base.Bits.{bit_and_mask, bit_and_field, bit_or_fields, bit_or_fields_right}
use tetanes.Base.Bits.Masks.{bit_or_masks, bit_and_idem}
use tetanes.Ppu.Scroll.{Scroll, write, write_addr, delayed_update, set_v, attr_addr}
use tetanes.Ppu.Scroll.Fields.{
  decode, and_coarse_y, and_fine_y, and_not_coarse_x, and_not_rows, and_not_fine_y, and_nametable,
}

-- The t of the second PPUSCROLL write, as a sum.
second_t :
    (t y : ℕ)
    → t < 0x8000
    → y < 256
    → bit_or (bit_or (bit_and t 0x8c1f) (y / 8 * 32)) (y % 8 * 4096)
      ≡ t / 1024 % 4 * 1024 + t % 32 + y / 8 * 32 + y % 8 * 4096
second_t t y ht hy =
    let kept = bit_and t 0x8c1f in
    let rows =
      bit_or_masks kept (y / 8 * 32) 0x8c1f 0x03e0 (bit_and_idem t 0x8c1f)
        (omega (arith, and_coarse_y (y / 8 * 32))) refl in
    let low = kept + y / 8 * 32 in
    let lines =
      bit_or_masks low (y % 8 * 4096) 0x8fff 0x7000
        (omega (arith, and_not_fine_y low, and_not_rows t))
        (omega (arith, and_fine_y (y % 8 * 4096))) refl in
    rw rows (omega (arith, lines, and_not_rows t))

first_t : (t x : ℕ) → t < 0x8000 → x < 256 → bit_or (bit_and t 0xffe0) (x / 8) ≡ t / 32 * 32 + x / 8
first_t t x ht hx =
    rw (and_not_coarse_x t) (omega (arith, bit_or_fields 5 (t / 32 % 2048) (x / 8) (omega arith)))

-- The two writes of PPUSCROLL, X then Y, put the upper five bits of each value into t's coarse
-- fields, the lower three into fine X and t's fine Y, keep t's nametable, and leave the latch as
-- it was before them; v is not touched.
pub write-write :
    (x y : ℕ) (s : Scroll)
    → s.write_latch ≡ false
    → s.t < 0x8000
    → x < 256
    → y < 256
    → let s' = write y (write x s) in
      (decode s'.t ≡ record (decode s.t) { fine_y = y % 8; coarse_y = y / 8; coarse_x = x / 8 })
      × (s'.fine_x ≡ x % 8)
      × (s'.write_latch ≡ false)
      × (s'.v ≡ s.v)
unfolding write
write-write x y s l ht hx hy =
    let t1 = bit_or (bit_and s.t 0xffe0) (x / 8) in
    let first = first_t s.t x ht hx in
    ground (
      arith,
      first,
      second_t t1 y (omega (arith, first)) hy,
      bit_and_mask 5 (x / 8),
      bit_and_mask 3 x,
      bit_and_mask 5 (y / 8),
      bit_and_mask 3 y,
    )

-- The two writes of PPUADDR set t to the 14-bit address, and the second of the two delayed updates
-- behind them, not the first, carries it over to v.
pub write_addr-delayed :
    (hi lo : ℕ) (s : Scroll)
    → s.write_latch ≡ false
    → hi < 256
    → lo < 256
    → let s' = write_addr lo (write_addr hi s) in
      let (s1, updated1) = delayed_update s' in
      let (s2, updated2) = delayed_update s1 in
      (s'.v ≡ s.v)
      × (updated1 ≡ false)
      × (s1.v ≡ s.v)
      × (updated2 ≡ true)
      × (s2.v ≡ hi % 64 * 256 + lo)
      × (s2.t ≡ hi % 64 * 256 + lo)
      × (s2.write_latch ≡ false)
unfolding write_addr delayed_update set_v
write_addr-delayed hi lo s l hh hl =
    let t1 = bit_or (bit_and s.t 0xff) (bit_and hi 0x3f * 256) in
    let first : t1 ≡ hi % 64 * 256 + s.t % 256 =
      rw (bit_and_mask 8 s.t, bit_and_mask 6 hi)
        (bit_or_fields_right 8 (hi % 64) (s.t % 256) (omega arith)) in
    let second : bit_or (bit_and t1 0x7f00) lo ≡ hi % 64 * 256 + lo =
      rw (bit_and_field 8 t1 0x7f, bit_and_mask 7 (t1 / 256))
        (omega (arith, bit_or_fields 8 (t1 / 256 % 128) lo hl, first)) in
    ground (arith, second)

-- The attribute address: 0x23c0, the nametable's kilobyte, and one byte for four rows by four
-- columns of tiles.
pub attr_addr_lem :
    (s : Scroll)
    → let p = decode s.v in
      attr_addr s ≡ 0x23c0 + (2 * p.nt_y + p.nt_x) * 1024 + p.coarse_y / 4 * 8 + p.coarse_x / 4
unfolding attr_addr
attr_addr_lem s =
    let nt = bit_and s.v 0x0c00 in
    let q = 0x8f + s.v / 1024 % 4 * 16 in
    let m = s.v / 128 % 8 in
    let rows : bit_and (s.v / 16) 0x38 ≡ m * 8 =
      omega (arith, bit_and_field 3 (s.v / 16) 7, bit_and_mask 3 (s.v / 16 / 8)) in
    let base : bit_or 0x23c0 nt ≡ q * 64 = omega (
      arith,
      bit_or_masks 0x23c0 nt 0x23c0 0x0c00 refl (bit_and_idem s.v 0x0c00) refl,
      and_nametable s.v,
    ) in
    let middle : (q * 8 + m) * 8 ≡ q * 64 + m * 8 = omega arith in
    rw (base, rows, bit_or_fields 6 q (m * 8) (omega arith), ← middle, bit_and_mask 3 (s.v / 4))
      (omega (arith, bit_or_fields 3 (q * 8 + m) (s.v / 4 % 8) (omega arith)))
