-- ===== src/Ppu/Scroll/Fields.antt =====
-- The fields of v and t, `yyy NN YYYYY XXXXX`, and what the masks of scroll.rs leave of a word.
use tetanes.Base.{ℕ, ◌+◌, ◌*◌, ◌/◌, ◌%◌, ◌≡◌, ◌∙◌, ap, arith, bit_and}
use tetanes.Base.Bits.{bit_and_mask, bit_and_field}
use tetanes.Base.Bits.Masks.{bit_and_join}

-- A scroll position by its fields.
pub record Position : Type 0 where
  pub fine_y : ℕ
  pub nt_y : ℕ
  pub nt_x : ℕ
  pub coarse_y : ℕ
  pub coarse_x : ℕ

abbrev pub decode : ℕ → Position
decode v = record {
  fine_y = v / 4096 % 8;
  nt_y = v / 2048 % 2;
  nt_x = v / 1024 % 2;
  coarse_y = v / 32 % 32;
  coarse_x = v % 32;
}

pub and_coarse_x : (v : ℕ) → bit_and v 0x001f ≡ v % 32
and_coarse_x v = bit_and_mask 5 v

pub and_coarse_y : (v : ℕ) → bit_and v 0x03e0 ≡ v / 32 % 32 * 32
and_coarse_y v = bit_and_field 5 v 31 ∙ ap (λ (t : ℕ). t * 32) (bit_and_mask 5 (v / 32))

pub and_nametable : (v : ℕ) → bit_and v 0x0c00 ≡ v / 1024 % 4 * 1024
and_nametable v = bit_and_field 10 v 3 ∙ ap (λ (t : ℕ). t * 1024) (bit_and_mask 2 (v / 1024))

pub and_fine_y : (v : ℕ) → bit_and v 0x7000 ≡ v / 4096 % 8 * 4096
and_fine_y v = bit_and_field 12 v 7 ∙ ap (λ (t : ℕ). t * 4096) (bit_and_mask 3 (v / 4096))

pub and_not_coarse_x : (v : ℕ) → bit_and v 0xffe0 ≡ v / 32 % 2048 * 32
and_not_coarse_x v = bit_and_field 5 v 0x7ff ∙ ap (λ (t : ℕ). t * 32) (bit_and_mask 11 (v / 32))

pub and_not_coarse_y : (v : ℕ) → bit_and v 0xfc1f ≡ v / 1024 % 64 * 1024 + v % 32
and_not_coarse_y v = omega (
  arith,
  bit_and_join 10 v 0x3f 0x1f (omega arith),
  bit_and_mask 6 (v / 1024),
  bit_and_mask 5 (v % 1024),
)

pub and_not_fine_y : (v : ℕ) → bit_and v 0x8fff ≡ v / 32768 % 2 * 32768 + v % 4096
and_not_fine_y v = omega (
  arith,
  bit_and_join 15 v 1 0xfff (omega arith),
  bit_and_mask 1 (v / 32768),
  bit_and_mask 12 (v % 32768),
)

pub and_x : (v : ℕ) → bit_and v 0x041f ≡ v / 1024 % 2 * 1024 + v % 32
and_x v = omega (
  arith,
  bit_and_join 10 v 1 0x1f (omega arith),
  bit_and_mask 1 (v / 1024),
  bit_and_mask 5 (v % 1024),
)

pub and_not_x : (v : ℕ) → bit_and v 0xfbe0 ≡ v / 2048 % 32 * 2048 + v / 32 % 32 * 32
and_not_x v = omega (
  arith,
  bit_and_join 11 v 31 0x3e0 (omega arith),
  bit_and_mask 5 (v / 2048),
  and_coarse_y (v % 2048),
)

pub and_y : (v : ℕ) → bit_and v 0x7be0 ≡ v / 2048 % 16 * 2048 + v / 32 % 32 * 32
and_y v = omega (
  arith,
  bit_and_join 11 v 15 0x3e0 (omega arith),
  bit_and_mask 4 (v / 2048),
  and_coarse_y (v % 2048),
)

pub and_not_y : (v : ℕ) → bit_and v 0x841f ≡ v / 32768 % 2 * 32768 + v / 1024 % 2 * 1024 + v % 32
and_not_y v = omega (
  arith,
  bit_and_join 10 v 33 0x1f (omega arith),
  bit_and_mask 5 (v % 1024),
  bit_and_join 5 (v / 1024) 1 1 (omega arith),
  bit_and_mask 1 (v / 1024 / 32),
  bit_and_mask 1 (v / 1024 % 32),
)

pub and_not_nametable : (v : ℕ) → bit_and v 0xf3ff ≡ v / 4096 % 16 * 4096 + v % 1024
and_not_nametable v = omega (
  arith,
  bit_and_join 12 v 15 0x3ff (omega arith),
  bit_and_mask 4 (v / 4096),
  bit_and_mask 10 (v % 4096),
)

pub and_not_rows : (v : ℕ) → bit_and v 0x8c1f ≡ v / 32768 % 2 * 32768 + v / 1024 % 4 * 1024 + v % 32
and_not_rows v = omega (
  arith,
  bit_and_join 10 v 35 0x1f (omega arith),
  bit_and_mask 5 (v % 1024),
  bit_and_join 5 (v / 1024) 1 3 (omega arith),
  bit_and_mask 1 (v / 1024 / 32),
  bit_and_mask 2 (v / 1024 % 32),
)
