-- ===== src/Ppu/Evaluation/Bounds.antt =====
-- The positions of the sprite evaluation stay inside their memories or at the end of the secondary
-- one.
use tetanes.Base.{
  length-set, length-replicate, ℕ, ◌+◌, ◌-◌, ◌*◌, ◌^◌, ◌≤◌, ◌<◌, ◌≡◌, refl, ◌∙◌, ap, arith, Bool,
  true, false, if◌then◌else◌, ltb, ◌==◌, Bool-cases, inl, inr, length, set, bit_and, bit_or, u8,
  ◌<<<◌, ◌>>>◌,
}
use tetanes.Base.Bits.{bit_and-le, bit_or_fields}
use tetanes.Mapper.{within}
use tetanes.Ppu.State.{Ppu}
use tetanes.Ppu.Evaluation.{
  clear_secondary, start_evaluation, end_evaluation, next_sprite, idle, check_range, copy_byte,
  count_overflow, check_overflow, write_secondary, store_oamaddr, evaluate_byte, evaluate_sprites,
}

module _ {M : Type 0} where
  -- The positions are inside the memory of the sprites and at most at the end of the secondary one,
  -- and at most eight sprites are counted.
  pub record IsValid (p : Ppu M) : Type 0 where
    pub lo_lt : p.oamaddr_lo < 4
    pub hi_lt : p.oamaddr_hi < 64
    pub oamaddr_lt : p.oamaddr < 256
    pub secondary_le : p.secondary_oamaddr ≤ 32
    pub count_le : p.overflow_count ≤ 3
    pub sprites_le : p.spr_count ≤ 8
    pub oam_size : length p.oamdata ≡ 256
    pub secondary_size : length p.secondary_oamdata ≡ 32

  -- What a cycle of the evaluation keeps.
  abbrev kept : Ppu M → ℕ × ℕ × ℕ
  kept p = (p.oamaddr, p.spr_count, length p.oamdata)

  moved :
      {p q : Ppu M}
      → IsValid p
      → kept q ≡ kept p
      → q.oamaddr_lo < 4
      → q.oamaddr_hi < 64
      → q.secondary_oamaddr ≤ 32
      → q.overflow_count ≤ 3
      → length q.secondary_oamdata ≡ 32
      → IsValid q
  moved {p} {q} v same lo hi secondary count size =
      let at : q.oamaddr ≡ p.oamaddr = ap (λ (k : ℕ × ℕ × ℕ). k.0) same in
      let sprites : q.spr_count ≡ p.spr_count = ap (λ (k : ℕ × ℕ × ℕ). k.1) same in
      let oam : length q.oamdata ≡ length p.oamdata = ap (λ (k : ℕ × ℕ × ℕ). k.2) same in
      record {
        lo_lt = lo;
        hi_lt = hi;
        oamaddr_lt = omega (arith, at, v.oamaddr_lt);
        secondary_le = secondary;
        count_le = count;
        sprites_le = omega (arith, sprites, v.sprites_le);
        oam_size = oam ∙ v.oam_size;
        secondary_size = size;
      }

  branch :
      {p q : Ppu M} (c : Bool)
      → (c ≡ true → IsValid p)
      → (c ≡ false → IsValid q)
      → IsValid (if c then p else q)
  branch true first second = first refl
  branch false first second = second refl

  next_sprite-lt : (p : Ppu M) → next_sprite p < 64
  next_sprite-lt p = omega (arith, bit_and-le (p.oamaddr_hi + 1) 0x3f)

  clear_secondary-IsValid : (p : Ppu M) → IsValid p → IsValid (clear_secondary p)
  unfolding clear_secondary
  clear_secondary-IsValid p v =
      moved v refl v.lo_lt v.hi_lt v.secondary_le v.count_le (length-replicate {A = ℕ} 32 0xff)

  start_evaluation-IsValid : (p : Ppu M) → IsValid p → IsValid (start_evaluation p)
  unfolding start_evaluation
  start_evaluation-IsValid p v =
      moved v refl (omega (arith, bit_and-le p.oamaddr 0x03))
        (omega (arith, bit_and-le (p.oamaddr >>> 2) 0x3f)) (omega arith) v.count_le v.secondary_size

  end_evaluation-IsValid : (p : Ppu M) → IsValid p → IsValid (end_evaluation p)
  unfolding end_evaluation
  end_evaluation-IsValid p v = record {
    lo_lt = v.lo_lt;
    hi_lt = v.hi_lt;
    oamaddr_lt = v.oamaddr_lt;
    secondary_le = v.secondary_le;
    count_le = v.count_le;
    sprites_le = omega (arith, v.secondary_le);
    oam_size = v.oam_size;
    secondary_size = v.secondary_size;
  }

  idle-IsValid : (p : Ppu M) → IsValid p → IsValid (idle p)
  unfolding idle
  idle-IsValid p v =
      moved v refl v.lo_lt (next_sprite-lt p) v.secondary_le v.count_le v.secondary_size

  check_range-IsValid : (p : Ppu M) → IsValid p → IsValid (check_range p)
  unfolding check_range
  check_range-IsValid p v = moved v refl v.lo_lt v.hi_lt v.secondary_le v.count_le v.secondary_size

  copy_byte-IsValid : (p : Ppu M) → p.secondary_oamaddr < 32 → IsValid p → IsValid (copy_byte p)
  unfolding copy_byte
  copy_byte-IsValid p lt v =
      let size : length (set p.secondary_oamdata (bit_and p.secondary_oamaddr 0x1f) p.oam_fetch)
          ≡ 32 =
        length-set p.secondary_oamdata (bit_and p.secondary_oamaddr 0x1f) p.oam_fetch
        ∙ v.secondary_size in
      let lo_lt = v.lo_lt in
      elim (Bool-cases p.spr_in_range) [
        | inl e ↦ elim (Bool-cases (p.oamaddr_lo + 1 == 4)) [
          | inl f ↦
              rw (e, f)
                (moved v refl (omega arith) (next_sprite-lt p) (omega arith) v.count_le size)
          | inr f ↦
              let inside : p.oamaddr_lo + 1 < 4 = ground arith in
              rw (e, f) (moved v refl inside v.hi_lt (omega arith) v.count_le size)
        ]
        | inr e ↦ rw e (moved v refl lo_lt (next_sprite-lt p) v.secondary_le v.count_le size)
      ]

  count_overflow-IsValid : (p : Ppu M) → IsValid p → IsValid (count_overflow p)
  unfolding count_overflow
  count_overflow-IsValid p v =
      let le = v.count_le in
      let less : p.overflow_count - 1 ≤ 3 = omega arith in
      elim (Bool-cases (p.overflow_count == 0)) [
        | inl e ↦ rw e (moved v refl v.lo_lt v.hi_lt v.secondary_le (omega arith) v.secondary_size)
        | inr e ↦ elim (Bool-cases (p.overflow_count - 1 == 0)) [
          | inl f ↦
              rw (e, f) (moved v refl (omega arith) v.hi_lt v.secondary_le less v.secondary_size)
          | inr f ↦ rw (e, f) (moved v refl v.lo_lt v.hi_lt v.secondary_le less v.secondary_size)
        ]
      ]

  check_overflow-IsValid : (p : Ppu M) → IsValid p → IsValid (check_overflow p)
  unfolding check_overflow
  check_overflow-IsValid p v =
      let lo_lt = v.lo_lt in
      elim (Bool-cases p.spr_in_range) [
        | inl e ↦ elim (Bool-cases (p.oamaddr_lo + 1 == 4)) [
          | inl f ↦
              rw (e, f)
                (count_overflow-IsValid _ (
                  moved v refl (omega arith) (next_sprite-lt p) v.secondary_le v.count_le
                    v.secondary_size))
          | inr f ↦
              let inside : p.oamaddr_lo + 1 < 4 = ground arith in
              rw (e, f)
                (count_overflow-IsValid _
                  (moved v refl inside v.hi_lt v.secondary_le v.count_le v.secondary_size))
        ]
        | inr e ↦ rw e (
            moved v refl (omega (arith, bit_and-le (p.oamaddr_lo + 1) 0x03)) (next_sprite-lt p)
              v.secondary_le v.count_le v.secondary_size)
      ]

  write_secondary-IsValid : (p : Ppu M) → IsValid p → IsValid (write_secondary p)
  unfolding write_secondary
  write_secondary-IsValid p v =
      let range = check_range-IsValid p v in
      branch p.oam_eval_done (λ e. idle-IsValid p v)
        (λ e.
          branch (ltb p.secondary_oamaddr 0x20)
            (λ f.
              (let lt : p.secondary_oamaddr < 32 = ground arith in
                copy_byte-IsValid (check_range p) lt range))
            (λ f. check_overflow-IsValid (check_range p) range))

  store_oamaddr-IsValid : (p : Ppu M) → IsValid p → IsValid (store_oamaddr p)
  unfolding store_oamaddr
  store_oamaddr-IsValid p v =
      let lo : bit_and p.oamaddr_lo 3 < 4 = omega (arith, bit_and-le p.oamaddr_lo 3) in
      let hi : u8 (p.oamaddr_hi <<< 2) ≡ p.oamaddr_hi * 2 ^ 2 = omega (arith, v.hi_lt) in
      let word : bit_or (u8 (p.oamaddr_hi <<< 2)) (bit_and p.oamaddr_lo 3)
          ≡ p.oamaddr_hi * 2 ^ 2 + bit_and p.oamaddr_lo 3 =
        ap (λ h. bit_or h (bit_and p.oamaddr_lo 3)) hi
        ∙ bit_or_fields 2 p.oamaddr_hi (bit_and p.oamaddr_lo 3) lo in
      record {
        lo_lt = v.lo_lt;
        hi_lt = v.hi_lt;
        oamaddr_lt = omega (arith, word, lo, v.hi_lt);
        secondary_le = v.secondary_le;
        count_le = v.count_le;
        sprites_le = v.sprites_le;
        oam_size = v.oam_size;
        secondary_size = v.secondary_size;
      }

  evaluate_byte-IsValid : (p : Ppu M) → IsValid p → IsValid (evaluate_byte p)
  unfolding evaluate_byte
  evaluate_byte-IsValid p v = elim (Bool-cases (bit_and p.cycle 0x01 == 0x01)) [
    | inl e ↦ rw e (moved v refl v.lo_lt v.hi_lt v.secondary_le v.count_le v.secondary_size)
    | inr e ↦ rw e (store_oamaddr-IsValid (write_secondary p) (write_secondary-IsValid p v))
  ]

  -- A cycle of the sprite evaluation keeps its position inside the sprite memory and the one in the
  -- secondary memory at most at its end, where it stands behind eight sprites, at any cycle of a line
  -- and whatever the memories hold, and counts at most eight sprites.
  pub evaluate_sprites-IsValid : (p : Ppu M) → IsValid p → IsValid (evaluate_sprites p)
  unfolding evaluate_sprites
  evaluate_sprites-IsValid p v = elim (Bool-cases (within p.cycle 1 64)) [
    | inl a ↦ rw a (clear_secondary-IsValid p v)
    | inr a ↦ elim (Bool-cases (within p.cycle 65 256)) [
      | inl b ↦ elim (Bool-cases (p.cycle == 65)) [
        | inl c ↦
            rw (a, b, c) (evaluate_byte-IsValid (start_evaluation p) (start_evaluation-IsValid p v))
        | inr c ↦ elim (Bool-cases (p.cycle == 256)) [
          | inl d ↦
              rw (a, b, c, d)
                (evaluate_byte-IsValid (end_evaluation p) (end_evaluation-IsValid p v))
          | inr d ↦ rw (a, b, c, d) (evaluate_byte-IsValid p v)
        ]
      ]
      | inr b ↦ rw (a, b) v
    ]
  ]
