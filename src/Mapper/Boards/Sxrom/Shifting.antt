-- ===== src/Mapper/Boards/Sxrom/Shifting.antt =====
-- A write to the shift register of an MMC1.
use tetanes.Base.{
  ℕ, ◌+◌, ◌*◌, ◌/◌, ◌%◌, ◌<◌, ◌≤◌, ◌≡◌, refl, ◌∙◌, ap, arith, true, false, Bool-cases, inl, inr,
  if◌then◌else◌, ltb, some, bit_and, bit_or, ◌<<<◌, ◌>>>◌, ◌==◌,
}
use mathlib.Core.Option
use tetanes.Base.Bits.{bit_and_mask, bit_and_bit, bit_or_fields_right}
use tetanes.Mapper.{MappedWrite, within}
use tetanes.Mapper.Boards.Sxrom.{
  Regs, Sxrom, update_banks, fill_register, write_register, map_write,
}

-- The board with a value in the register of an address, behind a write.
abbrev pub stored : ℕ → ℕ → Regs → Regs
stored addr v r =
    let r1 = record r { write_just_occurred = 2; shift_register = 0x10 } in
    if within addr 0x8000 0x9fff
    then record r1 { control = v }
    else if within addr 0xa000 0xbfff
    then record r1 { chr0 = v }
    else if within addr 0xc000 0xdfff
    then record r1 { chr1 = v }
    else record r1 { prg = v }

shifted : (s val : ℕ) → s < 32 → bit_or (s >>> 1) (bit_and val 1 <<< 4) ≡ s / 2 + val % 2 * 16
shifted s val lt =
    let digit : bit_and val 1 ≡ val % 2 = bit_and_mask 1 val in
    let joined = bit_or_fields_right 4 (val % 2) (s / 2) (omega arith) in
    ap (λ d. bit_or (s / 2) (d * 16)) digit ∙ omega (arith, joined)

pub map_write-register :
    (addr val : ℕ) (m : Sxrom)
    → 0x8000 ≤ addr
    → addr ≤ 0xffff
    → map_write addr val m
      ≡ Option.map (λ m1. (MappedWrite.bus_write, m1)) (write_register addr val m)
unfolding map_write
map_write-register addr val m lo hi =
    let a : within addr 0x0000 0x1fff ≡ false = ground arith in
    let b : within addr 0x6000 0x7fff ≡ false = ground arith in
    let c : within addr 0x8000 0xffff ≡ true = ground arith in rw (a, b, c) refl

pub write_register-ignored :
    (addr val : ℕ) (m : Sxrom) → 0 < m.regs.write_just_occurred → write_register addr val m ≡ some m
unfolding write_register
write_register-ignored addr val m pos =
    let e : ltb 0 m.regs.write_just_occurred ≡ true = ground arith in rw e refl

no_reset : (val : ℕ) → val < 0x80 → ltb 0 (bit_and val 0x80) ≡ false
no_reset val lt = let e = bit_and_bit 7 val in ground arith

pub write_register-shifts :
    (addr val : ℕ) (m : Sxrom)
    → m.regs.write_just_occurred ≡ 0
    → m.regs.shift_register < 32
    → m.regs.shift_register % 2 ≡ 0
    → val < 0x80
    → write_register addr val m
      ≡ some (record m {
        regs = record m.regs {
          write_just_occurred = 2;
          shift_register = m.regs.shift_register / 2 + val % 2 * 16;
        };
      })
unfolding write_register
write_register-shifts addr val m free small even lt =
    let e : ltb 0 m.regs.write_just_occurred ≡ false = ground arith in
    let first : (bit_and m.regs.shift_register 1 == 1) ≡ false =
      let digit = bit_and_mask 1 m.regs.shift_register in ground arith in
    rw (e, no_reset val lt, first, shifted m.regs.shift_register val small) refl

fill_register-stored :
    (addr x : ℕ) (r : Regs)
    → x < 32
    → fill_register addr (record r { write_just_occurred = 2; shift_register = x })
      ≡ stored addr x r
unfolding fill_register
fill_register-stored addr x r lt =
    let fits : bit_and x 0x1f ≡ x = omega (arith, bit_and_mask 5 x) in
    elim (Bool-cases (within addr 0x8000 0x9fff)) [
      | inl a ↦ rw a refl
      | inr a ↦ elim (Bool-cases (within addr 0xa000 0xbfff)) [
        | inl b ↦ rw (a, b, fits) refl
        | inr b ↦ elim (Bool-cases (within addr 0xc000 0xdfff)) [
          | inl c ↦ rw (a, b, c, fits) refl
          | inr c ↦ rw (a, b, c, fits) refl
        ]
      ]
    ]

-- A board whose shift register has taken its bits but one.
pub write_register-full :
    (addr val : ℕ) (m : Sxrom)
    → m.regs.write_just_occurred ≡ 0
    → m.regs.shift_register < 32
    → m.regs.shift_register % 2 ≡ 1
    → val < 0x80
    → write_register addr val m
      ≡ update_banks addr
          (record m { regs = stored addr (m.regs.shift_register / 2 + val % 2 * 16) m.regs })
unfolding write_register
write_register-full addr val m free small odd lt =
    let x = m.regs.shift_register / 2 + val % 2 * 16 in
    let e : ltb 0 m.regs.write_just_occurred ≡ false = ground arith in
    let full : (bit_and m.regs.shift_register 1 == 1) ≡ true =
      let digit = bit_and_mask 1 m.regs.shift_register in ground arith in
    rw (e, no_reset val lt, full, shifted m.regs.shift_register val small)
      (ap (λ r. update_banks addr (record m { regs = r }))
        (fill_register-stored addr x m.regs (omega arith)))
