-- ===== src/Input/Shifting.antt =====
-- What a game reads from a controller.
use tetanes.Base.{
  replicate, ◌++◌, ℕ, zero, suc, ◌+◌, ◌/◌, ◌≤◌, ◌<◌, ◌≡◌, refl, ◌∙◌, ap, arith, Bool, true, false,
  if◌then◌else◌, ltb, bool_to_nat, Bool-cases, inl, inr, List, [], ◌∷◌, bit_and, u8,
}
use tetanes.Base.Bits.{bit_and_bit}
use tetanes.Input.Pad.{Joypad, JoypadBtnState, bits, read, peek, write}

-- The values of some reads, one after the other, and the controller behind them.
abbrev pub reads : ℕ → Joypad → List ℕ × Joypad
reads zero pad = ([], pad)
reads (suc n) pad =
    let (val, pad1) = read pad in let (vals, pad2) = reads n pad1 in (val ∷ vals, pad2)

-- The strobe as games write it.
abbrev pub strobed : Joypad → Joypad
strobed pad = write 0 (write 1 pad)

digit_le : (v : Bool) → bool_to_nat v ≤ 1
digit_le true = omega arith
digit_le false = omega arith

-- The eight buttons in the order of the register.
abbrev pub digits : JoypadBtnState → List ℕ
digits s =
    bool_to_nat s.a_flag
    ∷ bool_to_nat s.b_flag
    ∷ bool_to_nat s.select_flag
    ∷ bool_to_nat s.start_flag
    ∷ bool_to_nat s.up_flag
    ∷ bool_to_nat s.down_flag
    ∷ bool_to_nat s.left_flag
    ∷ bool_to_nat s.right_flag
    ∷ []

module _ (s : JoypadBtnState) where
  bit0 : bit_and (u8 (bits s)) 1 / 1 ≡ bool_to_nat s.a_flag
  unfolding bits
  bit0 = omega (arith, bit_and_bit 0 (u8 (bits s)), digit_le s.a_flag)

  bit1 : bit_and (u8 (bits s)) 2 / 2 ≡ bool_to_nat s.b_flag
  unfolding bits
  bit1 = omega (arith, bit_and_bit 1 (u8 (bits s)), digit_le s.a_flag, digit_le s.b_flag)

  bit2 : bit_and (u8 (bits s)) 4 / 4 ≡ bool_to_nat s.select_flag
  unfolding bits
  bit2 = omega (
    arith,
    bit_and_bit 2 (u8 (bits s)),
    digit_le s.a_flag,
    digit_le s.b_flag,
    digit_le s.select_flag,
  )

  bit3 : bit_and (u8 (bits s)) 8 / 8 ≡ bool_to_nat s.start_flag
  unfolding bits
  bit3 = omega (
    arith,
    bit_and_bit 3 (u8 (bits s)),
    digit_le s.a_flag,
    digit_le s.b_flag,
    digit_le s.select_flag,
    digit_le s.start_flag,
  )

  bit4 : bit_and (u8 (bits s)) 16 / 16 ≡ bool_to_nat s.up_flag
  unfolding bits
  bit4 = omega (
    arith,
    bit_and_bit 4 (u8 (bits s)),
    digit_le s.a_flag,
    digit_le s.b_flag,
    digit_le s.select_flag,
    digit_le s.start_flag,
    digit_le s.up_flag,
  )

  bit5 : bit_and (u8 (bits s)) 32 / 32 ≡ bool_to_nat s.down_flag
  unfolding bits
  bit5 = omega (
    arith,
    bit_and_bit 5 (u8 (bits s)),
    digit_le s.a_flag,
    digit_le s.b_flag,
    digit_le s.select_flag,
    digit_le s.start_flag,
    digit_le s.up_flag,
    digit_le s.down_flag,
  )

  bit6 : bit_and (u8 (bits s)) 64 / 64 ≡ bool_to_nat s.left_flag
  unfolding bits
  bit6 = omega (
    arith,
    bit_and_bit 6 (u8 (bits s)),
    digit_le s.a_flag,
    digit_le s.b_flag,
    digit_le s.select_flag,
    digit_le s.start_flag,
    digit_le s.up_flag,
    digit_le s.down_flag,
    digit_le s.left_flag,
  )

  bit7 : bit_and (u8 (bits s)) 128 / 128 ≡ bool_to_nat s.right_flag
  unfolding bits
  bit7 = omega (
    arith,
    bit_and_bit 7 (u8 (bits s)),
    digit_le s.a_flag,
    digit_le s.b_flag,
    digit_le s.select_flag,
    digit_le s.start_flag,
    digit_le s.up_flag,
    digit_le s.down_flag,
    digit_le s.left_flag,
    digit_le s.right_flag,
  )

-- Behind the eighth read a controller reads 1.
read-done : (pad : Joypad) → pad.index ≡ 8 → read pad ≡ (1, pad)
unfolding read peek
read-done pad h =
    let over : ltb pad.index 8 ≡ false = ground arith in
    elim (Bool-cases pad.strobe) [ inl e ↦ rw (over, e) refl | inr e ↦ rw (over, e) refl ]

reads-ones : (n : ℕ) (pad : Joypad) → pad.index ≡ 8 → (reads n pad).0 ≡ replicate n 1
reads-ones zero pad h = refl
reads-ones (suc n) pad h =
    ap (λ (r : ℕ × Joypad). r.0 ∷ (reads n r.1).0) (read-done pad h)
    ∙ ap (λ vals. 1 ∷ vals) (reads-ones n pad h)

-- The controller at a position of its register.
abbrev at : ℕ → Joypad → Joypad
at i pad = record pad { index = i; strobe = false }

strobed-at : (pad : Joypad) → strobed pad ≡ at 0 pad
unfolding write
strobed-at pad = elim (Bool-cases pad.strobe) [ inl e ↦ rw e refl | inr e ↦ rw e refl ]

read-at :
    (i val : ℕ) (pad : Joypad)
    → i < 8
    → peek (at i pad) ≡ val
    → read (at i pad) ≡ (val, at (i + 1) pad)
unfolding read
read-at i val pad lt h =
    let inside : ltb i 8 ≡ true = ground arith in
    λ k. (h k, if inside k then at (i + 1) pad else at i pad)

-- One read at a position inside the register, before those of the rest.
read-reads :
    {val : ℕ} {vals : List ℕ} (i m : ℕ) (pad : Joypad)
    → i < 8
    → peek (at i pad) ≡ val
    → (reads m (at (i + 1) pad)).0 ≡ vals
    → (reads (suc m) (at i pad)).0 ≡ val ∷ vals
read-reads {val} i m pad lt h rest =
    ap (λ (r : ℕ × Joypad). r.0 ∷ (reads m r.1).0) (read-at i val pad lt h)
    ∙ ap (λ tail. val ∷ tail) rest

reads-digits :
    (n : ℕ) (pad : Joypad)
    → (reads (suc (suc (suc (suc (suc (suc (suc (suc n)))))))) (at 0 pad)).0
      ≡ digits pad.buttons ++ replicate n 1
unfolding peek
reads-digits n pad =
    let s = pad.buttons in
    read-reads 0 (suc (suc (suc (suc (suc (suc (suc n))))))) pad (omega arith) (bit0 s) (
      read-reads 1 (suc (suc (suc (suc (suc (suc n)))))) pad (omega arith) (bit1 s) (
        read-reads 2 (suc (suc (suc (suc (suc n))))) pad (omega arith) (bit2 s) (
          read-reads 3 (suc (suc (suc (suc n)))) pad (omega arith) (bit3 s) (
            read-reads 4 (suc (suc (suc n))) pad (omega arith) (bit4 s) (
              read-reads 5 (suc (suc n)) pad (omega arith) (bit5 s) (
                read-reads 6 (suc n) pad (omega arith) (bit6 s)
                  (read-reads 7 n pad (omega arith) (bit7 s) (reads-ones n (at 8 pad) refl))))))))

-- After the strobe a controller reads its eight buttons in their order, and then 1.
pub reads-strobed :
    (n : ℕ) (pad : Joypad) → (reads (8 + n) (strobed pad)).0 ≡ digits pad.buttons ++ replicate n 1
reads-strobed n pad =
    let eight : 8 + n ≡ suc (suc (suc (suc (suc (suc (suc (suc n))))))) = omega arith in
    let start : (reads (8 + n) (strobed pad)).0
        ≡ (reads (suc (suc (suc (suc (suc (suc (suc (suc n)))))))) (at 0 pad)).0 =
      λ k. (reads (eight k) (strobed-at pad k)).0 in
    start ∙ reads-digits n pad
