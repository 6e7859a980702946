-- ===== src/Genie/Fields.antt =====
-- The address and the bytes of a Game Genie code by arithmetic on the numbers of its letters.
use tetanes.Base.{ℕ, ◌+◌, ◌*◌, ◌/◌, ◌%◌, ◌^◌, ◌<◌, ◌≡◌, sym, ◌∙◌, ap, arith, bit_and, bit_or}
use tetanes.Base.Bits.{bit_and_mask, bit_and_bit, bit_or_split, bit_or-zero, bit_or_fields_right}
use tetanes.Genie.{raw_addr, raw_byte}

-- A field `c` is set above `r`, in the bits below `k`.
or_into :
    (k j a r c : ℕ)
    → r < 2 ^ j
    → r < 2 ^ k
    → c * 2 ^ j < 2 ^ k
    → bit_or (a * 2 ^ k + r) (c * 2 ^ j) ≡ a * 2 ^ k + c * 2 ^ j + r
or_into k j a r c hr hr' hc =
    let split = bit_or_split k a 0 r (c * 2 ^ j) hr' hc in
    let e : 0 * 2 ^ k + c * 2 ^ j ≡ c * 2 ^ j = omega arith in
    ap (bit_or (a * 2 ^ k + r)) (sym e)
    ∙ split
    ∙ omega (arith, ap (λ (t : ℕ). t * 2 ^ k) (bit_or-zero a), bit_or_fields_right j c r hr)

-- The same for terms that are equal to such.
or_at :
    (x y z k j a r c : ℕ)
    → x ≡ a * 2 ^ k + r
    → y ≡ c * 2 ^ j
    → z ≡ a * 2 ^ k + c * 2 ^ j + r
    → r < 2 ^ j
    → r < 2 ^ k
    → c * 2 ^ j < 2 ^ k
    → bit_or x y ≡ z
or_at x y z k j a r c hx hy hz hr hr' hc =
    ap (λ (t : ℕ). bit_or t y) hx
    ∙ ap (bit_or (a * 2 ^ k + r)) hy
    ∙ or_into k j a r c hr hr' hc
    ∙ sym hz

low_three : (h : ℕ) → bit_and h 7 ≡ h % 8
low_three h = bit_and_mask 3 h

top_bit : (h : ℕ) → h < 16 → bit_and h 8 ≡ h / 8 * 8
top_bit h lt = omega (arith, bit_and_bit 3 h)

pub raw_byte-fields :
    (a b c : ℕ)
    → a < 16
    → b < 16
    → c < 16
    → raw_byte a b c ≡ b / 8 * 128 + a % 8 * 16 + c / 8 * 8 + b % 8
unfolding raw_byte
raw_byte-fields a b c ha hb hc =
    let x1 = bit_or (bit_and a 7 * 16) (bit_and b 8 * 16) in
    let t1 = b / 8 * 128 + a % 8 * 16 in
    let s1 : x1 ≡ t1 =
      or_at (bit_and a 7 * 16) (bit_and b 8 * 16) t1 8 7 0 (a % 8 * 16) (b / 8)
        (omega (arith, low_three a)) (omega (arith, top_bit b hb)) (omega arith) (omega arith)
        (omega arith) (omega arith) in
    let s2 : bit_or x1 (bit_and b 7) ≡ t1 + b % 8 =
      or_at x1 (bit_and b 7) (t1 + b % 8) 4 0 (b / 8 * 8 + a % 8) 0 (b % 8) (omega (arith, s1))
        (omega (arith, low_three b)) (omega arith) (omega arith) (omega arith) (omega arith) in
    or_at (bit_or x1 (bit_and b 7)) (bit_and c 8) (t1 + c / 8 * 8 + b % 8) 4 3 (b / 8 * 8 + a % 8)
      (b % 8) (c / 8) (omega (arith, s2)) (omega (arith, top_bit c hc)) (omega arith) (omega arith)
      (omega arith) (omega arith)

pub raw_addr-fields :
    (h1 h2 h3 h4 h5 : ℕ)
    → h1 < 16
    → h3 < 16
    → h4 < 16
    → raw_addr h1 h2 h3 h4 h5
      ≡ 0x8000
        + h3 % 8 * 4096
        + h4 / 8 * 2048
        + h5 % 8 * 256
        + h1 / 8 * 128
        + h2 % 8 * 16
        + h3 / 8 * 8
        + h4 % 8
unfolding raw_addr
raw_addr-fields h1 h2 h3 h4 h5 l1 l3 l4 =
    let x1 = bit_or (bit_and h3 7 * 4096) (bit_and h5 7 * 256) in
    let t1 = h3 % 8 * 4096 + h5 % 8 * 256 in
    let s1 : x1 ≡ t1 =
      or_at (bit_and h3 7 * 4096) (bit_and h5 7 * 256) t1 12 8 (h3 % 8) 0 (h5 % 8)
        (omega (arith, low_three h3)) (omega (arith, low_three h5)) (omega arith) (omega arith)
        (omega arith) (omega arith) in
    let x2 = bit_or x1 (bit_and h4 8 * 256) in
    let t2 = h3 % 8 * 4096 + h4 / 8 * 2048 + h5 % 8 * 256 in
    let s2 : x2 ≡ t2 =
      or_at x1 (bit_and h4 8 * 256) t2 12 11 (h3 % 8) (h5 % 8 * 256) (h4 / 8) s1
        (omega (arith, top_bit h4 l4)) (omega arith) (omega arith) (omega arith) (omega arith) in
    let a2 = h3 % 8 * 16 + h4 / 8 * 8 + h5 % 8 in
    let x3 = bit_or x2 (bit_and h2 7 * 16) in
    let t3 = t2 + h2 % 8 * 16 in
    let s3 : x3 ≡ t3 =
      or_at x2 (bit_and h2 7 * 16) t3 8 4 a2 0 (h2 % 8) (omega (arith, s2))
        (omega (arith, low_three h2)) (omega arith) (omega arith) (omega arith) (omega arith) in
    let x4 = bit_or x3 (bit_and h1 8 * 16) in
    let t4 = t2 + h1 / 8 * 128 + h2 % 8 * 16 in
    let s4 : x4 ≡ t4 =
      or_at x3 (bit_and h1 8 * 16) t4 8 7 a2 (h2 % 8 * 16) (h1 / 8) (omega (arith, s3))
        (omega (arith, top_bit h1 l1)) (omega arith) (omega arith) (omega arith) (omega arith) in
    let a4 = a2 * 16 + h1 / 8 * 8 + h2 % 8 in
    let x5 = bit_or x4 (bit_and h4 7) in
    let s5 : x5 ≡ t4 + h4 % 8 =
      or_at x4 (bit_and h4 7) (t4 + h4 % 8) 4 0 a4 0 (h4 % 8) (omega (arith, s4))
        (omega (arith, low_three h4)) (omega arith) (omega arith) (omega arith) (omega arith) in
    let s6 : bit_or x5 (bit_and h3 8) ≡ t4 + h3 / 8 * 8 + h4 % 8 =
      or_at x5 (bit_and h3 8) (t4 + h3 / 8 * 8 + h4 % 8) 4 3 a4 (h4 % 8) (h3 / 8)
        (omega (arith, s5)) (omega (arith, top_bit h3 l3)) (omega arith) (omega arith) (omega arith)
        (omega arith) in
    omega (arith, s6)
