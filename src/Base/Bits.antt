-- ===== src/Base/Bits.antt =====
-- Laws of `&`, `|` and `^` on all numbers: each operation splits at any bit position, from which
-- come masks of low bits, single bits, and sums for `|` of disjoint fields.
mod Step
pub mod Masks
use Step.{bit_and_step, bit_or_step, bit_xor_step}
use Prim.Native.Nat.{
  ℕ, zero, suc, ◌+◌, ◌-◌, ◌*◌, ◌/◌, ◌%◌, ◌^◌, ◌≤◌, ◌<◌, min, max, differ, bit_and, bit_or, bit_xor,
  bit_and-bitwise, bit_or-bitwise,
}
use mathlib.Core.Path.{◌≡◌, refl, sym, ap, ◌∙◌}
use native.Mathlib.Nat.{pow-suc, one-le-pow, mod-lt, div-add-mod'}
use native.Mathlib.Omega.{arith}

twice_field : (m k : ℕ) → 2 * (m * 2 ^ k) ≡ m * 2 ^ suc k
twice_field m k = let p = pow-suc 2 k in omega (arith, ap (λ (power : ℕ). m * power) p)

-- What the three operations have in common: they work digit by digit.
module _ (op d : ℕ → ℕ → ℕ) (step : (a b : ℕ) → op a b ≡ op (a / 2) (b / 2) * 2 + d (a % 2) (b % 2))
    (null : op 0 0 ≡ 0) (digit : (a b : ℕ) → a < 2 → b < 2 → d a b < 2) where
  op_lt : (k r s : ℕ) → r < 2 ^ k → s < 2 ^ k → op r s < 2 ^ k
  op_lt zero r s hr hs =
      let er : r ≡ 0 = omega arith in
      let es : s ≡ 0 = omega arith in rw (er, es, null) (omega arith)
  op_lt (suc k) r s hr hs = omega (
    arith,
    step r s,
    digit (r % 2) (s % 2) (omega arith) (omega arith),
    pow-suc 2 k,
    op_lt k (r / 2) (s / 2) (omega (arith, pow-suc 2 k)) (omega (arith, pow-suc 2 k)),
  )

  op_split :
      (k a b r s : ℕ)
      → r < 2 ^ k
      → s < 2 ^ k
      → op (a * 2 ^ k + r) (b * 2 ^ k + s) ≡ op a b * 2 ^ k + op r s
  op_split zero a b r s hr hs =
      let er : r ≡ 0 = omega arith in
      let es : s ≡ 0 = omega arith in
      let ea : a * 2 ^ zero + 0 ≡ a = omega arith in
      let eb : b * 2 ^ zero + 0 ≡ b = omega arith in rw (er, es) (rw (ea, eb, null) (omega arith))
  op_split (suc k) a b r s hr hs =
      let ha : (a * 2 ^ suc k + r) / 2 ≡ a * 2 ^ k + r / 2 = omega (arith, twice_field a k) in
      let hb : (b * 2 ^ suc k + s) / 2 ≡ b * 2 ^ k + s / 2 = omega (arith, twice_field b k) in
      let la : (a * 2 ^ suc k + r) % 2 ≡ r % 2 = omega (arith, twice_field a k) in
      let lb : (b * 2 ^ suc k + s) % 2 ≡ s % 2 = omega (arith, twice_field b k) in
      let ih =
        op_split k a b (r / 2) (s / 2) (omega (arith, pow-suc 2 k)) (omega (arith, pow-suc 2 k)) in
      rw (step (a * 2 ^ suc k + r) (b * 2 ^ suc k + s), ha, hb, la, lb, ih)
        (omega (arith, twice_field (op a b) k, step r s))

min-digit : (a b : ℕ) → a < 2 → b < 2 → min a b < 2
min-digit a b h k = omega arith

max-digit : (a b : ℕ) → a < 2 → b < 2 → max a b < 2
max-digit a b h k = omega arith

differ-digit : (a b : ℕ) → a < 2 → b < 2 → differ a b < 2
differ-digit zero b h k = k
differ-digit (suc zero) zero h k = omega arith
differ-digit (suc zero) (suc zero) h k = omega arith
differ-digit (suc zero) (suc (suc b)) h k = absurd (omega arith)
differ-digit (suc (suc a)) b h k = absurd (omega arith)

pub bit_and_split :
    (k a b r s : ℕ)
    → r < 2 ^ k
    → s < 2 ^ k
    → bit_and (a * 2 ^ k + r) (b * 2 ^ k + s) ≡ bit_and a b * 2 ^ k + bit_and r s
bit_and_split = op_split bit_and min bit_and_step refl min-digit

pub bit_or_split :
    (k a b r s : ℕ)
    → r < 2 ^ k
    → s < 2 ^ k
    → bit_or (a * 2 ^ k + r) (b * 2 ^ k + s) ≡ bit_or a b * 2 ^ k + bit_or r s
bit_or_split = op_split bit_or max bit_or_step refl max-digit

pub bit_xor_split :
    (k a b r s : ℕ)
    → r < 2 ^ k
    → s < 2 ^ k
    → bit_xor (a * 2 ^ k + r) (b * 2 ^ k + s) ≡ bit_xor a b * 2 ^ k + bit_xor r s
bit_xor_split = op_split bit_xor differ bit_xor_step refl differ-digit

pub bit_and_lt : (k r s : ℕ) → r < 2 ^ k → s < 2 ^ k → bit_and r s < 2 ^ k
bit_and_lt = op_lt bit_and min bit_and_step refl min-digit

pub bit_or_lt : (k r s : ℕ) → r < 2 ^ k → s < 2 ^ k → bit_or r s < 2 ^ k
bit_or_lt = op_lt bit_or max bit_or_step refl max-digit

pub bit_xor_lt : (k r s : ℕ) → r < 2 ^ k → s < 2 ^ k → bit_xor r s < 2 ^ k
bit_xor_lt = op_lt bit_xor differ bit_xor_step refl differ-digit

bit_and-zero_below : (n a : ℕ) → a ≤ n → bit_and a 0 ≡ 0
bit_and-zero_below n zero h = refl
bit_and-zero_below zero (suc a) h = absurd (omega arith)
bit_and-zero_below (suc n) (suc a) h =
    omega (arith, bit_and_step (suc a) 0, bit_and-zero_below n (suc a / 2) (omega arith))

pub bit_and-zero : (a : ℕ) → bit_and a 0 ≡ 0
bit_and-zero a = bit_and-zero_below a a (omega arith)

bit_or-zero_below : (n a : ℕ) → a ≤ n → bit_or a 0 ≡ a
bit_or-zero_below n zero h = refl
bit_or-zero_below zero (suc a) h = absurd (omega arith)
bit_or-zero_below (suc n) (suc a) h =
    omega (arith, bit_or_step (suc a) 0, bit_or-zero_below n (suc a / 2) (omega arith))

pub bit_or-zero : (a : ℕ) → bit_or a 0 ≡ a
bit_or-zero a = bit_or-zero_below a a (omega arith)

bit_and-low : (k r : ℕ) → r < 2 ^ k → bit_and r (2 ^ k - 1) ≡ r
bit_and-low zero r h = rw bit_and-zero (omega arith)
bit_and-low (suc k) r h =
    let half : (2 ^ suc k - 1) / 2 ≡ 2 ^ k - 1 = omega (arith, pow-suc 2 k) in
    let low : (2 ^ suc k - 1) % 2 ≡ 1 = omega (arith, pow-suc 2 k) in
    let ih = bit_and-low k (r / 2) (omega (arith, pow-suc 2 k)) in
    rw (bit_and_step r (2 ^ suc k - 1), half, low, ih) (omega arith)

module _ (k a : ℕ) where
  pow-pos : 0 < 2 ^ k
  pow-pos = one-le-pow k 2 (omega arith)

  abbrev upper : ℕ
  upper = a / 2 ^ k

  abbrev lower : ℕ
  lower = a % 2 ^ k

  parts : upper * 2 ^ k + lower ≡ a
  parts = div-add-mod' a (2 ^ k)

  lower-lt : lower < 2 ^ k
  lower-lt = mod-lt a pow-pos

  -- `a & (2 ^ k - 1)`.
  pub bit_and_mask : bit_and a (2 ^ k - 1) ≡ a % 2 ^ k
  bit_and_mask =
      let split = bit_and_split k upper 0 lower (2 ^ k - 1) lower-lt (omega (arith, pow-pos)) in
      let e : 0 * 2 ^ k + (2 ^ k - 1) ≡ 2 ^ k - 1 = omega arith in
      ap (λ (t : ℕ). bit_and t (2 ^ k - 1)) (sym parts)
      ∙ ap (bit_and (upper * 2 ^ k + lower)) (sym e)
      ∙ split
      ∙ omega (arith, ap (λ (t : ℕ). t * 2 ^ k) (bit_and-zero upper), bit_and-low k lower lower-lt)

  -- `a & (m << k)`.
  pub bit_and_field : (m : ℕ) → bit_and a (m * 2 ^ k) ≡ bit_and (a / 2 ^ k) m * 2 ^ k
  bit_and_field m =
      let split = bit_and_split k upper m lower 0 lower-lt pow-pos in
      let e : m * 2 ^ k + 0 ≡ m * 2 ^ k = omega arith in
      ap (λ (t : ℕ). bit_and t (m * 2 ^ k)) (sym parts)
      ∙ ap (bit_and (upper * 2 ^ k + lower)) (sym e)
      ∙ split
      ∙ omega (arith, bit_and-zero lower)

pub bit_or-zero_left : (r : ℕ) → bit_or 0 r ≡ r
bit_or-zero_left r = bit_or-bitwise 0 r

-- `(q << k) | r` is a sum when `r` fits `k` bits.
pub bit_or_fields : (k q r : ℕ) → r < 2 ^ k → bit_or (q * 2 ^ k) r ≡ q * 2 ^ k + r
bit_or_fields k q r h =
    let split = bit_or_split k q 0 0 r (pow-pos k 0) h in
    let e : q * 2 ^ k + 0 ≡ q * 2 ^ k = omega arith in
    let e' : 0 * 2 ^ k + r ≡ r = omega arith in
    ap (λ (t : ℕ). bit_or t r) (sym e)
    ∙ ap (bit_or (q * 2 ^ k + 0)) (sym e')
    ∙ split
    ∙ omega (arith, ap (λ (t : ℕ). t * 2 ^ k) (bit_or-zero q), bit_or-zero_left r)

-- `r | (q << k)`, the other way round.
pub bit_or_fields_right : (k q r : ℕ) → r < 2 ^ k → bit_or r (q * 2 ^ k) ≡ q * 2 ^ k + r
bit_or_fields_right k q r h =
    let split = bit_or_split k 0 q r 0 h (pow-pos k 0) in
    let e : q * 2 ^ k + 0 ≡ q * 2 ^ k = omega arith in
    let e' : 0 * 2 ^ k + r ≡ r = omega arith in
    ap (bit_or r) (sym e)
    ∙ ap (λ (t : ℕ). bit_or t (q * 2 ^ k + 0)) (sym e')
    ∙ split
    ∙ omega (arith, ap (λ (t : ℕ). t * 2 ^ k) (bit_or-zero_left q), bit_or-zero r)

-- The exclusive or of two bits.
pub bit_xor_bits : (a b : ℕ) → a < 2 → b < 2 → bit_xor a b ≡ (a + b) % 2
bit_xor_bits zero zero h k = refl
bit_xor_bits zero (suc zero) h k = refl
bit_xor_bits zero (suc (suc b)) h k = absurd (omega arith)
bit_xor_bits (suc zero) zero h k = refl
bit_xor_bits (suc zero) (suc zero) h k = refl
bit_xor_bits (suc zero) (suc (suc b)) h k = absurd (omega arith)
bit_xor_bits (suc (suc a)) b h k = absurd (omega arith)

-- The lowest bit, and any single bit.
pub bit_and-one : (a : ℕ) → bit_and a 1 ≡ a % 2
bit_and-one a = bit_and_mask 1 a

pub bit_and_bit : (k a : ℕ) → bit_and a (2 ^ k) ≡ a / 2 ^ k % 2 * 2 ^ k
bit_and_bit k a =
    let e : 1 * 2 ^ k ≡ 2 ^ k = omega arith in
    ap (bit_and a) (sym e)
    ∙ bit_and_field k a 1
    ∙ ap (λ (t : ℕ). t * 2 ^ k) (bit_and-one (a / 2 ^ k))

bit_and-le_below : (n a m : ℕ) → a ≤ n → bit_and a m ≤ m
bit_and-le_below n zero m h = omega (arith, bit_and-bitwise 0 m)
bit_and-le_below zero (suc a) m h = absurd (omega arith)
bit_and-le_below (suc n) (suc a) m h =
    omega (arith, bit_and_step (suc a) m, bit_and-le_below n (suc a / 2) (m / 2) (omega arith))

pub bit_and-le : (a m : ℕ) → bit_and a m ≤ m
bit_and-le a m = bit_and-le_below a a m (omega arith)

bit_and_self_below : (n a : ℕ) → a ≤ n → bit_and a a ≡ a
bit_and_self_below n zero h = refl
bit_and_self_below zero (suc a) h = absurd (omega arith)
bit_and_self_below (suc n) (suc a) h =
    omega (arith, bit_and_step (suc a) (suc a), bit_and_self_below n (suc a / 2) (omega arith))

pub bit_and_self : (a : ℕ) → bit_and a a ≡ a
bit_and_self a = bit_and_self_below a a (omega arith)

pub bit_and-zero_left : (m : ℕ) → bit_and 0 m ≡ 0
bit_and-zero_left m = bit_and-bitwise 0 m

bit_and_comm_below : (n a b : ℕ) → a ≤ n → bit_and a b ≡ bit_and b a
bit_and_comm_below n zero b h = bit_and-zero_left b ∙ sym (bit_and-zero b)
bit_and_comm_below zero (suc a) b h = absurd (omega arith)
bit_and_comm_below (suc n) (suc a) b h = omega (
  arith,
  bit_and_step (suc a) b,
  bit_and_step b (suc a),
  bit_and_comm_below n (suc a / 2) (b / 2) (omega arith),
)

pub bit_and_comm : (a b : ℕ) → bit_and a b ≡ bit_and b a
bit_and_comm a b = bit_and_comm_below a a b (omega arith)
