-- ===== src/Base/Bits/Masks.antt =====
-- `|` of values under disjoint masks is their sum, `&` splits along the fields of a mask, and `^`
-- with one bit flips it.
use Prim.Native.Nat.{
  ℕ, zero, suc, ◌+◌, ◌*◌, ◌/◌, ◌%◌, ◌^◌, ◌≤◌, ◌<◌, differ, bit_and, bit_or, bit_xor,
  bit_and-bitwise,
}
use mathlib.Core.Path.{◌≡◌, refl, sym, ap, ◌∙◌}
use native.Mathlib.Nat.{pow-suc, one-le-pow, mod-lt, div-add-mod', div-div-eq-div-mul}
use native.Mathlib.Omega.{arith}
use tetanes.Base.Bits.{bit_and_split, bit_or-zero_left}
use tetanes.Base.Bits.Step.{bit_and_step, bit_or_step, bit_xor_step}

-- `a & ((m << k) | n)`, field by field.
pub bit_and_join :
    (k a m n : ℕ)
    → n < 2 ^ k
    → bit_and a (m * 2 ^ k + n) ≡ bit_and (a / 2 ^ k) m * 2 ^ k + bit_and (a % 2 ^ k) n
bit_and_join k a m n h =
    let pos : 0 < 2 ^ k = one-le-pow k 2 (omega arith) in
    ap (λ (t : ℕ). bit_and t (m * 2 ^ k + n)) (sym (div-add-mod' a (2 ^ k)))
    ∙ bit_and_split k (a / 2 ^ k) m (a % 2 ^ k) n (mod-lt a pos) h

bit_and-zero_left : (y : ℕ) → bit_and 0 y ≡ 0
bit_and-zero_left y = bit_and-bitwise 0 y

bit_or_disjoint_below : (b x y : ℕ) → x ≤ b → bit_and x y ≡ 0 → bit_or x y ≡ x + y
bit_or_disjoint_below b zero y h e = rw (bit_or-zero_left y) (omega arith)
bit_or_disjoint_below zero (suc x) y h e = absurd (omega arith)
bit_or_disjoint_below (suc b) (suc x) y h e =
    let low = bit_and_step (suc x) y in
    omega (
      arith,
      low,
      bit_or_step (suc x) y,
      bit_or_disjoint_below b (suc x / 2) (y / 2) (omega arith) (omega arith),
    )

bit_and_masks_below :
    (b v t m n : ℕ) → v ≤ b → bit_and m n ≡ 0 → bit_and (bit_and v m) (bit_and t n) ≡ 0
bit_and_masks_below b zero t m n h e = rw (bit_and-zero_left m) (bit_and-zero_left _)
bit_and_masks_below zero (suc v) t m n h e = absurd (omega arith)
bit_and_masks_below (suc b) (suc v) t m n h e =
    let masks = bit_and_step m n in
    let x = bit_and (suc v) m in
    let y = bit_and t n in
    let ih =
      bit_and_masks_below b (suc v / 2) (t / 2) (m / 2) (n / 2) (omega arith) (omega arith) in
    let hx : x / 2 ≡ bit_and (suc v / 2) (m / 2) = omega (arith, bit_and_step (suc v) m) in
    let hy : y / 2 ≡ bit_and (t / 2) (n / 2) = omega (arith, bit_and_step t n) in
    let halves : bit_and (x / 2) (y / 2) ≡ 0 = rw (hx, hy) ih in
    omega (arith, bit_and_step x y, bit_and_step (suc v) m, bit_and_step t n)

-- Two values under disjoint masks.
pub bit_or_masks :
    (x y m n : ℕ) → bit_and x m ≡ x → bit_and y n ≡ y → bit_and m n ≡ 0 → bit_or x y ≡ x + y
bit_or_masks x y m n hx hy e =
    let apart : bit_and (bit_and x m) (bit_and y n) ≡ 0 =
      bit_and_masks_below x x y m n (omega arith) e in
    bit_or_disjoint_below x x y (omega arith) (rw (hx, hy) at apart)

-- A mask absorbs itself.
bit_and_idem_below : (b v m : ℕ) → v ≤ b → bit_and (bit_and v m) m ≡ bit_and v m
bit_and_idem_below b zero m h = rw (bit_and-zero_left m) (bit_and-zero_left m)
bit_and_idem_below zero (suc v) m h = absurd (omega arith)
bit_and_idem_below (suc b) (suc v) m h =
    let x = bit_and (suc v) m in
    let ih = bit_and_idem_below b (suc v / 2) (m / 2) (omega arith) in
    let hx : x / 2 ≡ bit_and (suc v / 2) (m / 2) = omega (arith, bit_and_step (suc v) m) in
    let half : bit_and (x / 2) (m / 2) ≡ bit_and (suc v / 2) (m / 2) = rw hx ih in
    omega (arith, bit_and_step x m, bit_and_step (suc v) m)

pub bit_and_idem : (v m : ℕ) → bit_and (bit_and v m) m ≡ bit_and v m
bit_and_idem v m = bit_and_idem_below v v m (omega arith)

differ-zero : (d : ℕ) → differ d 0 ≡ d
differ-zero zero = refl
differ-zero (suc d) = refl

differ-one : (d : ℕ) → d < 2 → differ d 1 + 2 * d ≡ d + 1
differ-one zero h = refl
differ-one (suc zero) h = refl
differ-one (suc (suc d)) h = absurd (omega arith)

bit_xor-zero_below : (n a : ℕ) → a ≤ n → bit_xor a 0 ≡ a
bit_xor-zero_below n zero h = refl
bit_xor-zero_below zero (suc a) h = absurd (omega arith)
bit_xor-zero_below (suc n) (suc a) h = omega (
  arith,
  bit_xor_step (suc a) 0,
  bit_xor-zero_below n (suc a / 2) (omega arith),
  differ-zero (suc a % 2),
)

-- `x ^ (1 << k)` flips bit `k`.
pub bit_xor_bit : (k x : ℕ) → bit_xor x (2 ^ k) + 2 * (x / 2 ^ k % 2 * 2 ^ k) ≡ x + 2 ^ k
bit_xor_bit zero x = omega (
  arith,
  bit_xor_step x 1,
  bit_xor-zero_below (x / 2) (x / 2) (omega arith),
  differ-one (x % 2) (omega arith),
)
bit_xor_bit (suc k) x =
    let double : 2 ^ suc k ≡ 2 * 2 ^ k = omega (arith, pow-suc 2 k) in
    let half : 2 ^ suc k / 2 ≡ 2 ^ k = omega (arith, pow-suc 2 k) in
    let low : 2 ^ suc k % 2 ≡ 0 = omega (arith, pow-suc 2 k) in
    let div : x / 2 ^ suc k ≡ x / 2 / 2 ^ k =
      ap (λ (t : ℕ). x / t) double ∙ sym (div-div-eq-div-mul x 2 (2 ^ k)) in
    rw (bit_xor_step x (2 ^ suc k), half, low, div)
      (omega (
        arith,
        bit_xor_bit k (x / 2),
        double,
        ap (λ (t : ℕ). x / 2 / 2 ^ k % 2 * t) double,
        differ-zero (x % 2),
      ))
