-- ===== src/Mem/Banks/Laws.antt =====
-- A bank table that fits its window translates every address, into the memory behind it.
use tetanes.Base.{
  ℕ, zero, suc, ◌+◌, ◌-◌, ◌*◌, ◌/◌, ◌%◌, ◌^◌, ◌≤◌, ◌<◌, ◌≡◌, ◌≢◌, sym, ◌∙◌, ap, arith, Bool-cases,
  inl, inr, if◌then◌else◌, ◌==◌, some, List, length, get_or, set, length-set, get_elem?-get_or,
  get_or-set_self, get_or-set_ne, bit_and, usize_mod,
}
use native.Mathlib.Nat.{pow-suc, one-le-pow, mod-lt, mod-eq_of_lt, div-lt_iff_lt-mul}
use tetanes.Base.Bits.{bit_and_mask, bit_and-le, bit_or_fields}
use tetanes.Mem.Banks.{Banks, slot, translate, set_bank, slot_of}

-- The window is a power of two, the slots fill a power of two of addresses, and each slot shows a
-- page of the memory. `bits` is the logarithm of the number of slots.
pub record IsValid (bits : ℕ) (b : Banks) : Type 0 where
  pub window_eq : b.window ≡ 2 ^ b.shift
  pub size_eq : b.size ≡ 2 ^ (bits + b.shift) - 1
  pub slots_eq : length b.banks ≡ 2 ^ bits
  pub mask_lt : b.mask < b.page_count
  pub fits : b.page_count * 2 ^ b.shift ≤ usize_mod
  pub pages :
      (i : ℕ)
      → i < length b.banks
      → (p : ℕ) × (get_or b.banks i 0 ≡ p * 2 ^ b.shift) × (p < b.page_count)

pub pow-sum : (a b : ℕ) → 2 ^ (a + b) ≡ 2 ^ a * 2 ^ b
pow-sum zero b = let e : zero + b ≡ b = omega arith in rw e (omega arith)
pow-sum (suc a) b =
    let e : suc a + b ≡ suc (a + b) = omega arith in
    rw (e, pow-suc 2 (a + b), pow-sum a b, pow-suc 2 a) (omega arith)

slot-lt_pow :
    (bits shift addr size : ℕ)
    → size ≡ 2 ^ (bits + shift) - 1
    → bit_and addr size / 2 ^ shift < 2 ^ bits
slot-lt_pow bits shift addr size e =
    let pos : 0 < 2 ^ shift = one-le-pow shift 2 (omega arith) in
    let all : 0 < 2 ^ (bits + shift) = one-le-pow (bits + shift) 2 (omega arith) in
    rw (e, bit_and_mask (bits + shift) addr)
      ((div-lt_iff_lt-mul pos).1 (rw (← pow-sum bits shift) (mod-lt addr all)))

slot-lt : (bits : ℕ) (b : Banks) (addr : ℕ) → IsValid bits b → slot b addr < length b.banks
unfolding slot
slot-lt bits b addr v = omega (arith, slot-lt_pow bits b.shift addr b.size v.size_eq, v.slots_eq)

offset-lt : (p c n r : ℕ) → p < c → r < n → p * n + r < c * n
offset-lt p c n r h k = grind arith

-- Every address translates: to the offset of the page in its slot plus the position within the
-- window, an offset below that of the end of the last page.
pub translate-bounds :
    (bits : ℕ) (b : Banks) (addr : ℕ)
    → IsValid bits b
    → let offset = get_or b.banks (slot b addr) 0 + addr % b.window in
      (translate b addr ≡ some offset) × (offset < b.page_count * b.window)
unfolding translate slot
translate-bounds bits b addr v =
    let lt = slot-lt bits b addr v in
    let pos : 0 < 2 ^ b.shift = one-le-pow b.shift 2 (omega arith) in
    let (p, at, small) = v.pages (slot b addr) lt in
    let low = mod-lt addr pos in
    let joined = bit_or_fields b.shift p (addr % 2 ^ b.shift) low in
    rw (get_elem?-get_or b.banks (slot b addr) 0 lt, v.window_eq, bit_and_mask b.shift addr, at)
      (ap some joined, offset-lt p b.page_count (2 ^ b.shift) (addr % 2 ^ b.shift) small low)

slot_of-lt : (len bank : ℕ) → 0 < len → slot_of len bank < len
unfolding slot_of
slot_of-lt len bank h = ground (arith, mod-lt bank h)

-- The offset that a page number stands for.
abbrev masked : Banks → ℕ → ℕ
masked b page = bit_and page b.mask

masked-lt : (bits : ℕ) (b : Banks) (page : ℕ) → IsValid bits b → masked b page < b.page_count
masked-lt bits b page v = omega (arith, bit_and-le page b.mask, v.mask_lt)

whole : (p c n m : ℕ) → p < c → c * n ≤ m → 0 < n → p * n < m
whole p c n m h k pos = grind (arith, offset-lt p c n 0)

abbrev with_slot : ℕ → ℕ → Banks → Banks
with_slot i offset b = record b { banks = set b.banks i offset }

set_bank-eq :
    (bits bank page : ℕ) (b : Banks)
    → IsValid bits b
    → set_bank bank page b
      ≡ some (with_slot (slot_of (length b.banks) bank) (masked b page * 2 ^ b.shift) b)
unfolding set_bank
set_bank-eq bits bank page b v =
    let some_slot : 0 < length b.banks =
      omega (arith, v.slots_eq, one-le-pow bits 2 (omega arith)) in
    let pos : 0 < 2 ^ b.shift = one-le-pow b.shift 2 (omega arith) in
    let small =
      whole (masked b page) b.page_count (2 ^ b.shift) usize_mod (masked-lt bits b page v) v.fits
        pos in
    ground (arith, mod-eq_of_lt small)

set-pages :
    (xs : List ℕ) (j p n c : ℕ)
    → p < c
    → ((i : ℕ) → i < length xs → (q : ℕ) × (get_or xs i 0 ≡ q * n) × (q < c))
    → (i : ℕ) → i < length (set xs j (p * n))
    → (q : ℕ) × (get_or (set xs j (p * n)) i 0 ≡ q * n) × (q < c)
set-pages xs j p n c h pages i lt =
    let lt' : i < length xs = rw length-set at lt in
    elim (Bool-cases (j == i)) [
      | inl e ↦
          let same : j ≡ i = ground arith in (p, rw same (get_or-set_self xs i (p * n) 0 lt'), h)
      | inr e ↦
          let apart : j ≢ i = ground arith in
          let (q, at, small) = pages i lt' in (q, get_or-set_ne xs j i (p * n) 0 apart ∙ at, small)
    ]

with_slot-IsValid :
    (bits i p : ℕ) (b : Banks)
    → p < b.page_count
    → IsValid bits b
    → IsValid bits (with_slot i (p * 2 ^ b.shift) b)
with_slot-IsValid bits i p b h v = record {
  window_eq = v.window_eq;
  size_eq = v.size_eq;
  slots_eq = length-set b.banks i (p * 2 ^ b.shift) ∙ v.slots_eq;
  mask_lt = v.mask_lt;
  fits = v.fits;
  pages = set-pages b.banks i p (2 ^ b.shift) b.page_count h v.pages;
}

translate-with_slot :
    (bits i p : ℕ) (b : Banks) (addr : ℕ)
    → IsValid bits b
    → IsValid bits (with_slot i (p * 2 ^ b.shift) b)
    → i < length b.banks
    → translate (with_slot i (p * 2 ^ b.shift) b) addr
      ≡ (if i == slot b addr then some (p * b.window + addr % b.window) else translate b addr)
unfolding slot
translate-with_slot bits i p b addr v v' lt =
    let new = (translate-bounds bits (with_slot i (p * 2 ^ b.shift) b) addr v').0 in
    let old = (translate-bounds bits b addr v).0 in
    let s = slot b addr in
    new ∙ elim (Bool-cases (i == s)) [
      | inl e ↦
          let same : i ≡ s = ground arith in
          let at : get_or (set b.banks i (p * 2 ^ b.shift)) s 0 ≡ p * b.window = rw (← same) (
            get_or-set_self b.banks i (p * 2 ^ b.shift) 0 lt
            ∙ ap (λ (t : ℕ). p * t) (sym v.window_eq)) in
          rw (e, at)
      | inr e ↦
          let apart : i ≢ s = ground arith in
          rw (e, get_or-set_ne b.banks i s (p * 2 ^ b.shift) 0 apart) (sym old)
    ]

-- The table with a page in a slot.
abbrev pub switched : ℕ → ℕ → Banks → Banks
switched bank page b = with_slot (slot_of (length b.banks) bank) (masked b page * 2 ^ b.shift) b

pub set_bank-switched :
    (bits bank page : ℕ) (b : Banks)
    → IsValid bits b
    → (set_bank bank page b ≡ some (switched bank page b))
      × IsValid bits (switched bank page b)
      × ((addr : ℕ)
          → translate (switched bank page b) addr ≡ (
              if slot_of (length b.banks) bank == slot b addr
              then some (bit_and page b.mask * b.window + addr % b.window)
              else translate b addr))
set_bank-switched bits bank page b v =
    let i = slot_of (length b.banks) bank in
    let some_slot : 0 < length b.banks =
      omega (arith, v.slots_eq, one-le-pow bits 2 (omega arith)) in
    let lt = slot_of-lt (length b.banks) bank some_slot in
    let v' = with_slot-IsValid bits i (masked b page) b (masked-lt bits b page v) v in
    (
      set_bank-eq bits bank page b v,
      v',
      λ addr. translate-with_slot bits i (masked b page) b addr v v' lt,
    )

-- Switching a bank always succeeds and keeps the table valid. An address in the switched slot then
-- reads the page that the masked number names, at the same position within the window; an address
-- in any other slot translates as before.
pub set_bank-translate :
    (bits bank page : ℕ) (b : Banks)
    → IsValid bits b
    → (b' : Banks) × (set_bank bank page b ≡ some b')
      × IsValid bits b'
      × ((addr : ℕ)
          → translate b' addr ≡ (
              if slot_of (length b.banks) bank == slot b addr
              then some (bit_and page b.mask * b.window + addr % b.window)
              else translate b addr))
set_bank-translate bits bank page b v =
    let (done, valid, translates) = set_bank-switched bits bank page b v in
    (switched bank page b, done, valid, translates)
