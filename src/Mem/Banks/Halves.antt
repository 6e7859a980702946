-- ===== src/Mem/Banks/Halves.antt =====
-- Tables of two slots of 16K, as the boards with a fixed upper half have them.
use tetanes.Base.{
  ℕ, ◌+◌, ◌-◌, ◌*◌, ◌/◌, ◌%◌, ◌^◌, ◌≤◌, ◌<◌, ◌≡◌, refl, ◌∙◌, ap, arith, if◌then◌else◌, ◌==◌, some,
  length, get_or, bit_and, usize_mod,
}
use native.Mathlib.Nat.{mod-eq_of_lt}
use tetanes.Base.Bits.{bit_and_mask}
use tetanes.Mem.Banks.{Banks, slot, translate, slot_of, initial_banks}
use tetanes.Mem.Banks.Laws.{IsValid, set_bank-switched, switched, translate-bounds}
use tetanes.Mem.Banks.Initial.{initial_table, initial_table-IsValid}

-- A table of two slots over `c` pages of 16K, which show the memory from `lo` and from `hi` on.
pub record IsShowing (c lo hi : ℕ) (b : Banks) : Type 0 where
  pub valid : IsValid 1 b
  pub shift_eq : b.shift ≡ 14
  pub size_eq : b.size ≡ 0x7fff
  pub mask_eq : b.mask ≡ c - 1
  pub low : (addr : ℕ) → addr / 0x4000 % 2 ≡ 0 → translate b addr ≡ some (lo + addr % 0x4000)
  pub high : (addr : ℕ) → addr / 0x4000 % 2 ≡ 1 → translate b addr ≡ some (hi + addr % 0x4000)

-- The slot of an address goes by its bit 14.
slot-half :
    (b : Banks) (addr : ℕ) → b.shift ≡ 14 → b.size ≡ 0x7fff → slot b addr ≡ addr / 0x4000 % 2
unfolding slot
slot-half b addr hs hz = rw (hs, hz) (omega (arith, bit_and_mask 15 addr))

slot_of-within : (bank : ℕ) → bank < 2 → slot_of 2 bank ≡ bank
unfolding slot_of
slot_of-within bank h = ground arith

window_size : {c lo hi : ℕ} {b : Banks} → IsShowing c lo hi b → b.window ≡ 0x4000
window_size s = s.valid.window_eq ∙ ap (λ (k : ℕ). 2 ^ k) s.shift_eq

pub IsShowing-eq :
    {c lo lo' hi hi' : ℕ} {b : Banks}
    → lo ≡ lo'
    → hi ≡ hi'
    → IsShowing c lo hi b
    → IsShowing c lo' hi' b
IsShowing-eq low_eq high_eq s = rw high_eq at (rw low_eq at s)

-- What an address shows after a switch, by its half of the ROM's range.
switched-half :
    (c lo hi bank q half : ℕ) (b : Banks) (addr : ℕ)
    → IsShowing c lo hi b
    → bank < 2
    → addr / 0x4000 % 2 ≡ half
    → translate (switched bank q b) addr ≡ (
        if bank == half
        then some (bit_and q (c - 1) * 0x4000 + addr % 0x4000)
        else translate b addr)
switched-half c lo hi bank q half b addr s small h =
    let facts = set_bank-switched 1 bank q b s.valid in
    let slot_eq : slot_of (length b.banks) bank ≡ bank =
      rw s.valid.slots_eq (slot_of-within bank small) in
    let half_eq : slot b addr ≡ half = slot-half b addr s.shift_eq s.size_eq ∙ h in
    facts.2 addr ∙ (λ i.
      if slot_eq i == half_eq i
      then some (bit_and q (s.mask_eq i) * window_size s i + addr % window_size s i)
      else translate b addr)

pub switched_low-IsShowing :
    (c lo hi q : ℕ) (b : Banks)
    → IsShowing c lo hi b
    → IsShowing c (bit_and q (c - 1) * 0x4000) hi (switched 0 q b)
switched_low-IsShowing c lo hi q b s = record {
  valid = (set_bank-switched 1 0 q b s.valid).1;
  shift_eq = s.shift_eq;
  size_eq = s.size_eq;
  mask_eq = s.mask_eq;
  low = λ addr h. switched-half c lo hi 0 q 0 b addr s (omega arith) h;
  high = λ addr h. switched-half c lo hi 0 q 1 b addr s (omega arith) h ∙ s.high addr h;
}

pub switched_high-IsShowing :
    (c lo hi q : ℕ) (b : Banks)
    → IsShowing c lo hi b
    → IsShowing c lo (bit_and q (c - 1) * 0x4000) (switched 1 q b)
switched_high-IsShowing c lo hi q b s = record {
  valid = (set_bank-switched 1 1 q b s.valid).1;
  shift_eq = s.shift_eq;
  size_eq = s.size_eq;
  mask_eq = s.mask_eq;
  low = λ addr h. switched-half c lo hi 1 q 0 b addr s (omega arith) h ∙ s.low addr h;
  high = λ addr h. switched-half c lo hi 1 q 1 b addr s (omega arith) h;
}

first_bank : (c : ℕ) → 0 < c → get_or (initial_banks 2 0 0x4000 (c * 0x4000)) 0 0 ≡ 0
unfolding initial_banks
first_bank c hc = mod-eq_of_lt (omega arith)

-- The table that `Banks::new` makes.
module _ (c : ℕ) (hc : 0 < c) (fits : c * 0x4000 ≤ usize_mod) where
  abbrev pub table : Banks
  table = initial_table 1 14 c 0x8000 0xffff

  pub table-IsValid : IsValid 1 table
  table-IsValid =
      initial_table-IsValid 1 14 c 0x8000 0xffff (omega arith) (omega arith) refl hc fits

  table-shows :
      (addr half : ℕ)
      → addr / 0x4000 % 2 ≡ half
      → translate table addr ≡ some (get_or table.banks half 0 + addr % 0x4000)
  table-shows addr half h =
      (translate-bounds 1 table addr table-IsValid).0
      ∙ ap (λ k. some (get_or table.banks k 0 + addr % 0x4000)) (slot-half table addr refl refl ∙ h)

  pub table-IsShowing : IsShowing c 0 (get_or table.banks 1 0) table
  table-IsShowing = record {
    valid = table-IsValid;
    shift_eq = refl;
    size_eq = refl;
    mask_eq = refl;
    low = λ addr h. table-shows addr 0 h ∙ ap (λ n. some (n + addr % 0x4000)) (first_bank c hc);
    high = λ addr h. table-shows addr 1 h;
  }
