-- ===== src/Mem/Banks/Initial.antt =====
-- `Banks::new` makes a valid table where the sizes are those of a cartridge.
use tetanes.Base.{
  ℕ, zero, suc, ◌+◌, ◌-◌, ◌*◌, ◌/◌, ◌%◌, ◌^◌, ◌≤◌, ◌<◌, ◌≡◌, refl, ◌∙◌, ap, arith, true, false,
  ◌==◌, length, get_or, replicate, usize_mod, ltb,
}
use native.Mathlib.Nat.{
  pow-suc, one-le-pow, mod-lt, mod-eq_of_lt, mod-add-div', add-mul-mod_self_right, mul-div_cancel,
}
use tetanes.Mem.Banks.{
  Banks, ok, new, read_write, initial_banks, trailing_zeros, trailing_zeros_below, is_power_of_two,
}
use tetanes.Mem.Banks.Laws.{IsValid, pow-sum}

trailing_zeros_pow : (fuel s : ℕ) → s ≤ fuel → trailing_zeros_below fuel (2 ^ s) ≡ s
unfolding trailing_zeros_below
trailing_zeros_pow zero s h = omega arith
trailing_zeros_pow (suc fuel) zero h = refl
trailing_zeros_pow (suc fuel) (suc s) h =
    let half : 2 ^ suc s / 2 ≡ 2 ^ s = omega (arith, pow-suc 2 s) in
    let low : 2 ^ suc s % 2 ≡ 0 = omega (arith, pow-suc 2 s) in
    rw (low, half, trailing_zeros_pow fuel s (omega arith))

length-initial_banks : (n i w c : ℕ) → length (initial_banks n i w c) ≡ n
unfolding initial_banks
length-initial_banks zero i w c = refl
length-initial_banks (suc n) i w c = ap suc (length-initial_banks n (i + 1) w c)

multiple : (i w c : ℕ) → 0 < w → 0 < c → (q : ℕ) × (i * w % (c * w) ≡ q * w) × (q < c)
multiple i w c hw hc = (i % c, wrapped, mod-lt i hc)
  where
    less : (q : ℕ) → q < c → q * w < c * w
    less q h = grind arith

    split : i * w ≡ i % c * w + i / c * (c * w)
    split = omega (arith, ap (λ (t : ℕ). t * w) (mod-add-div' i c))

    wrapped : i * w % (c * w) ≡ i % c * w
    wrapped =
        ap (λ (t : ℕ). t % (c * w)) split
        ∙ add-mul-mod_self_right (i % c * w) (i / c) (c * w)
        ∙ mod-eq_of_lt (less (i % c) (mod-lt i hc))

initial_pages :
    (n i w c : ℕ)
    → 0 < w
    → 0 < c
    → (j : ℕ) → j < n
    → (q : ℕ) × (get_or (initial_banks n i w (c * w)) j 0 ≡ q * w) × (q < c)
unfolding initial_banks
initial_pages zero i w c hw hc j h = absurd (omega arith)
initial_pages (suc n) i w c hw hc zero h = multiple i w c hw hc
initial_pages (suc n) i w c hw hc (suc j) h = initial_pages n (i + 1) w c hw hc j (omega arith)

is_power_of_two-pow :
    (s : ℕ) → s ≤ 63 → (trailing_zeros (2 ^ s) ≡ s) × (is_power_of_two (2 ^ s) ≡ true)
unfolding is_power_of_two trailing_zeros
is_power_of_two-pow s h = let e = trailing_zeros_pow 63 s h in (e, rw e (ground arith))

==-nonzero : {n : ℕ} → 0 < n → (n == 0) ≡ false
==-nonzero h = ground arith

-- The tests of `Banks::new`, one after the other.
new-ok :
    (start end capacity window s count pages : ℕ)
    → (window == 0) ≡ false
    → is_power_of_two window ≡ true
    → trailing_zeros window ≡ s
    → ltb end start ≡ false
    → (end - start == 0) ≡ false
    → (end - start + 1) / window ≡ count
    → capacity / window ≡ pages
    → (capacity == 0) ≡ false
    → new start end capacity window
      ≡ ok (record {
        start = start;
        end = end;
        size = end - start;
        window = window;
        shift = s;
        mask = pages - 1;
        banks = initial_banks count 0 window capacity;
        access = replicate count read_write;
        page_count = pages;
      })
unfolding new
new-ok start end capacity window s count pages h1 h2 h3 h4 h5 h6 h7 h8 =
    rw (h1, h2, h4, h5, h6, h7, h8, h3)

-- The table for windows of `2 ^ s` bytes, `2 ^ bits` of them, and a memory of `c`.
abbrev pub initial_table : ℕ → ℕ → ℕ → ℕ → ℕ → Banks
initial_table bits s c start end = record {
  start = start;
  end = end;
  size = end - start;
  window = 2 ^ s;
  shift = s;
  mask = c - 1;
  banks = initial_banks (2 ^ bits) 0 (2 ^ s) (c * 2 ^ s);
  access = replicate (2 ^ bits) read_write;
  page_count = c;
}

module _ (bits s c start end : ℕ) (hs : s ≤ 63) (order : start < end)
    (slots : end - start + 1 ≡ 2 ^ bits * 2 ^ s) (hc : 0 < c) (fits : c * 2 ^ s ≤ usize_mod) where
  pos : 0 < 2 ^ s
  pos = one-le-pow s 2 (omega arith)

  pub new-initial_table : new start end (c * 2 ^ s) (2 ^ s) ≡ ok (initial_table bits s c start end)
  new-initial_table =
      let count : (end - start + 1) / 2 ^ s ≡ 2 ^ bits = rw slots (mul-div_cancel (2 ^ bits) pos) in
      let some_capacity : 0 < c * 2 ^ s = grind (arith, pos) in
      let tests = is_power_of_two-pow s hs in
      let window : (2 ^ s == 0) ≡ false = ==-nonzero pos in
      new-ok start end (c * 2 ^ s) (2 ^ s) s (2 ^ bits) c window tests.1 tests.0 (ground arith)
        (ground arith) count (mul-div_cancel c pos) (==-nonzero some_capacity)

  pub initial_table-IsValid : IsValid bits (initial_table bits s c start end)
  initial_table-IsValid = record {
    window_eq = refl;
    size_eq = omega (arith, pow-sum bits s);
    slots_eq = length-initial_banks (2 ^ bits) 0 (2 ^ s) (c * 2 ^ s);
    mask_lt = omega arith;
    fits = fits;
    pages = λ i h.
        initial_pages (2 ^ bits) 0 (2 ^ s) c pos hc i
          (rw (length-initial_banks (2 ^ bits) 0 (2 ^ s) (c * 2 ^ s)) at h);
  }

-- `Banks::new` succeeds for a window of `2 ^ s` bytes, an address range of `2 ^ bits` windows and a
-- memory of `c` windows: its table is valid and has `c` pages.
pub banks_new-IsValid :
    (bits s c start end : ℕ)
    → s ≤ 63
    → start < end
    → end - start + 1 ≡ 2 ^ bits * 2 ^ s
    → 0 < c
    → c * 2 ^ s ≤ usize_mod
    → (b : Banks) × (new start end (c * 2 ^ s) (2 ^ s) ≡ ok b) × IsValid bits b × (b.page_count ≡ c)
banks_new-IsValid bits s c start end hs order slots hc fits = (
  initial_table bits s c start end,
  new-initial_table bits s c start end hs order slots hc fits,
  initial_table-IsValid bits s c start end hs order slots hc fits,
  refl,
)
