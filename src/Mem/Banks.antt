-- ===== src/Mem/Banks.antt =====
-- `Banks` of tetanes-core/src/mem.rs: a window of the address space in slots, each of which shows
-- one page of a ROM or RAM. Where the source would panic (an index out of range, a remainder by
-- 0, an underflow) the model returns `none` or `panic`.
pub mod Laws
pub mod Initial
pub mod Halves
use tetanes.Base.{
  ℕ, zero, suc, ◌+◌, ◌-◌, ◌*◌, ◌/◌, ◌%◌, ◌^◌, Bool, true, false, not, ◌&&◌, ◌||◌, if◌then◌else◌,
  ltb, leb, ◌==◌, Option, none, some, List, [], ◌∷◌, length, get_elem?, set, replicate, bit_and,
  bit_or, ◌<<<◌, ◌>>>◌, usize,
}
use mathlib.Core.Option

pub data BankAccess : Type 0 where
  no_access read_access read_write : BankAccess

pub data Error : Type 0 where
  invalid_window invalid_size : Error

pub record Banks : Type 0 where
  pub start : ℕ
  pub end : ℕ
  pub size : ℕ
  pub window : ℕ
  pub shift : ℕ
  pub mask : ℕ
  pub banks : List ℕ
  pub access : List BankAccess
  pub page_count : ℕ

pub data NewResult : Type 0 where
  ok : Banks → NewResult
  err : Error → NewResult
  panic : NewResult

-- `usize::trailing_zeros` of a number other than 0, which has at most 63.
trailing_zeros_below : ℕ → ℕ → ℕ
trailing_zeros_below zero n = 0
trailing_zeros_below (suc fuel) n =
    let rest = trailing_zeros_below fuel (n / 2) in if n % 2 == 1 then 0 else suc rest

unfoldable pub trailing_zeros : ℕ → ℕ
unfolding trailing_zeros_below
trailing_zeros n = trailing_zeros_below 63 n

unfoldable pub is_power_of_two : ℕ → Bool
is_power_of_two n = 2 ^ trailing_zeros n == n

-- The loop over the banks: slot `i` shows `(i * window) % capacity`.
unfoldable pub initial_banks : ℕ → ℕ → ℕ → ℕ → List ℕ
initial_banks zero i window capacity = []
initial_banks (suc n) i window capacity =
    (i * window % capacity) ∷ initial_banks n (i + 1) window capacity

unfoldable pub new : ℕ → ℕ → ℕ → ℕ → NewResult
new start end capacity window =
    if window == 0 || not (is_power_of_two window)
    then err invalid_window
    else if ltb end start
    then panic
    else if end - start == 0
    then err invalid_size
    else (let bank_count = (end - start + 1) / window in
        let page_count = capacity / window in
        if capacity == 0 && ltb 0 bank_count
        then panic
        else ok (record {
          start = start;
          end = end;
          size = end - start;
          window = window;
          shift = trailing_zeros window;
          mask = page_count - 1;
          banks = initial_banks bank_count 0 window capacity;
          access = replicate bank_count read_write;
          page_count = page_count;
        }))

-- The slot that an index stands for, past the last one modulo their number.
unfoldable pub slot_of : ℕ → ℕ → ℕ
slot_of len bank = if leb len bank then bank % len else bank

unfoldable pub set_bank : ℕ → ℕ → Banks → Option Banks
unfolding slot_of
set_bank bank page b =
    if length b.banks == 0
    then none
    else some (record b {
      banks = set b.banks (slot_of (length b.banks) bank) (usize (bit_and page b.mask <<< b.shift));
    })

-- The loop of `set_range`; the address goes on by a window from slot to slot, with no mask.
unfoldable pub set_slots : ℕ → ℕ → ℕ → Banks → Banks
unfolding slot_of
set_slots zero bank new_addr b = b
set_slots (suc n) bank new_addr b =
    set_slots n (bank + 1) (usize (new_addr + b.window))
      (record b { banks = set b.banks (slot_of (length b.banks) bank) new_addr })

unfoldable pub set_range : ℕ → ℕ → ℕ → Banks → Option Banks
set_range start end page b =
    if leb start end
    then (if length b.banks == 0
        then none
        else some (set_slots (end + 1 - start) start (usize (bit_and page b.mask <<< b.shift)) b))
    else some b

unfoldable pub set_access : ℕ → BankAccess → Banks → Option Banks
unfolding slot_of
set_access bank access b =
    if length b.banks == 0
    then none
    else some (record b { access = set b.access (slot_of (length b.banks) bank) access })

-- The method `get`.
unfoldable pub slot : Banks → ℕ → ℕ
slot b addr = bit_and addr b.size >>> b.shift

abbrev can_read : BankAccess → Bool
can_read no_access = false
can_read read_access = true
can_read read_write = true

abbrev can_write : BankAccess → Bool
can_write read_write = true
can_write _ = false

unfoldable pub readable : Banks → ℕ → Option Bool
readable b addr = Option.map can_read (get_elem? b.access (slot b addr))

unfoldable pub writable : Banks → ℕ → Option Bool
writable b addr = Option.map can_write (get_elem? b.access (slot b addr))

unfoldable pub last : Banks → ℕ
last b = b.page_count - 1

unfoldable pub translate : Banks → ℕ → Option ℕ
translate b addr =
    Option.map (λ page_offset. bit_or page_offset (bit_and addr (b.window - 1)))
      (get_elem? b.banks (slot b addr))

unfoldable pub page : Banks → ℕ → Option ℕ
page b bank = Option.map (λ page_offset. page_offset >>> b.shift) (get_elem? b.banks bank)

unfoldable pub page_offset : Banks → ℕ → Option ℕ
page_offset b bank = get_elem? b.banks bank
