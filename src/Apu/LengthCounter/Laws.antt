-- ===== src/Apu/LengthCounter/Laws.antt =====
-- Bounds of the length counter, when a write takes effect, and the silence of a disabled channel.
use tetanes.Base.{
  ℕ, ◌-◌, ◌≤◌, ◌<◌, ◌≡◌, refl, Bool, true, false, not, ◌&&◌, List, [], ◌∷◌, arith, if◌then◌else◌,
  ltb, leb, get_or, all_below, all_below_sound,
}
use tetanes.Common.{ResetKind, soft, hard}
use tetanes.Apu.LengthCounter.{
  LengthCounter, length_table, write, set_enabled, reload, write_ctrl, clock, reset,
}

abbrev entry : ℕ → ℕ
entry val = get_or length_table val 0

abbrev entry_ok : ℕ → Bool
entry_ok val = ltb 0 (entry val) && leb (entry val) 254

entries_ok : all_below 32 entry_ok ≡ true
unfolding length_table all_below
entries_ok = refl

entry_bounds : (val : ℕ) → val < 32 → (0 < entry val) × (entry val ≤ 254)
entry_bounds val h = ground (arith, all_below_sound 32 entry_ok val entries_ok h)

-- A write to an enabled counter is put off to the next `reload`. A clock in between that counts
-- down cancels it; otherwise the counter takes the table's entry. The halt flag follows last.
pub reload-clock-write :
    (val : ℕ) (l : LengthCounter)
    → val < 32
    → l.enabled ≡ true
    → let l' = reload (clock (write val l)).0 in
      (l'.counter
        ≡ (if ltb 0 l.counter && not l.halt then l.counter - 1 else get_or length_table val 0))
      × (l'.reload_value ≡ 0)
      × (l'.halt ≡ l.new_halt)
unfolding reload clock write
reload-clock-write val l h e = ground (arith, entry_bounds val h)

-- What the channel does with a counter while it is disabled.
pub data Op : Type 0 where
  write_op : ℕ → Op
  ctrl_op : Bool → Op
  clock_op reload_op : Op
  reset_op : ResetKind → Op

abbrev pub apply : Op → LengthCounter → LengthCounter
apply (write_op val) l = write val l
apply (ctrl_op halt) l = write_ctrl halt l
apply clock_op l = (clock l).0
apply reload_op l = reload l
apply (reset_op kind) l = reset kind l

abbrev pub run : List Op → LengthCounter → LengthCounter
run [] l = l
run (op ∷ ops) l = run ops (apply op l)

record IsSilent (l : LengthCounter) : Type 0 where
  disabled : l.enabled ≡ false
  empty : l.counter ≡ 0
  nothing_put_off : l.reload_value ≡ 0

apply-IsSilent : (op : Op) {l : LengthCounter} → IsSilent l → IsSilent (apply op l)
unfolding write write_ctrl clock reload reset
apply-IsSilent (reset_op soft) s = ground arith
apply-IsSilent (reset_op hard) s = ground arith
apply-IsSilent _ s = ground arith

run-IsSilent : (ops : List Op) {l : LengthCounter} → IsSilent l → IsSilent (run ops l)
run-IsSilent [] s = s
run-IsSilent (op ∷ ops) s = run-IsSilent ops (apply-IsSilent op s)

-- Once a channel is disabled while no reload is put off, no writes, clocks, reloads or resets make
-- its counter nonzero until it is enabled again.
pub run-set_enabled_silent :
    (ops : List Op) (l : LengthCounter)
    → l.reload_value ≡ 0
    → (run ops (set_enabled false l)).counter ≡ 0
run-set_enabled_silent ops l h = (run-IsSilent ops (disable l h)).empty
  where
    disable : (l : LengthCounter) → l.reload_value ≡ 0 → IsSilent (set_enabled false l)
    disable l h = unfold set_enabled in ground arith
