-- ===== src/Apu/LengthCounter.antt =====
-- tetanes-core/src/apu/length_counter.rs: the counter that silences a channel after a while.
pub mod Laws
use tetanes.Base.{
  ℕ, ◌-◌, Bool, true, false, not, if◌then◌else◌, ltb, ◌==◌, ◌&&◌, List, [], ◌∷◌, get_or,
}
use tetanes.Common.{ResetKind, soft, hard}

-- `enum Channel` of tetanes-core/src/apu.rs.
pub data Channel : Type 0 where
  pulse1 pulse2 triangle noise dmc mapper : Channel

pub record LengthCounter : Type 0 where
  pub enabled : Bool
  pub channel : Channel
  pub halt : Bool
  pub new_halt : Bool
  pub counter : ℕ
  pub previous_counter : ℕ
  pub reload_value : ℕ

unfoldable pub length_table : List ℕ
length_table =
    10 ∷ 254 ∷ 20 ∷ 2 ∷ 40 ∷ 4 ∷ 80 ∷ 6 ∷ 160 ∷ 8 ∷ 60 ∷ 10 ∷ 14 ∷ 12 ∷ 26 ∷ 14 ∷ 12 ∷ 16 ∷ 24 ∷ 18
    ∷ 48 ∷ 20 ∷ 96 ∷ 22 ∷ 192 ∷ 24 ∷ 72 ∷ 26 ∷ 16 ∷ 28 ∷ 32 ∷ 30 ∷ []

unfoldable pub new : Channel → LengthCounter
new channel = record {
  enabled = false;
  channel = channel;
  halt = false;
  new_halt = false;
  counter = 0;
  previous_counter = 0;
  reload_value = 0;
}

-- The callers pass the upper five bits of a byte, so the index is in range.
unfoldable pub write : ℕ → LengthCounter → LengthCounter
unfolding length_table
write val l =
    if l.enabled
    then record l { reload_value = get_or length_table val 0; previous_counter = l.counter }
    else l

unfoldable pub set_enabled : Bool → LengthCounter → LengthCounter
set_enabled enabled l =
    let l' = if not enabled then record l { counter = 0 } else l in record l' { enabled = enabled }

unfoldable pub reload : LengthCounter → LengthCounter
reload l =
    let l' =
      if ltb 0 l.reload_value
      then record l {
        counter = if l.counter == l.previous_counter then l.reload_value else l.counter;
        reload_value = 0;
      }
      else l in
    record l' { halt = l'.new_halt }

unfoldable pub write_ctrl : Bool → LengthCounter → LengthCounter
write_ctrl halt l = record l { new_halt = halt }

unfoldable pub clock : LengthCounter → LengthCounter × ℕ
clock l =
    if ltb 0 l.counter && not l.halt then (record l { counter = l.counter - 1 }, 1) else (l, 0)

clear : LengthCounter → LengthCounter
clear l = record l {
  halt = false;
  new_halt = false;
  counter = 0;
  reload_value = 0;
  previous_counter = 0;
}

is_triangle : Channel → Bool
is_triangle triangle = true
is_triangle _ = false

unfoldable pub reset : ResetKind → LengthCounter → LengthCounter
unfolding clear is_triangle
reset soft l =
    let l' = record l { enabled = false } in if not (is_triangle l.channel) then clear l' else l'
reset hard l = clear (record l { enabled = false })
