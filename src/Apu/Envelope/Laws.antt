-- ===== src/Apu/Envelope/Laws.antt =====
-- The envelope stays in four bits, and decays by one in each period.
use tetanes.Base.{
  ℕ, zero, suc, ◌+◌, ◌-◌, ◌*◌, ◌≤◌, ◌≡◌, refl, ap, true, false, List, [], ◌∷◌, arith, if◌then◌else◌,
}
use tetanes.Base.Bits.{bit_and_mask}
use tetanes.Apu.Envelope.{Envelope, new, output, restart, write_ctrl, clock, reset}

-- Everything that the channels do to an envelope.
pub data Op : Type 0 where
  restart_op clock_op reset_op : Op
  write_op : ℕ → Op

abbrev pub apply : Op → Envelope → Envelope
apply restart_op e = restart e
apply clock_op e = clock e
apply reset_op e = reset e
apply (write_op val) e = write_ctrl val e

abbrev pub run : List Op → Envelope → Envelope
run [] e = e
run (op ∷ ops) e = run ops (apply op e)

pub record IsValid (e : Envelope) : Type 0 where
  pub volume_le : e.volume ≤ 15
  pub divider_le : e.divider ≤ 15
  pub counter_le : e.counter ≤ 15

pub new-IsValid : IsValid new
unfolding new
new-IsValid = omega arith

pub clock-IsValid : {e : Envelope} → IsValid e → IsValid (clock e)
unfolding clock
clock-IsValid v = ground arith

pub write_ctrl-IsValid : (val : ℕ) {e : Envelope} → IsValid e → IsValid (write_ctrl val e)
unfolding write_ctrl
write_ctrl-IsValid val v = ground (arith, bit_and_mask 4 val)

pub restart-IsValid : {e : Envelope} → IsValid e → IsValid (restart e)
unfolding restart
restart-IsValid v = ground arith

pub reset-IsValid : {e : Envelope} → IsValid e → IsValid (reset e)
unfolding reset
reset-IsValid v = ground arith

apply-IsValid : (op : Op) {e : Envelope} → IsValid e → IsValid (apply op e)
apply-IsValid restart_op v = restart-IsValid v
apply-IsValid clock_op v = clock-IsValid v
apply-IsValid reset_op v = reset-IsValid v
apply-IsValid (write_op val) v = write_ctrl-IsValid val v

pub run-IsValid : (ops : List Op) {e : Envelope} → IsValid e → IsValid (run ops e)
run-IsValid [] v = v
run-IsValid (op ∷ ops) v = run-IsValid ops (apply-IsValid op v)

pub output-le : {e : Envelope} → IsValid e → output e ≤ 15
unfolding output
output-le v = ground arith

-- After any sequence of clocks, restarts, control writes and resets from the power-on state, the
-- envelope's output fits the four bits that the mixer expects.
pub run-output-le : (ops : List Op) → output (run ops new) ≤ 15
run-output-le ops = output-le (run-IsValid ops new-IsValid)

abbrev pub clocks : ℕ → Envelope → Envelope
clocks zero e = e
clocks (suc n) e = clocks n (clock e)

clocks-add : (m n : ℕ) (e : Envelope) → clocks (m + n) e ≡ clocks n (clocks m e)
clocks-add zero n e = let h : 0 + n ≡ n = omega arith in rw h
clocks-add (suc m) n e =
    let h : suc m + n ≡ suc (m + n) = omega arith in rw h (clocks-add m n (clock e))

-- What the counter becomes when the divider runs out.
abbrev pub decayed : Envelope → ℕ → ℕ
decayed e zero = if e.loops then 15 else 0
decayed e (suc c) = c

clocks_period :
    (d : ℕ) (e : Envelope)
    → e.start ≡ false
    → e.divider ≡ d
    → clocks (suc d) e ≡ record e { divider = e.volume; counter = decayed e e.counter }
unfolding clock
clocks_period zero e s h = ground arith
clocks_period (suc d) e s h =
    let e' = record e { divider = d } in
    let first : clock e ≡ e' = ground arith in rw first (clocks_period d e' s refl)

-- With the divider freshly loaded, each period of `volume + 1` clocks takes one off the counter
-- and reloads the divider, as long as the counter lasts.
clocks_decay :
    (k : ℕ) (e : Envelope)
    → e.start ≡ false
    → e.divider ≡ e.volume
    → k ≤ e.counter
    → clocks (k * suc e.volume) e ≡ record e { counter = e.counter - k }
clocks_decay zero e s h le = ground arith
clocks_decay (suc k) e s h le =
    let n = suc e.volume in
    let e' = record e { divider = e.volume; counter = decayed e e.counter } in
    let fewer : e'.counter ≡ e.counter - 1 = ground arith in
    let split : suc k * n ≡ n + k * n = omega arith in
    rw (split, clocks-add n (k * n) e, clocks_period e.volume e s h)
      (ground (arith, clocks_decay k e' s refl))

sixteen : (n c : ℕ) → c ≤ 15 → 16 * n ≡ c * n + (n + (15 - c) * n)
sixteen n c h =
    let e : 16 ≡ c + (1 + (15 - c)) = omega arith in omega (arith, ap (λ (t : ℕ). t * n) e)

-- A looping envelope, its divider freshly loaded, is back where it was after sixteen periods.
pub clocks_loop :
    (e : Envelope)
    → e.start ≡ false
    → e.divider ≡ e.volume
    → e.loops ≡ true
    → e.counter ≤ 15
    → clocks (16 * suc e.volume) e ≡ e
clocks_loop e s h l le =
    let n = suc e.volume in
    let c = e.counter in
    let split : 16 * n ≡ c * n + (n + (15 - c) * n) = sixteen n c le in
    let empty = record e { counter = 0 } in
    let full = record e { counter = 15 } in
    let down : clocks (c * n) e ≡ empty = ground (arith, clocks_decay c e s h) in
    let wrap : clocks n empty ≡ full = ground (arith, clocks_period e.volume empty s h) in
    let back : clocks ((15 - c) * n) full ≡ e = ground (arith, clocks_decay (15 - c) full s h) in
    rw
      (
        split,
        clocks-add (c * n) (n + (15 - c) * n) e,
        down,
        clocks-add n ((15 - c) * n) empty,
        wrap,
      )
      back
