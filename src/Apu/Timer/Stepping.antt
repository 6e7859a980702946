-- ===== src/Apu/Timer/Stepping.antt =====
-- The timer's jump agrees with single steps, and it ticks once in `period + 1` clocks.
use tetanes.Base.{ℕ, zero, suc, ◌+◌, ◌-◌, ◌*◌, ◌≤◌, ◌<◌, ◌≡◌, ◌⊎◌, inl, inr, arith, usize_mod}
use Prim.Native.Nat.{min}
use tetanes.Apu.Timer.{Timer, clock, clock_to}

-- `n` single clocks, with their ticks added up.
abbrev pub clocks : ℕ → Timer → Timer × ℕ
clocks zero t = (t, 0)
clocks (suc n) t = let (t', ticks) = clock t in let (t'', more) = clocks n t' in (t'', ticks + more)

-- One clock with room to count down.
clock_down :
    (t : Timer)
    → t.cycle + 1 < usize_mod
    → 0 < t.counter
    → clock t ≡ (record t { cycle = t.cycle + 1; counter = t.counter - 1 }, 0)
unfolding clock
clock_down t h p = ground arith

-- One clock at zero.
clock_tick :
    (t : Timer)
    → t.cycle + 1 < usize_mod
    → t.counter ≡ 0
    → clock t ≡ (record t { cycle = t.cycle + 1; counter = t.period }, 1)
unfolding clock
clock_tick t h p = ground arith

clocks_down :
    (n : ℕ) (t : Timer)
    → t.cycle + n < usize_mod
    → n ≤ t.counter
    → clocks n t ≡ (record t { cycle = t.cycle + n; counter = t.counter - n }, 0)
clocks_down zero t h p = ground arith
clocks_down (suc n) t h p =
    ground (
      arith,
      clock_down t,
      clocks_down n (record t { cycle = t.cycle + 1; counter = t.counter - 1 }),
    )

-- A whole round, from the reload to the tick.
clocks_round :
    (c : ℕ) (t : Timer)
    → t.cycle + suc c < usize_mod
    → t.counter ≡ c
    → clocks (suc c) t ≡ (record t { cycle = t.cycle + suc c; counter = t.period }, 1)
clocks_round zero t h e = ground (arith, clock_tick t)
clocks_round (suc c) t h e = ground (
  arith,
  clock_down t,
  clocks_round c (record t { cycle = t.cycle + 1; counter = t.counter - 1 }),
)

-- Jumping towards a later cycle is the same as clocking one by one up to that cycle or up to the
-- first tick, whichever comes first, as long as the cycle count does not overflow.
pub clock_to-clocks :
    (n : ℕ) (t : Timer)
    → t.cycle + n < usize_mod
    → clock_to t (t.cycle + n) ≡ clocks (min n (suc t.counter)) t
unfolding clock_to
clock_to-clocks n t h = elim (le_or_lt n t.counter) [
  | inl few ↦
      let e : min n (suc t.counter) ≡ n = omega arith in
      rw e (ground (arith, clocks_down n t h few))
  | inr many ↦
      let e : min n (suc t.counter) ≡ suc t.counter = omega arith in
      rw e (ground (arith, clocks_round t.counter t))
]
  where
    le_or_lt : (a b : ℕ) → (a ≤ b) ⊎ (b < a)
    le_or_lt a b = omega arith

clocks-add :
    (m n : ℕ) (t : Timer)
    → clocks (m + n) t ≡ ((clocks n (clocks m t).0).0, (clocks m t).1 + (clocks n (clocks m t).0).1)
clocks-add zero n t = ground (arith, zero_plus n)
  where
    zero_plus : (n : ℕ) → 0 + n ≡ n
    zero_plus n = omega arith
clocks-add (suc m) n t =
    let e : suc m + n ≡ suc (m + n) = omega arith in
    rw e (ground (arith, clocks-add m n (clock t).0))

-- From a reload on, `rounds * (period + 1)` clocks give exactly `rounds` ticks and leave the
-- counter reloaded, as long as the cycle count does not overflow.
pub clocks_rounds :
    (rounds : ℕ) (t : Timer)
    → t.counter ≡ t.period
    → t.cycle + rounds * suc t.period < usize_mod
    → clocks (rounds * suc t.period) t
      ≡ (record t { cycle = t.cycle + rounds * suc t.period }, rounds)
clocks_rounds zero t e h = ground arith
clocks_rounds (suc rounds) t e h =
    let next = record t { cycle = t.cycle + suc t.period; counter = t.period } in
    let split : suc rounds * suc t.period ≡ suc t.period + rounds * suc t.period = omega arith in
    rw (split, clocks-add (suc t.period) (rounds * suc t.period) t)
      (ground (arith, clocks_round t.period t (omega arith) e, clocks_rounds rounds next))
