-- ===== src/Apu/Timer.antt =====
-- tetanes-core/src/apu/timer.rs: the divider that all channels clock.
-- `usize` arithmetic wraps at 64 bits, as in a release build.
pub mod Stepping
use tetanes.Base.{ℕ, ◌+◌, ◌-◌, Bool, if◌then◌else◌, ltb, usize, sub_usize}

pub record Timer : Type 0 where
  pub cycle : ℕ
  pub counter : ℕ
  pub period : ℕ

unfoldable pub new : ℕ → Timer
new period = record { cycle = 0; counter = 0; period = period }

unfoldable pub preload : ℕ → Timer
preload period = record { cycle = 0; counter = period; period = period }

unfoldable pub reload : Timer → Timer
reload t = record t { counter = t.period }

-- Run towards `cycle`, stopping behind the first tick; the result is the number of ticks.
unfoldable pub clock_to : Timer → ℕ → Timer × ℕ
clock_to t cycle =
    let cycles = sub_usize cycle t.cycle in
    if ltb t.counter cycles
    then (record t { cycle = usize (t.cycle + usize (t.counter + 1)); counter = t.period }, 1)
    else (record t { counter = t.counter - cycles; cycle = cycle }, 0)

unfoldable pub clock : Timer → Timer × ℕ
unfolding clock_to
clock t = clock_to t (usize (t.cycle + 1))

unfoldable pub reset : Timer → Timer
reset t = record { cycle = 0; counter = 0; period = 0 }
