-- ===== src/Tests/ApuTimerStepping.antt =====
-- Inputs for the theorems of Apu.Timer.Stepping.
use tetanes.Base.{suc, ◌+◌, ◌≡◌, arith}
use Prim.Native.Nat.{min}
use tetanes.Apu.Timer.{Timer, clock_to}
use tetanes.Apu.Timer.Stepping.{clock_to-clocks, clocks}

abbrev slow_timer : Timer
slow_timer = record { cycle = 100; counter = 3; period = 7 }

abbrev fresh_timer : Timer
fresh_timer = record { cycle = 100; counter = 7; period = 7 }

clock_to-clocks_example :
    clock_to slow_timer (slow_timer.cycle + 10)
    ≡ clocks (min 10 (suc slow_timer.counter)) slow_timer
clock_to-clocks_example = clock_to-clocks 10 slow_timer (omega arith)
