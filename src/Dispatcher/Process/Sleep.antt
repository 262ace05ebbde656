-- ===== src/Dispatcher/Process/Sleep.antt =====
-- How long `KernelFunctionSleep` of src/function/sleep.c suspends a process.
use hypnoticos.Base.{
  ℕ, ◌+◌, ◌*◌, ◌%◌, ◌≤◌, ◌<◌, ◌≡◌, refl, Bool, true, false, some, ltb, word, add64, arith,
}
use hypnoticos.Dispatcher.Process.{
  awake, sleeping, Process, World, sleep, lift_suspension, sleep_suspend_test, test_kind,
  suspend_test,
}

abbrev asleep : Process → ℕ → Bool → Process
asleep p tick overflow = record p { suspend = sleeping tick overflow }

sleep-asleep :
    (now ticks tick : ℕ) (overflow : Bool) (p : Process)
    → p.suspend ≡ awake
    → add64 now ((ticks * 10000) % word) ≡ tick
    → ltb tick now ≡ overflow
    → sleep now ticks p ≡ some (asleep p tick overflow)
unfolding sleep
sleep-asleep now ticks tick overflow p a e o = ground (arith, a, e, o)

-- A process that sleeps for `ticks` at the tick `now`, with no overflow of 64 bits, is left as it is
-- by a test at a tick before `now + ticks * 10000`, and made to go on with a result of 0 by a test at
-- this tick or a later one.
pub sleep_wakes :
    (now ticks : ℕ) (p : Process) (w : World)
    → p.suspend ≡ awake
    → now + ticks * 10000 < word
    → (q : Process) × (sleep now ticks p ≡ some q)
      × (w.ticks < now + ticks * 10000 → suspend_test q w ≡ some (q, w))
      × (now + ticks * 10000 ≤ w.ticks → suspend_test q w ≡ some (lift_suspension q 0, w))
unfolding suspend_test test_kind sleep_suspend_test
sleep_wakes now ticks p w a l = (
  asleep p (now + ticks * 10000) false,
  sleep-asleep now ticks (now + ticks * 10000) false p a (omega (arith, l)) (ground arith),
  λ h. ground (arith, h),
  λ h. ground (arith, h),
)

-- Where the tick of the end of the sleep overflows 64 bits, no test at any tick ends the suspension.
pub sleep_forever :
    (now ticks : ℕ) (p : Process)
    → p.suspend ≡ awake
    → now < word
    → ticks * 10000 < word
    → word ≤ now + ticks * 10000
    → (q : Process) × (sleep now ticks p ≡ some q) × ((w : World) → suspend_test q w ≡ some (q, w))
unfolding suspend_test test_kind sleep_suspend_test
sleep_forever now ticks p a n t l = (
  asleep p (add64 now ((ticks * 10000) % word)) true,
  sleep-asleep now ticks _ true p a refl (ground (arith, n, t, l)),
  λ w. refl,
)
