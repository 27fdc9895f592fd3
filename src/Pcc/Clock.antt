-- ===== src/Pcc/Clock.antt =====
-- Reading a running timer between two ticks.
use mathlib.Core.Path.{subst}
use em68030_win_ui3cpp.Common.{
  ℕ, zero, suc, inl, inr, Bool-cases, lt→ltb, ◌+◌, ◌-◌, ◌*◌, ◌/◌, ◌%◌, ◌^◌, ◌<◌, ◌≡◌, refl, arith,
  false, bit_and, ltb, if◌then◌else◌, has,
}
use em68030_win_ui3cpp.Common.Bits.{bit_and_mask}
use em68030_win_ui3cpp.Pcc.Timer.{
  Timer, current_timer_count, tick_timer, advance_timer, timer_freq, ns_per_second,
}
use em68030_win_ui3cpp.Pcc.Counting.{IsCounting, tick_times, advance-tick_times}

-- The whole timer ticks in that time, the fraction of the last one included.
abbrev pub ticks_in : Timer → ℕ → ℕ
ticks_in t elapsed_ns = (t.fractional + elapsed_ns * timer_freq) / ns_per_second

-- The count that is read is the true one up to 0xFFFF, and stays there until `Tick` has handled the
-- overflow; a stopped timer reads its count. For a 16-bit count, and fewer than 2 ^ 31 ticks.
pub current_timer_count_lem :
    (t : Timer) (elapsed_ns : ℕ)
    → IsCounting t
    → t.fractional < ns_per_second
    → ticks_in t elapsed_ns < 2 ^ 31
    → current_timer_count t elapsed_ns ≡ (
        if has t.control 0x04
        then (if ltb (t.count + ticks_in t elapsed_ns) 0x10000
            then t.count + ticks_in t elapsed_ns
            else 0xffff)
        else t.count)
unfolding current_timer_count
current_timer_count_lem t elapsed v f h = ground (
  arith,
  bit_and_mask 16 t.count,
  bit_and_mask 16 ((t.count + ticks_in t elapsed) % 2 ^ 32),
  bit_and_mask 16 ((t.count + (0x10000 - bit_and t.count 0xffff - 1)) % 2 ^ 32),
)

-- `Tick` calls `AdvanceTimer` only for a tick or more.
skip_at_zero :
    (n : ℕ) (t : Timer)
    → IsCounting t
    → (if ltb 0 n then advance_timer t n else (t, false)).0 ≡ tick_times n t
unfolding tick_times
skip_at_zero zero t v = refl
skip_at_zero (suc n) t v = rw (lt→ltb 0 (suc n) (omega arith)) (advance-tick_times (suc n) t v).0

-- `Tick` with the counter enabled is one tick at a time for every whole tick in the elapsed time,
-- and keeps the rest, less than one tick, for the next call; disabled, it changes nothing.
pub tick_timer-tick_times :
    (t : Timer) (elapsed_ns : ℕ)
    → IsCounting t
    → (tick_timer t elapsed_ns).0 ≡ (
        if has t.control 0x04
        then tick_times
            (ticks_in t elapsed_ns)
            (record t { fractional = (t.fractional + elapsed_ns * timer_freq) % ns_per_second })
        else t)
unfolding tick_timer
tick_timer-tick_times t elapsed v = elim (Bool-cases (has t.control 0x04)) [
  | inl on ↦ rw on (
      subst
        (λ (f : ℕ).
          (if ltb 0 (ticks_in t elapsed)
            then advance_timer (record t { fractional = f }) (ticks_in t elapsed)
            else (record t { fractional = f }, false)).0
          ≡ tick_times (ticks_in t elapsed)
              (record t { fractional = (t.fractional + elapsed * timer_freq) % ns_per_second }))
        (omega arith)
        (skip_at_zero (ticks_in t elapsed)
          (record t { fractional = (t.fractional + elapsed * timer_freq) % ns_per_second })
          (record {
            preload_fits = v.preload_fits;
            count_fits = v.count_fits;
            overflow_fits = v.overflow_fits;
          })))
  | inr off ↦ rw off
]
