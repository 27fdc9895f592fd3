-- ===== src/Pcc/Timer.antt =====
-- One of the two 160 kHz timers of Em68030/IO/PccDevice.cpp. The source keeps each timer as six
-- members (`m_timer1Count` and so on) that its helpers take by reference: here they are a record.
use em68030_win_ui3cpp.Common.{
  ℕ, ◌+◌, ◌-◌, ◌*◌, ◌/◌, ◌%◌, ◌^◌, Bool, true, false, ◌&&◌, bit_and, bit_or, ltb, leb, ◌==◌,
  if◌then◌else◌, has,
}

pub record Timer : Type 0 where
  pub preload : ℕ
  pub count : ℕ
  pub icr : ℕ
  pub control : ℕ
  pub overflow_count : ℕ
  pub fractional : ℕ

abbrev pub timer_freq : ℕ
timer_freq = 160_000

abbrev pub ns_per_second : ℕ
ns_per_second = 1_000_000_000

-- The timer after `ticks` ticks; the Boolean says whether an overflow was latched, which is where
-- the source goes on to `UpdateIPL`.
unfoldable pub advance_timer : Timer → ℕ → Timer × Bool
advance_timer t ticks =
    let coc = has t.control 0x02 in
    let raw_period = (if coc then 0x10000 - t.preload else 0x10000) in
    let period = (if leb raw_period 0 then 1 else raw_period) in
    let dist_to_overflow = 0x10000 - bit_and t.count 0xffff in
    let left = ticks - dist_to_overflow in
    let new_ovf = t.overflow_count + (1 + left / period) in
    if ltb ticks dist_to_overflow
    then (record t { count = (t.count + ticks) % 2 ^ 32 }, false)
    else (
      record t {
        count = (if coc then t.preload else 0) + left % period;
        overflow_count = (if ltb 15 new_ovf then 15 else new_ovf % 2 ^ 8);
        icr = bit_or t.icr 0x80;
      },
      true,
    )

-- The timer's part of `Tick`, from the elapsed nanoseconds, already clamped.
unfoldable pub tick_timer : Timer → ℕ → Timer × Bool
tick_timer t elapsed_ns =
    let total = t.fractional + elapsed_ns * timer_freq in
    let ticks = total / ns_per_second in
    let t' = record t { fractional = total - ticks * ns_per_second } in
    if has t.control 0x04
    then (if ltb 0 ticks then advance_timer t' ticks else (t', false))
    else (t, false)

-- `GetCurrentTimerCount`; `elapsed_ns` is the time since the last `Tick`, 0 where the source finds
-- it to be 0 or less. The cast of the additional ticks to `int` keeps 32 bits, a negative number
-- from 2 ^ 31 on.
unfoldable pub current_timer_count : Timer → ℕ → ℕ
current_timer_count t elapsed_ns =
    let total = t.fractional + elapsed_ns * timer_freq in
    let additional = total / ns_per_second % 2 ^ 32 in
    let dist_to_overflow = 0x10000 - bit_and t.count 0xffff in
    let clamped =
      (if ltb additional (2 ^ 31) && leb dist_to_overflow additional
        then dist_to_overflow - 1
        else additional) in
    if has t.control 0x04
    then (if elapsed_ns == 0
        then bit_and t.count 0xffff
        else bit_and ((t.count + clamped) % 2 ^ 32) 0xffff)
    else bit_and t.count 0xffff

unfoldable pub write_timer_control : Timer → ℕ → Timer
write_timer_control t value = record t {
  count = (if bit_and value 0x01 == 0 then t.preload else t.count);
  overflow_count = 0;
  control = bit_and value 0x07;
}
