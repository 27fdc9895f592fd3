-- ===== src/Pcc/Counting.antt =====
-- `AdvanceTimer` against a timer that counts one tick at a time.
use em68030_win_ui3cpp.Common.{
  ℕ, zero, suc, ◌+◌, ◌-◌, ◌/◌, ◌%◌, ◌≤◌, ◌<◌, ◌≡◌, sym, ◌∙◌, ap, arith, bit_or, ltb, leb, ◌==◌,
  if◌then◌else◌, has,
}
use native.Mathlib.Nat.{add-mod_right, add-div_right, mod-eq_of_lt, div-eq_of_lt}
use native.Mathlib.Decide.{dec_lt}
use em68030_win_ui3cpp.Common.Bits.{bit_and_mask, bit_or_absorb}
use em68030_win_ui3cpp.Pcc.Timer.{Timer, advance_timer}

-- The registers hold what their C types hold, and a count that `Tick` leaves below the overflow.
pub record IsCounting (t : Timer) : Type 0 where
  pub preload_fits : t.preload < 0x10000
  pub count_fits : t.count < 0x10000
  pub overflow_fits : t.overflow_count ≤ 15

abbrev start_count : Timer → ℕ
start_count t = if has t.control 0x02 then t.preload else 0

-- One tick: count up, and at 0x10000 start again, count the overflow up to 15 and latch INT.
unfoldable pub tick_once : Timer → Timer
tick_once t =
    if t.count + 1 == 0x10000
    then record t {
      count = start_count t;
      overflow_count = (if t.overflow_count == 15 then 15 else t.overflow_count + 1);
      icr = bit_or t.icr 0x80;
    }
    else record t { count = t.count + 1 }

unfoldable pub tick_times : ℕ → Timer → Timer
tick_times zero t = t
tick_times (suc n) t = tick_times n (tick_once t)

-- From the overflow on: `left` more ticks after it.
abbrev period : Timer → ℕ
period t = 0x10000 - start_count t

abbrev cap : ℕ → ℕ
cap x = if ltb 15 x then 15 else x

abbrev wrapped : Timer → ℕ → Timer
wrapped t left = record t {
  count = start_count t + left % period t;
  overflow_count = cap (t.overflow_count + (1 + left / period t));
  icr = bit_or t.icr 0x80;
}

start-lt : (t : Timer) → IsCounting t → start_count t < 0x10000
start-lt t v = ground arith

advance_below :
    (t : Timer) (n : ℕ)
    → IsCounting t
    → t.count + n < 0x10000
    → (advance_timer t n).0 ≡ record t { count = t.count + n }
unfolding advance_timer
advance_below t n v h = ground (arith, bit_and_mask 16 t.count)

advance_past :
    (t : Timer) (n left : ℕ)
    → IsCounting t
    → t.count + n ≡ 0x10000 + left
    → (advance_timer t n).0 ≡ wrapped t left
unfolding advance_timer
advance_past t n left v h = ground (arith, bit_and_mask 16 t.count)

advance_latches :
    (t : Timer) (n : ℕ) → IsCounting t → (advance_timer t n).1 ≡ leb 0x10000 (t.count + n)
unfolding advance_timer
advance_latches t n v = ground (arith, bit_and_mask 16 t.count)

tick_once_below :
    (t : Timer) → t.count + 1 < 0x10000 → tick_once t ≡ record t { count = t.count + 1 }
unfolding tick_once
tick_once_below t h = ground arith

tick_once_past :
    (t : Timer)
    → IsCounting t
    → t.count + 1 ≡ 0x10000
    → tick_once t ≡ record t {
      count = start_count t;
      overflow_count = cap (t.overflow_count + 1);
      icr = bit_or t.icr 0x80;
    }
unfolding tick_once
tick_once_past t v h = ground arith

pub tick_once-IsCounting : (t : Timer) → IsCounting t → IsCounting (tick_once t)
unfolding tick_once
tick_once-IsCounting t v = record {
  preload_fits = ground arith;
  count_fits = ground arith;
  overflow_fits = ground arith;
}

-- Two ways over the overflow: in the first tick, or later.
abbrev restarted : Timer → Timer
restarted t = record t {
  count = start_count t;
  overflow_count = cap (t.overflow_count + 1);
  icr = bit_or t.icr 0x80;
}

wrapped_again :
    (t : Timer) (left : ℕ) → IsCounting t → wrapped (restarted t) left ≡ wrapped t (left + period t)
wrapped_again t left v =
    let wraps : (left + period t) % period t ≡ left % period t = add-mod_right left (period t) in
    let counts : (left + period t) / period t ≡ left / period t + 1 =
      add-div_right left (omega (arith, start-lt t v)) in
    ground (arith, bit_or_absorb t.icr 0x80)

wrapped_once :
    (t : Timer) (n : ℕ)
    → start_count t + n < 0x10000
    → wrapped t n ≡ record (restarted t) { count = start_count t + n }
wrapped_once t n h =
    let wraps : n % period t ≡ n = mod-eq_of_lt (omega arith) in
    let counts : n / period t ≡ 0 = div-eq_of_lt (omega arith) in ground arith

advance-tick_once :
    (n : ℕ) (t : Timer)
    → IsCounting t
    → (advance_timer (tick_once t) n).0 ≡ (advance_timer t (suc n)).0
advance-tick_once n t v = elim (dec_lt (t.count + 1) 0x10000) [
  | yes before ↦ rw (tick_once_below t before) (elim (dec_lt (t.count + suc n) 0x10000) [
    | yes short ↦
        advance_below (record t { count = t.count + 1 }) n (counting before) (omega arith)
        ∙ ap (λ (c : ℕ). record t { count = c }) (omega arith)
        ∙ sym (advance_below t (suc n) v short)
    | no long ↦
        advance_past (record t { count = t.count + 1 }) n (t.count + suc n - 0x10000)
          (counting before) (omega arith)
        ∙ sym (advance_past t (suc n) (t.count + suc n - 0x10000) v (omega arith))
  ])
  | no over ↦
      let top : t.count + 1 ≡ 0x10000 = omega (arith, v.count_fits) in
      rw (tick_once_past t v top) (elim (dec_lt (start_count t + n) 0x10000) [
        | yes short ↦
            advance_below (restarted t) n restarts short
            ∙ sym (wrapped_once t n short)
            ∙ sym (advance_past t (suc n) n v (omega arith))
        | no long ↦
            advance_past (restarted t) n (start_count t + n - 0x10000) restarts (omega arith)
            ∙ wrapped_again t (start_count t + n - 0x10000) v
            ∙ ap (wrapped t) (omega (arith, start-lt t v))
            ∙ sym (advance_past t (suc n) n v (omega arith))
      ])
]
  where
    counting : t.count + 1 < 0x10000 → IsCounting (record t { count = t.count + 1 })
    counting h = record {
      preload_fits = v.preload_fits;
      count_fits = h;
      overflow_fits = v.overflow_fits;
    }

    restarts : IsCounting (restarted t)
    restarts = record {
      preload_fits = v.preload_fits;
      count_fits = start-lt t v;
      overflow_fits = ground arith;
    }

count_up : (n : ℕ) (t : Timer) → IsCounting t → (advance_timer t n).0 ≡ tick_times n t
unfolding tick_times
count_up zero t v =
    advance_below t 0 v (omega (arith, v.count_fits))
    ∙ ap (λ (c : ℕ). record t { count = c }) (omega arith)
count_up (suc n) t v =
    sym (advance-tick_once n t v) ∙ count_up n (tick_once t) (tick_once-IsCounting t v)

-- `AdvanceTimer` by any number of ticks is that many single ticks, each of which restarts the count
-- after 0xFFFF, at the preload where COC is set and at 0 where it is clear; and it reports an overflow
-- exactly when the count reaches 0x10000, for a timer whose registers fit their types.
pub advance-tick_times :
    (n : ℕ) (t : Timer)
    → IsCounting t
    → ((advance_timer t n).0 ≡ tick_times n t) × ((advance_timer t n).1 ≡ leb 0x10000 (t.count + n))
advance-tick_times n t v = (count_up n t v, advance_latches t n v)
