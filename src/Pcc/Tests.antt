-- ===== src/Pcc/Tests.antt =====
-- Runs of the PCC at concrete inputs.
use em68030_win_ui3cpp.Common.{◌+◌, ◌≡◌, refl, arith, true, List, [], ◌∷◌, replicate}
use em68030_win_ui3cpp.Pcc.Timer.{Timer, advance_timer}
use em68030_win_ui3cpp.Pcc.State.{Pcc, update_ipl}
use em68030_win_ui3cpp.Pcc.Counting.{IsCounting, tick_times, advance-tick_times}
use em68030_win_ui3cpp.Pcc.Priority.{Delivers, update_ipl-Delivers}
use em68030_win_ui3cpp.Pcc.Wiring.{IsWired}
use em68030_win_ui3cpp.Pcc.History.{Event, power_on, run, run-IsWired}

-- A running timer, two ticks before its overflow, that starts again at its preload.
abbrev nearly : Timer
nearly = record {
  preload = 0xff00;
  count = 0xfffe;
  icr = 0x0e;
  control = 7;
  overflow_count = 14;
  fractional = 0;
}

nearly-IsCounting : IsCounting nearly
nearly-IsCounting = record {
  preload_fits = omega arith;
  count_fits = omega arith;
  overflow_fits = omega arith;
}

advance-tick_times_example :
    ((advance_timer nearly 300).0 ≡ tick_times 300 nearly) × ((advance_timer nearly 300).1 ≡ true)
advance-tick_times_example = advance-tick_times 300 nearly nearly-IsCounting

-- 300 ticks overflow twice, and the second overflow is the fifteenth or later.
advance_timer_run :
    (advance_timer nearly 300).0
    ≡ record nearly { count = 0xff00 + 42; overflow_count = 15; icr = 0x8e }
unfolding advance_timer
advance_timer_run = refl

-- Both timers ask, the second one at the higher level.
abbrev two_timers : Pcc
unfolding power_on
two_timers = record (power_on 0) {
  timer1 = record nearly { icr = 0x8c };
  timer2 = record nearly { icr = 0x8e };
}

update_ipl-Delivers_example : Delivers two_timers (update_ipl two_timers)
update_ipl-Delivers_example = update_ipl-Delivers two_timers

abbrev no_change : Pcc → Pcc
no_change p = p

abbrev story : List Event
story =
    Event.writes_byte 0xfffe1028 0x0c
    ∷ Event.line "lance" true
    ∷ Event.ticks 1_000_000
    ∷ Event.writes_byte 0xfffe1028 0x8c
    ∷ []

run-IsWired_example : IsWired (run no_change no_change (power_on 0) story)
run-IsWired_example = run-IsWired no_change no_change (λ p w. w) (λ p w. w) 0 story

abbrev fresh : Pcc
unfolding power_on
fresh = power_on 0

abbrev counting_down : Pcc
unfolding power_on
counting_down = record (power_on 0) { dma_regs = replicate 16 0x81 }
