-- ===== src/Scc/History.antt =====
-- The interrupt output of the Z8530 along any history.
use em68030_win_ui3cpp.Common.{ℕ, refl, arith, Bool, true, List, [], ◌∷◌, ◌==◌}
use em68030_win_ui3cpp.Scc.Device.{
  Scc, Which, fresh_channel, composite, wants_tx, wants_rx, is_rx_int_pending, receive_char,
  queue_input,
}
use em68030_win_ui3cpp.Scc.Bus.{init, tick, read_byte, write_byte, offset_in}
use em68030_win_ui3cpp.Scc.Output.{
  IsReported, changed-IsReported, staged-IsReported, read_control-IsReported, read_data-IsReported,
  write_control-IsReported, write_data-IsReported, tick_channel-IsReported, if-IsReported,
}

-- What reaches the controller: bus accesses, ticks, characters and console input.
pub data Event : Type 0 where
  reads : ℕ → Event
  writes : ℕ → ℕ → Event
  ticks : Bool → Event
  receives queues : Which → ℕ → Event

unfoldable pub step : Scc → Event → Scc
step s (Event.reads address) = (read_byte address s).scc
step s (Event.writes address value) = write_byte address value s
step s (Event.ticks cpu_stopped) = tick cpu_stopped s
step s (Event.receives w ch) = receive_char w ch s
step s (Event.queues w ch) = queue_input w ch s

unfoldable pub run : Scc → List Event → Scc
run s [] = s
run s (e ∷ rest) = run (step s e) rest

read_byte-IsReported : (address : ℕ) (s : Scc) → IsReported s → IsReported (read_byte address s).scc
unfolding read_byte
read_byte-IsReported address s h = ground (
  arith,
  read_control-IsReported Which.b s h,
  read_data-IsReported Which.b s h,
  read_control-IsReported Which.a s h,
  read_data-IsReported Which.a s h,
)

write_byte-IsReported :
    (address value : ℕ) (s : Scc) → IsReported s → IsReported (write_byte address value s)
unfolding write_byte
write_byte-IsReported address value s h =
    if-IsReported _ _ (offset_in address == 0) (write_control-IsReported Which.b value s h) (
      if-IsReported _ _ (offset_in address == 1) (write_data-IsReported Which.b value s h) (
        if-IsReported _ _ (offset_in address == 2) (write_control-IsReported Which.a value s h)
          (if-IsReported _ _ (offset_in address == 3) (write_data-IsReported Which.a value s h) h)))

step-IsReported : (s : Scc) (e : Event) → IsReported s → IsReported (step s e)
unfolding step tick receive_char queue_input
step-IsReported s (Event.reads address) h = read_byte-IsReported address s h
step-IsReported s (Event.writes address value) h = write_byte-IsReported address value s h
step-IsReported s (Event.ticks cpu_stopped) h =
    tick_channel-IsReported Which.b cpu_stopped _ (tick_channel-IsReported Which.a cpu_stopped s h)
step-IsReported s (Event.receives w ch) h = changed-IsReported w _ s h
step-IsReported s (Event.queues w ch) h = staged-IsReported w _ s h

run_from-IsReported : (s : Scc) (es : List Event) → IsReported s → IsReported (run s es)
unfolding run
run_from-IsReported s [] h = h
run_from-IsReported s (e ∷ rest) h = run_from-IsReported (step s e) rest (step-IsReported s e h)

-- A new controller whose `InterruptOutput` has been set.
unfoldable pub connected_init : Scc
unfolding init
connected_init = record init { has_interrupt_output = true }

start-IsReported : IsReported connected_init
unfolding connected_init init fresh_channel composite wants_tx wants_rx is_rx_int_pending
start-IsReported = record { connected = refl; reported = refl }

-- From a new controller on, after any bus accesses, ticks, received characters and console input,
-- the last value given to `InterruptOutput` is the one that the two channels ask for.
pub run-IsReported : (es : List Event) → IsReported (run connected_init es)
run-IsReported es = run_from-IsReported connected_init es start-IsReported
