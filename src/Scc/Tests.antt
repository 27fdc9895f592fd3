-- ===== src/Scc/Tests.antt =====
-- Runs of the Z8530 at concrete inputs.
use em68030_win_ui3cpp.Common.{false, List, [], ◌∷◌}
use em68030_win_ui3cpp.Scc.Device.{
  Channel, Scc, Which, channel, composite, compute_rr3, queue_input, read_data, write_control,
  tick_channel,
}
use em68030_win_ui3cpp.Scc.Output.{IsReported}
use em68030_win_ui3cpp.Scc.History.{Event, run, connected_init, run-IsReported}

-- The receive interrupt of channel A is enabled, a character is typed, and the tick moves it.
abbrev typing : List Event
typing =
    Event.writes 0xfffe3002 0x01
    ∷ Event.writes 0xfffe3002 0x10
    ∷ Event.queues Which.a 65
    ∷ Event.ticks false
    ∷ Event.reads 0xfffe3003
    ∷ []

run-IsReported_example : IsReported (run connected_init typing)
run-IsReported_example = run-IsReported typing

abbrev typed : Scc
unfolding connected_init em68030_win_ui3cpp.Scc.Bus.init em68030_win_ui3cpp.Scc.Device.fresh_channel
typed = record connected_init {
  channel_a = record (connected_init.channel_a) { rx_fifo = 65 ∷ []; pending_input = 66 ∷ [] };
}
