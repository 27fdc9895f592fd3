-- ===== src/Lance/History.antt =====
-- The interrupt output along any history of the controller.
use em68030_win_ui3cpp.Common.{ℕ, ◌≡◌, refl, sym, ◌∙◌, List, [], ◌∷◌, Option, none, some, has}
use em68030_win_ui3cpp.Lance.State.{Dma, Network, Machine, initial, read_csr, on_lance}
use em68030_win_ui3cpp.Lance.Device.{
  write_word, write_byte, write_long, set_network_handler, attach_memory, tick,
}
use em68030_win_ui3cpp.Lance.Status.{read_csr_lem}
use em68030_win_ui3cpp.Lance.Reporting.{
  reported, OnSome, Reports, write_word-Reports, write_long-Reports, tick-Reports,
}

-- What reaches the controller: register writes, ticks with fuel for their loops, another network
-- handler, and the memory.
pub data Event (Net : Type 0) : Type 0 where
  writes_byte writes_word writes_long : ℕ → ℕ → Event Net
  ticks : ℕ → Event Net
  handles : Net → Event Net
  attaches : Event Net

module _ {Mem Net : Type 0} (dma : Dma Mem) (network : Network Net) where
  unfoldable pub step : Machine Mem Net → Event Net → Option (Machine Mem Net)
  step s (Event.writes_byte address value) = some (write_byte dma network address value s)
  step s (Event.writes_word address value) = some (write_word dma network address value s)
  step s (Event.writes_long address value) = some (write_long dma network address value s)
  step s (Event.ticks fuel) = tick dma network fuel s
  step s (Event.handles net) = some (set_network_handler dma network net s)
  step s Event.attaches = some (on_lance attach_memory s)

  unfoldable pub run : Option (Machine Mem Net) → List (Event Net) → Option (Machine Mem Net)
  run o [] = o
  run none (e ∷ rest) = none
  run (some s) (e ∷ rest) = run (step s e) rest

  step-Reports : (s : Machine Mem Net) (e : Event Net) → Reports s → OnSome Reports (step s e)
  unfolding step write_byte set_network_handler attach_memory
  step-Reports s (Event.writes_byte address value) h = h
  step-Reports s (Event.writes_word address value) h =
      write_word-Reports dma network address value s h
  step-Reports s (Event.writes_long address value) h =
      write_long-Reports dma network address value s h
  step-Reports s (Event.ticks fuel) h = tick-Reports dma network fuel s h
  step-Reports s (Event.handles net) h = h
  step-Reports s Event.attaches h = h

  run-Reports :
      (o : Option (Machine Mem Net)) (es : List (Event Net))
      → OnSome Reports o
      → OnSome Reports (run o es)
  unfolding run
  run-Reports none [] h = tt
  run-Reports none (e ∷ rest) h = tt
  run-Reports (some s) [] h = h
  run-Reports (some s) (e ∷ rest) h = run-Reports (step s e) rest (step-Reports s e h)

  -- The interrupt output is what CSR0 shows as INTR.
  abbrev pub ShowsInterrupt : Machine Mem Net → Type 0
  ShowsInterrupt s = reported s.lance.interrupts ≡ has (read_csr 0 s.lance) 0x0080

  shows : (o : Option (Machine Mem Net)) → OnSome Reports o → OnSome ShowsInterrupt o
  shows none h = tt
  shows (some s) h = h ∙ sym ((read_csr_lem s.lance).3)

  -- From a new controller on, after any register writes, ticks whose loops end, other network handlers
  -- and attachments of the memory, the last value given to `InterruptOutput`, which starts inactive, is
  -- the INTR bit that a read of CSR0 shows.
  pub run-ShowsInterrupt :
      (mem : Mem) (net : Net) (es : List (Event Net))
      → OnSome ShowsInterrupt (run (some (record { lance = initial; mem = mem; net = net })) es)
  unfolding initial
  run-ShowsInterrupt mem net es =
      shows _ (run-Reports (some (record { lance = initial; mem = mem; net = net })) es refl)
