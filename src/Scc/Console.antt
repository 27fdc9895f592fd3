-- ===== src/Scc/Console.antt =====
-- The console's characters on their way through a channel, and its registers.
use mathlib.Core.List.{append_assoc, append-nil}
use em68030_win_ui3cpp.Common.{
  ℕ, ◌+◌, ◌/◌, ◌%◌, ◌^◌, ◌<◌, ◌≡◌, refl, sym, ap, ◌∙◌, arith, Bool, true, false, not, ◌&&◌, List,
  [], ◌∷◌, ◌++◌, bit_and, leb, ◌==◌, if◌then◌else◌, set,
}
use em68030_win_ui3cpp.Common.Bits.{bit_and_mask}
use em68030_win_ui3cpp.Scc.Device.{
  Channel, Scc, Which, channel, put, is_empty, is_rx_interrupt_enabled, update_composite_interrupt,
  queue_input, read_data, read_fifo, read_pending, write_control, write_wr0, write_selected,
  command, promote, tick_receiver, tick_transmitter, tick_channel, changed, is_tx_interrupt_enabled,
}

promote-append : (rx q : List ℕ) → promote rx q ≡ rx ++ q
unfolding promote
promote-append rx [] = sym (append-nil rx)
promote-append rx (ch ∷ rest) = promote-append (rx ++ ch ∷ []) rest ∙ append_assoc rx (ch ∷ []) rest

-- The characters that wait in a channel, in the order in which `ReadData` gives them out.
abbrev pub waiting : Which → Scc → List ℕ
waiting w s = (channel w s).rx_fifo ++ (channel w s).pending_input

update-channel : (w : Which) (s : Scc) → channel w (update_composite_interrupt s) ≡ channel w s
unfolding update_composite_interrupt
update-channel Which.a s = ground arith
update-channel Which.b s = ground arith

channel-put : (w : Which) (c : Channel) (s : Scc) → channel w (put w c s) ≡ c
channel-put Which.a c s = refl
channel-put Which.b c s = refl

abbrev pub head_or : List ℕ → ℕ → ℕ
head_or [] d = d
head_or (x ∷ xs) d = x

abbrev pub tail : List ℕ → List ℕ
tail [] = []
tail (x ∷ xs) = xs

reading_pending :
    (w : Which) (q : List ℕ) (s : Scc)
    → (channel w s).rx_fifo ≡ []
    → (channel w s).pending_input ≡ q
    → ((read_pending w q s).value ≡ head_or q 0) × (waiting w (read_pending w q s).scc ≡ tail q)
unfolding read_pending
reading_pending w [] s f e = (refl, rw (f, e) refl)
reading_pending w (ch ∷ rest) s f e = (
  refl,
  ap (λ (c : Channel). c.rx_fifo ++ c.pending_input)
        (channel-put w (record (channel w s) { pending_input = rest }) s)
      ∙ ap (λ (q : List ℕ). q ++ rest) f,
)

reading_fifo :
    (w : Which) (q : List ℕ) (s : Scc)
    → (channel w s).rx_fifo ≡ q
    → ((read_fifo w q s).value ≡ head_or (waiting w s) 0)
      × (waiting w (read_fifo w q s).scc ≡ tail (waiting w s))
unfolding read_fifo
reading_fifo w [] s e = let r = reading_pending w (channel w s).pending_input s e refl in rw e r
reading_fifo w (ch ∷ []) s e =
    let popped = put w (record (channel w s) { rx_fifo = [] }) s in
    (
      rw e refl,
      ap (λ (c : Channel). c.rx_fifo ++ c.pending_input)
            (update-channel w popped ∙ channel-put w _ s)
          ∙ ap (λ (q : List ℕ). tail (q ++ (channel w s).pending_input)) (sym e),
    )
reading_fifo w (ch ∷ next ∷ rest) s e = (
  rw e refl,
  ap (λ (c : Channel). c.rx_fifo ++ c.pending_input) (channel-put w _ s)
      ∙ ap (λ (q : List ℕ). tail (q ++ (channel w s).pending_input)) (sym e),
)

-- `ReadData` gives out the waiting characters one at a time, received ones before staged ones, and 0
-- where none waits.
pub read_data-waiting :
    (w : Which) (s : Scc)
    → ((read_data w s).value ≡ head_or (waiting w s) 0)
      × (waiting w (read_data w s).scc ≡ tail (waiting w s))
unfolding read_data
read_data-waiting w s = reading_fifo w _ s refl

abbrev queue_of : Channel → List ℕ
queue_of c = c.rx_fifo ++ c.pending_input

-- A channel operation that leaves both queues alone, with or without `InterruptStateChanged`.
if-waiting :
    (w : Which) (q r : Scc) (x : Bool) (l : List ℕ)
    → waiting w q ≡ l
    → waiting w r ≡ l
    → waiting w (if x then q else r) ≡ l
if-waiting w q r true l hq hr = hq
if-waiting w q r false l hq hr = hr

put-waiting : (w : Which) (c : Channel) (s : Scc) → waiting w (put w c s) ≡ queue_of c
put-waiting w c s = ap queue_of (channel-put w c s)

changed-waiting : (w : Which) (c : Channel) (s : Scc) → waiting w (changed w c s) ≡ queue_of c
changed-waiting w c s = ap queue_of (update-channel w (put w c s) ∙ channel-put w c s)

tick_transmitter-waiting :
    (w : Which) (cpu_stopped : Bool) (s : Scc)
    → waiting w (tick_transmitter w cpu_stopped s) ≡ waiting w s
unfolding tick_transmitter
tick_transmitter-waiting w cpu_stopped s =
    if-waiting w _ _ (channel w s).tx_in_progress _ (changed-waiting w _ s) (
      if-waiting w _ _ (is_tx_interrupt_enabled (channel w s) && not (channel w s).tx_int_pending) _
        (if-waiting w _ _ (leb 16 ((channel w s).tx_idle_ticks + 1)) _ (changed-waiting w _ s)
          (put-waiting w _ s))
        (if-waiting w _ _
          (cpu_stopped
            && (channel w s).tx_int_pending
            && not (is_tx_interrupt_enabled (channel w s)))
          _ (changed-waiting w _ s) (put-waiting w _ s)))

tick_receiver-waiting : (w : Which) (s : Scc) → waiting w (tick_receiver w s) ≡ waiting w s
unfolding tick_receiver
tick_receiver-waiting w s =
    if-waiting w _ _
      (is_rx_interrupt_enabled (channel w s) && not (is_empty (channel w s).pending_input)) _
      (changed-waiting w _ s
        ∙ append-nil _
        ∙ promote-append (channel w s).rx_fifo (channel w s).pending_input)
      refl

-- Console input goes to the end of what waits, and a channel's `Tick` may move it to the receive
-- queue but changes neither the characters that wait nor their order.
pub queue_input-tick_channel :
    (w : Which) (ch : ℕ) (cpu_stopped : Bool) (s : Scc)
    → (waiting w (queue_input w ch s) ≡ waiting w s ++ ch ∷ [])
      × (waiting w (tick_channel w cpu_stopped s) ≡ waiting w s)
unfolding queue_input tick_channel
queue_input-tick_channel w ch cpu_stopped s = (
  put-waiting w _ s
      ∙ sym (append_assoc (channel w s).rx_fifo (channel w s).pending_input (ch ∷ [])),
  tick_receiver-waiting w _ ∙ tick_transmitter-waiting w cpu_stopped s,
)

command-keeps :
    (w : Which) (cmd : ℕ) (s : Scc)
    → (channel w (command w cmd s)).write_regs ≡ (channel w s).write_regs
unfolding command update_composite_interrupt
command-keeps Which.a cmd s = ground arith
command-keeps Which.b cmd s = ground arith

point_at :
    (w : Which) (select : ℕ) (s : Scc)
    → 0 < select % 8
    → ((channel w (write_wr0 w select s)).write_regs ≡ (channel w s).write_regs)
      × ((channel w (write_wr0 w select s)).register_pointer ≡ select % 8)
unfolding write_wr0
point_at Which.a select s h =
    ground (arith, bit_and_mask 3 select, command-keeps Which.a (bit_and (select / 2 ^ 3) 7) s)
point_at Which.b select s h =
    ground (arith, bit_and_mask 3 select, command-keeps Which.b (bit_and (select / 2 ^ 3) 7) s)

store_in :
    (w : Which) (reg value : ℕ) (s : Scc)
    → reg < 8
    → ((channel w (write_selected w reg value s)).write_regs
        ≡ set (channel w s).write_regs reg value)
      × ((channel w (write_selected w reg value s)).register_pointer
          ≡ (channel w s).register_pointer)
unfolding write_selected update_composite_interrupt
store_in Which.a reg value s h = ground arith
store_in Which.b reg value s h = ground arith

-- Two control writes with the pointer at zero, the first naming a register, store the second byte in
-- that register and in no other, and leave the pointer at zero, whatever command the first one holds.
pub write_control_twice :
    (w : Which) (select value : ℕ) (s : Scc)
    → (channel w s).register_pointer ≡ 0
    → 0 < select % 8
    → let c = channel w (write_control w value (write_control w select s)) in
      (c.write_regs ≡ set (channel w s).write_regs (select % 8) value) × (c.register_pointer ≡ 0)
unfolding write_control
write_control_twice w select value s e h =
    let p = point_at w select s h in
    let t = write_wr0 w select s in
    let named : (select % 8 == 0) ≡ false = ground arith in
    let cleared = put w (record (channel w t) { register_pointer = 0 }) t in
    let q = store_in w (select % 8) value cleared (omega arith) in
    let c = channel-put w (record (channel w t) { register_pointer = 0 }) t in
    rw (e, p.1, named)
      (
        q.0
            ∙ ap (λ (x : Channel). set x.write_regs (select % 8) value) c
            ∙ ap (λ (x : List ℕ). set x (select % 8) value) p.0,
        q.1 ∙ ap (λ (x : Channel). x.register_pointer) c,
      )
