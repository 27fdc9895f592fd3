-- ===== src/Pcc/Wiring.antt =====
-- The CPU's interrupt level and the latched device lines along any history of the PCC.
use Prim.Native.String.{String}
use mathlib.Core.Path.{subst}
use text.Mathlib.Text.{◌==◌ as str_eq}
use em68030_win_ui3cpp.Common.{
  ℕ, ◌+◌, ◌-◌, ◌*◌, ◌/◌, ◌≡◌, refl, arith, Bool, true, false, bit_and, bit_or, none, some, ltb, leb,
  sym, ◌&&◌, ◌==◌, if◌then◌else◌, has,
}
use em68030_win_ui3cpp.Common.Bits.{bit_at_div, bit_and_bit, bit_at-bit_or, bit_at-lt}
use em68030_win_ui3cpp.Pcc.Timer.{Timer, advance_timer, tick_timer, write_timer_control}
use em68030_win_ui3cpp.Pcc.Irq.{check_all, write_device_icr}
use em68030_win_ui3cpp.Pcc.State.{
  Pcc, sources, no_request, update_ipl, hardware_reset, tick_timer1, tick_timer2, tick, set_line,
  set_device_interrupt, set_dma_done, suppress_interrupt,
}
use em68030_win_ui3cpp.Pcc.Registers.{
  Register, offset_in, decode, write_register, write_byte, write_word, write_long,
}

-- The level that the CPU sees is the one that the registers ask for.
abbrev pub InSync : Pcc → Type 0
InSync p = p.cpu.pending_ipl ≡ (check_all (sources p) no_request).level

-- Each device that asserts its line has its INT bit latched.
abbrev pub IsLatched : Pcc → Type 0
IsLatched p =
    (p.scc_device_active ≡ true → has p.scc_icr 0x80 ≡ true)
    × (p.scsi_device_active ≡ true → has p.scsi_icr 0x80 ≡ true)
    × (p.lance_device_active ≡ true → has p.lance_icr 0x80 ≡ true)

pub record IsWired (p : Pcc) : Type 0 where
  pub in_sync : InSync p
  pub latched : IsLatched p

has_int : (icr : ℕ) → has (bit_or icr 0x80) 0x80 ≡ true
has_int icr =
    ground (arith, bit_and_bit 7 (bit_or icr 0x80), bit_at-bit_or 7 icr 0x80, bit_at_div 7 0x80)

has_int_first : (v : ℕ) → has (bit_or 0x80 v) 0x80 ≡ true
has_int_first v =
    ground (
      arith,
      bit_and_bit 7 (bit_or 0x80 v),
      bit_at-bit_or 7 0x80 v,
      bit_at-lt 7 v,
      bit_at_div 7 0x80,
    )

-- An acknowledge does not clear the INT bit of a line that is still asserted.
device_icr_stays :
    (icr value : ℕ) (active : Bool)
    → active ≡ true
    → has (write_device_icr icr value active) 0x80 ≡ true
unfolding write_device_icr
device_icr_stays icr value true e = has_int_first (bit_and value 0x0f)
device_icr_stays icr value false e = cc

update_ipl-IsWired : (p : Pcc) → IsLatched p → IsWired (update_ipl p)
unfolding update_ipl
update_ipl-IsWired p l = record { in_sync = refl; latched = l }

if-IsWired : (q r : Pcc) (b : Bool) → IsWired q → IsWired r → IsWired (if b then q else r)
if-IsWired q r true wq wr = wq
if-IsWired q r false wq wr = wr

if-IsLatched : (q r : Pcc) (b : Bool) → IsLatched q → IsLatched r → IsLatched (if b then q else r)
if-IsLatched q r true lq lr = lq
if-IsLatched q r false lq lr = lr

-- `AdvanceTimer` touches the INT bit only where it reports an overflow.
advance_timer-icr :
    (t : Timer) (n : ℕ) → (advance_timer t n).1 ≡ false → (advance_timer t n).0.icr ≡ t.icr
unfolding advance_timer
advance_timer-icr t n h = ground arith

tick_timer-icr : (t : Timer) (n : ℕ) → (tick_timer t n).1 ≡ false → (tick_timer t n).0.icr ≡ t.icr
unfolding tick_timer
tick_timer-icr t n h = ground (
  arith,
  advance_timer-icr
      (record t {
        fractional =
            t.fractional
            + n * 160_000
            - (t.fractional + n * 160_000) / 1_000_000_000 * 1_000_000_000;
      })
      ((t.fractional + n * 160_000) / 1_000_000_000),
)

module _ (reset : Pcc → Pcc) (reset-IsWired : (p : Pcc) → IsWired p → IsWired (reset p)) where
  write_register-IsWired :
      (p : Pcc) (value : ℕ) (r : Register) → IsWired p → IsWired (write_register reset p value r)
  unfolding write_register write_timer_control
  write_register-IsWired p value Register.wdog_icr w =
      if-IsWired _ _ (value == 0xa5) (reset-IsWired p w) (update_ipl-IsWired _ w.latched)
  write_register-IsWired p value Register.scc_icr w =
      update_ipl-IsWired _
        (device_icr_stays p.scc_icr value p.scc_device_active, w.latched.1, w.latched.2)
  write_register-IsWired p value Register.scsi_icr w =
      update_ipl-IsWired _
        (w.latched.0, device_icr_stays p.scsi_icr value p.scsi_device_active, w.latched.2)
  write_register-IsWired p value Register.lance_icr w =
      update_ipl-IsWired _
        (w.latched.0, w.latched.1, device_icr_stays p.lance_icr value p.lance_device_active)
  write_register-IsWired p value Register.timer1_icr w = update_ipl-IsWired _ w.latched
  write_register-IsWired p value Register.timer2_icr w = update_ipl-IsWired _ w.latched
  write_register-IsWired p value Register.ac_fail_icr w = update_ipl-IsWired _ w.latched
  write_register-IsWired p value Register.printer_icr w = update_ipl-IsWired _ w.latched
  write_register-IsWired p value Register.dma_icr w = update_ipl-IsWired _ w.latched
  write_register-IsWired p value Register.bus_err_icr w = update_ipl-IsWired _ w.latched
  write_register-IsWired p value Register.abort_icr w = update_ipl-IsWired _ w.latched
  write_register-IsWired p value Register.soft1_icr w = update_ipl-IsWired _ w.latched
  write_register-IsWired p value Register.soft2_icr w = update_ipl-IsWired _ w.latched
  write_register-IsWired p value r w = record { in_sync = w.in_sync; latched = w.latched }

  pub write_byte-IsWired :
      (p : Pcc) (address value : ℕ) → IsWired p → IsWired (write_byte reset p address value)
  unfolding write_byte
  write_byte-IsWired p address value w =
      if-IsWired _ _ (ltb (offset_in address) 0x10)
        (record { in_sync = w.in_sync; latched = w.latched })
        (elim (decode (offset_in address))
          as (λ d. IsWired (elim d [ none ↦ p | some r ↦ write_register reset p value r ])) [
            | none ↦ w
            | some r ↦ write_register-IsWired p value r w
          ])

  pub write_word-IsWired :
      (p : Pcc) (address value : ℕ) → IsWired p → IsWired (write_word reset p address value)
  unfolding write_word
  write_word-IsWired p address value w =
      if-IsWired _ _ (offset_in address == 0x10)
        (record { in_sync = w.in_sync; latched = w.latched })
        (if-IsWired _ _ (offset_in address == 0x12)
          (record { in_sync = w.in_sync; latched = w.latched })
          (if-IsWired _ _ (offset_in address == 0x14)
            (record { in_sync = w.in_sync; latched = w.latched })
            (if-IsWired _ _ (offset_in address == 0x16)
              (record { in_sync = w.in_sync; latched = w.latched })
              (write_byte-IsWired _ _ _ (write_byte-IsWired p _ _ w)))))

  pub write_long-IsWired :
      (p : Pcc) (address value : ℕ) → IsWired p → IsWired (write_long reset p address value)
  unfolding write_long
  write_long-IsWired p address value w = write_word-IsWired _ _ _ (write_word-IsWired p _ _ w)

pub hardware_reset-IsWired : (now : ℕ) (p : Pcc) → IsWired (hardware_reset now p)
unfolding hardware_reset
hardware_reset-IsWired now p = update_ipl-IsWired _ (λ e. cc, λ e. cc, λ e. cc)

-- A timer with the same ICR, or a new one and `UpdateIPL`.
timer1-IsWired :
    (p : Pcc) (t : Timer) (latched : Bool)
    → IsWired p
    → (latched ≡ false → t.icr ≡ p.timer1.icr)
    → IsWired (if latched then update_ipl (record p { timer1 = t }) else record p { timer1 = t })
timer1-IsWired p t true w e = update_ipl-IsWired _ w.latched
timer1-IsWired p t false w e = record {
  in_sync =
      subst
        (λ (i : ℕ).
          p.cpu.pending_ipl
          ≡ (check_all (sources (record p { timer1 = record t { icr = i } })) no_request).level)
        (sym (e refl)) w.in_sync;
  latched = w.latched;
}

timer2-IsWired :
    (p : Pcc) (t : Timer) (latched : Bool)
    → IsWired p
    → (latched ≡ false → t.icr ≡ p.timer2.icr)
    → IsWired (if latched then update_ipl (record p { timer2 = t }) else record p { timer2 = t })
timer2-IsWired p t true w e = update_ipl-IsWired _ w.latched
timer2-IsWired p t false w e = record {
  in_sync =
      subst
        (λ (i : ℕ).
          p.cpu.pending_ipl
          ≡ (check_all (sources (record p { timer2 = record t { icr = i } })) no_request).level)
        (sym (e refl)) w.in_sync;
  latched = w.latched;
}

pub tick-IsWired :
    (scsi_tick : Pcc → Pcc) (keeps : (p : Pcc) → IsWired p → IsWired (scsi_tick p)) (now : ℕ)
    (p : Pcc)
    → IsWired p
    → IsWired (tick scsi_tick now p)
unfolding tick tick_timer1 tick_timer2
tick-IsWired scsi_tick keeps now p w =
    if-IsWired _ _ (leb (now - p.last_timer_timestamp) 0)
      (record { in_sync = w.in_sync; latched = w.latched })
      (keeps _ (
        timer2-IsWired _ _ _
          (timer1-IsWired (record p { last_timer_timestamp = now }) _ _
            (record { in_sync = w.in_sync; latched = w.latched }) (tick_timer-icr p.timer1 _))
          (tick_timer-icr _ _)))

line_stays :
    (icr : ℕ) (active : Bool)
    → active ≡ true
    → has (if active then bit_or icr 0x80 else bit_and icr 0x7f) 0x80 ≡ true
line_stays icr true e = has_int icr
line_stays icr false e = cc

set_line-IsLatched :
    (device : String) (active : Bool) (p : Pcc) → IsLatched p → IsLatched (set_line device active p)
unfolding set_line
set_line-IsLatched device active p l =
    if-IsLatched _ _ (str_eq device "scc") (line_stays p.scc_icr active, l.1, l.2)
      (if-IsLatched _ _ (str_eq device "scsi") (l.0, line_stays p.scsi_icr active, l.2)
        (if-IsLatched _ _ (str_eq device "lance") (l.0, l.1, line_stays p.lance_icr active) l))

pub set_device_interrupt-IsWired :
    (device : String) (active : Bool) (p : Pcc)
    → IsWired p
    → IsWired (set_device_interrupt device active p)
unfolding set_device_interrupt suppress_interrupt
set_device_interrupt-IsWired device active p w =
    let q = update_ipl-IsWired _ (set_line-IsLatched device active p w.latched) in
    if-IsWired _ _ (str_eq device "scsi" && active)
      (record { in_sync = q.in_sync; latched = q.latched }) q

pub set_dma_done-IsWired : (p : Pcc) → IsWired p → IsWired (set_dma_done p)
unfolding set_dma_done
set_dma_done-IsWired p w = update_ipl-IsWired _ w.latched
