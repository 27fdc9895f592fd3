-- ===== src/Cpu/State.antt =====
-- The members of `MC68030` of Em68030/Core/MC68030.h, its small inline functions, and `SetSR`. A7 is
-- a field of its own beside A0 to A6. The callbacks that only report (`ExceptionOccurred`,
-- `DiagnosticOutput`, `OnMemoryAccess`) are not set, the JIT is off, and the wall-clock time spent in
-- STOP is not kept.
use Prim.Native.String.{String}
use em68030_win_ui3cpp.Common.{
  ℕ, ◌+◌, ◌-◌, ◌*◌, ◌/◌, ◌%◌, ◌^◌, List, [], ◌∷◌, Bool, false, not, ◌&&◌, Option, none, some,
  bit_and, bit_or, ltb, ◌==◌, if◌then◌else◌, has, get_or, set, length,
}
use em68030_win_ui3cpp.Mmu.State.{BusError}
use em68030_win_ui3cpp.Mmu.Walk.{Machine}
use em68030_win_ui3cpp.Pcc.State.{Cpu}

-- A fetch or data page cache.
pub record PageCache : Type 0 where
  pub va : ℕ
  pub pa : ℕ
  pub mask : ℕ
  pub valid : Bool

pub record Pages : Type 0 where
  pub fetch : PageCache
  pub read : PageCache

pub record ShadowStackEntry : Type 0 where
  pub call_pc : ℕ
  pub target_pc : ℕ
  pub return_pc : ℕ
  pub sp : ℕ
  pub kind : ℕ

-- The registers before the instruction that is executed; `needed` is `_regSnapshotNeeded`.
pub record Snapshot : Type 0 where
  pub last_pc : ℕ
  pub a : List ℕ
  pub a7 : ℕ
  pub d : List ℕ
  pub sr : ℕ
  pub needed : Bool

pub record Control : Type 0 where
  pub vbr : ℕ
  pub cacr : ℕ
  pub caar : ℕ
  pub sfc : ℕ
  pub dfc : ℕ

-- The shadow stack has its top first.
pub record Mc68030 (Mem : Type 0) : Type 0 where
  pub d : List ℕ
  pub a : List ℕ
  pub a7 : ℕ
  pub pc : ℕ
  pub sr : ℕ
  pub ssp : ℕ
  pub usp : ℕ
  pub control : Control
  pub halted : Bool
  pub stopped : Bool
  pub stop_reason : String
  pub cycle_count : ℕ
  pub instruction_count : ℕ
  pub function_code_override : Option ℕ
  pub trap_handled : Bool
  pub snapshot : Snapshot
  pub processing_bus_error : Bool
  pub pages : Pages
  pub irq : Cpu
  pub tick_divider : ℕ
  pub shadow_stack : List ShadowStackEntry
  pub shadow_stack_enabled : Bool
  -- `s_rmwAddress` of Em68030/Core/AddressingModes.cpp.
  pub rmw_address : ℕ
  pub machine : Machine Mem

-- The arithmetic of `uint32_t`.
abbrev pub add32 : ℕ → ℕ → ℕ
add32 x y = (x + y) % 2 ^ 32

abbrev pub sub32 : ℕ → ℕ → ℕ
sub32 x y = (x + 2 ^ 32 - y) % 2 ^ 32

abbrev pub supervisor_bit : ℕ
supervisor_bit = 0x2000

abbrev pub invalid : PageCache → PageCache
invalid p = record p { valid = false }

abbrev pub no_pages : Pages → Pages
no_pages p = record { fetch = invalid p.fetch; read = invalid p.read }

-- `InterruptMask` is in bits 8 to 10 of SR.
unfoldable pub interrupt_mask : ℕ → ℕ
interrupt_mask sr = bit_and (sr / 2 ^ 8) 7

unfoldable pub with_interrupt_mask : ℕ → ℕ → ℕ
with_interrupt_mask value sr = bit_or (bit_and sr 0xf8ff) (bit_and value 7 * 2 ^ 8)

unfoldable pub with_supervisor : Bool → ℕ → ℕ
with_supervisor value sr = if value then bit_or sr supervisor_bit else bit_and sr 0xdfff

abbrev pub same_mode : Bool → Bool → Bool
same_mode x y = if x then y else not y

module _ {Mem : Type 0} where
  abbrev pub fault_of : Mc68030 Mem → BusError
  fault_of s = s.machine.bus.fault

  abbrev pub is_pending : Mc68030 Mem → Bool
  is_pending s = s.machine.bus.fault.pending

  abbrev pub get_supervisor_mode : Mc68030 Mem → Bool
  get_supervisor_mode s = has s.sr supervisor_bit

  abbrev pub with_fault : BusError → Mc68030 Mem → Mc68030 Mem
  with_fault e s = record s {
    machine = record (s.machine) { bus = record (s.machine.bus) { fault = e } };
  }

  -- `cpu.A[reg]`.
  unfoldable pub address_register : ℕ → Mc68030 Mem → ℕ
  address_register reg s = if reg == 7 then s.a7 else get_or s.a reg 0

  unfoldable pub set_address_register : ℕ → ℕ → Mc68030 Mem → Mc68030 Mem
  set_address_register reg v s =
      if reg == 7 then record s { a7 = v } else record s { a = set s.a reg v }

  unfoldable pub set_supervisor_mode : Bool → Mc68030 Mem → Mc68030 Mem
  unfolding with_supervisor
  set_supervisor_mode value s = record s {
    sr = with_supervisor value s.sr;
    pages = (if same_mode (get_supervisor_mode s) value then s.pages else no_pages s.pages);
  }

  unfoldable pub set_interrupt_mask : ℕ → Mc68030 Mem → Mc68030 Mem
  set_interrupt_mask value s = record s { sr = with_interrupt_mask value s.sr }

  -- `MOVES` overrides the function code.
  unfoldable pub get_function_code : Bool → Mc68030 Mem → ℕ
  get_function_code is_program s = elim s.function_code_override [
    | some fc ↦ bit_and fc 7
    | none ↦
        if get_supervisor_mode s
        then (if is_program then 6 else 5)
        else (if is_program then 2 else 1)
  ]

  unfoldable pub set_sr : ℕ → Mc68030 Mem → Mc68030 Mem
  set_sr new_sr s =
      let was_super = get_supervisor_mode s in
      let will_be_super = has new_sr supervisor_bit in
      let swapped : Mc68030 Mem =
        (if was_super && not will_be_super
          then record s { ssp = s.a7; a7 = s.usp }
          else if not was_super && will_be_super
          then record s { usp = s.a7; a7 = s.ssp }
          else s) in
      record swapped {
        sr = new_sr;
        pages = (if same_mode was_super will_be_super then s.pages else no_pages s.pages);
      }

  unfoldable pub set_ccr_byte : ℕ → Mc68030 Mem → Mc68030 Mem
  set_ccr_byte value s = record s { sr = bit_or (bit_and s.sr 0xff00) value }

  unfoldable pub update_ccr : ℕ → ℕ → Mc68030 Mem → Mc68030 Mem
  unfolding set_ccr_byte
  update_ccr flags mask s =
      set_ccr_byte (bit_or (bit_and (bit_and s.sr 0xff) (0xff - mask)) (bit_and flags mask)) s

  unfoldable pub invalidate_fetch_cache : Mc68030 Mem → Mc68030 Mem
  invalidate_fetch_cache s = record s { pages = no_pages s.pages }

  unfoldable pub shadow_push : ℕ → ℕ → ℕ → ℕ → Mc68030 Mem → Mc68030 Mem
  shadow_push call_pc target_pc return_pc kind s =
      if s.shadow_stack_enabled && ltb (length s.shadow_stack) 256
      then record s {
        shadow_stack =
            record {
              call_pc = call_pc;
              target_pc = target_pc;
              return_pc = return_pc;
              sp = s.a7;
              kind = kind;
            }
            ∷ s.shadow_stack;
      }
      else s

-- Frames whose stack pointer lies below A7 are dropped too.
unfoldable pub unwind : ℕ → List ShadowStackEntry → List ShadowStackEntry
unwind a7 [] = []
unwind a7 (e ∷ es) = let rest = unwind a7 es in if ltb e.sp a7 then rest else e ∷ es

unfoldable pub popped : ℕ → List ShadowStackEntry → List ShadowStackEntry
unfolding unwind
popped a7 [] = []
popped a7 (e ∷ es) = unwind a7 es

module _ {Mem : Type 0} where
  unfoldable pub shadow_pop : Mc68030 Mem → Mc68030 Mem
  unfolding popped
  shadow_pop s =
      if s.shadow_stack_enabled then record s { shadow_stack = popped s.a7 s.shadow_stack } else s

  -- The snapshot that a group of instructions takes before it changes a register.
  unfoldable pub ensure_reg_snapshot : Mc68030 Mem → Mc68030 Mem
  ensure_reg_snapshot s =
      if s.snapshot.needed
      then record s {
        snapshot = record (s.snapshot) { a = s.a; a7 = s.a7; d = s.d; needed = false };
      }
      else s
