-- ===== src/Lance/State.antt =====
-- The members of `LanceDevice`, its control and status registers (CSR), and its interrupt output.
-- The memory and the network handler, both behind a pointer in the source, are two interfaces; the
-- states that they act on stand beside the device's.
use em68030_win_ui3cpp.Common.{
  ℕ, ◌-◌, Bool, false, not, ◌&&◌, List, [], ◌∷◌, bit_and, bit_or, ◌==◌, if◌then◌else◌, has, get_or,
  set,
}
pub use em68030_win_ui3cpp.Memory.Interface.{Dma}

-- `INetworkHandler`.
pub record Network (Net : Type 0) : Type 0 where
  pub process_packet : List ℕ → Net → Net
  pub has_pending_packet : Net → Bool
  pub dequeue_packet : Net → List ℕ × Net
  pub set_guest_mac : List ℕ → Net → Net
  pub reset : Net → Net

pub record Lance : Type 0 where
  pub attached : Bool
  pub rap : ℕ
  pub csr : List ℕ
  pub mode : ℕ
  pub mac_address : List ℕ
  pub rx_ring_addr : ℕ
  pub tx_ring_addr : ℕ
  pub rx_ring_len : ℕ
  pub tx_ring_len : ℕ
  pub initialized : Bool
  pub running : Bool
  pub tx_ring_index : ℕ
  pub tx_pending : Bool
  pub rx_ring_index : ℕ
  -- What `InterruptOutput`, which the board sets, was called with, the latest first.
  pub interrupts : List Bool

abbrev pub csr0 : Lance → ℕ
csr0 d = get_or d.csr 0 0

abbrev pub with_csr0 : ℕ → Lance → Lance
with_csr0 v d = record d { csr = set d.csr 0 v }

-- `x & ~mask` on 16 bits.
abbrev pub clear16 : ℕ → ℕ → ℕ
clear16 x mask = bit_and x (0xffff - mask)

unfoldable pub initial : Lance
initial = record {
  attached = false;
  rap = 0;
  csr = 0x0004 ∷ 0 ∷ 0 ∷ 0 ∷ [];
  mode = 0;
  mac_address = 0 ∷ 0 ∷ 0 ∷ 0 ∷ 0 ∷ 0 ∷ [];
  rx_ring_addr = 0;
  tx_ring_addr = 0;
  rx_ring_len = 0;
  tx_ring_len = 0;
  initialized = false;
  running = false;
  tx_ring_index = 0;
  tx_pending = false;
  rx_ring_index = 0;
  interrupts = [];
}

-- The interrupt that CSR0 asks for.
abbrev pub wants_interrupt : ℕ → Bool
wants_interrupt v = has v 0x7f00 && has v 0x0040

unfoldable pub update_interrupt : Lance → Lance
update_interrupt d = record d { interrupts = wants_interrupt (csr0 d) ∷ d.interrupts }

unfoldable pub read_csr : ℕ → Lance → ℕ
read_csr csr_num d =
    if not (csr_num == 0)
    then get_or d.csr csr_num 0
    else (let stored = csr0 d in
        let with_err =
          (if has stored 0x7800 then bit_or stored 0x8000 else clear16 stored 0x8000) in
        let with_on = (if d.running then bit_or with_err 0x0030 else clear16 with_err 0x0030) in
        if wants_interrupt with_on then bit_or with_on 0x0080 else clear16 with_on 0x0080)

-- The device with what it acts on.
pub record Machine (Mem Net : Type 0) : Type 0 where
  pub lance : Lance
  pub mem : Mem
  pub net : Net

module _ {Mem Net : Type 0} where
  abbrev pub on_lance : (Lance → Lance) → Machine Mem Net → Machine Mem Net
  on_lance f s = record s { lance = f s.lance }
