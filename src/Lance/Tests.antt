-- ===== src/Lance/Tests.antt =====
-- The LANCE at concrete inputs.
use em68030_win_ui3cpp.Common.{
  ℕ, suc, ◌+◌, ◌*◌, ◌/◌, ◌%◌, ◌<◌, ◌≡◌, refl, arith, Bool, true, false, List, [], ◌∷◌, ◌++◌, some,
  bit_or, ltb, ◌==◌, if◌then◌else◌, length,
}
use em68030_win_ui3cpp.Common.Size.{Size, byte, word, long}
use em68030_win_ui3cpp.Lance.State.{
  Dma, Network, Lance, Machine, csr0, initial, with_csr0, update_interrupt,
}
use em68030_win_ui3cpp.Lance.Rings.{process_tx_ring, process_rx_ring}
use em68030_win_ui3cpp.Common.Bytes.{write_be}
use em68030_win_ui3cpp.Memory.Store.{Store}
use em68030_win_ui3cpp.Memory.Debug.{poke}
use em68030_win_ui3cpp.Memory.Interface.{bus_dma}
use em68030_win_ui3cpp.Memory.Poking.{Bytes, poke-Bytes}
use em68030_win_ui3cpp.Cpu.Samples.{no_devices, store, zeros, store-Bytes}
use em68030_win_ui3cpp.Lance.OnBus.{bus_ring}
use em68030_win_ui3cpp.Lance.Ring.{IsRing}
use em68030_win_ui3cpp.Lance.Draining.{IsDrained, process_tx_ring-Drains}
use em68030_win_ui3cpp.Lance.Reporting.{OnSome}
use em68030_win_ui3cpp.Lance.History.{Event, run, ShowsInterrupt, run-ShowsInterrupt}
use em68030_win_ui3cpp.Lance.Receiving.{IsQueue, IsServed, process_rx_ring-IsServed}

-- A memory of bytes, each at its own address.
abbrev Cells : Type 0
Cells = ℕ → ℕ

abbrev word_at : Cells → ℕ → ℕ
word_at m a = m a * 256 + m (a + 1)

abbrev byte_put : ℕ → ℕ → Cells → Cells
byte_put a v m = λ x. if x == a then v else m x

abbrev read_bytes : Size → ℕ → Cells → ℕ
read_bytes byte a m = m a
read_bytes word a m = word_at m a
read_bytes long a m = word_at m a * 65536 + word_at m (a + 2)

abbrev word_put : ℕ → ℕ → Cells → Cells
word_put a v m = byte_put a (v / 256) (byte_put (a + 1) (v % 256) m)

abbrev write_bytes : Size → ℕ → ℕ → Cells → Cells
write_bytes byte a v m = byte_put a v m
write_bytes word a v m = word_put a v m
write_bytes long a v m = word_put a (v / 65536) (word_put (a + 2) (v % 65536) m)

abbrev ram : Dma Cells
ram = record { peek = λ z a m. record { value = read_bytes z a m; after = m }; poke = write_bytes }

-- A handler that sends every packet back.
abbrev Packets : Type 0
Packets = List (List ℕ)

abbrev waits : Packets → Bool
waits [] = false
waits (p ∷ ps) = true

abbrev take_packet : Packets → List ℕ × Packets
take_packet [] = ([], [])
take_packet (p ∷ ps) = (p, ps)

abbrev echo : Network Packets
echo = record {
  process_packet = λ p ps. ps ++ p ∷ [];
  has_pending_packet = waits;
  dequeue_packet = take_packet;
  set_guest_mac = λ mac ps. ps;
  reset = λ ps. [];
}

echo_waits : (ps : Packets) → waits ps ≡ ltb 0 (length ps)
echo_waits [] = refl
echo_waits (p ∷ ps) = ground arith

echo_takes : (ps : Packets) → 0 < length ps → suc (length (take_packet ps).1) ≡ length ps
echo_takes [] h = absurd (omega arith)
echo_takes (p ∷ ps) h = refl

echo-IsQueue : IsQueue echo (λ ps. length ps)
echo-IsQueue = record { has_some = echo_waits; takes_one = echo_takes }

-- A device that runs, with two descriptors in either ring.
abbrev on_board : Lance
on_board = record {
  attached = true;
  rap = 0;
  csr = 0x0140 ∷ 0 ∷ 0 ∷ 0 ∷ [];
  mode = 0;
  mac_address = 0 ∷ 0 ∷ 0 ∷ 0 ∷ 0 ∷ 0 ∷ [];
  rx_ring_addr = 0x1100;
  tx_ring_addr = 0x1000;
  rx_ring_len = 2;
  tx_ring_len = 2;
  initialized = true;
  running = true;
  tx_ring_index = 0;
  tx_pending = true;
  rx_ring_index = 0;
  interrupts = true ∷ [];
}

-- The first transmit descriptor holds four bytes at 0x2000.
abbrev one_packet : Cells
one_packet a =
    if a == 0x1000
    then 0x20
    else if a == 0x1002
    then 0x83
    else if a == 0x1004
    then 0xff
    else if a == 0x1005
    then 0xfc
    else if a == 0x2003
    then 7
    else 0

abbrev board : Machine Cells Packets
board = record { lance = on_board; mem = one_packet; net = (1 ∷ 2 ∷ []) ∷ [] }

-- On the memory bus, with the ring in RAM from 0x10 on and its first descriptor the device's.
abbrev ring_memory : Store ℕ
ring_memory = poke word 0x12 0x8300 store

ring_memory-Bytes : Bytes no_devices 0 0 64 (write_be word 0x8300 zeros 0x12) ring_memory
ring_memory-Bytes =
    poke-Bytes no_devices 0 0 64 word 0x12 0x8300 zeros store store-Bytes (omega arith)
      (omega arith)

abbrev bus : Dma (Store ℕ)
bus = bus_dma no_devices

abbrev ring : IsRing bus 0x10 2
ring =
    bus_ring no_devices 0 0 64 0x10 2 (λ z d a bytes m h. h) (omega arith) (omega arith)
      (omega arith)

abbrev bus_lance : Lance
bus_lance = record on_board { tx_ring_addr = 0x10 }

abbrev bus_machine : Machine (Store ℕ) Packets
bus_machine = record { lance = bus_lance; mem = ring_memory; net = [] }

process_tx_ring-Drains_example :
    (n : ℕ) × (r : Machine (Store ℕ) Packets) × (process_tx_ring bus echo 3 bus_machine
      ≡ some (record r {
        lance =
            (let idle = record (r.lance) { tx_pending = false } in
              if ltb 0 n
              then update_interrupt (with_csr0 (bit_or (csr0 bus_lance) 0x0200) idle)
              else idle);
      }))
    × IsDrained bus echo n bus_machine r
unfolding bus_ring
process_tx_ring-Drains_example =
    process_tx_ring-Drains bus echo bus_machine refl refl ring (_, ring_memory-Bytes) (omega arith)

process_rx_ring-IsServed_example :
    (r : Machine Cells Packets) × (process_rx_ring ram echo 2 board ≡ some r) × IsServed ram echo r
process_rx_ring-IsServed_example =
    process_rx_ring-IsServed ram echo (λ ps. length ps) board refl refl echo-IsQueue (omega arith)

-- The address of the initialisation block is given, and the device is initialised and started.
abbrev boot : List (Event Packets)
boot =
    Event.attaches
    ∷ Event.writes_long 0xfffe1800 0x20000001
    ∷ Event.writes_word 0xfffe1802 0
    ∷ Event.writes_word 0xfffe1800 0x0043
    ∷ Event.ticks 3
    ∷ []

run-ShowsInterrupt_example :
    OnSome
      (λ (s : Machine Cells Packets). ShowsInterrupt ram echo s)
      (run ram echo (some (record { lance = initial; mem = one_packet; net = [] })) boot)
run-ShowsInterrupt_example = run-ShowsInterrupt ram echo one_packet [] boot
