-- ===== src/VirtualNetwork/Serving.antt =====
-- The handler as the one that the LANCE takes its packets from.
use em68030_win_ui3cpp.Common.{
  ℕ, suc, ◌<◌, ◌≡◌, refl, arith, true, List, [], ◌∷◌, some, ltb, length,
}
use em68030_win_ui3cpp.Lance.State.{Dma, Machine}
use em68030_win_ui3cpp.Lance.Rings.{process_rx_ring}
use em68030_win_ui3cpp.Lance.Receiving.{IsQueue, IsServed, process_rx_ring-IsServed}
use em68030_win_ui3cpp.VirtualNetwork.Handler.{Handler}
use em68030_win_ui3cpp.VirtualNetwork.Replies.{has_pending_packet, dequeue, virtual_network}

has_pending_packet_lem : (ps : List (List ℕ)) → has_pending_packet ps ≡ ltb 0 (length ps)
unfolding has_pending_packet
has_pending_packet_lem [] = refl
has_pending_packet_lem (p ∷ ps) = ground arith

dequeue_lem :
    (ps : List (List ℕ)) (h : Handler)
    → 0 < length ps
    → suc (length (dequeue ps h).1.rx_queue) ≡ length ps
unfolding dequeue
dequeue_lem [] h l = absurd (omega arith)
dequeue_lem (p ∷ ps) h l = refl

pub virtual_network-IsQueue : IsQueue virtual_network (λ h. length h.rx_queue)
virtual_network-IsQueue = record {
  has_some = λ h. has_pending_packet_lem h.rx_queue;
  takes_one = λ h l. dequeue_lem h.rx_queue h l;
}

-- With the virtual network behind it, `ProcessRxRing` of an attached device that runs ends after at most
-- one round more than frames wait, whatever the memory: no frame waits any more, or MISS is set.
pub process_rx_ring-serves :
    {Mem : Type 0} (dma : Dma Mem) (s : Machine Mem Handler)
    → s.lance.attached ≡ true
    → s.lance.running ≡ true
    → 0 < length s.lance.csr
    → (r : Machine Mem Handler) × (process_rx_ring dma virtual_network
          (suc (length s.net.rx_queue))
          s
        ≡ some r)
      × IsServed dma virtual_network r
process_rx_ring-serves dma s at run c =
    process_rx_ring-IsServed dma virtual_network (λ h. length h.rx_queue) s at run
      virtual_network-IsQueue c
