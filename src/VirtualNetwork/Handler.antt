-- ===== src/VirtualNetwork/Handler.antt =====
-- The members of `VirtualNetworkHandler`, and the frames that it builds.
use em68030_win_ui3cpp.Common.{
  ℕ, ◌+◌, ◌-◌, ◌%◌, ◌^◌, List, [], ◌∷◌, ◌++◌, Option, none, ltb, ◌==◌, if◌then◌else◌, length, set,
  replicate,
}
use em68030_win_ui3cpp.Common.Size.{word, long}
use em68030_win_ui3cpp.Common.Bytes.{write_be}
use em68030_win_ui3cpp.VirtualNetwork.Checksum.{compute_checksum, bytes_at, copy_to}

pub data TcpState : Type 0 where
  syn_received established : TcpState

pub record TcpConnection : Type 0 where
  pub state : TcpState
  pub our_seq : ℕ
  pub their_seq : ℕ

pub record Handler : Type 0 where
  pub guest_mac : List ℕ
  pub guest_ip : List ℕ
  pub rx_queue : List (List ℕ)
  pub connections : ℕ → Option TcpConnection

unfoldable pub fresh : Handler
fresh = record {
  guest_mac = 0 ∷ 0 ∷ 0 ∷ 0 ∷ 0 ∷ 0 ∷ [];
  guest_ip = 0 ∷ 0 ∷ 0 ∷ 0 ∷ [];
  rx_queue = [];
  connections = λ port. none;
}

abbrev pub gateway_mac : List ℕ
gateway_mac = 0x52 ∷ 0x54 ∷ 0x00 ∷ 0x12 ∷ 0x34 ∷ 0x56 ∷ []

abbrev pub gateway_ip : List ℕ
gateway_ip = 10 ∷ 0 ∷ 2 ∷ 2 ∷ []

abbrev pub put16 : ℕ → ℕ → List ℕ → List ℕ
put16 offset v buffer = write_be word v buffer offset

abbrev pub put32 : ℕ → ℕ → List ℕ → List ℕ
put32 offset v buffer = write_be long v buffer offset

abbrev pub push : List ℕ → Handler → Handler
push frame h = record h { rx_queue = h.rx_queue ++ frame ∷ [] }

abbrev pub connect : ℕ → Option TcpConnection → Handler → Handler
connect port c h = record h { connections = λ p. if p == port then c else h.connections p }

-- An Ethernet frame to the guest of at least 60 bytes, with its two addresses and its type.
unfoldable pub ethernet : ℕ → ℕ → Handler → List ℕ
ethernet size ether_type h =
    put16 12 ether_type (
      copy_to 6 gateway_mac
        (copy_to 0 h.guest_mac (replicate (if ltb size 60 then 60 else size) 0)))

-- The IPv4 header from the gateway to the guest, with its checksum.
unfoldable pub ip_header : ℕ → ℕ → Handler → List ℕ → List ℕ
ip_header total_len protocol h frame =
    let versioned = put16 16 (total_len % 2 ^ 16) (set frame 14 0x45) in
    let lived = set (set (put16 20 0x4000 versioned) 22 64) 23 protocol in
    let addressed = copy_to 30 h.guest_ip (copy_to 26 gateway_ip lived) in
    put16 24 (compute_checksum (bytes_at 20 addressed 14)) addressed

-- The checksum of a segment behind its pseudo-header.
unfoldable pub segment_checksum : ℕ → List ℕ → Handler → ℕ
segment_checksum protocol segment h =
    let headed = copy_to 4 h.guest_ip (copy_to 0 gateway_ip (replicate (12 + length segment) 0)) in
    let measured = put16 10 (length segment % 2 ^ 16) (set (set headed 8 0) 9 protocol) in
    compute_checksum (copy_to 12 segment measured)

unfoldable pub arp_reply : List ℕ → Handler → List ℕ
arp_reply frame h =
    let typed = put16 16 0x0800 (put16 14 0x0001 (ethernet 60 0x0806 h)) in
    let sized = put16 20 0x0002 (set (set typed 18 6) 19 4) in
    let sender = copy_to 28 (bytes_at 4 frame 38) (copy_to 22 gateway_mac sized) in
    copy_to 38 h.guest_ip (copy_to 32 h.guest_mac sender)

unfoldable pub icmp_reply : List ℕ → ℕ → List ℕ
icmp_reply frame ip_header_len =
    let icmp = 14 + ip_header_len in
    let macs = copy_to 6 gateway_mac (copy_to 0 (bytes_at 6 frame 6) frame) in
    let ips = copy_to 26 (bytes_at 4 frame 30) (copy_to 30 (bytes_at 4 frame 26) macs) in
    let cleared = set (set (set ips 22 64) 24 0) 25 0 in
    let summed = put16 24 (compute_checksum (bytes_at ip_header_len cleared 14)) cleared in
    let echoed = set (set (set summed icmp 0) (icmp + 2) 0) (icmp + 3) 0 in
    put16 (icmp + 2) (compute_checksum (bytes_at (length frame - icmp) echoed icmp)) echoed

-- `BuildTcpPacket`; an empty payload stands for none.
unfoldable pub build_tcp_packet : ℕ → ℕ → ℕ → ℕ → ℕ → List ℕ → Handler → List ℕ
build_tcp_packet src_port dst_port seq ack flags payload h =
    let total_len = 20 + 20 + length payload in
    let headed = ip_header total_len 6 h (ethernet (14 + total_len) 0x0800 h) in
    let ports = put16 36 dst_port (put16 34 src_port headed) in
    let numbered = put32 42 ack (put32 38 seq ports) in
    let flagged = put16 48 65535 (set (set numbered 46 0x50) 47 flags) in
    let filled = copy_to 54 payload flagged in
    put16 50 (segment_checksum 6 (bytes_at (20 + length payload) filled 34) h) filled

unfoldable pub build_udp_reply : ℕ → ℕ → ℕ → List ℕ → Handler → List ℕ
build_udp_reply src_port dst_port udp_len payload h =
    let total_len = 20 + 8 + length payload in
    let headed = ip_header total_len 17 h (ethernet (14 + total_len) 0x0800 h) in
    let ports = put16 38 udp_len (put16 36 src_port (put16 34 dst_port headed)) in
    let filled = copy_to 42 payload ports in
    let sum = segment_checksum 17 (bytes_at udp_len filled 34) h in
    put16 40 (if sum == 0 then 0xffff else sum) filled
