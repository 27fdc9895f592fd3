-- ===== src/VirtualNetwork/Replies.antt =====
-- What the handler does with a frame of the guest: `ProcessPacket` and the functions that it calls.
-- A frame is read only where its length has been tested, except for a data offset beyond its end, which
-- no byte is read at.
use em68030_win_ui3cpp.Common.{
  ℕ, ◌+◌, ◌-◌, ◌*◌, ◌/◌, ◌%◌, ◌^◌, Bool, true, false, not, ◌&&◌, ◌||◌, List, [], ◌∷◌, Option, none,
  some, bit_and, ltb, ◌==◌, if◌then◌else◌, has, length, get_or,
}
use em68030_win_ui3cpp.Common.Size.{word, long}
use em68030_win_ui3cpp.Common.Bytes.{read_be}
use em68030_win_ui3cpp.Lance.State.{Network}
use em68030_win_ui3cpp.VirtualNetwork.Checksum.{bytes_at}
use em68030_win_ui3cpp.VirtualNetwork.Handler.{
  TcpState, TcpConnection, Handler, push, connect, arp_reply, icmp_reply, build_tcp_packet,
  build_udp_reply,
}

-- `memcmp` finds no difference.
abbrev pub same_bytes : List ℕ → List ℕ → Bool
same_bytes [] [] = true
same_bytes [] (y ∷ ys) = false
same_bytes (x ∷ xs) [] = false
same_bytes (x ∷ xs) (y ∷ ys) = (x == y) && same_bytes xs ys

unfoldable pub handle_arp : List ℕ → Handler → Handler
handle_arp frame h =
    if ltb (length frame) 42
      || not (read_be word frame 20 == 1)
      || same_bytes (bytes_at 4 frame 28) (0 ∷ 0 ∷ 0 ∷ 0 ∷ [])
    then h
    else (let learned = record h { guest_ip = bytes_at 4 frame 28 } in
        if same_bytes (bytes_at 4 frame 38) learned.guest_ip
        then learned
        else push (arp_reply frame learned) learned)

unfoldable pub handle_icmp : List ℕ → ℕ → Handler → Handler
handle_icmp frame ip_header_len h =
    let icmp = 14 + ip_header_len in
    if ltb (length frame) (icmp + 8) || not (get_or frame icmp 0 == 8)
    then h
    else push (icmp_reply frame ip_header_len) h

-- The fields of a TCP segment at an offset of the frame.
pub record Segment : Type 0 where
  pub src_port : ℕ
  pub dst_port : ℕ
  pub seq : ℕ
  pub data_at : ℕ
  pub flags : ℕ

unfoldable pub segment_at : List ℕ → ℕ → Segment
segment_at frame tcp = record {
  src_port = read_be word frame tcp;
  dst_port = read_be word frame (tcp + 2);
  seq = read_be long frame (tcp + 4);
  data_at = tcp + get_or frame (tcp + 12) 0 / 2 ^ 4 * 4;
  flags = get_or frame (tcp + 13) 0;
}

-- A port that nothing listens at resets the connection. The length of the data may be negative.
unfoldable pub refuse : List ℕ → Segment → Handler → Handler
refuse frame t h =
    if has t.flags 0x04
    then h
    else (let data_end = (t.seq + (2 ^ 32 + length frame - t.data_at)) % 2 ^ 32 in
        let syn_ack = (if has t.flags 0x02 then (t.seq + 1) % 2 ^ 32 else data_end) in
        let ack = (if has t.flags 0x01 then (syn_ack + 1) % 2 ^ 32 else syn_ack) in
        push (build_tcp_packet t.dst_port t.src_port 0 ack 0x14 [] h) h)

-- SYN: a connection is made, and acknowledged.
unfoldable pub open_connection : Segment → Handler → Handler
open_connection t h =
    let c : TcpConnection = record {
      state = TcpState.syn_received;
      our_seq = 1000;
      their_seq = (t.seq + 1) % 2 ^ 32;
    } in
    push (build_tcp_packet 7 t.src_port c.our_seq c.their_seq 0x12 [] h)
      (connect t.src_port (some c) h)

-- The first ACK establishes the connection.
unfoldable pub establish : TcpState → TcpConnection → TcpConnection
establish TcpState.syn_received c = record c { state = TcpState.established; our_seq = 1001 }
establish TcpState.established c = c

-- ACK: data is sent back.
unfoldable pub echo : List ℕ → Segment → TcpConnection → Handler → Handler
echo frame t c h =
    let e = establish c.state c in
    if ltb t.data_at (length frame)
    then (let n = length frame - t.data_at in
        let ack = (t.seq + n) % 2 ^ 32 in
        push (build_tcp_packet 7 t.src_port e.our_seq ack 0x18 (bytes_at n frame t.data_at) h) (
          connect t.src_port
            (some (record e { our_seq = (e.our_seq + n) % 2 ^ 32; their_seq = ack })) h))
    else connect t.src_port (some e) h

unfoldable pub continue : List ℕ → Segment → Option TcpConnection → Handler → Handler
continue frame t none h = h
continue frame t (some c) h =
    if has t.flags 0x01
    then push
        (build_tcp_packet 7 t.src_port ((c.our_seq + 1) % 2 ^ 32) ((t.seq + 1) % 2 ^ 32) 0x11 [] h)
        (connect t.src_port none h)
    else if has t.flags 0x10
    then echo frame t c h
    else h

unfoldable pub handle_segment : List ℕ → Segment → Handler → Handler
handle_segment frame t h =
    if not (t.dst_port == 7)
    then refuse frame t h
    else if has t.flags 0x04
    then connect t.src_port none h
    else if has t.flags 0x02
    then open_connection t h
    else continue frame t (h.connections t.src_port) h

unfoldable pub handle_tcp : List ℕ → ℕ → Handler → Handler
handle_tcp frame ip_header_len h =
    let tcp = 14 + ip_header_len in
    if ltb (length frame) (tcp + 20) then h else handle_segment frame (segment_at frame tcp) h

unfoldable pub handle_udp : List ℕ → ℕ → Handler → Handler
handle_udp frame ip_header_len h =
    let udp = 14 + ip_header_len in
    let udp_len = read_be word frame (udp + 4) in
    if ltb (length frame) (udp + 8)
      || not (read_be word frame (udp + 2) == 7)
      || ltb udp_len 8
      || ltb (length frame) (udp + udp_len)
    then h
    else push
        (build_udp_reply (read_be word frame udp) (read_be word frame (udp + 2)) udp_len
          (bytes_at (udp_len - 8) frame (udp + 8)) h)
        h

unfoldable pub handle_ipv4 : List ℕ → Handler → Handler
handle_ipv4 frame h =
    let ip_header_len = bit_and (get_or frame 14 0) 0x0f * 4 in
    let protocol = get_or frame 23 0 in
    if ltb (length frame) 34 || ltb (length frame) (14 + ip_header_len)
    then h
    else if protocol == 1
    then handle_icmp frame ip_header_len h
    else if protocol == 6
    then handle_tcp frame ip_header_len h
    else if protocol == 17
    then handle_udp frame ip_header_len h
    else h

unfoldable pub process_packet : List ℕ → Handler → Handler
process_packet frame h =
    let ether_type = read_be word frame 12 in
    if ltb (length frame) 14
    then h
    else if ether_type == 0x0806
    then handle_arp frame h
    else if ether_type == 0x0800
    then handle_ipv4 frame h
    else h

unfoldable pub has_pending_packet : List (List ℕ) → Bool
has_pending_packet [] = false
has_pending_packet (p ∷ ps) = true

-- The queue is not empty where a packet is taken.
unfoldable pub dequeue : List (List ℕ) → Handler → List ℕ × Handler
dequeue [] h = ([], h)
dequeue (p ∷ ps) h = (p, record h { rx_queue = ps })

-- The interface that the LANCE takes.
abbrev pub virtual_network : Network Handler
virtual_network = record {
  process_packet = process_packet;
  has_pending_packet = λ h. has_pending_packet h.rx_queue;
  dequeue_packet = λ h. dequeue h.rx_queue h;
  set_guest_mac = λ mac h. record h { guest_mac = mac };
  reset = λ h. record h { rx_queue = []; connections = λ port. none };
}
