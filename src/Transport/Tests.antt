-- ===== src/Transport/Tests.antt =====
-- Tests of libCSP/trunk/src/transport/csp_rdp.c.
use cubesat_space_protocol.Base.{
  ℕ, ◌≡◌, [], ◌∷◌, none, some, true, false, replicate, take, if◌then◌else◌, ◌==◌, arith,
}
use cubesat_space_protocol.Header.{Packet, PacketId, IsPacketId}
use cubesat_space_protocol.Conn.{Conn, Rdp, RdpState, rdp_open, rdp_closed, rdp_syn_rcvd, opened}
use cubesat_space_protocol.Transport.{Endpoint, Options}
use cubesat_space_protocol.Transport.Head.{header_ref, header_remove, header_fill, to_host}
use cubesat_space_protocol.Transport.Head.Carried.{header_of, header_carried}
use cubesat_space_protocol.Transport.Receive.{rx_queue_flush}
use cubesat_space_protocol.Transport.Receive.Flush.{NothingDue, rx_queue_flush-NothingDue}
use cubesat_space_protocol.Transport.Packets.{accepted, rdp_new_packet}
use cubesat_space_protocol.Transport.Packets.Options.{IsOptions, received_syn, accepted-options}
use cubesat_space_protocol.Transport.Packets.Ending.{state_of}
use cubesat_space_protocol.Transport.Packets.Diagram.{Edge, converted, rdp_new_packet-Edge}
use cubesat_space_protocol.Transport.Client.{configured, rdp_connect}
use cubesat_space_protocol.Transport.Client.Connecting.{Outcome, Tries, rdp_connect-Outcome}

abbrev packet_id : PacketId
packet_id = record { pri = 2; src = 5; dst = 10; dport = 20; sport = 33; flags = 2 }

abbrev data_packet : Packet
data_packet = record {
  quarantine = 0;
  timestamp = 0;
  length = 3;
  id = packet_id;
  contents = 7 ∷ 8 ∷ 9 ∷ replicate 32 0;
}

abbrev options : Options
options = record {
  window_size = 4;
  conn_timeout = 10000;
  packet_timeout = 1000;
  delayed_acks = 1;
  ack_timeout = 250;
  ack_delay_count = 2;
}

abbrev transport : RdpState → Rdp
transport s = record {
  state = s;
  snd_nxt = 101;
  snd_una = 101;
  snd_iss = 100;
  rcv_cur = 6;
  rcv_irs = 5;
  rcv_lsa = 6;
  window_size = 4;
  conn_timeout = 10000;
  packet_timeout = 1000;
  delayed_acks = 1;
  ack_timeout = 250;
  ack_delay_count = 2;
  ack_timestamp = 0;
  tx_queue = record { capacity = 20; content = [] };
  rx_queue = record { capacity = 40; content = 2 ∷ 1 ∷ [] };
}

abbrev connection : RdpState → Conn
connection s = record {
  state = opened;
  idin = packet_id;
  idout = packet_id;
  rx_event = record { capacity = 100; content = [] };
  rx_queue = replicate 4 (record { capacity = 25; content = [] });
  rx_socket = none;
  timestamp = 0;
  conn_opts = 0;
  rdp = transport s;
}

-- A packet with number `n`, in host order.
abbrev stored : ℕ → Packet
stored n = to_host (header_fill data_packet false true false false n 100)

-- Packets 7 and 8 wait in the queue, in the wrong order.
abbrev endpoint : RdpState → Endpoint
endpoint s = record {
  conn = connection s;
  mem = λ a. if a == 1 then stored 7 else if a == 2 then stored 8 else data_packet;
  supply = some 10 ∷ some 11 ∷ [];
  accepts = true ∷ true ∷ [];
  socket_room = true;
  lockable = true;
  now = 500;
  rand = 70000;
  opts = options;
  actions = [];
}

packet_id-IsPacketId : IsPacketId packet_id
packet_id-IsPacketId = omega arith

header_carried_example :
    let q = to_host (header_fill data_packet false true false false 7 100) in
    (header_ref q ≡ header_of false true false false 7 100)
    × (q.id ≡ packet_id)
    × (take 3 q.contents ≡ 7 ∷ 8 ∷ 9 ∷ [])
    × ((header_remove q).length ≡ 3)
header_carried_example =
    header_carried data_packet false true false false 7 100 packet_id-IsPacketId (omega arith)
      (omega arith) (omega arith) (omega arith)

rx_queue_flush-NothingDue_example : NothingDue (rx_queue_flush (endpoint rdp_open))
rx_queue_flush-NothingDue_example = rx_queue_flush-NothingDue (endpoint rdp_open) (omega arith)

rdp_new_packet-Edge_example :
    Edge
      (converted (endpoint rdp_syn_rcvd) 1)
      (header_ref ((converted (endpoint rdp_syn_rcvd) 1).mem 1))
      rdp_syn_rcvd
      (state_of (rdp_new_packet (endpoint rdp_syn_rcvd) 1))
rdp_new_packet-Edge_example = rdp_new_packet-Edge (endpoint rdp_syn_rcvd) 1

options-IsOptions : IsOptions options
options-IsOptions = omega arith

accepted-options_example :
    let r = accepted (transport rdp_closed) 9 (received_syn data_packet options 100) 5 in
    (r.window_size ≡ 4)
    × (r.conn_timeout ≡ 10000)
    × (r.packet_timeout ≡ 1000)
    × (r.delayed_acks ≡ 1)
    × (r.ack_timeout ≡ 250)
    × (r.ack_delay_count ≡ 2)
accepted-options_example =
    accepted-options (transport rdp_closed) data_packet options 100 5 9 packet_id-IsPacketId
      options-IsOptions (omega arith) (omega arith)

rdp_connect-Outcome_example :
    Outcome (endpoint rdp_closed) (rdp_connect (λ w. (true, w)) (endpoint rdp_closed))
    × Tries
        (λ w. (true, w))
        1
        (configured (endpoint rdp_closed))
        (rdp_connect (λ w. (true, w)) (endpoint rdp_closed))
rdp_connect-Outcome_example = rdp_connect-Outcome (λ w. (true, w)) (endpoint rdp_closed)
