-- ===== src/Io/Samples.antt =====
-- A node for tests: its driver takes every packet.
use cubesat_space_protocol.Base.{
  ◌+◌, ◌==◌, [], ◌∷◌, none, some, replicate, set, true, if◌then◌else◌,
}
use cubesat_space_protocol.Header.{Packet, PacketId, default_route}
use cubesat_space_protocol.Queue.Fifo.{fresh}
use cubesat_space_protocol.Conn.{Conn, Rdp, opened, rdp_closed, rx_queue_length, conn_queue_length}
use cubesat_space_protocol.Route.{no_route}
use cubesat_space_protocol.Route.Input.{table_init}
use cubesat_space_protocol.Transport.{Endpoint, Options}
use cubesat_space_protocol.Io.{Nexthop, loopback, driver, Iface, Station, if_lo}

abbrev pub packet_id : PacketId
packet_id = record { pri = 2; src = 5; dst = 10; dport = 20; sport = 33; flags = 0x0D }

abbrev pub some_packet : Packet
some_packet = record {
  quarantine = 0;
  timestamp = 0;
  length = 2;
  id = packet_id;
  contents = 7 ∷ 8 ∷ replicate 14 0;
}

abbrev pub options : Options
options = record {
  window_size = 4;
  conn_timeout = 10000;
  packet_timeout = 1000;
  delayed_acks = 1;
  ack_timeout = 250;
  ack_delay_count = 2;
}

abbrev pub no_transport : Rdp
no_transport = record {
  state = rdp_closed;
  snd_nxt = 0;
  snd_una = 0;
  snd_iss = 0;
  rcv_cur = 0;
  rcv_irs = 0;
  rcv_lsa = 0;
  window_size = 0;
  conn_timeout = 0;
  packet_timeout = 0;
  delayed_acks = 0;
  ack_timeout = 0;
  ack_delay_count = 0;
  ack_timestamp = 0;
  tx_queue = fresh 20;
  rx_queue = fresh 40;
}

-- Packets 41 and 42 wait, the second one with the higher priority.
abbrev pub some_conn : Conn
some_conn = record {
  state = opened;
  idin = record { pri = 2; src = 10; dst = 5; dport = 33; sport = 20; flags = 0 };
  idout = packet_id;
  rx_event = record { capacity = conn_queue_length; content = 0 ∷ 0 ∷ [] };
  rx_queue =
      fresh rx_queue_length
      ∷ record { capacity = rx_queue_length; content = 42 ∷ [] }
      ∷ record { capacity = rx_queue_length; content = 41 ∷ [] }
      ∷ fresh rx_queue_length
      ∷ [];
  rx_socket = none;
  timestamp = 0;
  conn_opts = 0;
  rdp = no_transport;
}

abbrev pub some_endpoint : Endpoint
some_endpoint = record {
  conn = some_conn;
  mem = λ a. some_packet;
  supply = some 10 ∷ some 11 ∷ [];
  accepts = true ∷ true ∷ [];
  socket_room = true;
  lockable = true;
  now = 500;
  rand = 70000;
  opts = options;
  actions = [];
}

abbrev pub iface_with : Nexthop → Iface
iface_with n = record { nexthop = some n; mtu = 0; tx = 0; txbytes = 0; tx_error = 0 }

-- Node 5, with node 10 behind interface 3.
abbrev pub station : Station
station = record {
  endpoint = some_endpoint;
  my_address = 5;
  routing = record {
    routes =
        set (replicate (default_route + 1) no_route) 10
          (record { interface = some 3; nexthop_mac_addr = 0 });
    interfaces = 3 ∷ [];
  };
  ifaces = λ i. iface_with (if i == if_lo then loopback else driver (λ p. true));
  input = table_init;
  lo = record { rx = 0; rxbytes = 0; drop = 0 };
  crypto = record {
    keys = record { hmac_key = replicate 16 7; xtea_key = 1 ∷ 2 ∷ 3 ∷ 4 ∷ [] };
    stack = replicate 64 0;
    hmac = replicate 20 0;
  };
  promisc = record { enabled = true; queue = some (fresh 5) };
}
