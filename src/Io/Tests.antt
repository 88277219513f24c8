-- ===== src/Io/Tests.antt =====
-- A node with a driver that takes every packet, and the theorems on it.
use cubesat_space_protocol.Base.{◌≡◌, ◌≤◌, [], none, some, replicate, true, false, refl, arith, ◌<◌}
use cubesat_space_protocol.Error.{err_none}
use cubesat_space_protocol.Header.{PacketId, port_max}
use cubesat_space_protocol.Security.{Crypto, Errors}
use cubesat_space_protocol.Security.Roundtrip.{IsMet}
use cubesat_space_protocol.Security.Nodes.{Share}
use cubesat_space_protocol.Queue.Fifo.{fresh, pop}
use cubesat_space_protocol.Port.{max_bind_port}
use cubesat_space_protocol.Conn.Packets.{IsFed}
use cubesat_space_protocol.Route.{route_if}
use cubesat_space_protocol.Route.Input.{table_init, next_packet}
use cubesat_space_protocol.Route.Promisc.{promisc_add}
use cubesat_space_protocol.Route.Promisc.Copies.{Watched, promisc_add-Watched}
use cubesat_space_protocol.Transport.Client.{rdp_allocate}
use cubesat_space_protocol.Io.{Station, if_lo, hand_over, send_direct}
use cubesat_space_protocol.Io.Samples.{
  packet_id, some_packet, options, some_conn, some_endpoint, station,
}
use cubesat_space_protocol.Io.Direct.Relayed.{send_direct-relayed}
use cubesat_space_protocol.Io.Direct.Received.{Passes, Left, send_direct-received}
use cubesat_space_protocol.Io.Read.{read}
use cubesat_space_protocol.Io.Read.Urgent.{Delivered, read-Delivered}
use cubesat_space_protocol.Io.Calls.{Features, Waits, sendto, sendto_flags, sendto_id}
use cubesat_space_protocol.Io.Calls.Flags.{Says, Arrives, sendto-Arrives}
use cubesat_space_protocol.Io.Sockets.{socket}
use cubesat_space_protocol.Io.Sockets.Supported.{Sorted, socket-Sorted}
use cubesat_space_protocol.Io.Start.{Creations, conn_init, csp_init}
use cubesat_space_protocol.Io.Start.Loops.{csp_init-loops}
use cubesat_space_protocol.Io.Start.Ready.{AllReady, conn_init-AllReady}

abbrev no_errors : Errors
no_errors = record { autherr = 0; rx_error = 0 }

-- Another node with the same keys, whose stack holds something else.
abbrev receiver : Crypto
receiver = record station.crypto { stack = replicate 64 0xA5; hmac = replicate 20 0x5A }

shared : Share station.crypto receiver
shared = record { keys = refl; block = refl; block' = refl }

is_sent : (send_direct station packet_id (some 7)).0 ≡ err_none
unfolding send_direct route_if hand_over
is_sent = refl

-- 4 is CSP_SO_HMACREQ; the flags of the packet ask for all there is.
all-IsMet : IsMet 4 0x0D
all-IsMet = record {
  xtea = λ h. ground (arith, h);
  crc = λ h. ground (arith, h);
  hmac = λ h. ground (arith, h);
}

send_direct-received_example :
    let s' = (send_direct station packet_id (some 7)).1 in
    let q = s'.endpoint.mem 7 in
    Passes station receiver packet_id 4 no_errors some_packet q
    × Left station receiver packet_id 4 no_errors 7 q s'
send_direct-received_example =
    send_direct-received station receiver packet_id 7 4 no_errors is_sent (omega arith) shared refl
      (omega arith) (omega arith) (omega arith) all-IsMet

-- The node with address 6 has got the packet in a buffer of its own.
abbrev relay : Station
relay = record station {
  my_address = 6;
  endpoint = record station.endpoint {
    mem = λ a. (send_direct station packet_id (some 7)).1.endpoint.mem 7;
  };
}

is_relayed : (send_direct relay packet_id (some 9)).0 ≡ err_none
unfolding send_direct route_if hand_over
is_relayed = refl

send_direct-relayed_example :
    let r' = (send_direct relay packet_id (some 9)).1 in
    let q = r'.endpoint.mem 9 in
    (q.contents ≡ (relay.endpoint.mem 9).contents)
    × (q.length ≡ (relay.endpoint.mem 9).length)
    × Passes station receiver packet_id 4 no_errors some_packet q
    × Left relay receiver packet_id 4 no_errors 9 q r'
send_direct-relayed_example =
    send_direct-relayed station relay receiver packet_id 7 9 4 no_errors is_sent (omega arith)
      shared refl (omega arith) (omega arith) (omega arith) all-IsMet refl refl is_relayed
      (omega arith) (omega arith)

abbrev features : Features
features = record { rdp = true; xtea = true; hmac = true; crc32 = true }

is_sent_to : (sendto features station 2 10 20 33 4 7).0 ≡ true
unfolding sendto send_direct route_if hand_over
is_sent_to = refl

sendto-Arrives_example :
    let flags = (sendto_flags features 4).1 in
    Says flags true false false
    × Arrives station receiver 7 4 no_errors
        (sendto_id 5 2 10 20 33 flags)
        (sendto features station 2 10 20 33 4 7).1
sendto-Arrives_example =
    sendto-Arrives features station receiver 2 10 20 33 4 7 4 no_errors is_sent_to
      (record {
        fresh = omega arith;
        address = omega arith;
        fits = omega arith;
        small = omega arith;
        keyed = omega arith;
      })
      shared (record { xtea = λ e. e; crc = λ e. e; hmac = λ e. e })

-- No other task does anything.
abbrev idle : Waits
idle = record { tx_wait = λ w. (false, w); rx_event = λ s. s }

some_conn-IsFed : IsFed some_conn
unfolding fresh
some_conn-IsFed = omega arith

read-Delivered_example : Delivered some_conn (read (λ s. s) station (some some_conn))
read-Delivered_example = read-Delivered (λ s. s) station some_conn refl some_conn-IsFed

most_urgent : (read (λ s. s) station (some some_conn)).0 ≡ some 42
unfolding read pop fresh
most_urgent = refl

socket-Sorted_example : Sorted features true (some 3) 0x0104 (socket features true (some 3) 0x0104)
socket-Sorted_example = socket-Sorted features true (some 3) 0x0104

abbrev all_made : Creations
all_made = record {
  sport_lock = true;
  conn_lock = true;
  conns = replicate 2 (
    record {
      rx_fifos = replicate 4 true;
      rx_event = true;
      lock = true;
      tx_wait = true;
      tx_queue = true;
      rx_queue = true;
    },
    record { conn = some_conn; rx_queue = replicate 4 none; rx_event = none },
  );
  table = true;
}

is_started : (csp_init all_made 70000 options station [] 5).0 ≡ err_none
unfolding csp_init rdp_allocate
is_started = refl

conns_made : (conn_init true true 70000 options all_made.conns).0 ≡ err_none
unfolding conn_init rdp_allocate
conns_made = refl

abbrev to_self : PacketId
to_self = record packet_id { dst = 5 }

csp_init-loops_example :
    let (e, s') =
      send_direct (csp_init all_made 70000 options station [] 5).1.station to_self (some 7) in
    (e ≡ err_none)
    × (next_packet s'.input
        ≡ (err_none, some (record { interface = if_lo; packet = 7 }), table_init))
csp_init-loops_example =
    csp_init-loops all_made 70000 options station [] 5 to_self 7 is_started (omega arith) refl refl
      refl (omega arith)

conn_init-AllReady_example :
    let made = (conn_init true true 70000 options all_made.conns).1 in
    AllReady all_made.conns made.arr_conn × (max_bind_port < made.sport) × (made.sport ≤ port_max)
conn_init-AllReady_example = conn_init-AllReady true true 70000 options all_made.conns conns_made

promisc_add-Watched_example :
    Watched station.promisc
      (fresh 5)
      some_endpoint
      7
      10
      (promisc_add station.promisc some_endpoint 7)
    × ((promisc_add station.promisc some_endpoint 7).1.mem 7 ≡ some_packet)
promisc_add-Watched_example =
    promisc_add-Watched station.promisc some_endpoint 7 10 refl refl refl (omega arith)
      (omega arith) (omega arith)
