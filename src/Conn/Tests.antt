-- ===== src/Conn/Tests.antt =====
-- Runs of the connections, and their theorems at concrete arrays.
use cubesat_space_protocol.Base.{
  ℕ, zero, suc, ◌==◌, ◌≡◌, [], ◌∷◌, none, some, true, false, refl, Bool, replicate, map, arith,
}
use cubesat_space_protocol.Error.{err_inval}
use cubesat_space_protocol.Header.{PacketId, ext, conn_mask, so_rdpreq, frdp}
use cubesat_space_protocol.Queue.Fifo.{fresh}
use cubesat_space_protocol.Conn.{
  State, closed, opened, freed, RdpState, rdp_closed, rdp_close_wait, Conn, Rdp, conn_queue_length,
  rx_queue_length, rx_queues, enqueue_packet,
}
use cubesat_space_protocol.Conn.Packets.{IsFed, Queued, enqueue_packet-Queued}
use cubesat_space_protocol.Conn.Pool.{Connections, find, new, close}
use cubesat_space_protocol.Conn.Pool.Find.{matches_at}
use cubesat_space_protocol.Conn.Pool.Close.{Closed, held, close-Closed}
use cubesat_space_protocol.Conn.Pool.Filled.{IsConnections}
use cubesat_space_protocol.Conn.Pool.New.{Given, new-Given}
use cubesat_space_protocol.Conn.Pool.Distinct.{Distinct, new-Distinct}
use cubesat_space_protocol.Conn.Connect.{choose, flags_of}
use cubesat_space_protocol.Conn.Connect.Ports.{Chosen, choose-Chosen}

abbrev no_id : PacketId
no_id = record { pri = 0; src = 0; dst = 0; dport = 0; sport = 0; flags = 0 }

abbrev some_id : PacketId
some_id = record { pri = 2; src = 5; dst = 1; dport = 7; sport = 17; flags = 0 }

abbrev no_rdp : Rdp
no_rdp = record {
  state = rdp_closed;
  snd_nxt = 0;
  snd_una = 0;
  snd_iss = 0;
  rcv_cur = 0;
  rcv_irs = 0;
  rcv_lsa = 0;
  window_size = 0;
  conn_timeout = 0;
  packet_timeout = 0;
  delayed_acks = 0;
  ack_timeout = 0;
  ack_delay_count = 0;
  ack_timestamp = 0;
  tx_queue = fresh 20;
  rx_queue = fresh 20;
}

abbrev conn_in : State → Conn
conn_in s = record {
  state = s;
  idin = no_id;
  idout = no_id;
  rx_event = fresh conn_queue_length;
  rx_queue = replicate rx_queues (fresh rx_queue_length);
  rx_socket = none;
  timestamp = 0;
  conn_opts = 0;
  rdp = no_rdp;
}

-- The first of three connections is open.
abbrev three : Connections
three = record { arr_conn = conn_in opened ∷ conn_in closed ∷ conn_in closed ∷ []; last_given = 0 }

three-IsConnections : IsConnections three
three-IsConnections = record { two = omega arith; byte = omega arith; given_in = omega arith }

new-Given_example : Given some_id no_id 9 three (new true 9 three some_id no_id)
new-Given_example = new-Given 9 three some_id no_id three-IsConnections

new_runs : (new true 9 three some_id no_id).0 ≡ some 1
unfolding new fresh
new_runs = refl

nothing_yet : find three.arr_conn (ext some_id) conn_mask ≡ none
unfolding find fresh ext
nothing_yet = refl

rest_closed : (j id : ℕ) → matches_at three.arr_conn (suc j) id conn_mask ≡ true → ⊥
rest_closed zero id h = ground (arith, h)
rest_closed (suc zero) id h = ground (arith, h)
rest_closed (suc (suc j)) id h = ground (arith, h)

apart : Distinct three.arr_conn
apart zero zero id h h' = refl
apart zero (suc j) id h h' = absurd (rest_closed j id h')
apart (suc i) j id h h' = absurd (rest_closed i id h)

new-Distinct_example : Distinct (new true 9 three some_id no_id).1.arr_conn
new-Distinct_example = new-Distinct 9 three some_id no_id three-IsConnections nothing_yet apart

idle-IsFed : IsFed (conn_in opened)
unfolding fresh
idle-IsFed = record {
  queues = refl;
  bounded = (refl, omega arith, (refl, omega arith, (refl, omega arith, (refl, omega arith, tt))));
  room = refl;
  balanced = refl;
}

enqueue_packet-Queued_example :
    Queued (conn_in opened) 700 2 (enqueue_packet (some (conn_in opened)) (some 700) 2)
enqueue_packet-Queued_example =
    enqueue_packet-Queued (conn_in opened) 700 2 idle-IsFed (omega arith)

-- Only port 40 is free, then none.
abbrev only_40 : ℕ → Bool
only_40 s = s == 40

choose-Chosen_example : Chosen only_40 60 (choose 47 only_40 60 60)
choose-Chosen_example = choose-Chosen only_40 60 40 (omega arith) (omega arith) (omega arith) refl

choose_runs : choose 47 only_40 60 60 ≡ some 40
unfolding choose
choose_runs = refl

abbrev nowhere : ℕ → Bool
nowhere s = false

flags_run : flags_of so_rdpreq ≡ frdp
unfolding flags_of
flags_run = refl

close-none : (close true 0 none).0 ≡ err_inval
unfolding close
close-none = refl

-- A reliable connection, with a packet waiting for its acknowledgement.
abbrev reliable : RdpState → Conn
reliable s = record (conn_in opened) {
  idin = record no_id { flags = frdp };
  rdp = record no_rdp {
    state = s;
    snd_nxt = 8;
    tx_queue = record { capacity = 20; content = 900 ∷ [] };
  };
}

close-Closed_example :
    Closed
      (close true 50 (some (reliable rdp_close_wait)))
      (map freed (held (reliable rdp_close_wait)))
close-Closed_example = close-Closed 50 (reliable rdp_close_wait) refl refl refl
