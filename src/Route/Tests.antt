-- ===== src/Route/Tests.antt =====
-- Runs of the routing table and of the router's input, and their theorems at concrete states.
use cubesat_space_protocol.Base.{false, true, set, ◌≡◌, [], ◌∷◌, some, refl, replicate, arith}
use cubesat_space_protocol.Header.{Packet, PacketId, so_conn_less}
use cubesat_space_protocol.Port.{cleared, opened}
use cubesat_space_protocol.Route.Dispatch.{Node, route_packet}
use cubesat_space_protocol.Route.Dispatch.Reached.{Reached, route_packet-Reached}
use cubesat_space_protocol.Queue.Fifo.{fresh, pop}
use cubesat_space_protocol.Route.{Routing, no_route, route_set, route_if, nexthop_mac}
use cubesat_space_protocol.Route.Input.{Counters, Input, table_init, new_packet, next_packet}
use cubesat_space_protocol.Route.Input.Order.{
  Accounted, new_packet-Accounted, Next, next_packet-Next,
}

abbrev no_routes : Routing
no_routes = record { routes = replicate 33 no_route; interfaces = 7 ∷ [] }

nexthop_mac_run : nexthop_mac (route_set no_routes 32 (some 8) 3) 5 ≡ some 3
unfolding nexthop_mac route_if route_set
nexthop_mac_run = refl

abbrev counters : Counters
counters = record { rx = 0; rxbytes = 0; drop = 0 }

abbrev empty : Input
empty = record {
  fifos = replicate 4 (record { capacity = 100; content = [] });
  event = record { capacity = 100; content = [] };
}

table_init_run : table_init ≡ empty
unfolding table_init fresh
table_init_run = refl

new_packet-Accounted_example :
    Accounted empty 512 2 20 7 counters (new_packet empty (some 512) 2 20 (some 7) counters)
new_packet-Accounted_example =
    new_packet-Accounted empty 512 2 20 7 counters (omega arith) (omega arith)

abbrev of_two : Input
of_two = record {
  fifos =
      record { capacity = 100; content = [] }
      ∷ record { capacity = 100; content = record { interface = 7; packet = 512 } ∷ [] }
      ∷ record { capacity = 100; content = record { interface = 7; packet = 768 } ∷ [] }
      ∷ record { capacity = 100; content = [] }
      ∷ [];
  event = record { capacity = 2; content = 0 ∷ 0 ∷ [] };
}

next_packet-Next_example : Next of_two (next_packet of_two)
next_packet-Next_example = next_packet-Next of_two (omega arith)

next_packet_run : (next_packet of_two).1 ≡ some (record { interface = 7; packet = 512 })
unfolding next_packet pop
next_packet_run = refl

abbrev client_id : PacketId
client_id = record { pri = 2; src = 5; dst = 1; dport = 7; sport = 33; flags = 0 }

abbrev request : Packet
request = record {
  quarantine = 0;
  timestamp = 0;
  length = 2;
  id = client_id;
  contents = 1 ∷ 2 ∷ 0 ∷ 0 ∷ [];
}

-- Socket 3 takes packets without a connection on port 7.
abbrev node : Node
node = record {
  my_address = 1;
  routing = no_routes;
  split_horizon_off = λ _. false;
  ports = set (replicate 17 cleared) 7 (record { state = opened; socket = some 3 });
  sockets = λ _. record { queue = some 9; opts = so_conn_less };
  queues = λ _. record { capacity = 10; content = [] };
  pool = record { arr_conn = []; last_given = 0 };
  errors = λ _. record { autherr = 0; rx_error = 0 };
  crypto = record { keys = record { hmac_key = []; xtea_key = [] }; stack = []; hmac = [] };
  forwards = true;
  lockable = true;
  now = 0;
}

route_packet-Reached_example : Reached node 4 request (route_packet node 4 512 request).1
route_packet-Reached_example = route_packet-Reached node 4 512 request
