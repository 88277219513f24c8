-- ===== src/Io/Start/Loops.antt =====
-- libCSP/trunk/src/csp_io.c, csp_conn.c and interfaces/csp_if_lo.c: a node that has been set up can
-- send packets to itself.
use cubesat_space_protocol.Base.{
  ℕ, zero, suc, ◌+◌, ◌%◌, ◌^◌, ◌≤◌, ◌<◌, ◌≡◌, List, Option, none, some, get_or, replicate, length,
  Bool, true, false, ltb, ◌&&◌, refl, sym, ◌∙◌, ap, subst, arith, eq→==,
}
use mathlib.Core.Option.{some-injective}
use cubesat_space_protocol.Error.{Error, err_none, err_nomem}
use cubesat_space_protocol.Header.{Packet, PacketId, default_route}
use cubesat_space_protocol.Queue.Fifo.{push, pop, fresh}
use cubesat_space_protocol.Port.{Port}
use cubesat_space_protocol.Route.{Route, Routing, no_route, route_if, route_set}
use cubesat_space_protocol.Route.Table.{choice, entry_after, route_if-route_set}
use cubesat_space_protocol.Route.Input.{Counters, table_init, new_packet, next_packet}
use cubesat_space_protocol.Transport.{Options}
use cubesat_space_protocol.Io.{
  Iface, Nexthop, loopback, Station, if_lo, observe, prepare, as_sent, send_direct, lo_tx,
}
use cubesat_space_protocol.Io.Direct.{
  Way, by, Ending, unreachable, too_long, refused, driven, looped, send_direct-Ending, is_too_long,
}
use cubesat_space_protocol.Io.Start.{
  Creations, Started, conn_init, routed, with_table, behind_conns, csp_init,
}

entry_in :
    (t : Routing) (r : Route) (o : Option ℕ)
    → elim o [ none ↦ none | some k ↦ some (get_or t.routes k no_route) ] ≡ some r
    → (k : ℕ) × (o ≡ some k) × (get_or t.routes k no_route ≡ r)
entry_in t r none h = cc
entry_in t r (some k) h = (k, refl, some-injective _ _ h)

-- A packet that comes first to the router's queues is the next one out.
first_in :
    (a pri bytes : ℕ) (c : Counters)
    → pri < 4
    → next_packet (new_packet table_init (some a) pri bytes (some if_lo) c).0
      ≡ (err_none, some (record { interface = if_lo; packet = a }), table_init)
unfolding next_packet new_packet table_init push pop fresh
first_in a zero bytes c h = refl
first_in a (suc zero) bytes c h = refl
first_in a (suc (suc zero)) bytes c h = refl
first_in a (suc (suc (suc zero))) bytes c h = refl
first_in a (suc (suc (suc (suc n)))) bytes c h = absurd (omega arith)

-- The route of a node to itself, in a table of the right size.
own-Way :
    (s : Station)
    → length s.routing.routes ≡ default_route + 1
    → s.my_address ≤ default_route
    → (s.ifaces if_lo).nexthop ≡ some loopback
    → let t = route_set s.routing s.my_address (some if_lo) 0xff in
      Way (record s { routing = t; input = table_init }) s.my_address if_lo loopback
own-Way s size h lo =
    let t = route_set s.routing s.my_address (some if_lo) 0xff in
    let own : Route = record { interface = some if_lo; nexthop_mac_addr = 0xff } in
    let here : entry_after s.routing s.my_address own s.my_address ≡ own =
      rw (eq→== s.my_address s.my_address refl) refl in
    let chosen =
      route_if-route_set s.routing s.my_address 0xff s.my_address (some if_lo) size h
      ∙ ap (λ r. choice r (entry_after s.routing s.my_address own default_route)) here in
    let (k, found, entry) = entry_in t own (route_if t s.my_address) chosen in
    by k found (ap (λ (r : Route). r.interface) entry) lo

unlimited : (f : Iface) (p : Packet) → f.mtu ≡ 0 → is_too_long f p ≡ false
unlimited f p h = subst (λ m. (ltb 0 m && ltb m p.length) ≡ false) (sym h) refl

-- There is one way only.
unique-Way :
    {s : Station} {dst i j : ℕ} {n m : Nexthop}
    → Way s dst i n
    → Way s dst j m
    → (i ≡ j) × (some n ≡ some m)
unique-Way {s} (by k e e' e'') (by k' f f' f'') =
    let there = some-injective _ _ (sym e ∙ f) in
    let at =
      some-injective _ _
        (sym e' ∙ ap (λ l. (get_or s.routing.routes l no_route).interface) there ∙ f') in
    (at, sym e'' ∙ ap (λ l. (s.ifaces l).nexthop) at ∙ f'')

-- By the loopback interface, without a limit, a packet for the node itself is in the router's queue.
looped_packet :
    (s r : Station) (idout : PacketId) (a : ℕ) {x : Error × Station}
    → Ending s r idout.dst a x
    → Way s idout.dst if_lo loopback
    → (r.ifaces if_lo).mtu ≡ 0
    → r.input ≡ table_init
    → (r.endpoint.mem a).id ≡ idout
    → idout.pri < 4
    → (x.0 ≡ err_none)
      × (next_packet x.1.input
          ≡ (err_none, some (record { interface = if_lo; packet = a }), table_init))
unfolding lo_tx
looped_packet s r idout a (unreachable no_way) w free fresh named h =
    absurd (no_way if_lo loopback w)
looped_packet s r idout a (too_long i n w' over) w free fresh named h =
    let at = (unique-Way w' w).0 in
    let fits = unlimited (r.ifaces i) (r.endpoint.mem a) (ap (λ l. (r.ifaces l).mtu) at ∙ free) in
    cc
looped_packet s r idout a (refused i takes w' fits no_) w free fresh named h =
    let same = some-injective _ _ (unique-Way w' w).1 in cc
looped_packet s r idout a (driven i takes w' fits ok) w free fresh named h =
    let same = some-injective _ _ (unique-Way w' w).1 in cc
looped_packet s r idout a (looped i w' fits) w free fresh named h =
    let bytes = (r.endpoint.mem a).length in
    (
      refl,
      ap
            (λ t.
              next_packet
                (new_packet t (some a) (r.endpoint.mem a).id.pri bytes (some if_lo) r.lo).0)
            fresh
          ∙ ap
              (λ (id : PacketId).
                next_packet (new_packet table_init (some a) id.pri bytes (some if_lo) r.lo).0)
              named
          ∙ first_in a idout.pri bytes r.lo h,
    )

-- The station of a setup that has succeeded.
set_up :
    (table : Bool) (s : Station) (ports : List Port) (r : Error × Started)
    → (behind_conns table s ports r).0 ≡ err_none
    → (behind_conns table s ports r).1.station ≡ routed s
unfolding behind_conns with_table
set_up true s ports (err_none, started) h = refl
set_up false s ports (err_none, started) h = cc
set_up table s ports (err_nomem, started) h = cc
set_up table s ports (e, started) h = cc

observed_self :
    (s : Station) (idout : PacketId) (a : ℕ) → idout.dst ≡ s.my_address → observe s idout a ≡ s
unfolding observe
observed_self s idout a h = rw (eq→== idout.dst s.my_address h) refl

named_in :
    (s : Station) (idout : PacketId) (a : ℕ) → ((prepare s idout a).endpoint.mem a).id ≡ idout
unfolding as_sent
named_in s idout a = rw (eq→== a a refl) refl

-- What `loops` needs of a packet that the node sends to itself.
routed_loops :
    (s : Station) (idout : PacketId) (a : ℕ)
    → s.my_address ≤ default_route
    → (s.ifaces if_lo).nexthop ≡ some loopback
    → (s.ifaces if_lo).mtu ≡ 0
    → idout.dst ≡ s.my_address
    → idout.pri < 4
    → let (e, s') = send_direct (routed s) idout (some a) in
      (e ≡ err_none)
      × (next_packet s'.input
          ≡ (err_none, some (record { interface = if_lo; packet = a }), table_init))
routed_loops s idout a h lo free mine urgent =
    let cleared : Routing = record s.routing { routes = replicate (default_route + 1) no_route } in
    let s' = routed s in
    let watched = observed_self s' idout a mine in
    let ends =
      subst
        (λ (o : Station). Ending s' (prepare o idout a) idout.dst a (send_direct s' idout (some a)))
        watched (send_direct-Ending s' idout a) in
    let way =
      subst (λ d. Way s' d if_lo loopback) (sym mine)
        (own-Way (record s { routing = cleared }) refl h lo) in
    looped_packet s' (prepare s' idout a) idout a ends way free refl (named_in s' idout a) urgent

-- Once `csp_init` has succeeded for an address that the routing table has, a packet that the node sends to itself is taken by the loopback interface, which has no limit, and is the next packet that the router gets.
pub csp_init-loops :
    (made : Creations) (rand : ℕ) (o : Options) (s : Station) (ports : List Port) (address : ℕ)
    (idout : PacketId) (a : ℕ)
    → (csp_init made rand o s ports address).0 ≡ err_none
    → address ≤ default_route
    → (s.ifaces if_lo).nexthop ≡ some loopback
    → (s.ifaces if_lo).mtu ≡ 0
    → idout.dst ≡ address
    → idout.pri < 4
    → let (e, s') = send_direct (csp_init made rand o s ports address).1.station idout (some a) in
      (e ≡ err_none)
      × (next_packet s'.input
          ≡ (err_none, some (record { interface = if_lo; packet = a }), table_init))
unfolding csp_init
csp_init-loops made rand o s ports address idout a ok h lo free mine urgent =
    let s' : Station = record s { my_address = address % 2 ^ 8 } in
    let conns = conn_init made.sport_lock made.conn_lock rand o made.conns in
    let byte : address % 2 ^ 8 ≡ address = omega (arith, h) in
    subst
      (λ (t : Station).
        let (e, s'') = send_direct t idout (some a) in
        (e ≡ err_none)
        × (next_packet s''.input
            ≡ (err_none, some (record { interface = if_lo; packet = a }), table_init)))
      (sym (set_up made.table s' ports conns ok))
      (routed_loops s' idout a (omega (arith, byte, h)) lo free (mine ∙ sym byte) urgent)
