-- ===== src/Io.antt =====
-- libCSP/trunk/src/csp_io.c: sending and receiving, with HMAC, CRC32, XTEA, the reliable transport
-- and promiscuous mode compiled in; and libCSP/trunk/src/interfaces/csp_if_lo.c. Buffers are known by
-- their addresses in a memory; what the pool gives next, `rand` and the locks are kept in the
-- endpoint of the reliable transport. The drivers behind `nexthop` are parameters.
pub mod Direct
pub mod Read
pub mod Calls
pub mod Transactions
pub mod Sockets
pub mod Start
pub mod Timeouts
pub mod Samples
mod Tests
use cubesat_space_protocol.Base.{
  ℕ, ◌+◌, ◌%◌, ◌^◌, List, [], ◌∷◌, ◌++◌, map, Option, none, some, get_or, Bool, true, false, ltb,
  ◌==◌, ◌&&◌, if◌then◌else◌,
}
use cubesat_space_protocol.Error.{Error, err_none, err_tx}
use cubesat_space_protocol.Header.{Packet, PacketId}
use cubesat_space_protocol.Security.{Crypto, Area, protect}
use cubesat_space_protocol.Conn.{Effect}
use cubesat_space_protocol.Route.{Routing, Route, no_route, route_if}
use cubesat_space_protocol.Route.Input.{Input, Counters, new_packet}
use cubesat_space_protocol.Route.Promisc.{Promisc, promisc_add}
use cubesat_space_protocol.Transport.{Endpoint, transmitted, closing, write, act}

-- `nexthop` of a `csp_iface_t`: that of `csp_if_lo`, or a driver's, of which the model knows whether
-- it takes the packet.
pub data Nexthop : Type 0 where
  loopback : Nexthop
  driver : (Packet → Bool) → Nexthop

-- What `csp_send_direct` reads and counts in a `csp_iface_t`; `mtu` 0 is no limit.
pub record Iface : Type 0 where
  pub nexthop : Option Nexthop
  pub mtu : ℕ
  pub tx : ℕ
  pub txbytes : ℕ
  pub tx_error : ℕ

-- A node that sends: `input` are the router's queues, and `lo` the input counters of `csp_if_lo`.
pub record Station : Type 0 where
  pub endpoint : Endpoint
  pub my_address : ℕ
  pub routing : Routing
  pub ifaces : ℕ → Iface
  pub input : Input
  pub lo : Counters
  pub crypto : Crypto
  pub promisc : Promisc

-- The address of `csp_if_lo`.
abbrev pub if_lo : ℕ
if_lo = 0

abbrev pub set_endpoint : Station → Endpoint → Station
set_endpoint s w = record s { endpoint = w }

abbrev pub set_iface : Station → ℕ → Iface → Station
set_iface s i f = record s { ifaces = λ j. if j == i then f else s.ifaces j }

-- `csp_lo_tx` of the packet at `a`: what `csp_new_packet` does; it always returns 1.
abbrev pub lo_taken : Station → Input × Counters × List Effect → Station
lo_taken s (input, counters, es) = record s {
  input = input;
  lo = counters;
  endpoint = record s.endpoint { actions = s.endpoint.actions ++ map closing es };
}

unfoldable pub lo_tx : Station → ℕ → Bool × Station
lo_tx s a =
    let p = s.endpoint.mem a in
    (true, lo_taken s (new_packet s.input (some a) p.id.pri p.length (some if_lo) s.lo))

-- The call of `nexthop` with the packet at `a`: whether it returns 1.
unfoldable pub hand_over : Nexthop → Station → ℕ → Bool × Station
unfolding lo_tx
hand_over loopback s a = lo_tx s a
hand_over (driver takes) s a =
    let p = s.endpoint.mem a in
    if takes p then (true, set_endpoint s (act s.endpoint (transmitted p.id p))) else (false, s)

-- `tx_err`
abbrev pub count_error : Station → ℕ → Station
count_error s i =
    set_iface s i (record (s.ifaces i) { tx_error = ((s.ifaces i).tx_error + 1) % 2 ^ 32 })

abbrev pub count_sent : Station → ℕ → ℕ → Station
count_sent s i bytes = set_iface s i (record (s.ifaces i) {
  tx = ((s.ifaces i).tx + 1) % 2 ^ 32;
  txbytes = ((s.ifaces i).txbytes + bytes) % 2 ^ 32;
})

abbrev pub secured : Packet → Area → Packet
secured p (contents, n) = record p { contents = contents; length = n }

-- The packet for the interface: protected if it is from this node, with the identifier `idout`.
unfoldable pub as_sent : Station → PacketId → Packet → Packet
as_sent s idout p =
    let p' : Packet =
      if idout.src == s.my_address
      then secured p
          (protect s.crypto idout.flags (s.endpoint.rand % 2 ^ 32) (p.contents, p.length))
      else p in
    record p' { id = idout }

abbrev watched : Station → Promisc × Endpoint → Station
watched s (promisc, w) = record s { promisc = promisc; endpoint = w }

-- Promiscuous mode in `csp_send_direct`: packets to this node itself are left to the router.
unfoldable pub observe : Station → PacketId → ℕ → Station
observe s idout a =
    if idout.dst == s.my_address
    then s
    else let p : Packet = record (s.endpoint.mem a) { id = idout } in
      watched s (promisc_add s.promisc (write s.endpoint a p) a)

abbrev answered : ℕ → ℕ → Bool × Station → Error × Station
answered i bytes (true, s) = (err_none, count_sent s i bytes)
answered i bytes (false, s) = (err_tx, count_error s i)

-- `csp_send_direct` with the packet as it is to be sent, at `a`.
unfoldable pub submit : Nexthop → ℕ → Station → ℕ → Error × Station
submit n i s a =
    let bytes = (s.endpoint.mem a).length in
    if ltb 0 (s.ifaces i).mtu && ltb (s.ifaces i).mtu bytes
    then (err_tx, count_error s i)
    else answered i bytes (hand_over n s a)

abbrev pub prepare : Station → PacketId → ℕ → Station
prepare s idout a = set_endpoint s (write s.endpoint a (as_sent s idout (s.endpoint.mem a)))

pub send_via : Station → PacketId → ℕ → ℕ → Option Nexthop → Error × Station
unfolding submit as_sent observe
send_via s idout a i none = (err_tx, s)
send_via s idout a i (some n) = submit n i (prepare (observe s idout a) idout a) a

send_on : Station → PacketId → ℕ → Option ℕ → Error × Station
unfolding send_via
send_on s idout a none = (err_tx, s)
send_on s idout a (some i) = send_via s idout a i (s.ifaces i).nexthop

send_routed : Station → PacketId → ℕ → Option ℕ → Error × Station
unfolding send_on
send_routed s idout a none = (err_tx, s)
send_routed s idout a (some k) = send_on s idout a (get_or s.routing.routes k no_route).interface

-- `csp_send_direct`; NULL is `none`. (Its timeout is the driver's.)
unfoldable pub send_direct : Station → PacketId → Option ℕ → Error × Station
unfolding send_routed
send_direct s idout none = (err_tx, s)
send_direct s idout (some a) = send_routed s idout a (route_if s.routing idout.dst)
