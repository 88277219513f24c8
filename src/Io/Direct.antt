-- ===== src/Io/Direct.antt =====
-- libCSP/trunk/src/csp_io.c: how `csp_send_direct` ends.
pub mod Received
pub mod Relayed
use cubesat_space_protocol.Base.{
  ℕ, ◌+◌, ◌≤◌, ◌<◌, ◌≡◌, ◌≢◌, List, [], ◌∷◌, ◌++◌, map, Option, none, some, get_or, length, Bool,
  true, false, ltb, ltb→lt, ◌==◌, ◌&&◌, ◌^◌, ◌%◌, refl, sym, ◌∙◌, ap, if_cases, arith,
  if◌then◌else◌, subst, eq→==,
}
use mathlib.Core.Option.{some-injective, none-ne-some}
use cubesat_space_protocol.Error.{Error, err_none, err_tx}
use cubesat_space_protocol.Header.{Packet, PacketId}
use cubesat_space_protocol.Security.{Crypto, protect}
use cubesat_space_protocol.Route.{no_route, route_if}
use cubesat_space_protocol.Route.Promisc.Copies.{Fresh, Kept, promisc_add-Kept}
use cubesat_space_protocol.Transport.{Endpoint, transmitted, act, write}
use cubesat_space_protocol.Io.{
  Nexthop, loopback, driver, Iface, Station, set_endpoint, count_error, count_sent, as_sent,
  observe, prepare, submit, send_via, send_on, send_routed, send_direct, hand_over, lo_tx, answered,
}

-- The table has a route to `dst`, through interface `i`, which can send.
pub data Way (s : Station) (dst i : ℕ) (n : Nexthop) : Type 0 where
  by :
      (k : ℕ)
      → route_if s.routing dst ≡ some k
      → (get_or s.routing.routes k no_route).interface ≡ some i
      → (s.ifaces i).nexthop ≡ some n
      → Way s dst i n

-- The interface has a limit and the packet is longer.
abbrev pub is_too_long : Iface → Packet → Bool
is_too_long f p = ltb 0 f.mtu && ltb f.mtu p.length

-- The ways in which the packet at `a` can go, where `r` is the station with the packet as it is sent.
pub data Ending (s r : Station) (dst a : ℕ) : Error × Station → Type 0 where
  unreachable : ((i : ℕ) (n : Nexthop) → ¬ (Way s dst i n)) → Ending s r dst a (err_tx, s)
  too_long :
      (i : ℕ) (n : Nexthop)
      → Way s dst i n
      → is_too_long (r.ifaces i) (r.endpoint.mem a) ≡ true
      → Ending s r dst a (err_tx, count_error r i)
  refused :
      (i : ℕ) (takes : Packet → Bool)
      → Way s dst i (driver takes)
      → is_too_long (r.ifaces i) (r.endpoint.mem a) ≡ false
      → takes (r.endpoint.mem a) ≡ false
      → Ending s r dst a (err_tx, count_error r i)
  driven :
      (i : ℕ) (takes : Packet → Bool)
      → Way s dst i (driver takes)
      → is_too_long (r.ifaces i) (r.endpoint.mem a) ≡ false
      → takes (r.endpoint.mem a) ≡ true
      → Ending s r dst a (
        err_none,
        count_sent
            (set_endpoint r (act r.endpoint (transmitted (r.endpoint.mem a).id (r.endpoint.mem a))))
            i
            (r.endpoint.mem a).length,
      )
  looped :
      (i : ℕ)
      → Way s dst i loopback
      → is_too_long (r.ifaces i) (r.endpoint.mem a) ≡ false
      → Ending s r dst a (err_none, count_sent (lo_tx r a).1 i (r.endpoint.mem a).length)

handed-Ending :
    (s r : Station) (dst a i : ℕ) (n : Nexthop)
    → Way s dst i n
    → is_too_long (r.ifaces i) (r.endpoint.mem a) ≡ false
    → Ending s r dst a (answered i (r.endpoint.mem a).length (hand_over n r a))
unfolding hand_over lo_tx
handed-Ending s r dst a i loopback w fits = looped i w fits
handed-Ending s r dst a i (driver takes) w fits = by_answer (takes (r.endpoint.mem a)) refl
  where
    by_answer :
        (b : Bool)
        → takes (r.endpoint.mem a) ≡ b
        → Ending s r dst a (
            answered i (r.endpoint.mem a).length (
              if b
              then (
                true,
                set_endpoint r
                    (act r.endpoint (transmitted (r.endpoint.mem a).id (r.endpoint.mem a))),
              )
              else (false, r)))
    by_answer true e = driven i takes w fits e
    by_answer false e = refused i takes w fits e

submit-Ending :
    (s r : Station) (dst a i : ℕ) (n : Nexthop) → Way s dst i n → Ending s r dst a (submit n i r a)
unfolding submit
submit-Ending s r dst a i n w =
    if_cases (Ending s r dst a) _ _ _ (λ e. too_long i n w e) (λ e. handed-Ending s r dst a i n w e)

via-Ending :
    (s : Station) (idout : PacketId) (a k i : ℕ) (o : Option Nexthop)
    → route_if s.routing idout.dst ≡ some k
    → (get_or s.routing.routes k no_route).interface ≡ some i
    → (s.ifaces i).nexthop ≡ o
    → Ending s (prepare (observe s idout a) idout a) idout.dst a (send_via s idout a i o)
unfolding send_via
via-Ending s idout a k i none e e' e'' = unreachable (λ j n w. no_next w)
  where
    no_next : {j : ℕ} {n : Nexthop} → ¬ (Way s idout.dst j n)
    no_next (by k' f f' f'') = cc
via-Ending s idout a k i (some n) e e' e'' = submit-Ending s _ idout.dst a i n (by k e e' e'')

on-Ending :
    (s : Station) (idout : PacketId) (a k : ℕ) (o : Option ℕ)
    → route_if s.routing idout.dst ≡ some k
    → (get_or s.routing.routes k no_route).interface ≡ o
    → Ending s (prepare (observe s idout a) idout a) idout.dst a (send_on s idout a o)
unfolding send_on
on-Ending s idout a k none e e' = unreachable (λ j n w. no_interface w)
  where
    no_interface : {j : ℕ} {n : Nexthop} → ¬ (Way s idout.dst j n)
    no_interface (by k' f f' f'') = cc
on-Ending s idout a k (some i) e e' = via-Ending s idout a k i (s.ifaces i).nexthop e e' refl

routed-Ending :
    (s : Station) (idout : PacketId) (a : ℕ) (o : Option ℕ)
    → route_if s.routing idout.dst ≡ o
    → Ending s (prepare (observe s idout a) idout a) idout.dst a (send_routed s idout a o)
unfolding send_routed
routed-Ending s idout a none e = unreachable (λ j n w. no_entry w)
  where
    no_entry : {j : ℕ} {n : Nexthop} → ¬ (Way s idout.dst j n)
    no_entry (by k' f f' f'') = cc
routed-Ending s idout a (some k) e =
    on-Ending s idout a k (get_or s.routing.routes k no_route).interface e refl

-- A packet that `csp_send_direct` is given ends in one of five ways: there is no route to the destination through an interface that can send, and nothing changes; or the packet, shown to promiscuous mode, protected if it is from this node and with the new identifier, is too long for the interface or is refused by the driver, which is an error counted there; or the driver takes exactly this packet, or the router's input does by the loopback interface, which is counted as sent with its bytes.
pub send_direct-Ending :
    (s : Station) (idout : PacketId) (a : ℕ)
    → Ending s (prepare (observe s idout a) idout a) idout.dst a (send_direct s idout (some a))
unfolding send_direct
send_direct-Ending s idout a = routed-Ending s idout a (route_if s.routing idout.dst) refl
