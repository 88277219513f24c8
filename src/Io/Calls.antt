-- ===== src/Io/Calls.antt =====
-- libCSP/trunk/src/csp_io.c: the user's calls that send: `csp_send`, `csp_sendto` and transactions.
pub mod Flags
use cubesat_space_protocol.Base.{
  ℕ, ◌+◌, ◌-◌, ◌%◌, ◌^◌, List, [], ◌∷◌, ◌++◌, map, Option, none, some, get_elem?, get_or, take,
  blit, length, bit_or, Bool, true, false, ltb, leb, ◌==◌, not, ◌&&◌, if◌then◌else◌,
}
use cubesat_space_protocol.Error.{Error, is_none}
use cubesat_space_protocol.Header.{
  Packet, PacketId, has, frdp, fhmac, fxtea, fcrc32, so_rdpreq, so_hmacreq, so_xteareq, so_crc32req,
}
use cubesat_space_protocol.Conn.{State, closed, opened, Conn, Effect}
use cubesat_space_protocol.Conn.Pool.{Connections, update, close}
use cubesat_space_protocol.Conn.Connect.{Connected, connect}
use cubesat_space_protocol.Route.{no_route, route_if}
use cubesat_space_protocol.Transport.{
  Endpoint, closing, write, buffer_get, buffer_free, from_supply,
}
use cubesat_space_protocol.Transport.Client.{rdp_send}
use cubesat_space_protocol.Io.{Station, set_endpoint, count_error, send_direct}
use cubesat_space_protocol.Io.Read.{set_conn, read}

-- The features that CSP is compiled with: CSP_USE_RDP, CSP_ENABLE_XTEA, CSP_ENABLE_HMAC and
-- CSP_ENABLE_CRC32.
pub record Features : Type 0 where
  pub rdp : Bool
  pub xtea : Bool
  pub hmac : Bool
  pub crc32 : Bool

-- What other tasks make of an endpoint until a wait for `tx_wait` ends, and whether it ends well;
-- and of a station until a wait for a packet ends.
pub record Waits : Type 0 where
  pub tx_wait : Endpoint → Bool × Endpoint
  pub rx_event : Station → Station

send_plain : Station → ℕ → Bool × Station
send_plain s a = let (e, s') = send_direct s s.endpoint.conn.idout (some a) in (is_none e, s')

count_failure : Station → Option ℕ → Station
count_failure s none = s
count_failure s (some k) = elim (get_or s.routing.routes k no_route).interface [
  | none ↦ s
  | some i ↦ count_error s i
]

send_reliably : Station → ℕ → Error × Endpoint → Bool × Station
unfolding send_plain count_failure
send_reliably s a (e, w) =
    let s' = set_endpoint s w in
    if is_none e
    then send_plain s' a
    else (false, count_failure s' (route_if s.routing w.conn.idout.dst))

send_over : State → Waits → Station → ℕ → Bool × Station
unfolding send_reliably send_plain
send_over closed waits s a = (false, s)
send_over opened waits s a =
    if has s.endpoint.conn.idout.flags frdp
    then send_reliably s a (rdp_send waits.tx_wait s.endpoint a)
    else send_plain s a

-- `csp_send`: whether it returns 1; NULL is `none`. The connection stands in the endpoint behind it.
unfoldable pub send : Waits → Station → Option Conn → Option ℕ → Bool × Station
unfolding send_over
send waits s none a = (false, s)
send waits s (some c) none = (false, set_conn s c)
send waits s (some c) (some a) = send_over c.state waits (set_conn s c) a

-- `packet->id.flags` in `csp_sendto`, and whether it goes on: not, once it has returned -1.
abbrev pub add_flag : ℕ → ℕ → Bool → ℕ → ℕ → Bool × ℕ
add_flag opts option supported flag flags =
    if has opts option
    then if supported then (true, bit_or flags flag) else (false, flags)
    else (true, flags)

abbrev pub then_flag : Bool × ℕ → (ℕ → Bool × ℕ) → Bool × ℕ
then_flag (false, flags) f = (false, flags)
then_flag (true, flags) f = f flags

unfoldable pub sendto_flags : Features → ℕ → Bool × ℕ
sendto_flags f opts =
    if has opts so_rdpreq
    then (false, 0)
    else then_flag (add_flag opts so_hmacreq f.hmac fhmac 0) λ flags.
      then_flag (add_flag opts so_xteareq f.xtea fxtea flags)
        λ flags'. add_flag opts so_crc32req f.crc32 fcrc32 flags'

-- The identifier that `csp_sendto` writes to the packet.
abbrev pub sendto_id : ℕ → ℕ → ℕ → ℕ → ℕ → ℕ → PacketId
sendto_id my_address prio dest dport src_port flags = record {
  pri = prio % 2 ^ 2;
  src = my_address % 2 ^ 5;
  dst = dest % 2 ^ 5;
  dport = dport % 2 ^ 6;
  sport = src_port % 2 ^ 6;
  flags = flags;
}

abbrev pub rename : Station → ℕ → PacketId → Station
rename s a id =
    let p : Packet = record (s.endpoint.mem a) { id = id } in set_endpoint s (write s.endpoint a p)

sendto_with : Station → ℕ → (ℕ → PacketId) → Bool × ℕ → Bool × Station
sendto_with s a id (false, flags) =
    let old = (s.endpoint.mem a).id in (false, rename s a (record old { flags = flags }))
sendto_with s a id (true, flags) =
    let (e, s') = send_direct (rename s a (id flags)) (id flags) (some a) in (is_none e, s')

-- `csp_sendto` of the packet at `a`: whether it returns 0.
unfoldable pub sendto : Features → Station → ℕ → ℕ → ℕ → ℕ → ℕ → ℕ → Bool × Station
unfolding sendto_with sendto_flags
sendto f s prio dest dport src_port opts a =
    sendto_with s a (sendto_id s.my_address prio dest dport src_port) (sendto_flags f opts)
