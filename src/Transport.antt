-- ===== src/Transport.antt =====
-- libCSP/trunk/src/transport/csp_rdp.c: the reliable transport, without CSP_RDP_COMP, on a host that
-- keeps the least significant byte first. Packets stand in a memory by their addresses. What the
-- buffer pool gives, whether an interface takes a packet, the lock, the time and `rand` are kept as
-- what the next calls will find; the time stands still within a call.
pub mod Sequence
pub mod Head
pub mod Control
pub mod Receive
pub mod Acks
pub mod Timeouts
pub mod Packets
pub mod Client
mod Tests
use cubesat_space_protocol.Base.{
  ℕ, zero, suc, ◌+◌, ◌-◌, ◌*◌, ◌/◌, ◌%◌, ◌^◌, ◌≡◌, List, [], ◌∷◌, ◌++◌, map, Option, none, some,
  Bool, true, false, ◌==◌, if◌then◌else◌,
}
use cubesat_space_protocol.Header.{Packet, PacketId}
use cubesat_space_protocol.Error.{Error}
use cubesat_space_protocol.Queue.Fifo.{Fifo}
use cubesat_space_protocol.Conn.{Conn, Rdp, RdpState, Effect}
use cubesat_space_protocol.Conn.Pool.{close}

-- RDP_SYN, RDP_ACK, RDP_EAK and RDP_RST
abbrev pub rdp_syn : ℕ
rdp_syn = 0x01

abbrev pub rdp_ack : ℕ
rdp_ack = 0x02

abbrev pub rdp_eak : ℕ
rdp_eak = 0x04

abbrev pub rdp_rst : ℕ
rdp_rst = 0x08

-- CSP_RDP_MAX_WINDOW
abbrev pub rdp_max_window : ℕ
rdp_max_window = 20

-- The options that `csp_rdp_set_opt` sets.
pub record Options : Type 0 where
  pub window_size : ℕ
  pub conn_timeout : ℕ
  pub packet_timeout : ℕ
  pub delayed_acks : ℕ
  pub ack_timeout : ℕ
  pub ack_delay_count : ℕ

-- `csp_rdp_set_opt`
unfoldable pub rdp_set_opt : Options → ℕ → ℕ → ℕ → ℕ → ℕ → ℕ → Options
rdp_set_opt o window_size conn_timeout packet_timeout delayed_acks ack_timeout ack_delay_count =
    record {
      window_size = window_size;
      conn_timeout = conn_timeout;
      packet_timeout = packet_timeout;
      delayed_acks = delayed_acks;
      ack_timeout = ack_timeout;
      ack_delay_count = ack_delay_count;
    }

-- What is done to the outside: a packet goes back to the pool or to an interface, `tx_wait` is
-- posted, the connection goes to its socket, and what `csp_close` does.
pub data Action : Type 0 where
  given_back : ℕ → Action
  transmitted : PacketId → Packet → Action
  woken handed : Action
  closing : Effect → Action

-- A connection with its surroundings: the memory of the packets, what the next calls of
-- `csp_buffer_get` and `csp_buffer_clone` give, whether the next calls of `csp_send_direct` and
-- the enqueuing of the connection to its socket succeed, the lock of `csp_close`, the time,
-- `rand`, the options, and what has been done.
pub record Endpoint : Type 0 where
  pub conn : Conn
  pub mem : ℕ → Packet
  pub supply : List (Option ℕ)
  pub accepts : List Bool
  pub socket_room : Bool
  pub lockable : Bool
  pub now : ℕ
  pub rand : ℕ
  pub opts : Options
  pub actions : List Action

abbrev pub act : Endpoint → Action → Endpoint
act w x = record w { actions = w.actions ++ (x ∷ []) }

abbrev pub set_rdp : Endpoint → Rdp → Endpoint
set_rdp w r = record w { conn = record w.conn { rdp = r } }

abbrev pub set_state : Endpoint → RdpState → Endpoint
set_state w s = set_rdp w (record w.conn.rdp { state = s })

abbrev pub write : Endpoint → ℕ → Packet → Endpoint
write w a p = record w { mem = λ i. if i == a then p else w.mem i }

abbrev pub from_supply : List (Option ℕ) → Endpoint → Option ℕ × Endpoint
from_supply [] w = (none, w)
from_supply (o ∷ os) w = (o, record w { supply = os })

-- `csp_buffer_get` and `csp_buffer_free`
abbrev pub buffer_get : Endpoint → Option ℕ × Endpoint
buffer_get w = from_supply w.supply w

abbrev pub buffer_free : Endpoint → ℕ → Endpoint
buffer_free w a = act w (given_back a)

abbrev pub cloned : ℕ → Option ℕ × Endpoint → Option ℕ × Endpoint
cloned a (none, w) = (none, w)
cloned a (some a', w) = (some a', write w a' (w.mem a))

-- `csp_buffer_clone`
abbrev pub buffer_clone : Endpoint → ℕ → Option ℕ × Endpoint
buffer_clone w a = cloned a (buffer_get w)

abbrev pub offered : List Bool → Endpoint → ℕ → Bool × Endpoint
offered [] w a = (false, w)
offered (false ∷ bs) w a = (false, record w { accepts = bs })
offered (true ∷ bs) w a =
    (true, act (record w { accepts = bs }) (transmitted w.conn.idout (w.mem a)))

-- `csp_send_direct` of a packet with `idout`: whether it succeeds.
abbrev pub send_direct : Endpoint → ℕ → Bool × Endpoint
send_direct w a = offered w.accepts w a

abbrev pub closed_conn : Endpoint → Error × Option Conn × List Effect → Endpoint
closed_conn w (e, none, es) = w
closed_conn w (e, some c, es) = record w { conn = c; actions = w.actions ++ map closing es }

-- `csp_close` of the connection.
abbrev pub close_conn : Endpoint → Endpoint
close_conn w = closed_conn w (close w.lockable w.now (some w.conn))
