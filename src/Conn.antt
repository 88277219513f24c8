-- ===== src/Conn.antt =====
-- libCSP/trunk/src/csp_conn.h and csp_conn.c: connections, with CSP_USE_QOS and CSP_USE_RDP at 1.
-- A packet is known by its address, a number; NULL is `none`. What a call gives back to the buffer
-- pool and what it sends are its effects, in order.
pub mod Pool
pub mod Packets
pub mod Connect
mod Tests
use cubesat_space_protocol.Base.{
  ℕ, zero, suc, ◌+◌, ◌*◌, ◌/◌, ◌^◌, ◌≡◌, List, [], ◌∷◌, ◌++◌, map, Option, none, some, get_or, set,
  replicate, length, Bool, true, false, if◌then◌else◌,
}
use cubesat_space_protocol.Error.{Error, err_none, err_nomem, err_inval}
use cubesat_space_protocol.Header.{PacketId, prio_size}
use cubesat_space_protocol.Queue.Fifo.{Fifo, fresh, push}

-- `csp_conn_state_t`
pub data State : Type 0 where
  closed opened : State

-- `csp_rdp_state_t`
pub data RdpState : Type 0 where
  rdp_closed rdp_syn_sent rdp_syn_rcvd rdp_open rdp_close_wait : RdpState

-- `csp_rdp_t`. The semaphore `tx_wait` is not kept: who waits on it is told how the wait ends.
pub record Rdp : Type 0 where
  pub state : RdpState
  pub snd_nxt : ℕ
  pub snd_una : ℕ
  pub snd_iss : ℕ
  pub rcv_cur : ℕ
  pub rcv_irs : ℕ
  pub rcv_lsa : ℕ
  pub window_size : ℕ
  pub conn_timeout : ℕ
  pub packet_timeout : ℕ
  pub delayed_acks : ℕ
  pub ack_timeout : ℕ
  pub ack_delay_count : ℕ
  pub ack_timestamp : ℕ
  pub tx_queue : Fifo ℕ
  pub rx_queue : Fifo ℕ

-- `struct csp_conn_s`; `rx_socket` is the handle of a socket's queue.
pub record Conn : Type 0 where
  pub state : State
  pub idin : PacketId
  pub idout : PacketId
  pub rx_event : Fifo ℕ
  pub rx_queue : List (Fifo ℕ)
  pub rx_socket : Option ℕ
  pub timestamp : ℕ
  pub conn_opts : ℕ
  pub rdp : Rdp

-- CSP_PRIORITIES, CSP_CONN_QUEUE_LENGTH, CSP_RX_QUEUE_LENGTH and CSP_RX_QUEUES
abbrev pub priorities : ℕ
priorities = 2 ^ prio_size

abbrev pub conn_queue_length : ℕ
conn_queue_length = 100

abbrev pub rx_queue_length : ℕ
rx_queue_length = conn_queue_length / priorities

abbrev pub rx_queues : ℕ
rx_queues = priorities

abbrev pub is_closed : State → Bool
is_closed closed = true
is_closed opened = false

-- What a call does to the outside: a packet goes back to the pool, or a control message with
-- these flags, sequence and acknowledgement numbers is sent.
pub data Effect : Type 0 where
  freed : ℕ → Effect
  sent : ℕ → ℕ → ℕ → Effect

abbrev pub no_queue : Fifo ℕ
no_queue = record { capacity = 0; content = [] }

-- `csp_conn_get_rxq`
abbrev pub get_rxq : ℕ → ℕ
get_rxq prio = prio

-- The second half of `csp_conn_enqueue_packet`, behind the push to the queue of the priority.
add_event : Conn → ℕ → Bool × Fifo ℕ → Error × Conn
add_event c rxq (false, q) = (err_nomem, c)
add_event c rxq (true, q) =
    let (told, events) = push c.rx_event 0 in
    (
      if told then err_none else err_nomem,
      record c { rx_queue = set c.rx_queue rxq q; rx_event = events },
    )

-- `csp_conn_enqueue_packet`, for a packet of priority `pri`.
pub enqueue_packet : Option Conn → Option ℕ → ℕ → Error × Option Conn
unfolding add_event
enqueue_packet none packet pri = (err_inval, none)
enqueue_packet (some c) none pri = (err_inval, some c)
enqueue_packet (some c) (some packet) pri =
    let rxq = get_rxq pri in
    let (e, c') = add_event c rxq (push (get_or c.rx_queue rxq no_queue) packet) in (e, some c')

-- The packets that `csp_conn_flush_rx_queue` takes out of the queues, one queue after the other.
pub drain : List (Fifo ℕ) → List ℕ
drain [] = []
drain (q ∷ qs) = q.content ++ drain qs

abbrev pub emptied : Fifo ℕ → Fifo ℕ
emptied q = record q { content = [] }

-- `csp_conn_flush_rx_queue`. (No NULL is ever in a queue: `csp_conn_enqueue_packet` refuses it.)
pub flush_rx_queue : Conn → Conn × List Effect
unfolding drain
flush_rx_queue c = (
  record c { rx_queue = map emptied c.rx_queue; rx_event = emptied c.rx_event },
  map freed (drain c.rx_queue),
)
