-- ===== src/Conn/Pool.antt =====
-- libCSP/trunk/src/csp_conn.c: `csp_conn_find`, `csp_conn_new` and `csp_close` on the static array of
-- connections, with `csp_rdp_close` and `csp_rdp_flush_all` of src/transport/csp_rdp.c. A connection
-- is known by its index; the lock's outcome is an argument.
pub mod Find
pub mod Filled
pub mod New
pub mod Close
pub mod Distinct
pub mod States
use cubesat_space_protocol.Base.{
  ℕ, zero, suc, ◌+◌, ◌%◌, ◌^◌, List, [], ◌∷◌, ◌++◌, map, Option, none, some, get_elem?, set, length,
  bit_and, bit_or, ◌==◌, ◌&&◌, ◌||◌, not, Bool, true, false, if◌then◌else◌,
}
use cubesat_space_protocol.Base.Cycle.{next}
use cubesat_space_protocol.Error.{Error, err_none, err_inval, err_timedout}
use cubesat_space_protocol.Header.{PacketId, ext, frdp, has}
use cubesat_space_protocol.Conn.{
  State, closed, opened, RdpState, rdp_closed, rdp_syn_sent, rdp_syn_rcvd, rdp_open, rdp_close_wait,
  Conn, is_closed, Effect, freed, sent, emptied, flush_rx_queue,
}

-- `arr_conn`, CSP_CONN_MAX long, and `csp_conn_last_given`.
pub record Connections : Type 0 where
  pub arr_conn : List Conn
  pub last_given : ℕ

-- The condition in the loop of `csp_conn_find`.
abbrev pub matches : Conn → ℕ → ℕ → Bool
matches c id mask = not (is_closed c.state) && (bit_and (ext c.idin) mask == bit_and id mask)

find_from : List Conn → ℕ → ℕ → ℕ → Option ℕ
find_from [] k id mask = none
find_from (c ∷ cs) k id mask =
    let rest = find_from cs (suc k) id mask in if matches c id mask then some k else rest

-- `csp_conn_find`
unfoldable pub find : List Conn → ℕ → ℕ → Option ℕ
unfolding find_from
find cs id mask = find_from cs 0 id mask

abbrev pub closed_at : List Conn → ℕ → Bool
closed_at cs i = elim (get_elem? cs i) [ none ↦ false | some c ↦ is_closed c.state ]

-- The do-while loop of `csp_conn_new`, on fuel: the index it stops at, and whether by the break.
pub scan : ℕ → List Conn → ℕ → ℕ → Option (ℕ × Bool)
scan zero cs last i = none
scan (suc fuel) cs last i =
    let rest = scan fuel cs last (next (length cs) i) in
    if closed_at cs i
    then some (i, true)
    else if next (length cs) i == last
    then some (last, false)
    else rest

abbrev open_conn : Conn → Conn
open_conn c = record c { state = opened }

abbrev pub update : List Conn → ℕ → (Conn → Conn) → List Conn
update [] i f = []
update (c ∷ cs) zero f = f c ∷ cs
update (c ∷ cs) (suc i) f = c ∷ update cs i f

abbrev assigned : PacketId → PacketId → ℕ → Conn → Conn
assigned idin idout now c = record c {
  state = opened;
  idin = idin;
  idout = idout;
  rx_socket = none;
  timestamp = now;
}

-- What `csp_conn_new` writes to the connection that it gives out.
abbrev pub fill : PacketId → PacketId → ℕ → Conn → Conn
fill idin idout now c = (flush_rx_queue (assigned idin idout now c)).0

abbrev pub flushed_at : List Conn → ℕ → List Effect
flushed_at cs i = elim (get_elem? cs i) [ none ↦ [] | some c ↦ (flush_rx_queue c).1 ]

-- `csp_conn_new` behind its loop.
give :
    PacketId → PacketId → ℕ → Connections → Option (ℕ × Bool) → Option ℕ × Connections × List Effect
give idin idout now p none = (none, p, [])
give idin idout now p (some (i, found)) =
    if i == p.last_given
    then (
      none,
      record p { arr_conn = if found then update p.arr_conn i open_conn else p.arr_conn },
      [],
    )
    else (
      some i,
      record { arr_conn = update p.arr_conn i (fill idin idout now); last_given = i % 2 ^ 8 },
      flushed_at p.arr_conn i,
    )

-- `csp_conn_new`, with as much fuel as there are connections.
unfoldable pub new :
    Bool → ℕ → Connections → PacketId → PacketId → Option ℕ × Connections × List Effect
unfolding scan give flush_rx_queue
new false now p idin idout = (none, p, [])
new true now p idin idout =
    let count = length p.arr_conn in
    give idin idout now p (scan count p.arr_conn p.last_given (next count p.last_given))

-- `csp_rdp_close` in each state.
abbrev pub close_in : RdpState → ℕ → Conn → Bool × Conn × List Effect
close_in rdp_closed now c = (false, c, [])
close_in rdp_close_wait now c = (false, record c { rdp = record c.rdp { state = rdp_closed } }, [])
close_in _ now c = (
  true,
  record c { rdp = record c.rdp { state = rdp_close_wait }; timestamp = now },
  sent (bit_or 0x02 0x08) c.rdp.snd_nxt c.rdp.rcv_cur ∷ [],
)

-- `csp_rdp_close` at time `now`: whether it is 1, the connection and the reset it sends, whose
-- failure nobody looks at. 0x02 is RDP_ACK and 0x08 RDP_RST.
pub rdp_close : ℕ → Conn → Bool × Conn × List Effect
rdp_close now c = close_in c.rdp.state now c

-- `csp_rdp_flush_all`. (No NULL is ever in these queues.)
pub rdp_flush_all : Conn → Conn × List Effect
rdp_flush_all c = (
  record c {
    rdp = record c.rdp { tx_queue = emptied c.rdp.tx_queue; rx_queue = emptied c.rdp.rx_queue };
  },
  map freed (c.rdp.tx_queue.content ++ c.rdp.rx_queue.content),
)

-- `csp_close` behind `csp_rdp_close`.
finish : Bool → Bool × Conn × List Effect → Error × Conn × List Effect
finish locked (true, c, es) = (err_none, c, es)
finish false (false, c, es) = (err_timedout, c, es)
finish true (false, c, es) =
    let (c', flushed) = flush_rx_queue (record c { state = closed }) in
    let (c'', flushed') = rdp_flush_all c' in
    if has c.idin.flags frdp
    then (err_none, c'', es ++ flushed ++ flushed')
    else (err_none, c', es ++ flushed)

-- `csp_close`, with the outcome of `csp_bin_sem_wait` and the time.
unfoldable pub close : Bool → ℕ → Option Conn → Error × Option Conn × List Effect
unfolding rdp_close rdp_flush_all finish flush_rx_queue
close locked now none = (err_inval, none, [])
close locked now (some c) =
    let closing =
      if has c.idin.flags frdp || has c.idout.flags frdp then rdp_close now c else (false, c, []) in
    let (e, c', es) = finish locked closing in
    if is_closed c.state then (err_none, some c, []) else (e, some c', es)
