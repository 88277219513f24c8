-- ===== src/Conn/Pool/Close.antt =====
-- libCSP/trunk/src/csp_conn.c: how `csp_close` ends a connection, with the packets that it holds, and
-- what `csp_conn_new` does to an array of one connection.
use cubesat_space_protocol.Base.{
  ℕ, ◌≡◌, ◌⊎◌, inl, inr, List, [], ◌∷◌, ◌++◌, map, Option, none, some, bit_or, Bool, true, false,
  refl, ap, sym, arith,
}
use mathlib.Core.List.{map-append}
use cubesat_space_protocol.Queue.Fifo.{Fifo}
use cubesat_space_protocol.Error.{Error, err_none}
use cubesat_space_protocol.Header.{PacketId, frdp, has}
use cubesat_space_protocol.Conn.{
  closed, opened, RdpState, rdp_closed, rdp_syn_sent, rdp_syn_rcvd, rdp_open, rdp_close_wait, Conn,
  Effect, freed, sent, drain, flush_rx_queue, emptied,
}
use cubesat_space_protocol.Conn.Pool.{close, new, scan, give, rdp_close, rdp_flush_all, finish}

-- The handshake is under way or done, and no side has closed the connection.
abbrev pub is_active : RdpState → Bool
is_active rdp_closed = false
is_active rdp_close_wait = false
is_active _ = true

-- The packets that a connection holds, in the order in which they are given back.
abbrev pub held : Conn → List ℕ
held c = drain c.rx_queue ++ (c.rdp.tx_queue.content ++ c.rdp.rx_queue.content)

abbrev pub Closed : Error × Option Conn × List Effect → List Effect → Type 0
Closed (e, none, es) expected = ⊥
Closed (e, some c, es) expected =
    (e ≡ err_none)
    × (c.state ≡ closed)
    × (c.rdp.state ≡ rdp_closed)
    × (held c ≡ [])
    × (es ≡ expected)

abbrev pub Waiting : Conn → Error × Option Conn × List Effect → Type 0
Waiting c (e, none, es) = ⊥
Waiting c (e, some c', es) =
    (e ≡ err_none)
    × (c'.state ≡ opened)
    × (c'.rdp.state ≡ rdp_close_wait)
    × (held c' ≡ held c)
    × (c'.idin ≡ c.idin)
    × (es ≡ sent (bit_or 0x02 0x08) c.rdp.snd_nxt c.rdp.rcv_cur ∷ [])

active_cases :
    (s : RdpState) → is_active s ≡ true → (s ≡ rdp_syn_sent) ⊎ ((s ≡ rdp_syn_rcvd) ⊎ (s ≡ rdp_open))
active_cases rdp_closed h = ground (arith, h)
active_cases rdp_syn_sent h = inl refl
active_cases rdp_syn_rcvd h = inr (inl refl)
active_cases rdp_open h = inr (inr refl)
active_cases rdp_close_wait h = ground (arith, h)

inactive_cases : (s : RdpState) → is_active s ≡ false → (s ≡ rdp_closed) ⊎ (s ≡ rdp_close_wait)
inactive_cases rdp_closed h = inl refl
inactive_cases rdp_syn_sent h = ground (arith, h)
inactive_cases rdp_syn_rcvd h = ground (arith, h)
inactive_cases rdp_open h = ground (arith, h)
inactive_cases rdp_close_wait h = inr refl

drain-emptied : (qs : List (Fifo ℕ)) → drain (map emptied qs) ≡ []
unfolding drain
drain-emptied [] = refl
drain-emptied (q ∷ qs) = drain-emptied qs

abbrev finish_some : Bool → Bool × Conn × List Effect → Error × Option Conn × List Effect
finish_some locked r = let (e, c, es) = finish locked r in (e, some c, es)

-- The first close of an active reliable connection sends a reset with its sequence numbers and leaves the connection open, waiting, with all its packets.
pub close-Waiting :
    (locked : Bool) (now : ℕ) (c : Conn)
    → c.state ≡ opened
    → has c.idin.flags frdp ≡ true
    → is_active c.rdp.state ≡ true
    → Waiting c (close locked now (some c))
unfolding close rdp_close finish
close-Waiting locked now c o r a = elim (active_cases c.rdp.state a) [
  | inl e ↦ rw (o, r, e) (refl, refl, refl, refl, refl, refl)
  | inr (inl e) ↦ rw (o, r, e) (refl, refl, refl, refl, refl, refl)
  | inr (inr e) ↦ rw (o, r, e) (refl, refl, refl, refl, refl, refl)
]

finish-Closed :
    (c : Conn)
    → has c.idin.flags frdp ≡ true
    → c.rdp.state ≡ rdp_closed
    → Closed (finish_some true (false, c, [])) (map freed (held c))
unfolding finish rdp_flush_all flush_rx_queue
finish-Closed c r e = rw r (
  refl,
  refl,
  e,
  ap (λ l. l ++ []) (drain-emptied c.rx_queue),
  sym (map-append freed (drain c.rx_queue) (c.rdp.tx_queue.content ++ c.rdp.rx_queue.content)),
)

-- With the lock, closing an open reliable connection that waits for its close, or whose transport is closed, closes it, gives back every packet that it holds, and leaves none in its queues.
pub close-Closed :
    (now : ℕ) (c : Conn)
    → c.state ≡ opened
    → has c.idin.flags frdp ≡ true
    → is_active c.rdp.state ≡ false
    → Closed (close true now (some c)) (map freed (held c))
unfolding close rdp_close finish rdp_flush_all flush_rx_queue
close-Closed now c o r a = elim (inactive_cases c.rdp.state a) [
  | inl e ↦
      rw (o, r, e)
        (finish-Closed (record c { state = opened; rdp = record c.rdp { state = rdp_closed } }) r
          refl)
  | inr e ↦
      rw (o, r, e)
        (finish-Closed (record c { state = opened; rdp = record c.rdp { state = rdp_closed } }) r
          refl)
]

-- If the array has only one connection, a new connection for it is never given, and yet a closed one is marked open, for good.
pub new_single :
    (now : ℕ) (c : Conn) (idin idout : PacketId)
    → c.state ≡ closed
    → new true now (record { arr_conn = c ∷ []; last_given = 0 }) idin idout
      ≡ (none, record { arr_conn = record c { state = opened } ∷ []; last_given = 0 }, [])
unfolding new scan give
new_single now c idin idout h = rw h refl
