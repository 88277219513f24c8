-- ===== src/Can/Tx.antt =====
-- libCSP/trunk/src/interfaces/csp_if_can.c: `csp_can_tx` and `csp_tx_callback`.

pub mod Step
use cubesat_space_protocol.Base.{
  ℕ, ◌+◌, ◌-◌, ◌/◌, ◌%◌, ◌^◌, List, [], ◌∷◌, ◌++◌, Option, none, some, Bool, true, false, ltb, leb,
  get_elem?, set, length, take, drop, bytes16, bytes32, if◌then◌else◌,
}
use cubesat_space_protocol.Header.{Packet, ext}
use cubesat_space_protocol.Endian.{hton16, hton32}
use cubesat_space_protocol.Can.{
  Frame, Buffered, Element, Can, Event, framed, posted, cfp_begin, cfp_more, cfp_ident, can_id,
  cfp_conn_mask,
}
use cubesat_space_protocol.Can.Pbuf.{pbuf_free, pbuf_new, pbuf_find, id_get}

-- The first frame, and how many bytes of the packet's data it has.
abbrev pub first_bytes : ℕ → ℕ
first_bytes length = if leb length 2 then length else 2

unfoldable pub first_frame : Packet → ℕ → Frame
unfolding can_id
first_frame p ident = record {
  id = can_id p.id.src p.id.dst ident cfp_begin ((p.length + 6 - 1) / 8);
  dlc = 6 + first_bytes p.length;
  bytes =
      bytes32 (hton32 false (ext p.id))
      ++ (bytes16 (hton16 false p.length) ++ take (first_bytes p.length) p.contents);
}

-- The frame behind the first `tx_count` bytes of data.
abbrev pub next_bytes : ℕ → ℕ → ℕ
next_bytes length tx_count = if leb 8 (length - tx_count) then 8 else length - tx_count

unfoldable pub more_frame : Packet → ℕ → ℕ → Frame
unfolding can_id
more_frame p ident tx_count =
    let bytes = next_bytes p.length tx_count in
    record {
      id = can_id p.id.src p.id.dst ident cfp_more ((p.length - tx_count - bytes + 7) / 8);
      dlc = bytes;
      bytes = take bytes (drop tx_count p.contents);
    }

abbrev pub count_tx_error : Can → Can
count_tx_error c = record c {
  counters = record c.counters { tx_error = (c.counters.tx_error + 1) % 2 ^ 32 };
}

-- `csp_if_can.tx_error++; pbuf_free(buf); return -1`
abbrev pub tx_failed : Can → ℕ → Element → List Event → Bool × Can × List Event
tx_failed c i e evs = (
  false,
  count_tx_error (record c { pbuf = set c.pbuf i (pbuf_free e).0 }),
  evs ++ (pbuf_free e).1,
)

-- `csp_tx_callback` on the packet `b` of element `i`.
tx_packet : ℕ → Bool → Bool → Can → ℕ → Element → Option Buffered → Bool × Can × List Event
unfolding more_frame cfp_ident
tx_packet canid no_error sent c i e none = tx_failed c i e []
tx_packet canid no_error sent c i e (some b) =
    let f = more_frame b.packet (cfp_ident canid) e.tx_count in
    let e' : Element = record e {
      tx_count = (e.tx_count + next_bytes b.packet.length e.tx_count) % 2 ^ 16;
    } in
    if no_error
    then if ltb e.tx_count b.packet.length
      then if sent
        then (true, record c { pbuf = set c.pbuf i e' }, framed f ∷ [])
        else tx_failed c i e' (framed f ∷ [])
      else (
        true,
        record c { pbuf = set c.pbuf i (pbuf_free e).0 },
        (pbuf_free e).1 ++ (posted ∷ []),
      )
    else tx_failed c i e []

tx_at : ℕ → Bool → Bool → Can → ℕ → Option Element → Bool × Can × List Event
unfolding tx_packet
tx_at canid no_error sent c i none = (true, c, [])
tx_at canid no_error sent c i (some e) = tx_packet canid no_error sent c i e e.packet

tx_found : ℕ → Bool → Bool → Can → Option ℕ × List Element → Bool × Can × List Event
unfolding tx_at
tx_found canid no_error sent c (none, es) = (false, count_tx_error c, [])
tx_found canid no_error sent c (some i, es) =
    tx_at canid no_error sent (record c { pbuf = es }) i (get_elem? es i)

-- `csp_tx_callback` at time `now`; `no_error` is whether `error` is CAN_NO_ERROR, and `sent` whether
-- `can_send` returns 0.
unfoldable pub tx_callback : ℕ → Bool → Bool → Can → ℕ → Bool × Can × List Event
unfolding tx_found
tx_callback now no_error sent c canid =
    tx_found canid no_error sent c (pbuf_find c.pbuf canid cfp_conn_mask now)

-- `csp_can_tx` behind `pbuf_new`.
tx_begin :
    ℕ
    → Bool
    → Bool
    → Bool
    → Can
    → Buffered
    → Option ℕ × List Element × List Event
    → Bool × Can × List Event
unfolding first_frame
tx_begin ident sent blocking woken c b (none, es, evs) = (false, record c { pbuf = es }, evs)
tx_begin ident sent blocking woken c b (some i, es, evs) =
    let n = first_bytes b.packet.length in
    let started =
      λ (e : Element). record e { packet = some b; tx_count = (e.tx_count + n) % 2 ^ 16 } in
    let es' : List Element = elim (get_elem? es i) [ none ↦ es | some e ↦ set es i (started e) ] in
    let c' : Can = record c { pbuf = es' } in
    let evs' = evs ++ (framed (first_frame b.packet ident) ∷ []) in
    if sent
    then if blocking then (woken, c', evs' ++ (posted ∷ [])) else (true, c', evs')
    else (false, c', evs')

tx_ident : ℕ → Bool → Bool → Bool → Can → Buffered → Option ℕ × ℕ → Bool × Can × List Event
unfolding tx_begin
tx_ident now sent blocking woken c b (none, cfp_id) = (false, c, [])
tx_ident now sent blocking woken c b (some ident, cfp_id) =
    tx_begin ident sent blocking woken (record c { cfp_id = cfp_id }) b
      (pbuf_new c.pbuf (first_frame b.packet ident).id now)

-- `csp_can_tx` at time `now`: whether it returns 1. The outcomes are those of the wait in `id_get`,
-- of `can_send`, whether `timeout` is not 0, and of the wait for `tx_sem`.
unfoldable pub can_tx : ℕ → Bool → Bool → Bool → Bool → Can → Buffered → Bool × Can × List Event
unfolding tx_ident
can_tx now locked sent blocking woken c b =
    tx_ident now sent blocking woken c b (id_get locked c.cfp_id)
