-- ===== src/Can/Rx.antt =====
-- libCSP/trunk/src/interfaces/csp_if_can.c: `csp_rx_callback`.
pub mod Bounds
pub mod Found
pub mod Step
use cubesat_space_protocol.Base.{
  ℕ, zero, suc, ◌+◌, ◌-◌, ◌%◌, ◌^◌, List, [], ◌∷◌, ◌++◌, Option, none, some, Bool, true, false, not,
  ltb, ◌==◌, get_elem?, set, length, take, drop, blit, word16, word32, if◌then◌else◌,
}
use cubesat_space_protocol.Header.{Packet, of_ext}
use cubesat_space_protocol.Endian.{ntoh16, ntoh32}
use cubesat_space_protocol.Can.{
  Frame, Buffered, Element, Counters, Can, Event, delivered, overrun, cfp_begin, cfp_more, cfp_type,
  cfp_remain, cfp_conn_mask,
}
use cubesat_space_protocol.Can.Pbuf.{free_element, pbuf_free, pbuf_new, pbuf_find}

-- What the switch leaves: the element, how much `csp_if_can.frame` has grown, and the events.
pub record Received : Type 0 where
  pub element : Element
  pub errors : ℕ
  pub events : List Event

-- `csp_if_can.frame++` and `pbuf_free(buf)`; `errors` have been counted before.
abbrev pub dropped : ℕ → Element → Received
dropped errors e = record {
  element = (pbuf_free e).0;
  errors = errors + 1;
  events = (pbuf_free e).1;
}

-- The `memcpy` to the data area behind `rx_count`.
abbrev pub copied : Packet → ℕ → List ℕ → Packet
copied p rx_count bytes = record p { contents = blit p.contents rx_count bytes }

abbrev pub overruns : Packet → ℕ → List ℕ → List Event
overruns p rx_count bytes =
    if ltb (length p.contents) (rx_count + length bytes) then overrun ∷ [] else []

-- The case CFP_MORE behind the copy: is the packet complete?
abbrev pub complete : ℕ → Element → Buffered → ℕ → List Event → Received
complete errors e b rx_count evs =
    if rx_count == b.packet.length
    then record { element = free_element; errors = errors; events = evs ++ (delivered b ∷ []) }
    else record {
      element = record e { packet = some b; rx_count = rx_count };
      errors = errors;
      events = evs;
    }

-- The case CFP_MORE behind the check of `remain`, with the length check and the copy of `bytes`.
-- Without a packet it reads through NULL.
take_bytes : ℕ → Element → Option Buffered → List ℕ → ℕ → Received
take_bytes errors e none bytes n = record { element = e; errors = errors; events = overrun ∷ [] }
take_bytes errors e (some b) bytes n =
    let b' : Buffered = record b { packet = copied b.packet e.rx_count bytes } in
    if ltb b.packet.length (e.rx_count + n)
    then dropped errors e
    else complete errors e b' ((e.rx_count + n) % 2 ^ 16) (overruns b.packet e.rx_count bytes)

-- The case CFP_MORE, which the case CFP_BEGIN falls into with its `offset`.
pub rx_more : ℕ → ℕ → Frame → Element → Received
unfolding take_bytes
rx_more errors offset f e =
    let n = f.dlc - offset in
    if not (cfp_remain f.id == (e.remain + 2 ^ 32 - 1) % 2 ^ 32)
    then dropped errors e
    else take_bytes errors (record e { remain = (e.remain + 2 ^ 32 - 1) % 2 ^ 32 }) e.packet
        (take n (drop offset f.bytes)) n

-- The identifier and the length of the packet, from the first six bytes of a frame.
abbrev pub begun : Packet → Frame → Packet
begun p f = record p {
  id = of_ext (ntoh32 false (word32 (take 4 f.bytes)));
  length = ntoh16 false (word16 (take 2 (drop 4 f.bytes)));
}

-- The packet of the case CFP_BEGIN: the one that the element has, which counts as an error, or the
-- one that `csp_buffer_get` gives.
abbrev pub rx_packet : Option Buffered → Option Buffered → Option (Buffered × ℕ)
rx_packet (some b) got = some (b, 1)
rx_packet none (some b) = some (b, 0)
rx_packet none none = none

fill : Frame → Element → Option (Buffered × ℕ) → Received
unfolding rx_more
fill f e none = dropped 0 e
fill f e (some (b, errors)) = rx_more errors 6 f (record e {
  packet = some (record b { packet = begun b.packet f });
  rx_count = 0;
  remain = cfp_remain f.id + 1;
})

-- The case CFP_BEGIN; `got` is what `csp_buffer_get` gives.
pub rx_begin : Option Buffered → Frame → Element → Received
unfolding fill
rx_begin got f e = if ltb f.dlc 6 then dropped 0 e else fill f e (rx_packet e.packet got)

-- The switch on the frame's type, which has one bit.
unfoldable pub rx_element : Option Buffered → Frame → Element → Received
unfolding rx_begin rx_more cfp_type
rx_element got f e = if cfp_type f.id == cfp_begin then rx_begin got f e else rx_more 0 0 f e

-- `csp_rx_callback` on element `i`, behind `pbuf_find` and `pbuf_new`.
unfoldable pub rx_at :
    Option Buffered → Frame → Can → Option Element → ℕ → List Event → Bool × Can × List Event
unfolding rx_element
rx_at got f c none i evs = (true, c, evs)
rx_at got f c (some e) i evs =
    let r = rx_element got f e in
    (
      true,
      record c {
        pbuf = set c.pbuf i r.element;
        counters = record c.counters { frame = (c.counters.frame + r.errors) % 2 ^ 32 };
      },
      evs ++ r.events,
    )

-- `csp_rx_callback` for a frame that no element matches.
unmatched :
    Option Buffered → Frame → Can → Option ℕ × List Element × List Event → Bool × Can × List Event
unfolding rx_at
unmatched got f c (none, es, evs) = (
  false,
  record c {
    pbuf = es;
    counters = record c.counters { rx_error = (c.counters.rx_error + 1) % 2 ^ 32 };
  },
  evs,
)
unmatched got f c (some i, es, evs) = rx_at got f (record c { pbuf = es }) (get_elem? es i) i evs

-- `csp_rx_callback` behind `pbuf_find`.
bind_frame : ℕ → Option Buffered → Frame → Can → Option ℕ × List Element → Bool × Can × List Event
unfolding rx_at unmatched
bind_frame now got f c (some i, es) = rx_at got f (record c { pbuf = es }) (get_elem? es i) i []
bind_frame now got f c (none, es) =
    if cfp_type f.id == cfp_begin then unmatched got f c (pbuf_new es f.id now) else (
      false,
      record c { counters = record c.counters { frame = (c.counters.frame + 1) % 2 ^ 32 } },
      [],
    )

-- `csp_rx_callback` at time `now`: whether it returns 0, the state and the events.
unfoldable pub rx_callback : ℕ → Option Buffered → Can → Frame → Bool × Can × List Event
unfolding bind_frame
rx_callback now got c f = bind_frame now got f c (pbuf_find c.pbuf f.id cfp_conn_mask now)
