-- ===== src/Can/Rx/Found.antt =====
-- libCSP/trunk/src/interfaces/csp_if_can.c: `csp_rx_callback` where the packet buffer is known.
use cubesat_space_protocol.Base.{
  ℕ, ◌+◌, ◌%◌, ◌^◌, ◌<◌, ◌≡◌, List, [], ◌++◌, Option, none, some, true, get_elem?, set, bit_and, ap,
  ◌∙◌, arith,
}
use cubesat_space_protocol.Can.{Frame, Buffered, Element, Can, Event, cfp_conn_mask, cfp_type}
use cubesat_space_protocol.Can.Pbuf.{pbuf_find, pbuf_new}
use cubesat_space_protocol.Can.Pbuf.Find.{
  FoundAt, pbuf_find-FoundAt, get-FoundAt, pbuf_find-none, set-twice,
}
use cubesat_space_protocol.Can.Rx.{rx_element, rx_at, rx_callback, bind_frame, unmatched}

-- The state with element `i` as the switch leaves it, where no error is counted.
rx_at-element :
    (got : Option Buffered) (f : Frame) (c : Can) (e : Element) (i : ℕ) (evs : List Event)
    → c.counters.frame < 2 ^ 32
    → (rx_element got f e).errors ≡ 0
    → rx_at got f c (some e) i evs ≡ (
      true,
      record c { pbuf = set c.pbuf i (rx_element got f e).element },
      evs ++ (rx_element got f e).events,
    )
unfolding rx_at
rx_at-element got f c e i evs h no_error =
    let r = rx_element got f e in
    let same : (c.counters.frame + r.errors) % 2 ^ 32 ≡ c.counters.frame =
      omega (arith, h, no_error) in
    ap
      (λ n. (
        true,
        record c { pbuf = set c.pbuf i r.element; counters = record c.counters { frame = n } },
        evs ++ r.events,
      ))
      same

-- A frame that agrees with element `i`.
pub rx_callback-FoundAt :
    (now : ℕ) (got : Option Buffered) (c : Can) (f : Frame) (i : ℕ) (e : Element)
    → FoundAt (bit_and f.id cfp_conn_mask) c.pbuf i e
    → c.counters.frame < 2 ^ 32
    → let r = rx_element got f (record e { last_used = now }) in
      r.errors ≡ 0
      → rx_callback now got c f ≡ (true, record c { pbuf = set c.pbuf i r.element }, r.events)
unfolding rx_callback bind_frame
rx_callback-FoundAt now got c f i e found small no_error =
    let e' : Element = record e { last_used = now } in
    let es : List Element = set c.pbuf i e' in
    ap (bind_frame now got f c) (pbuf_find-FoundAt f.id now found)
    ∙ ap (λ o. rx_at got f (record c { pbuf = es }) o i []) (get-FoundAt e' found)
    ∙ rx_at-element got f (record c { pbuf = es }) e' i [] small no_error
    ∙ ap (λ l. (true, record c { pbuf = l }, (rx_element got f e').events))
        (set-twice c.pbuf i e' (rx_element got f e').element)

-- The first frame of a packet that no element agrees with, where `pbuf_new` gives element `i`.
pub rx_callback-new :
    (now : ℕ) (got : Option Buffered) (c : Can) (f : Frame) (i : ℕ) (e : Element) (evs : List Event)
    → (es : List Element) → (pbuf_find c.pbuf f.id cfp_conn_mask now).0 ≡ none
    → cfp_type f.id ≡ 0
    → pbuf_new c.pbuf f.id now ≡ (some i, set es i e, evs)
    → get_elem? (set es i e) i ≡ some e
    → c.counters.frame < 2 ^ 32
    → let r = rx_element got f e in
      r.errors ≡ 0
      → rx_callback now got c f ≡ (true, record c { pbuf = set es i r.element }, evs ++ r.events)
unfolding rx_callback bind_frame unmatched
rx_callback-new now got c f i e evs es lost first new at small no_error =
    ap (bind_frame now got f c) (pbuf_find-none c.pbuf f.id now lost)
    ∙ rw (first) (ap (unmatched got f c) new)
    ∙ ap (λ o. rx_at got f (record c { pbuf = set es i e }) o i evs) at
    ∙ rx_at-element got f (record c { pbuf = set es i e }) e i evs small no_error
    ∙ ap (λ l. (true, record c { pbuf = l }, evs ++ (rx_element got f e).events))
        (set-twice es i e (rx_element got f e).element)
