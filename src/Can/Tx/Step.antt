-- ===== src/Can/Tx/Step.antt =====
-- libCSP/trunk/src/interfaces/csp_if_can.c: one call of `csp_can_tx` with an element for the packet,
-- and one of `csp_tx_callback` for a frame that has been sent.
use cubesat_space_protocol.Base.{
  ℕ, ◌+◌, ◌-◌, ◌%◌, ◌^◌, ◌≤◌, ◌<◌, ◌≡◌, List, [], ◌∷◌, some, Bool, true, false, set, get_elem?,
  bit_and, ltb-true, ltb-false, refl, ap, ap₂, ◌∙◌, ◌++◌,
}
use cubesat_space_protocol.Can.{
  Buffered, Element, Can, Event, framed, freed, posted, cfp_ident, cfp_conn_mask, cfp_id_size,
}
use cubesat_space_protocol.Can.Pbuf.{pbuf_new, id_get, free_element, free_packet}
use cubesat_space_protocol.Can.Pbuf.Find.{FoundAt, pbuf_find-FoundAt, get-FoundAt, set-twice}
use cubesat_space_protocol.Can.Tx.{
  first_frame, first_bytes, more_frame, next_bytes, tx_begin, tx_packet, tx_at, tx_found,
  tx_callback, can_tx,
}

-- An element that is found, with a packet.
at_element :
    (now canid i : ℕ) (c : Can) (e : Element)
    → FoundAt (bit_and canid cfp_conn_mask) c.pbuf i e
    → let e' : Element = record e { last_used = now } in
      tx_callback now true true c canid
      ≡ tx_packet canid true true (record c { pbuf = set c.pbuf i e' }) i e' e.packet
unfolding tx_callback
at_element now canid i c e found =
    let e' : Element = record e { last_used = now } in
    ap (tx_found canid true true c) (pbuf_find-FoundAt canid now found)
    ∙ ap (tx_at canid true true (record c { pbuf = set c.pbuf i e' }) i) (get-FoundAt e' found)

-- What goes on: the next frame.
pub tx_callback-more :
    (now canid i : ℕ) (c : Can) (e : Element) (b : Buffered)
    → FoundAt (bit_and canid cfp_conn_mask) c.pbuf i e
    → e.packet ≡ some b
    → e.tx_count < b.packet.length
    → let e' : Element = record e {
      last_used = now;
      tx_count = (e.tx_count + next_bytes b.packet.length e.tx_count) % 2 ^ 16;
    } in
      tx_callback now true true c canid ≡ (
        true,
        record c { pbuf = set c.pbuf i e' },
        framed (more_frame b.packet (cfp_ident canid) e.tx_count) ∷ [],
      )
unfolding tx_packet
tx_callback-more now canid i c e b found has_b lt =
    let e' : Element = record e { last_used = now } in
    let c' : Can = record c { pbuf = set c.pbuf i e' } in
    let e'' : Element = record e {
      last_used = now;
      tx_count = (e.tx_count + next_bytes b.packet.length e.tx_count) % 2 ^ 16;
    } in
    let f = framed (more_frame b.packet (cfp_ident canid) e.tx_count) in
    at_element now canid i c e found
    ∙ ap (tx_packet canid true true c' i e') has_b
    ∙ rw (ltb-true e.tx_count b.packet.length lt)
        (ap (λ es. (true, record c { pbuf = es }, f ∷ [])) (set-twice c.pbuf i e' e''))

-- The end: the packet goes back to the pool, and the one that waits is told.
pub tx_callback-last :
    (now canid i : ℕ) (c : Can) (e : Element) (b : Buffered)
    → FoundAt (bit_and canid cfp_conn_mask) c.pbuf i e
    → e.packet ≡ some b
    → b.packet.length ≤ e.tx_count
    → tx_callback now true true c canid
      ≡ (true, record c { pbuf = set c.pbuf i free_element }, freed b.address ∷ posted ∷ [])
unfolding tx_packet
tx_callback-last now canid i c e b found has_b h =
    let e' : Element = record e { last_used = now } in
    let c' : Can = record c { pbuf = set c.pbuf i e' } in
    at_element now canid i c e found
    ∙ ap (tx_packet canid true true c' i e') has_b
    ∙ rw (ltb-false e.tx_count b.packet.length h) (
        ap₂ (λ es p. (true, record c { pbuf = es }, free_packet p ++ (posted ∷ [])))
          (set-twice c.pbuf i e' free_element) has_b)

-- A caller that does not wait: the first frame, and the element has the packet.
pub can_tx-first :
    (now i : ℕ) (woken : Bool) (c : Can) (b : Buffered) (e : Element) (es : List Element)
    (evs : List Event)
    → pbuf_new c.pbuf (first_frame b.packet c.cfp_id).id now ≡ (some i, es, evs)
    → get_elem? es i ≡ some e
    → let e' : Element = record e {
      packet = some b;
      tx_count = (e.tx_count + first_bytes b.packet.length) % 2 ^ 16;
    } in
      can_tx now true true false woken c b ≡ (
        true,
        record c { pbuf = set es i e'; cfp_id = bit_and (c.cfp_id + 1) (2 ^ cfp_id_size - 1) },
        evs ++ (framed (first_frame b.packet c.cfp_id) ∷ []),
      )
unfolding can_tx id_get
can_tx-first now i woken c b e es evs given at =
    let cfp_id = bit_and (c.cfp_id + 1) (2 ^ cfp_id_size - 1) in
    ap (tx_begin c.cfp_id true false woken (record c { cfp_id = cfp_id }) b) given ∙ rw at refl
