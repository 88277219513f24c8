-- ===== src/Can/Transfer/Sent.antt =====
-- libCSP/trunk/src/interfaces/csp_if_can.c: the frames that `csp_can_tx` and the calls of
-- `csp_tx_callback` behind it send. The driver calls it with the identifier of each frame that it has
-- sent, at any time.
use cubesat_space_protocol.Base.{
  ℕ, zero, suc, ◌+◌, ◌-◌, ◌*◌, ◌%◌, ◌^◌, ◌≤◌, ◌<◌, ◌≡◌, List, [], ◌∷◌, ◌++◌, append_assoc, Option,
  none, some, Bool, true, set, bit_and, ltb, refl, sym, ap, ap₂, ◌∙◌, subst, arith, Bool-cases, inl,
  inr, ltb→lt, false,
}
use mathlib.Core.Option.{some-injective}
use cubesat_space_protocol.Header.{Packet}
use cubesat_space_protocol.Can.{
  Frame, Buffered, Element, Can, Event, framed, freed, posted, cfp_ident, cfp_conn_mask,
  cfp_id_size,
}
use cubesat_space_protocol.Can.Ident.{masked_lem, can_id-fields}
use cubesat_space_protocol.Can.Pbuf.{pbuf_new, pbuf_find, taken, free_element}
use cubesat_space_protocol.Can.Pbuf.Find.{
  FoundAt, set-FoundAt, elem-FoundAt, agrees-FoundAt, set-twice, IsTidy, Given, no_element, element,
  pbuf_new-Given,
}
use cubesat_space_protocol.Can.Pbuf.Unsent.{IsUnsent, Unsent, pbuf_new-Unsent}
use cubesat_space_protocol.Can.Tx.{
  first_frame, first_bytes, more_frame, next_bytes, tx_callback, can_tx,
}
use cubesat_space_protocol.Can.Tx.Step.{can_tx-first, tx_callback-more, tx_callback-last}
use cubesat_space_protocol.Can.Transfer.Delivery.{more_frames, all_frames, next_bytes_pos}
use cubesat_space_protocol.Can.Transfer.{
  IsSendable, first-IsIdent, more-IsIdent, next_bytes-left, first_bytes-left,
}

-- The events of a call that has sent a frame, with what follows on it.
abbrev followed : (Can → ℕ → Can × List Event) → Bool × Can × List Event → Can × List Event
followed again (ok, c, []) = (c, [])
followed again (ok, c, framed f ∷ evs) = let r = again c f.id in (r.0, framed f ∷ evs ++ r.1)
followed again (ok, c, ev ∷ evs) = (c, ev ∷ evs)

-- The calls of `csp_tx_callback` behind a frame with identifier `canid`, as long as frames are sent;
-- every frame is sent without an error.
pub callbacks : (ℕ → ℕ) → ℕ → Can → ℕ → Can × List Event
callbacks clock zero c canid = (c, [])
callbacks clock (suc n) c canid =
    followed (callbacks clock n) (tx_callback (clock n) true true c canid)

abbrev pub framed_all : List (ℕ × Frame) → List Event
framed_all [] = []
framed_all ((now, f) ∷ fs) = framed f ∷ framed_all fs

-- The fields of a frame that the callback looks at.
more_frame-key :
    {p : Packet} {ident : ℕ} (k : ℕ)
    → IsSendable p
    → ident < 1024
    → (bit_and (more_frame p ident k).id cfp_conn_mask
        ≡ p.id.src * 2 ^ 24 + p.id.dst * 2 ^ 19 + ident)
      × (cfp_ident (more_frame p ident k).id ≡ ident)
unfolding more_frame
more_frame-key k v h =
    let (_, _, ident, _, _) = can_id-fields (more-IsIdent k v h) in
    (masked_lem (more-IsIdent k v h), ident)

first_frame-key :
    {p : Packet} {ident : ℕ}
    → IsSendable p
    → ident < 1024
    → (bit_and (first_frame p ident).id cfp_conn_mask
        ≡ p.id.src * 2 ^ 24 + p.id.dst * 2 ^ 19 + ident)
      × (cfp_ident (first_frame p ident).id ≡ ident)
unfolding first_frame
first_frame-key v h =
    let (_, _, ident, _, _) = can_id-fields (first-IsIdent v h) in
    (masked_lem (first-IsIdent v h), ident)

-- Behind the first bytes, of which the element says how many have been sent.
callbacks-frames :
    (clock clock' : ℕ → ℕ) (fuel : ℕ) (b : Buffered) (ident canid i : ℕ) (c : Can) (e : Element)
    → IsSendable b.packet
    → ident < 1024
    → bit_and canid cfp_conn_mask ≡ b.packet.id.src * 2 ^ 24 + b.packet.id.dst * 2 ^ 19 + ident
    → cfp_ident canid ≡ ident
    → FoundAt (b.packet.id.src * 2 ^ 24 + b.packet.id.dst * 2 ^ 19 + ident) c.pbuf i e
    → e.packet ≡ some b
    → e.tx_count ≤ b.packet.length
    → b.packet.length - e.tx_count ≤ fuel
    → callbacks clock (suc fuel) c canid ≡ (
      record c { pbuf = set c.pbuf i free_element },
      framed_all (more_frames clock' fuel b.packet ident e.tx_count)
          ++ (freed b.address ∷ posted ∷ []),
    )
unfolding callbacks
callbacks-frames clock clock' zero b ident canid i c e v small key named found has_b within enough =
    ap (followed (callbacks clock 0)) (
      tx_callback-last (clock 0) canid i c e b (subst (λ w. FoundAt w c.pbuf i e) (sym key) found)
        has_b (omega (arith, enough, within)))
callbacks-frames clock clock' (suc n) b ident canid i c e v small key named found has_b within
      enough =
    elim (Bool-cases (ltb e.tx_count b.packet.length)) [
      | inl t ↦
          let k = e.tx_count in
          let lt = ltb→lt k b.packet.length t in
          let k' = k + next_bytes b.packet.length k in
          let f = more_frame b.packet ident k in
          let e' : Element = record e { last_used = clock (suc n); tx_count = k' % 2 ^ 16 } in
          let c' : Can = record c { pbuf = set c.pbuf i e' } in
          let fits : k' ≤ b.packet.length = (next_bytes-left b.packet.length k lt).2 in
          let count : k' % 2 ^ 16 ≡ k' = omega (arith, fits, v.within_mtu) in
          let (key', named') = more_frame-key k v small in
          let rest =
            callbacks-frames clock clock' n b ident f.id i c' e' v small key' named'
              (set-FoundAt e' (agrees-FoundAt found) found) has_b (omega (arith, fits, count))
              (omega (arith, next_bytes_pos b.packet.length k lt, enough, count)) in
          let more =
            tx_callback-more (clock (suc n)) canid i c e b
              (subst (λ w. FoundAt w c.pbuf i e) (sym key) found) has_b lt
            ∙ ap (λ (w : ℕ). (true, c', framed (more_frame b.packet w k) ∷ [])) named in
          rw t (
            ap (followed (callbacks clock (suc n))) more
            ∙ ap (λ (r : Can × List Event). (r.0, framed f ∷ r.1)) rest
            ∙ ap₂
                (λ es j. (
                  record c { pbuf = es },
                  framed f
                      ∷ (framed_all (more_frames clock' n b.packet ident j)
                          ++ (freed b.address ∷ posted ∷ [])),
                ))
                (set-twice c.pbuf i e' free_element) count)
      | inr t ↦ rw t (
          ap (followed (callbacks clock (suc n))) (
            tx_callback-last (clock (suc n)) canid i c e b
              (subst (λ w. FoundAt w c.pbuf i e) (sym key) found) has_b (ground (arith, t))))
    ]

-- `csp_can_tx` at time `now`, for a caller that does not wait, and then the calls of `csp_tx_callback`:
-- whether it returns 1, what is left, and what has happened.
pub transmitted : (ℕ → ℕ) → ℕ → Bool → Can → Buffered → Bool × Can × List Event
transmitted clock now woken c b =
    let r = can_tx now true true false woken c b in
    let rest = callbacks clock (suc b.packet.length) r.1 (first_frame b.packet c.cfp_id).id in
    (r.0, rest.0, r.2 ++ rest.1)

from_element :
    (clock clock' : ℕ → ℕ) (now i : ℕ) (woken : Bool) (c : Can) (b : Buffered)
    (r : Option ℕ × List Element × List Event)
    → IsSendable b.packet
    → c.cfp_id < 1024
    → pbuf_new c.pbuf (first_frame b.packet c.cfp_id).id now ≡ r
    → Given (first_frame b.packet c.cfp_id).id now c.pbuf r
    → Unsent r
    → r.0 ≡ some i
    → transmitted clock now woken c b ≡ (
      true,
      record c {
        pbuf = set r.1 i free_element;
        cfp_id = bit_and (c.cfp_id + 1) (2 ^ cfp_id_size - 1);
      },
      r.2 ++ (framed_all (all_frames clock' b.packet c.cfp_id) ++ (freed b.address ∷ posted ∷ [])),
    )
unfolding transmitted
from_element clock clock' now i woken c b _ v small given no_element unsent is_i =
    absurd (ground (arith, is_i))
from_element clock clock' now i woken c b _ v small given (element i' e {evs} empty found) unsent
      is_i =
    let p = b.packet in
    let f = first_frame p c.cfp_id in
    let t = taken f.id now e in
    let es = set c.pbuf i' t in
    let e' : Element = record t {
      packet = some b;
      tx_count = (e.tx_count + first_bytes p.length) % 2 ^ 16;
    } in
    let c' : Can = record c {
      pbuf = set es i' e';
      cfp_id = bit_and (c.cfp_id + 1) (2 ^ cfp_id_size - 1);
    } in
    let unset : e.tx_count ≡ 0 = unsent t (elem-FoundAt found) in
    let fits = (first_bytes-left p.length).1 in
    let count : (e.tx_count + first_bytes p.length) % 2 ^ 16 ≡ first_bytes p.length =
      omega (arith, unset, fits, v.within_mtu) in
    let (key, named) = first_frame-key v small in
    let ends : List Event = freed b.address ∷ posted ∷ [] in
    let rest =
      callbacks-frames clock clock' p.length b c.cfp_id f.id i' c' e' v small key named
        (subst (λ w. FoundAt w (set es i' e') i' e') key
          (set-FoundAt e' (agrees-FoundAt found) found))
        refl (omega (arith, count, fits)) (omega arith) in
    ap
      (λ (r : Bool × Can × List Event).
        let s = callbacks clock (suc p.length) r.1 f.id in (r.0, s.0, r.2 ++ s.1))
      (can_tx-first now i' woken c b t es evs given (elem-FoundAt found))
    ∙ ap (λ (s : Can × List Event). (true, s.0, (evs ++ (framed f ∷ [])) ++ s.1)) rest
    ∙ ap₂
        (λ l k. (
          true,
          record c' { pbuf = l },
          (evs ++ (framed f ∷ []))
              ++ (framed_all (more_frames clock' p.length p c.cfp_id k) ++ ends),
        ))
        (set-twice es i' e' free_element) count
    ∙ ap₂ (λ j l. (true, record c' { pbuf = set es j free_element }, l)) (some-injective _ _ is_i)
        (append_assoc evs (framed f ∷ [])
          (framed_all (more_frames clock' p.length p c.cfp_id (first_bytes p.length)) ++ ends))

-- A packet is sent in frames: a caller of `csp_can_tx` that does not wait, with a packet of at most
-- CSP_CAN_MTU bytes that are there and identifier fields within their widths, where the driver takes
-- each frame, no element is in use for the identifier and `pbuf_new` gives out one, gets 1. Then the
-- frames sent, in `csp_can_tx` and in the driver's calls of `csp_tx_callback`, are the first frame and
-- each of the others once and in order; behind the last one the packet is freed and the element is
-- free again. Elements that are not in use have no packet and no count of bytes sent, as `pbuf_init`
-- and `pbuf_free` leave them.
pub transmitted-all_frames :
    (clock clock' : ℕ → ℕ) (now i : ℕ) (woken : Bool) (c : Can) (b : Buffered)
    → IsSendable b.packet
    → c.cfp_id < 1024
    → IsTidy c.pbuf
    → IsUnsent c.pbuf
    → (pbuf_find c.pbuf (first_frame b.packet c.cfp_id).id cfp_conn_mask now).0 ≡ none
    → (pbuf_new c.pbuf (first_frame b.packet c.cfp_id).id now).0 ≡ some i
    → let (_, es, evs) = pbuf_new c.pbuf (first_frame b.packet c.cfp_id).id now in
      transmitted clock now woken c b ≡ (
        true,
        record c {
          pbuf = set es i free_element;
          cfp_id = bit_and (c.cfp_id + 1) (2 ^ cfp_id_size - 1);
        },
        evs
            ++ (framed_all (all_frames clock' b.packet c.cfp_id)
                ++ (freed b.address ∷ posted ∷ [])),
      )
transmitted-all_frames clock clock' now i woken c b v small tidy unsent absent given =
    let id = (first_frame b.packet c.cfp_id).id in
    from_element clock clock' now i woken c b (pbuf_new c.pbuf id now) v small refl
      (pbuf_new-Given c.pbuf id now tidy absent) (pbuf_new-Unsent c.pbuf id now unsent) given
