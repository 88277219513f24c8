-- ===== src/Can/Transfer/Whole.antt =====
-- libCSP/trunk/src/interfaces/csp_if_can.c: all the frames of a packet, from the first to the last.
use cubesat_space_protocol.Base.{
  ℕ, zero, suc, ◌+◌, ◌-◌, ◌*◌, ◌^◌, ◌≤◌, ◌<◌, ◌≡◌, List, [], ◌∷◌, Option, none, some, set, length,
  bit_and, ltb-true, ltb-false, refl, sym, subst, arith,
}
use mathlib.Core.Option.{some-injective}
use cubesat_space_protocol.Header.{Packet}
use cubesat_space_protocol.Can.{Buffered, Element, Can, Event, cfp_conn_mask}
use cubesat_space_protocol.Can.Ident.{masked_lem}
use cubesat_space_protocol.Can.Pbuf.{pbuf_find, pbuf_new, taken}
use cubesat_space_protocol.Can.Pbuf.Find.{
  FoundAt, set-FoundAt, elem-FoundAt, agrees-FoundAt, set-twice, IsTidy, Given, no_element, element,
  pbuf_new-Given,
}
use cubesat_space_protocol.Can.Tx.{first_frame, first_bytes, more_frame, next_bytes}
use cubesat_space_protocol.Can.Rx.{rx_element}
use cubesat_space_protocol.Can.Rx.Found.{rx_callback-FoundAt, rx_callback-new}
use cubesat_space_protocol.Can.Transfer.Delivery.{
  more_frames, all_frames, receive, Delivered, Progress-Delivered, settled-Delivered,
  next_bytes_pos,
}
use cubesat_space_protocol.Can.Transfer.{
  IsSendable, Waits, frames_left, first-IsIdent, more-IsIdent, more_frame-Progress,
  first_frame-Progress, first_fields,
}

more_frames-end :
    (clock : ℕ → ℕ) (fuel : ℕ) (p : Packet) (ident k : ℕ)
    → p.length ≤ k
    → more_frames clock fuel p ident k ≡ []
more_frames-end clock zero p ident k h = refl
more_frames-end clock (suc fuel) p ident k h = rw (ltb-false k p.length h) refl

more_frame-masked :
    {p : Packet} {ident : ℕ} (k : ℕ)
    → IsSendable p
    → ident < 1024
    → bit_and (more_frame p ident k).id cfp_conn_mask
      ≡ p.id.src * 2 ^ 24 + p.id.dst * 2 ^ 19 + ident
unfolding more_frame
more_frame-masked k v h = masked_lem (more-IsIdent k v h)

first_frame-masked :
    {p : Packet} {ident : ℕ}
    → IsSendable p
    → ident < 1024
    → bit_and (first_frame p ident).id cfp_conn_mask ≡ p.id.src * 2 ^ 24 + p.id.dst * 2 ^ 19 + ident
unfolding first_frame
first_frame-masked v h = masked_lem (first-IsIdent v h)

-- The frames that follow the first `k` bytes, for an element that waits for them.
more_frames-Delivered :
    (clock : ℕ → ℕ) (fuel : ℕ) (p : Packet) (ident address size k i : ℕ) (got : Option Buffered)
    (c : Can) (e : Element)
    → IsSendable p
    → ident < 1024
    → p.length ≤ size
    → c.counters.frame < 2 ^ 32
    → k < p.length
    → p.length - k ≤ fuel
    → FoundAt (p.id.src * 2 ^ 24 + p.id.dst * 2 ^ 19 + ident) c.pbuf i e
    → Waits p address size k e
    → Delivered p address size c.pbuf i c [] (receive got c (more_frames clock fuel p ident k))
more_frames-Delivered clock zero p ident address size k i got c e v h room small lt enough found
      waits =
    absurd (omega arith)
more_frames-Delivered clock (suc fuel) p ident address size k i got c e v h room small lt enough
      found waits =
    let f = more_frame p ident k in
    let k' = k + next_bytes p.length k in
    let e1 : Element = record e { last_used = clock k } in
    let r = rx_element got f e1 in
    let fs = more_frames clock fuel p ident k' in
    let progress = more_frame-Progress p ident address size k got e1 v h room lt waits in
    let found' : FoundAt (bit_and f.id cfp_conn_mask) c.pbuf i e =
      subst (λ key. FoundAt key c.pbuf i e) (sym (more_frame-masked k v h)) found in
    rw (ltb-true k p.length lt) (
      Progress-Delivered p address size k' (frames_left p.length k') (clock k) i got f fs c c.pbuf
        e1 [] r (rx_callback-FoundAt (clock k) got c f i e found' small (progress.0)) progress
        (more_frames-end clock fuel p ident k')
        (λ b lt' holds.
          let e' : Element = record e1 {
            remain = frames_left p.length k';
            packet = some b;
            rx_count = k';
          } in
          settled-Delivered p address size i c c.pbuf e' _ (
            more_frames-Delivered clock fuel p ident address size k' i got
              (record c { pbuf = set c.pbuf i e' }) e' v h room small lt'
              (omega (arith, next_bytes_pos p.length k lt, enough))
              (set-FoundAt e' (agrees-FoundAt found) found) (refl, refl, (b, refl, holds)))))

-- All frames, where `pbuf_new` gives an element.
Given-Delivered :
    (clock : ℕ → ℕ) (p : Packet) (ident i : ℕ) (b : Buffered) (c : Can)
    (new : Option ℕ × List Element × List Event)
    → IsSendable p
    → ident < 1024
    → p.length ≤ length b.packet.contents
    → c.counters.frame < 2 ^ 32
    → (pbuf_find c.pbuf (first_frame p ident).id cfp_conn_mask (clock 0)).0 ≡ none
    → Given (first_frame p ident).id (clock 0) c.pbuf new
    → pbuf_new c.pbuf (first_frame p ident).id (clock 0) ≡ new
    → new.0 ≡ some i
    → Delivered p b.address
        (length b.packet.contents)
        c.pbuf
        i
        c
        (new.2)
        (receive (some b) c (all_frames clock p ident))
Given-Delivered clock p ident i b c _ v h room small lost no_element new is_i =
    absurd (ground (arith, is_i))
Given-Delivered clock p ident i b c _ v h room small lost (element j e0 {evs = evs} empty found) new
      is_i =
    let f = first_frame p ident in
    let k = first_bytes p.length in
    let size = length b.packet.contents in
    let e : Element = taken f.id (clock 0) e0 in
    let progress = first_frame-Progress p ident b e v h room empty in
    let fs = more_frames clock p.length p ident k in
    let found' = subst (λ key. FoundAt key (set c.pbuf j e) j e) (first_frame-masked v h) found in
    subst (λ n. Delivered p b.address size c.pbuf n c evs (receive (some b) c ((clock 0, f) ∷ fs)))
      (some-injective _ _ is_i)
      (Progress-Delivered p b.address size k (frames_left p.length k) (clock 0) j (some b) f fs c
        c.pbuf e evs (rx_element (some b) f e)
        (rx_callback-new (clock 0) (some b) c f j e evs c.pbuf lost (first_fields v h).0 new
          (elem-FoundAt found) small (progress.0))
        progress (more_frames-end clock p.length p ident k)
        (λ b' lt holds.
          let e' : Element = record e {
            remain = frames_left p.length k;
            packet = some b';
            rx_count = k;
          } in
          settled-Delivered p b.address size j c c.pbuf e' _ (
            more_frames-Delivered clock p.length p ident b.address size k j (some b)
              (record c { pbuf = set c.pbuf j e' }) e' v h room small lt (omega arith)
              (subst (λ es. FoundAt (p.id.src * 2 ^ 24 + p.id.dst * 2 ^ 19 + ident) es j e')
                (set-twice c.pbuf j e e') (set-FoundAt e' (agrees-FoundAt found') found'))
              (refl, refl, (b', refl, holds)))))

-- The frames of a packet that fits the receiver's buffer, received in order and each at any time, where no element is in use for them, one can be had, and a buffer is there: the receiver hands on one packet, in that buffer, with the identifier, the length and the data of the packet sent, and nothing else but a packet that timed out is freed; the element is free again, and no error is counted.
pub all_frames-Delivered :
    (clock : ℕ → ℕ) (p : Packet) (ident i : ℕ) (b : Buffered) (c : Can)
    → IsSendable p
    → ident < 1024
    → p.length ≤ length b.packet.contents
    → c.counters.frame < 2 ^ 32
    → IsTidy c.pbuf
    → (pbuf_find c.pbuf (first_frame p ident).id cfp_conn_mask (clock 0)).0 ≡ none
    → (pbuf_new c.pbuf (first_frame p ident).id (clock 0)).0 ≡ some i
    → Delivered p b.address
        (length b.packet.contents)
        c.pbuf
        i
        c
        ((pbuf_new c.pbuf (first_frame p ident).id (clock 0)).2)
        (receive (some b) c (all_frames clock p ident))
all_frames-Delivered clock p ident i b c v h room small tidy lost new =
    let id = (first_frame p ident).id in
    Given-Delivered clock p ident i b c (pbuf_new c.pbuf id (clock 0)) v h room small lost
      (pbuf_new-Given c.pbuf id (clock 0) tidy lost) refl new
