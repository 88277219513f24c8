-- ===== src/Can/Transfer/Arrival.antt =====
-- libCSP/trunk/src/interfaces/csp_if_can.c: from `csp_can_tx` of one node to `csp_rx_callback` of another.
use cubesat_space_protocol.Base.{
  ℕ, zero, suc, ◌+◌, ◌/◌, ◌-◌, ◌%◌, ◌^◌, ◌≤◌, ◌<◌, ◌≡◌, List, [], ◌∷◌, ◌++◌, Option, none, some,
  Bool, ltb, refl, sym, ap, ap₂, ◌∙◌, subst, arith, Bool-cases, inl, inr, ltb→lt, if_cases, length,
}
use cubesat_space_protocol.Header.{Packet}
use cubesat_space_protocol.Can.{
  Frame, Buffered, Element, Can, Event, framed, freed, posted, delivered, overrun, cfp_conn_mask,
}
use cubesat_space_protocol.Can.Pbuf.{
  pbuf_new, pbuf_find, free_packet, is_used, shifted, pbuf_timeout_ms,
}
use cubesat_space_protocol.Can.Pbuf.Unsent.{IsUnsent}
use cubesat_space_protocol.Can.Pbuf.Find.{IsTidy}
use cubesat_space_protocol.Can.Tx.{first_frame, first_bytes, more_frame, next_bytes}
use cubesat_space_protocol.Can.Transfer.{IsSendable}
use cubesat_space_protocol.Can.Transfer.Delivery.{more_frames, all_frames, receive, Delivered}
use cubesat_space_protocol.Can.Transfer.Whole.{all_frames-Delivered}
use cubesat_space_protocol.Can.Transfer.Sent.{framed_all, transmitted, transmitted-all_frames}

-- The frames among the events, each with the time at which it is received; `n` have come before.
abbrev pub timed : (ℕ → ℕ) → ℕ → List Event → List (ℕ × Frame)
timed times n [] = []
timed times n (framed f ∷ evs) = (times n, f) ∷ timed times (suc n) evs
timed times n (freed a ∷ evs) = timed times n evs
timed times n (delivered b ∷ evs) = timed times n evs
timed times n (posted ∷ evs) = timed times n evs
timed times n (overrun ∷ evs) = timed times n evs

-- The frame with the byte `k` is the first, or has eight bytes behind the first two.
abbrev position : ℕ → ℕ
position k = (k + 6) / 8

timed-more_frames :
    (clock times : ℕ → ℕ) (fuel n : ℕ) (p : Packet) (ident k address : ℕ)
    → (k < p.length → n ≡ position k)
    → timed times n (framed_all (more_frames clock fuel p ident k) ++ (freed address ∷ posted ∷ []))
      ≡ more_frames (λ j. times (position j)) fuel p ident k
timed-more_frames clock times zero n p ident k address at = refl
timed-more_frames clock times (suc fuel) n p ident k address at =
    elim (Bool-cases (ltb k p.length)) [
      | inl t ↦
          let lt = ltb→lt k p.length t in
          let now = at lt in
          let rest =
            timed-more_frames clock times fuel (suc n) p ident (k + next_bytes p.length k) address
              (λ lt'. ground (arith, lt, lt', now)) in
          rw t (ap₂ (λ m l. (times m, more_frame p ident k) ∷ l) now rest)
      | inr t ↦ rw t refl
    ]

-- What `pbuf_new` does sends no frame.
abbrev Unframed : Option ℕ × List Element × List Event → Type 0
Unframed (given, es, evs) =
    (times : ℕ → ℕ) (n : ℕ) (rest : List Event) → timed times n (evs ++ rest) ≡ timed times n rest

shifted-Unframed :
    (e : Element) (r : Option ℕ × List Element × List Event) → Unframed r → Unframed (shifted e r)
shifted-Unframed e (none, es, evs) h = h
shifted-Unframed e (some i, es, evs) h = h

free_packet-unframed :
    (p : Option Buffered) (times : ℕ → ℕ) (n : ℕ) (rest : List Event)
    → timed times n (free_packet p ++ rest) ≡ timed times n rest
free_packet-unframed none times n rest = refl
free_packet-unframed (some b) times n rest = refl

pbuf_new-Unframed : (es : List Element) (id now : ℕ) → Unframed (pbuf_new es id now)
unfolding pbuf_new
pbuf_new-Unframed [] id now = λ times n rest. refl
pbuf_new-Unframed (e ∷ es) id now = elim (Bool-cases (is_used e.state)) [
  | inl u ↦ rw u (
      if_cases Unframed (ltb pbuf_timeout_ms ((now + 2 ^ 32 - e.last_used) % 2 ^ 32)) _ _
        (λ t. free_packet-unframed e.packet)
        (λ t. shifted-Unframed e (pbuf_new es id now) (pbuf_new-Unframed es id now)))
  | inr u ↦ rw u (λ times n rest. refl)
]

-- The frames that a node sends are the frames of the packet.
timed-transmitted :
    (clock times : ℕ → ℕ) (now i : ℕ) (woken : Bool) (c : Can) (b : Buffered)
    → IsSendable b.packet
    → c.cfp_id < 1024
    → IsTidy c.pbuf
    → IsUnsent c.pbuf
    → (pbuf_find c.pbuf (first_frame b.packet c.cfp_id).id cfp_conn_mask now).0 ≡ none
    → (pbuf_new c.pbuf (first_frame b.packet c.cfp_id).id now).0 ≡ some i
    → timed times 0 (transmitted clock now woken c b).2
      ≡ all_frames (λ k. times (position k)) b.packet c.cfp_id
timed-transmitted clock times now i woken c b v small tidy unsent absent given =
    let p = b.packet in
    let f = first_frame p c.cfp_id in
    ap (λ (r : Bool × Can × List Event). timed times 0 r.2)
      (transmitted-all_frames clock clock now i woken c b v small tidy unsent absent given)
    ∙ pbuf_new-Unframed c.pbuf f.id now times 0 _
    ∙ ap (λ l. (times 0, f) ∷ l)
        (timed-more_frames clock times p.length 1 p c.cfp_id (first_bytes p.length) b.address
          (λ lt. ground (arith, lt)))

-- A packet sent arrives: where `csp_can_tx` sends a packet as in `transmitted-all_frames`, and another
-- node takes the frames in the order in which they were sent, each at any time, while no element of
-- its own is in use for them, one can be had, and a buffer as long as the packet is there, that node
-- hands on one packet, in that buffer, with the identifier, the length and the data of the packet
-- sent, and nothing else but a packet that timed out is freed; the element is free again, and no error
-- is counted.
pub transmitted-Delivered :
    (clock times : ℕ → ℕ) (now i j : ℕ) (woken : Bool) (c : Can) (b : Buffered) (receiver : Can)
    (area : Buffered)
    → IsSendable b.packet
    → c.cfp_id < 1024
    → IsTidy c.pbuf
    → IsUnsent c.pbuf
    → let id = (first_frame b.packet c.cfp_id).id in
      (pbuf_find c.pbuf id cfp_conn_mask now).0 ≡ none
      → (pbuf_new c.pbuf id now).0 ≡ some i
      → b.packet.length ≤ length area.packet.contents
      → receiver.counters.frame < 2 ^ 32
      → IsTidy receiver.pbuf
      → (pbuf_find receiver.pbuf id cfp_conn_mask (times 0)).0 ≡ none
      → (pbuf_new receiver.pbuf id (times 0)).0 ≡ some j
      → Delivered b.packet area.address
          (length area.packet.contents)
          receiver.pbuf
          j
          receiver
          ((pbuf_new receiver.pbuf id (times 0)).2)
          (receive (some area) receiver (timed times 0 (transmitted clock now woken c b).2))
transmitted-Delivered clock times now i j woken c b receiver area v small tidy unsent absent given
      room counted tidy' absent' given' =
    subst
      (λ fs.
        Delivered b.packet area.address (length area.packet.contents) receiver.pbuf j receiver
          ((pbuf_new receiver.pbuf (first_frame b.packet c.cfp_id).id (times 0)).2)
          (receive (some area) receiver fs))
      (sym (timed-transmitted clock times now i woken c b v small tidy unsent absent given))
      (all_frames-Delivered (λ k. times (position k)) b.packet c.cfp_id j area receiver v small room
        counted tidy' absent' given')
