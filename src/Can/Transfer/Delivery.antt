-- ===== src/Can/Transfer/Delivery.antt =====
-- libCSP/trunk/src/interfaces/csp_if_can.c: frames received one after the other, and
-- what delivers a packet.
use cubesat_space_protocol.Base.{
  ℕ, zero, suc, ◌+◌, ◌≤◌, ◌<◌, ◌≡◌, inl, inr, List, [], ◌∷◌, ◌++◌, Option, some, Bool, true, set,
  append-nil, length, ltb, if◌then◌else◌, ap, ap₂, subst, ◌∙◌, arith,
}
use cubesat_space_protocol.Header.{Packet}
use cubesat_space_protocol.Can.{Frame, Buffered, Element, Can, Event, delivered}
use cubesat_space_protocol.Can.Pbuf.{free_element}
use cubesat_space_protocol.Can.Pbuf.Find.{set-twice}
use cubesat_space_protocol.Can.Tx.{first_frame, first_bytes, more_frame, next_bytes}
use cubesat_space_protocol.Can.Rx.{Received, rx_callback}
use cubesat_space_protocol.Can.Rx.Step.{Holds, Progress}

-- The frames behind the first `k` bytes, each with the time at which it is received.
abbrev pub more_frames : (ℕ → ℕ) → ℕ → Packet → ℕ → ℕ → List (ℕ × Frame)
more_frames clock zero p ident k = []
more_frames clock (suc fuel) p ident k =
    let rest = more_frames clock fuel p ident (k + next_bytes p.length k) in
    if ltb k p.length then (clock k, more_frame p ident k) ∷ rest else []

-- All frames of a packet: one at least, and at most one for each byte behind it.
abbrev pub all_frames : (ℕ → ℕ) → Packet → ℕ → List (ℕ × Frame)
all_frames clock p ident =
    (clock 0, first_frame p ident) ∷ more_frames clock p.length p ident (first_bytes p.length)

-- The receiver on frames, one after the other.
abbrev pub receive : Option Buffered → Can → List (ℕ × Frame) → Can × List Event
receive got c [] = (c, [])
receive got c ((now, f) ∷ fs) =
    let r = rx_callback now got c f in let rest = receive got (r.1) fs in (rest.0, r.2 ++ rest.1)

-- The receiver has handed on one packet, the one sent, and element `i` is free again.
abbrev pub Delivered :
    Packet → ℕ → ℕ → List Element → ℕ → Can → List Event → Can × List Event → Type 0
Delivered p address size es i c evs r =
    (b : Buffered) × (r ≡ (record c { pbuf = set es i free_element }, evs ++ (delivered b ∷ [])))
    × Holds p address size p.length b

-- The frame behind which packet and element are as `Progress` says.
pub Progress-Delivered :
    (p : Packet) (address size k remain now i : ℕ) (got : Option Buffered) (f : Frame)
    (fs : List (ℕ × Frame)) (c : Can) (es : List Element) (e : Element) (evs : List Event)
    (r : Received)
    → rx_callback now got c f ≡ (true, record c { pbuf = set es i r.element }, evs ++ r.events)
    → Progress p address size k remain 0 e r
    → (p.length ≤ k → fs ≡ [])
    → ((b : Buffered)
        → k < p.length
        → Holds p address size k b
        → Delivered p address size es i c [] (
            receive got
              (record c {
                pbuf = set es i (record e { remain = remain; packet = some b; rx_count = k });
              })
              fs))
    → Delivered p address size es i c evs (receive got c ((now, f) ∷ fs))
Progress-Delivered p address size k remain now i got f fs c es e evs r at
      (_, inl (full, is_free, (b, is_last, holds))) stops goes =
    (
      b,
      ap (λ (r : Bool × Can × List Event). ((receive got r.1 fs).0, r.2 ++ (receive got r.1 fs).1))
            at
          ∙ ap₂
              (λ l evs'. (
                (receive got (record c { pbuf = set es i r.element }) l).0,
                (evs ++ evs') ++ (receive got (record c { pbuf = set es i r.element }) l).1,
              ))
              (stops (omega (arith, full))) is_last
          ∙ ap₂ (λ e' l. (record c { pbuf = set es i e' }, l)) is_free
              (append-nil (evs ++ (delivered b ∷ []))),
      subst (λ n. Holds p address size n b) full holds,
    )
Progress-Delivered p address size k remain now i got f fs c es e evs r at
      (_, inr (lt, no_event, (b, is_next, holds))) stops goes =
    let (b', rest, holds') = goes b lt holds in
    (
      b',
      ap (λ (r : Bool × Can × List Event). ((receive got r.1 fs).0, r.2 ++ (receive got r.1 fs).1))
            at
          ∙ ap₂
              (λ e' evs'. (
                (receive got (record c { pbuf = set es i e' }) fs).0,
                (evs ++ evs') ++ (receive got (record c { pbuf = set es i e' }) fs).1,
              ))
              is_next no_event
          ∙ ap
              (λ l. (
                (receive got
                    (record c {
                      pbuf = set es i (record e { remain = remain; packet = some b; rx_count = k });
                    })
                    fs).0,
                l
                    ++ (receive got
                        (record c {
                          pbuf =
                              set es i
                                (record e { remain = remain; packet = some b; rx_count = k });
                        })
                        fs).1,
              ))
              (append-nil evs)
          ∙ ap (λ (r : Can × List Event). (r.0, evs ++ r.1)) rest,
      holds',
    )

pub settled-Delivered :
    (p : Packet) (address size i : ℕ) (c : Can) (es : List Element) (e : Element)
    (r : Can × List Event)
    → Delivered p address size (set es i e) i c [] r
    → Delivered p address size es i c [] r
settled-Delivered p address size i c es e r (b, at, holds) = (
  b,
  at ∙ ap (λ l. (record c { pbuf = l }, delivered b ∷ [])) (set-twice es i e free_element),
  holds,
)

pub next_bytes_pos : (length k : ℕ) → k < length → 1 ≤ next_bytes length k
next_bytes_pos length k h = ground arith
