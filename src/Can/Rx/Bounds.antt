-- ===== src/Can/Rx/Bounds.antt =====
-- libCSP/trunk/src/interfaces/csp_if_can.c: the writes of `csp_rx_callback` to a packet's data area.
use cubesat_space_protocol.Base.{
  ℕ, ◌+◌, ◌-◌, ◌%◌, ◌^◌, ◌≤◌, ◌≡◌, ◌≢◌, inl, inr, List, [], ◌∷◌, Option, none, some, Bool, true,
  false, Bool-cases, length, take, drop, length-take, ltb, ltb-false, ne→==, not, ◌==◌, refl, ap,
  ◌∙◌, arith,
}
use native.Mathlib.Decide.{ℕ_discrete as dec_eq}
use cubesat_space_protocol.Can.{
  Frame, Buffered, Element, Event, freed, delivered, framed, posted, overrun, cfp_begin, cfp_type,
  cfp_remain,
}
use cubesat_space_protocol.Can.Pbuf.{free_packet}
use cubesat_space_protocol.Can.Rx.{
  rx_element, rx_begin, rx_more, rx_packet, fill, take_bytes, complete, begun,
}

-- Nothing is written behind the data area or read through NULL.
abbrev pub no_overrun : List Event → Bool
no_overrun [] = true
no_overrun (freed _ ∷ evs) = no_overrun evs
no_overrun (delivered _ ∷ evs) = no_overrun evs
no_overrun (framed _ ∷ evs) = no_overrun evs
no_overrun (posted ∷ evs) = no_overrun evs
no_overrun (overrun ∷ evs) = false

-- The packet's length is within its data area.
abbrev pub Fits : Buffered → Type 0
Fits b = b.packet.length ≤ length b.packet.contents

free_packet_lem : (o : Option Buffered) → no_overrun (free_packet o) ≡ true
free_packet_lem none = refl
free_packet_lem (some b) = refl

complete_lem :
    (errors : ℕ) (e : Element) (b : Buffered) (rx_count : ℕ)
    → no_overrun (complete errors e b rx_count []).events ≡ true
complete_lem errors e b rx_count = elim (Bool-cases (rx_count == b.packet.length)) [
  | inl t ↦ rw (t) refl
  | inr t ↦ rw (t) refl
]

take_bytes_lem :
    (errors : ℕ) (e : Element) (b : Buffered) (bytes : List ℕ) (n : ℕ)
    → length bytes ≤ n
    → Fits b
    → no_overrun (take_bytes errors e (some b) bytes n).events ≡ true
unfolding take_bytes
take_bytes_lem errors e b bytes n h fits =
    elim (Bool-cases (ltb b.packet.length (e.rx_count + n))) [
      | inl t ↦ rw (t) (free_packet_lem e.packet)
      | inr t ↦
          rw
            (
              t,
              ltb-false (length b.packet.contents) (e.rx_count + length bytes)
                  (ground (arith, t, h, fits)),
            )
            (complete_lem errors e _ _)
    ]

rx_more_lem :
    (errors offset : ℕ) (f : Frame) (e : Element) (b : Buffered)
    → e.packet ≡ some b
    → Fits b
    → no_overrun (rx_more errors offset f e).events ≡ true
unfolding rx_more
rx_more_lem errors offset f e b has_b fits =
    let e' : Element = record e { remain = (e.remain + 2 ^ 32 - 1) % 2 ^ 32 } in
    let n = f.dlc - offset in
    let bytes = take n (drop offset f.bytes) in
    let le : length bytes ≤ n = omega (arith, length-take n (drop offset f.bytes)) in
    elim (Bool-cases (not (cfp_remain f.id == e'.remain))) [
      | inl t ↦ rw (t) (free_packet_lem e.packet)
      | inr t ↦ rw (t) (
          ap (λ o. no_overrun (take_bytes errors e' o bytes n).events) has_b
          ∙ take_bytes_lem errors e' b bytes n le fits)
    ]

fill_lem :
    (f : Frame) (e : Element) (o : Option (Buffered × ℕ))
    → ((b : Buffered) (n : ℕ)
        → o ≡ some (b, n)
        → (begun b.packet f).length ≤ length b.packet.contents)
    → no_overrun (fill f e o).events ≡ true
unfolding fill
fill_lem f e none fits = free_packet_lem e.packet
fill_lem f e (some (b, n)) fits =
    rx_more_lem n 6 f _ (record b { packet = begun b.packet f }) refl (fits b n refl)

-- If a first frame announces a length within the area of the buffer that it goes to, and any other frame meets an element that has a packet with a length within its area, then nothing is written behind a data area or read through NULL, whatever the frame's other fields and bytes are.
pub rx_element-no_overrun :
    (got : Option Buffered) (f : Frame) (e : Element)
    → (cfp_type f.id ≡ cfp_begin
        → (b : Buffered) (n : ℕ) → rx_packet e.packet got ≡ some (b, n)
        → (begun b.packet f).length ≤ length b.packet.contents)
    → (cfp_type f.id ≢ cfp_begin → (b : Buffered) × (e.packet ≡ some b) × Fits b)
    → no_overrun (rx_element got f e).events ≡ true
unfolding rx_element rx_begin
rx_element-no_overrun got f e announced kept = elim (dec_eq (cfp_type f.id) cfp_begin) [
  | yes q ↦ rw (q) (elim (Bool-cases (ltb f.dlc 6)) [
    | inl t ↦ rw (t) (free_packet_lem e.packet)
    | inr t ↦ rw (t) (fill_lem f e (rx_packet e.packet got) (announced q))
  ])
  | no q ↦
      let (b, has_b, fits) = kept q in
      rw (ne→== (cfp_type f.id) cfp_begin q) (rx_more_lem 0 0 f e b has_b fits)
]
