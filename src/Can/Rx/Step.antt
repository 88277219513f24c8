-- ===== src/Can/Rx/Step.antt =====
-- libCSP/trunk/src/interfaces/csp_if_can.c: what one frame of a packet adds at the receiver.
use cubesat_space_protocol.Base.{
  ℕ, ◌+◌, ◌-◌, ◌%◌, ◌^◌, ◌≤◌, ◌<◌, ◌≡◌, ◌⊎◌, inl, inr, List, [], ◌∷◌, ◌++◌, Option, none, some,
  take, drop, length, length-blit, take_add, take_add-blit, length-take, length-drop, ltb-false,
  eq→==, ne→==, refl, sym, subst, ap, ap₂, ◌∙◌, arith,
}
use native.Mathlib.Decide.{ℕ_discrete as dec_eq}
use native.Mathlib.Nat.{mod-eq_of_lt}
use cubesat_space_protocol.Header.{Packet}
use cubesat_space_protocol.Can.{Frame, Buffered, Element, delivered, cfp_remain, cfp_type}
use cubesat_space_protocol.Can.Pbuf.{free_element}
use cubesat_space_protocol.Can.Rx.{
  Received, rx_element, rx_begin, fill, begun, rx_more, take_bytes, complete, copied,
}

-- The buffer holds the head of the packet and its first `k` bytes, in an area of `size` bytes.
pub record Holds (p : Packet) (address size k : ℕ) (b : Buffered) : Type 0 where
  pub same_address : b.address ≡ address
  pub same_id : b.packet.id ≡ p.id
  pub same_length : b.packet.length ≡ p.length
  pub same_bytes : take k b.packet.contents ≡ take k p.contents
  pub same_size : length b.packet.contents ≡ size

-- With `k` bytes there the packet is complete and handed on, or the element waits for more frames.
abbrev pub Progress : Packet → ℕ → ℕ → ℕ → ℕ → ℕ → Element → Received → Type 0
Progress p address size k remain errors e r =
    (r.errors ≡ errors)
    × (((k ≡ p.length)
          × (r.element ≡ free_element)
          × ((b : Buffered) × (r.events ≡ delivered b ∷ []) × Holds p address size k b))
        ⊎ ((k < p.length)
            × (r.events ≡ [])
            × ((b : Buffered) × (r.element
                  ≡ record e { remain = remain; packet = some b; rx_count = k })
                × Holds p address size k b)))

copied-Holds :
    (p : Packet) (address size k n : ℕ) (b : Buffered)
    → Holds p address size k b
    → k + n ≤ size
    → k + n ≤ length p.contents
    → Holds p address size
        (k + n)
        (record b { packet = copied b.packet k (take n (drop k p.contents)) })
copied-Holds p address size k n b v room there =
    let vs = take n (drop k p.contents) in
    record {
      same_address = v.same_address;
      same_id = v.same_id;
      same_length = v.same_length;
      same_bytes =
          take_add-blit k n b.packet.contents vs
            (length-take n (drop k p.contents) ∙ omega (arith, length-drop k p.contents, there))
            (omega (arith, room, v.same_size))
          ∙ ap (λ l. l ++ vs) v.same_bytes
          ∙ sym (take_add k n p.contents);
      same_size = length-blit b.packet.contents k vs ∙ v.same_size;
    }

complete-Progress :
    (p : Packet) (address size k remain errors : ℕ) (e : Element) (b : Buffered)
    → k ≤ p.length
    → Holds p address size k b
    → Progress p address size k remain errors e
        (complete errors (record e { remain = remain }) b k [])
complete-Progress p address size k remain errors e b le v = elim (dec_eq k p.length) [
  | yes q ↦ rw (eq→== k b.packet.length (q ∙ sym v.same_length)) (refl, inl (q, refl, (b, refl, v)))
  | no q ↦
      rw (ne→== k b.packet.length (λ w. q (w ∙ v.same_length)))
        (refl, inr (omega (arith, le, q), refl, (b, refl, v)))
]

-- The checks that a fitting run of bytes passes.
take_bytes-fits :
    (errors k n : ℕ) (e : Element) (b : Buffered) (vs : List ℕ)
    → e.rx_count ≡ k
    → length vs ≡ n
    → k + n ≤ b.packet.length
    → k + n ≤ length b.packet.contents
    → k + n < 2 ^ 16
    → take_bytes errors e (some b) vs n
      ≡ complete errors e (record b { packet = copied b.packet k vs }) (k + n) []
unfolding take_bytes
take_bytes-fits errors k n e b vs at len le room small = simp (
  at,
  ltb-false b.packet.length (k + n) le,
  len,
  ltb-false (length b.packet.contents) (k + n) room,
  mod-eq_of_lt small,
)

rx_more_passes :
    (errors offset : ℕ) (f : Frame) (e : Element)
    → (e.remain + 2 ^ 32 - 1) % 2 ^ 32 ≡ cfp_remain f.id
    → rx_more errors offset f e
      ≡ take_bytes errors
          (record e { remain = cfp_remain f.id })
          e.packet
          (take (f.dlc - offset) (drop offset f.bytes))
          (f.dlc - offset)
unfolding rx_more
rx_more_passes errors offset f e rem = rw (rem, eq→== (cfp_remain f.id) (cfp_remain f.id) refl) refl

rx_more-fits :
    (errors k n offset : ℕ) (f : Frame) (e : Element) (b : Buffered) (vs : List ℕ)
    → e.packet ≡ some b
    → e.rx_count ≡ k
    → (e.remain + 2 ^ 32 - 1) % 2 ^ 32 ≡ cfp_remain f.id
    → f.dlc - offset ≡ n
    → take n (drop offset f.bytes) ≡ vs
    → length vs ≡ n
    → k + n ≤ b.packet.length
    → k + n ≤ length b.packet.contents
    → k + n < 2 ^ 16
    → rx_more errors offset f e
      ≡ complete errors
          (record e { remain = cfp_remain f.id })
          (record b { packet = copied b.packet k vs })
          (k + n)
          []
rx_more-fits errors k n offset f e b vs has_b at rem dlc bytes len le room small =
    let e' : Element = record e { remain = cfp_remain f.id } in
    rx_more_passes errors offset f e rem
    ∙ ap (λ m. take_bytes errors e' e.packet (take m (drop offset f.bytes)) m) dlc
    ∙ ap₂ (λ l o. take_bytes errors e' o l n) bytes has_b
    ∙ take_bytes-fits errors k n e' b vs at len le room small

-- A frame with the next `n` bytes and the number of frames that remain behind it.
pub rx_more-Progress :
    (p : Packet) (address size k n errors offset : ℕ) (f : Frame) (e : Element) (b : Buffered)
    → e.packet ≡ some b
    → e.rx_count ≡ k
    → e.remain ≡ cfp_remain f.id + 1
    → cfp_remain f.id < 256
    → f.dlc - offset ≡ n
    → take n (drop offset f.bytes) ≡ take n (drop k p.contents)
    → k + n ≤ p.length
    → p.length < 2 ^ 16
    → p.length ≤ length p.contents
    → p.length ≤ size
    → Holds p address size k b
    → Progress p address size (k + n) (cfp_remain f.id) errors e (rx_more errors offset f e)
rx_more-Progress p address size k n errors offset f e b has_b at_k at_rem small dlc bytes le short
      there room v =
    let vs = take n (drop k p.contents) in
    let counted : length vs ≡ n =
      length-take n (drop k p.contents) ∙ omega (arith, length-drop k p.contents, there, le) in
    let remaining : (e.remain + 2 ^ 32 - 1) % 2 ^ 32 ≡ cfp_remain f.id =
      omega (arith, at_rem, small) in
    subst (λ r. Progress p address size (k + n) (cfp_remain f.id) errors e r)
      (sym (
        rx_more-fits errors k n offset f e b vs has_b at_k remaining dlc bytes counted
          (omega (arith, le, v.same_length)) (omega (arith, le, room, v.same_size))
          (omega (arith, le, short))))
      (complete-Progress p address size (k + n) (cfp_remain f.id) errors e
        (record b { packet = copied b.packet k vs }) le
        (copied-Holds p address size k n b v (omega (arith, le, room)) (omega (arith, le, there))))

-- The switch on a frame behind the first.
pub rx_element-more :
    (got : Option Buffered) (f : Frame) (e : Element)
    → cfp_type f.id ≡ 1
    → rx_element got f e ≡ rx_more 0 0 f e
unfolding rx_element
rx_element-more got f e t = rw (t) refl

-- The switch on a first frame, for an element without a packet.
pub rx_element-begin :
    (b : Buffered) (f : Frame) (e : Element)
    → cfp_type f.id ≡ 0
    → 6 ≤ f.dlc
    → e.packet ≡ none
    → rx_element (some b) f e
      ≡ rx_more 0 6 f (record e {
        packet = some (record b { packet = begun b.packet f });
        rx_count = 0;
        remain = cfp_remain f.id + 1;
      })
unfolding rx_element rx_begin fill
rx_element-begin b f e t long empty = rw (t, ltb-false f.dlc 6 long, empty) refl
