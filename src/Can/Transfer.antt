-- ===== src/Can/Transfer.antt =====
-- libCSP/trunk/src/interfaces/csp_if_can.c: the frames that a sender makes of a packet, one after the
-- other, at the receiver's packet buffer.
pub mod Delivery
pub mod Whole
pub mod Sent
pub mod Arrival
use cubesat_space_protocol.Base.{
  ℕ, zero, suc, ◌+◌, ◌-◌, ◌*◌, ◌/◌, ◌%◌, ◌^◌, ◌≤◌, ◌<◌, ◌≡◌, ◌≢◌, inl, inr, List, [], ◌∷◌, ◌++◌,
  Option, none, some, take, drop, length, take-take, bytes16, bytes32, word16, word32,
  word16-bytes16, word32-bytes32, leb, ltb, ltb-false, eq→==, ne→==, ◌==◌, if◌then◌else◌,
  Bool-cases, false, true, refl, sym, ap, ◌∙◌, subst, arith,
}
use cubesat_space_protocol.Header.{Packet, PacketId, IsPacketId, ext, of_ext}
use cubesat_space_protocol.Header.Masks.{of_ext-ext, ext-lt}
use cubesat_space_protocol.Endian.{hton16, hton32, ntoh16, ntoh32}
use cubesat_space_protocol.Endian.Swap.{ntoh-hton, hton32-lt, hton16-lt}
use cubesat_space_protocol.Can.{
  Frame, Buffered, Element, Event, cfp_begin, cfp_more, cfp_type, cfp_remain, can_id,
}
use cubesat_space_protocol.Can.Ident.{IsIdent, can_id-fields}
use cubesat_space_protocol.Can.Tx.{first_frame, first_bytes, more_frame, next_bytes}
use cubesat_space_protocol.Can.Rx.{Received, rx_element, rx_begin, rx_more, begun}
use cubesat_space_protocol.Can.Rx.Step.{
  Holds, Progress, rx_more-Progress, rx_element-more, rx_element-begin,
}

-- CSP_CAN_MTU
abbrev pub can_mtu : ℕ
can_mtu = 256

-- A packet that the interface takes, with its data in its area.
pub record IsSendable (p : Packet) : Type 0 where
  pub id_in : IsPacketId p.id
  pub within_mtu : p.length ≤ can_mtu
  pub there : p.length ≤ length p.contents

-- The frames that remain behind the first `k` bytes of data.
abbrev pub frames_left : ℕ → ℕ → ℕ
frames_left length k = (length - k + 7) / 8

pub first-IsIdent :
    {p : Packet} {ident : ℕ}
    → IsSendable p
    → ident < 1024
    → IsIdent p.id.src p.id.dst ident cfp_begin ((p.length + 6 - 1) / 8)
first-IsIdent v h = omega (arith, v.id_in.src_in, v.id_in.dst_in, v.within_mtu, h)

pub more-IsIdent :
    {p : Packet} {ident : ℕ} (k : ℕ)
    → IsSendable p
    → ident < 1024
    → IsIdent p.id.src p.id.dst ident cfp_more ((p.length - k - next_bytes p.length k + 7) / 8)
more-IsIdent k v h = omega (arith, v.id_in.src_in, v.id_in.dst_in, v.within_mtu, h)

pub next_bytes-left :
    (length k : ℕ)
    → k < length
    → (frames_left length k ≡ (length - k - next_bytes length k + 7) / 8 + 1)
      × (frames_left length (k + next_bytes length k) ≡ (length - k - next_bytes length k + 7) / 8)
      × (k + next_bytes length k ≤ length)
next_bytes-left length k h = ground arith

-- The element waits for the byte behind the first `k`.
abbrev pub Waits : Packet → ℕ → ℕ → ℕ → Element → Type 0
Waits p address size k e =
    (e.rx_count ≡ k)
    × (e.remain ≡ frames_left p.length k)
    × ((b : Buffered) × (e.packet ≡ some b) × Holds p address size k b)

more_fields :
    {p : Packet} {ident : ℕ} (k : ℕ)
    → IsSendable p
    → ident < 1024
    → (cfp_type (more_frame p ident k).id ≡ 1)
      × (cfp_remain (more_frame p ident k).id ≡ (p.length - k - next_bytes p.length k + 7) / 8)
unfolding more_frame
more_fields k v h = let (_, _, _, t, r) = can_id-fields (more-IsIdent k v h) in (t, r)

more_dlc : (p : Packet) (ident k : ℕ) → (more_frame p ident k).dlc - 0 ≡ next_bytes p.length k
unfolding more_frame
more_dlc p ident k = omega arith

more_bytes :
    (p : Packet) (ident k : ℕ)
    → let n = next_bytes p.length k in
      take n (more_frame p ident k).bytes ≡ take n (drop k p.contents)
unfolding more_frame
more_bytes p ident k =
    let n = next_bytes p.length k in take-take n n (drop k p.contents) (omega arith)

first_fields :
    {p : Packet} {ident : ℕ}
    → IsSendable p
    → ident < 1024
    → (cfp_type (first_frame p ident).id ≡ 0)
      × (cfp_remain (first_frame p ident).id ≡ (p.length + 6 - 1) / 8)
unfolding first_frame
first_fields v h = let (_, _, _, t, r) = can_id-fields (first-IsIdent v h) in (t, r)

first_bytes_lem :
    (p : Packet) (ident : ℕ)
    → let n = first_bytes p.length in
      take n (drop 6 (first_frame p ident).bytes) ≡ take n p.contents
unfolding first_frame
first_bytes_lem p ident = let n = first_bytes p.length in take-take n n p.contents (omega arith)

pub first_bytes-left :
    (length : ℕ)
    → (frames_left length (first_bytes length) ≡ (length + 6 - 1) / 8)
      × (first_bytes length ≤ length)
first_bytes-left length = ground arith

-- A frame behind the first adds its bytes.
pub more_frame-Progress :
    (p : Packet) (ident address size k : ℕ) (got : Option Buffered) (e : Element)
    → IsSendable p
    → ident < 1024
    → p.length ≤ size
    → k < p.length
    → Waits p address size k e
    → Progress p address size
        (k + next_bytes p.length k)
        (frames_left p.length (k + next_bytes p.length k))
        0
        e
        (rx_element got (more_frame p ident k) e)
more_frame-Progress p ident address size k got e v h room lt (at, left, (b, has_b, holds)) =
    let f = more_frame p ident k in
    let n = next_bytes p.length k in
    let (is_more, behind) = more_fields k v h in
    let (now, next, fits) = next_bytes-left p.length k lt in
    let remaining : cfp_remain f.id ≡ frames_left p.length (k + n) = behind ∙ sym next in
    subst (λ r. Progress p address size (k + n) r 0 e (rx_element got f e)) remaining
      (subst (λ r. Progress p address size (k + n) (cfp_remain f.id) 0 e r)
        (sym (rx_element-more got f e is_more))
        (rx_more-Progress p address size k n 0 0 f e b has_b at
          (left ∙ now ∙ ap (λ (r : ℕ). r + 1) (sym behind)) (omega (arith, behind, v.within_mtu))
          (more_dlc p ident k) (more_bytes p ident k) fits (omega (arith, v.within_mtu)) v.there
          room holds))

-- What the first frame says of the packet.
begun-Holds :
    (p : Packet) (ident : ℕ) (b : Buffered)
    → IsSendable p
    → Holds p b.address
        (length b.packet.contents)
        0
        (record b { packet = begun b.packet (first_frame p ident) })
unfolding first_frame
begun-Holds p ident b v = record {
  same_address = refl;
  same_id =
      ap (λ w. of_ext (ntoh32 false w))
        (word32-bytes32 (hton32 false (ext p.id)) (hton32-lt false (ext p.id) (ext-lt v.id_in)))
      ∙ ap of_ext (ntoh-hton false (ext p.id) 0 (ext-lt v.id_in) (omega arith)).0
      ∙ of_ext-ext v.id_in;
  same_length =
      ap (ntoh16 false) (
        word16-bytes16 (hton16 false p.length)
          (hton16-lt false p.length (omega (arith, v.within_mtu))))
      ∙ (ntoh-hton false 0 p.length (omega arith) (omega (arith, v.within_mtu))).1;
  same_bytes = refl;
  same_size = refl;
}

-- The first frame starts a packet on an element that has none.
pub first_frame-Progress :
    (p : Packet) (ident : ℕ) (b : Buffered) (e : Element)
    → IsSendable p
    → ident < 1024
    → p.length ≤ length b.packet.contents
    → e.packet ≡ none
    → let k = first_bytes p.length in
      Progress p b.address
        (length b.packet.contents)
        k
        (frames_left p.length k)
        0
        e
        (rx_element (some b) (first_frame p ident) e)
unfolding first_frame
first_frame-Progress p ident b e v h room empty =
    let f = first_frame p ident in
    let n = first_bytes p.length in
    let size = length b.packet.contents in
    let (is_begin, behind) = first_fields v h in
    let (left, fits) = first_bytes-left p.length in
    let b' : Buffered = record b { packet = begun b.packet f } in
    let e' : Element = record e { packet = some b'; rx_count = 0; remain = cfp_remain f.id + 1 } in
    let remaining : cfp_remain f.id ≡ frames_left p.length n = behind ∙ sym left in
    let zero_more : 0 + n ≡ n = omega arith in
    let received : Progress p b.address size (0 + n) (cfp_remain f.id) 0 e (rx_more 0 6 f e') =
      rx_more-Progress p b.address size 0 n 0 6 f e' b' refl refl refl
        (omega (arith, behind, v.within_mtu)) (omega arith) (first_bytes_lem p ident)
        (omega (arith, fits)) (omega (arith, v.within_mtu)) v.there room
        (begun-Holds p ident b v) in
    subst (λ r. Progress p b.address size n r 0 e (rx_element (some b) f e)) remaining
      (subst (λ r. Progress p b.address size n (cfp_remain f.id) 0 e r)
        (sym (rx_element-begin b f e is_begin (omega arith) empty))
        (subst (λ m. Progress p b.address size m (cfp_remain f.id) 0 e (rx_more 0 6 f e')) zero_more
          received))
