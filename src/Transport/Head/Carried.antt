-- ===== src/Transport/Head/Carried.antt =====
-- libCSP/trunk/src/transport/csp_rdp.c: what a header that one side writes is to the other.
use cubesat_space_protocol.Base.{
  ℕ, suc, ◌+◌, ◌*◌, ◌%◌, ◌^◌, ◌≤◌, ◌<◌, ◌≡◌, List, [], ◌∷◌, ◌++◌, Bool, false, length, take, drop,
  blit, replicate, take-blit, drop-blit, length-drop, bytes16, bytes32, word16, word16-bytes16,
  word32-bytes32, refl, sym, ap, ap₂, ◌∙◌, subst, arith,
}
use cubesat_space_protocol.Header.{Packet, IsPacketId, ext, of_ext}
use cubesat_space_protocol.Header.Masks.{of_ext-ext, ext-lt}
use cubesat_space_protocol.Endian.{hton16, ntoh16}
use cubesat_space_protocol.Endian.Swap.{ntoh-hton, hton16-lt}
use cubesat_space_protocol.Transport.Head.{
  RdpHeader, header_size, header_at, header_byte, bit_of, read_header, from_length, of_memory,
  header_ref, header_write, header_add, header_remove, header_fill, to_host,
}

-- The bits of the first byte.
header_byte_lem :
    (syn ack eak rst : Bool)
    → (bit_of (header_byte syn ack eak rst) 0 ≡ rst)
      × (bit_of (header_byte syn ack eak rst) 1 ≡ eak)
      × (bit_of (header_byte syn ack eak rst) 2 ≡ ack)
      × (bit_of (header_byte syn ack eak rst) 3 ≡ syn)
header_byte_lem syn ack eak rst = ground arith

-- Only five bytes are read.
read_header-take : (bytes : List ℕ) → read_header bytes ≡ read_header (take 5 bytes)
read_header-take [] = refl
read_header-take (a ∷ []) = refl
read_header-take (a ∷ b ∷ []) = refl
read_header-take (a ∷ b ∷ c ∷ []) = refl
read_header-take (a ∷ b ∷ c ∷ d ∷ []) = refl
read_header-take (a ∷ b ∷ c ∷ d ∷ e ∷ rest) = refl

header_at_lem :
    (p : Packet) (n : ℕ) → p.length ≡ n + 5 → header_at p ≡ suc (suc (suc (suc (suc (suc n)))))
header_at_lem p n h = omega (arith, h)

-- The header of a packet that is long enough stands in its data.
pub header_ref_in :
    (p : Packet) (n : ℕ) → p.length ≡ n + 5 → header_ref p ≡ read_header (drop n p.contents)
unfolding header_ref
header_ref_in p n h = ap (λ k. read_header (drop k (from_length p))) (header_at_lem p n h)

of_memory_lem :
    (p : Packet) (contents : List ℕ)
    → IsPacketId p.id
    → p.length < 2 ^ 16
    → of_memory p (bytes16 p.length ++ (bytes32 (ext p.id) ++ contents))
      ≡ record p { contents = contents }
of_memory_lem p contents v h =
    ap₂ (λ l i. record p { length = l; id = i; contents = contents }) (word16-bytes16 p.length h)
      (ap of_ext (word32-bytes32 (ext p.id) (ext-lt v)) ∙ of_ext-ext v)

header_write_in :
    (p : Packet) (n k v : ℕ)
    → p.length ≡ n + 5
    → IsPacketId p.id
    → p.length < 2 ^ 16
    → header_write p k (bytes16 v) ≡ record p { contents = blit p.contents (n + k) (bytes16 v) }
unfolding header_write
header_write_in p n k v h i small =
    let place : header_at p + k ≡ suc (suc (suc (suc (suc (suc (n + k)))))) = omega (arith, h) in
    ap (λ m. of_memory p (blit (from_length p) m (bytes16 v))) place
    ∙ of_memory_lem p (blit p.contents (n + k) (bytes16 v)) i small

-- The five bytes that `header_fill` writes.
abbrev filled_bytes : Bool → Bool → Bool → Bool → ℕ → ℕ → List ℕ
filled_bytes syn ack eak rst seq_nr ack_nr =
    header_byte syn ack eak rst ∷ bytes16 (hton16 false (seq_nr % 2 ^ 16))
    ++ bytes16 (hton16 false (ack_nr % 2 ^ 16))

filled_tail :
    (syn ack eak rst : Bool) (seq_nr ack_nr : ℕ) (xs : List ℕ)
    → 5 ≤ length xs
    → blit (blit xs 0 (replicate header_size 0)) 0 (filled_bytes syn ack eak rst seq_nr ack_nr)
      ≡ filled_bytes syn ack eak rst seq_nr ack_nr ++ drop 5 xs
filled_tail syn ack eak rst seq_nr ack_nr [] h = absurd (omega arith)
filled_tail syn ack eak rst seq_nr ack_nr (a ∷ []) h = absurd (omega arith)
filled_tail syn ack eak rst seq_nr ack_nr (a ∷ b ∷ []) h = absurd (omega arith)
filled_tail syn ack eak rst seq_nr ack_nr (a ∷ b ∷ c ∷ []) h = absurd (omega arith)
filled_tail syn ack eak rst seq_nr ack_nr (a ∷ b ∷ c ∷ d ∷ []) h = absurd (omega arith)
filled_tail syn ack eak rst seq_nr ack_nr (a ∷ b ∷ c ∷ d ∷ e ∷ rest) h = refl

-- The packet with its header, which stands behind the data.
filled_drop :
    (p : Packet) (syn ack eak rst : Bool) (seq_nr ack_nr : ℕ)
    → p.length + 5 ≤ length p.contents
    → drop p.length (header_fill p syn ack eak rst seq_nr ack_nr).contents
      ≡ filled_bytes syn ack eak rst seq_nr ack_nr ++ drop 5 (drop p.length p.contents)
unfolding header_fill header_add
filled_drop p syn ack eak rst seq_nr ack_nr room =
    let n = p.length in
    let zeros : List ℕ = replicate header_size 0 in
    let vs = filled_bytes syn ack eak rst seq_nr ack_nr in
    let at : n ≡ n + 0 = omega arith in
    ap (λ i. drop n (blit (blit p.contents n zeros) i vs)) at
    ∙ drop-blit (blit p.contents n zeros) n 0 vs
    ∙ ap (λ i. blit (drop n (blit p.contents i zeros)) 0 vs) at
    ∙ ap (λ l. blit l 0 vs) (drop-blit p.contents n 0 zeros)
    ∙ filled_tail syn ack eak rst seq_nr ack_nr (drop n p.contents)
        (omega (arith, length-drop n p.contents, room))

-- The numbers of a header in place, and the packet with both in host order.
abbrev converted : Packet → ℕ → ℕ → ℕ → Packet
converted q n seq_nr ack_nr = record q {
  contents =
      blit (blit q.contents (n + 3) (bytes16 (ntoh16 false ack_nr))) (n + 1)
        (bytes16 (ntoh16 false seq_nr));
}

to_host_lem :
    (q : Packet) (n byte s0 s1 a0 a1 : ℕ) (rest : List ℕ)
    → q.length ≡ n + 5
    → q.length < 2 ^ 16
    → IsPacketId q.id
    → drop n q.contents ≡ byte ∷ s0 ∷ s1 ∷ a0 ∷ a1 ∷ rest
    → to_host q ≡ converted q n (s0 + s1 * 256) (a0 + a1 * 256)
unfolding to_host
to_host_lem q n byte s0 s1 a0 a1 rest at small v holds =
    let first : Packet = record q {
      contents = blit q.contents (n + 3) (bytes16 (ntoh16 false (a0 + a1 * 256)));
    } in
    let ack_read : (header_ref q).ack_nr ≡ a0 + a1 * 256 =
      ap (λ (h : RdpHeader). h.ack_nr) (header_ref_in q n at)
      ∙ ap (λ l. (read_header l).ack_nr) holds in
    let ack_written : header_write q 3 (bytes16 (ntoh16 false (header_ref q).ack_nr)) ≡ first =
      ap (λ x. header_write q 3 (bytes16 (ntoh16 false x))) ack_read
      ∙ header_write_in q n 3 (ntoh16 false (a0 + a1 * 256)) at v small in
    let seq_read : (header_ref first).seq_nr ≡ s0 + s1 * 256 =
      ap (λ (h : RdpHeader). h.seq_nr) (header_ref_in first n at)
      ∙ ap (λ l. (read_header l).seq_nr)
          (drop-blit q.contents n 3 (bytes16 (ntoh16 false (a0 + a1 * 256)))
            ∙ ap (λ l. blit l 3 (bytes16 (ntoh16 false (a0 + a1 * 256)))) holds) in
    ap (λ p. header_write p 1 (bytes16 (ntoh16 false (header_ref p).seq_nr))) ack_written
    ∙ ap (λ x. header_write first 1 (bytes16 (ntoh16 false x))) seq_read
    ∙ header_write_in first n 1 (ntoh16 false (s0 + s1 * 256)) at v small

converted_drop :
    (q : Packet) (n byte s0 s1 a0 a1 seq_nr ack_nr : ℕ) (rest : List ℕ)
    → drop n q.contents ≡ byte ∷ s0 ∷ s1 ∷ a0 ∷ a1 ∷ rest
    → drop n (converted q n seq_nr ack_nr).contents
      ≡ byte ∷ bytes16 (ntoh16 false seq_nr) ++ (bytes16 (ntoh16 false ack_nr) ++ rest)
converted_drop q n byte s0 s1 a0 a1 seq_nr ack_nr rest holds =
    let acks = bytes16 (ntoh16 false ack_nr) in
    let seqs = bytes16 (ntoh16 false seq_nr) in
    drop-blit (blit q.contents (n + 3) acks) n 1 seqs
    ∙ ap (λ l. blit l 1 seqs) (drop-blit q.contents n 3 acks)
    ∙ ap (λ l. blit (blit l 3 acks) 1 seqs) holds

-- A number that has been turned twice.
turned : (x : ℕ) → x < 2 ^ 16 → ntoh16 false (word16 (bytes16 (hton16 false (x % 2 ^ 16)))) ≡ x
turned x h =
    let low : x % 2 ^ 16 ≡ x = omega (arith, h) in
    ap (λ y. ntoh16 false (word16 (bytes16 (hton16 false y)))) low
    ∙ ap (ntoh16 false) (word16-bytes16 (hton16 false x) (hton16-lt false x h))
    ∙ (ntoh-hton false 0 x (omega arith) h).1

ntoh16-lt : (x : ℕ) → x < 2 ^ 16 → ntoh16 false x < 2 ^ 16
unfolding ntoh16
ntoh16-lt x h = hton16-lt false x h

abbrev pub header_of : Bool → Bool → Bool → Bool → ℕ → ℕ → RdpHeader
header_of syn ack eak rst seq_nr ack_nr = record {
  rst = rst;
  eak = eak;
  ack = ack;
  syn = syn;
  seq_nr = seq_nr;
  ack_nr = ack_nr;
}

-- A header that is written behind a packet's data and converted by the receiver gives the bits and the numbers that went in; the packet keeps its identifier and its data, and its length once the header is removed.
pub header_carried :
    (p : Packet) (syn ack eak rst : Bool) (seq_nr ack_nr : ℕ)
    → IsPacketId p.id
    → p.length + 5 ≤ length p.contents
    → p.length + 5 < 2 ^ 16
    → seq_nr < 2 ^ 16
    → ack_nr < 2 ^ 16
    → let q = to_host (header_fill p syn ack eak rst seq_nr ack_nr) in
      (header_ref q ≡ header_of syn ack eak rst seq_nr ack_nr)
      × (q.id ≡ p.id)
      × (take p.length q.contents ≡ take p.length p.contents)
      × ((header_remove q).length ≡ p.length)
unfolding header_fill header_add header_remove
header_carried p syn ack eak rst seq_nr ack_nr v room small seq_in ack_in =
    let n = p.length in
    let filled = header_fill p syn ack eak rst seq_nr ack_nr in
    let at : filled.length ≡ n + 5 = omega (arith, small) in
    let holds = filled_drop p syn ack eak rst seq_nr ack_nr room in
    let seq_raw = word16 (bytes16 (hton16 false (seq_nr % 2 ^ 16))) in
    let ack_raw = word16 (bytes16 (hton16 false (ack_nr % 2 ^ 16))) in
    let q = converted filled n seq_raw ack_raw in
    let same : to_host filled ≡ q =
      to_host_lem filled n _ _ _ _ _ _ at (omega (arith, at, small)) v holds in
    let (b0, b1, b2, b3) = header_byte_lem syn ack eak rst in
    let seq_out : word16 (bytes16 (ntoh16 false seq_raw)) ≡ seq_nr =
      ap (λ x. word16 (bytes16 x)) (turned seq_nr seq_in) ∙ word16-bytes16 seq_nr seq_in in
    let ack_out : word16 (bytes16 (ntoh16 false ack_raw)) ≡ ack_nr =
      ap (λ x. word16 (bytes16 x)) (turned ack_nr ack_in) ∙ word16-bytes16 ack_nr ack_in in
    let read : header_ref q ≡ header_of syn ack eak rst seq_nr ack_nr =
      header_ref_in q n at
      ∙ ap read_header (converted_drop filled n _ _ _ _ _ seq_raw ack_raw _ holds)
      ∙ (λ i. record {
        rst = b0 i;
        eak = b1 i;
        ack = b2 i;
        syn = b3 i;
        seq_nr = seq_out i;
        ack_nr = ack_out i;
      }) in
    let kept : take n q.contents ≡ take n p.contents =
      take-blit _ n (n + 1) (bytes16 (ntoh16 false seq_raw)) (omega arith)
      ∙ take-blit _ n (n + 3) (bytes16 (ntoh16 false ack_raw)) (omega arith)
      ∙ take-blit _ n n (filled_bytes syn ack eak rst seq_nr ack_nr) (omega arith)
      ∙ take-blit p.contents n n (replicate header_size 0) (omega arith) in
    let bare : (header_remove q).length ≡ n = omega (arith, at, small) in
    subst
      (λ (q' : Packet).
        (header_ref q' ≡ header_of syn ack eak rst seq_nr ack_nr)
        × (q'.id ≡ p.id)
        × (take n q'.contents ≡ take n p.contents)
        × ((header_remove q').length ≡ n))
      (sym same) (read, refl, kept, bare)
