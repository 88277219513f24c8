-- ===== src/Transport/Head.antt =====
-- libCSP/trunk/src/transport/csp_rdp.c: the header behind a packet's data. It stands in the last
-- five bytes, which reach in front of the data where the packet is shorter.
pub mod Carried
use cubesat_space_protocol.Base.{
  ℕ, zero, suc, ◌+◌, ◌-◌, ◌*◌, ◌/◌, ◌%◌, ◌^◌, ◌≤◌, ◌<◌, ◌≡◌, List, [], ◌∷◌, ◌++◌, Bool, true, false,
  ◌==◌, not, length, take, drop, get_or, set, blit, replicate, bytes16, bytes32, word16, word32,
  if◌then◌else◌, word16-bytes16, refl, sym, ap, ◌∙◌, arith,
}
use cubesat_space_protocol.Header.{Packet, PacketId, ext, of_ext, has}
use cubesat_space_protocol.Endian.{hton16, ntoh16}
use cubesat_space_protocol.Transport.{rdp_syn, rdp_ack, rdp_eak, rdp_rst}

-- sizeof(rdp_header_t)
abbrev pub header_size : ℕ
header_size = 5

-- `rdp_header_t`, as its bits and words are read.
pub record RdpHeader : Type 0 where
  pub rst : Bool
  pub eak : Bool
  pub ack : Bool
  pub syn : Bool
  pub seq_nr : ℕ
  pub ack_nr : ℕ

-- The memory from the packet's length on.
abbrev pub from_length : Packet → List ℕ
from_length p = bytes16 p.length ++ (bytes32 (ext p.id) ++ p.contents)

abbrev pub of_memory : Packet → List ℕ → Packet
of_memory p bytes = record p {
  length = word16 (take 2 bytes);
  id = of_ext (word32 (take 4 (drop 2 bytes)));
  contents = drop 6 bytes;
}

-- Where the header begins in this memory: six bytes are in front of the data.
abbrev pub header_at : Packet → ℕ
header_at p = 6 + p.length - header_size

abbrev pub bit_of : ℕ → ℕ → Bool
bit_of byte k = byte / 2 ^ k % 2 == 1

abbrev pub read_header : List ℕ → RdpHeader
read_header bytes = record {
  rst = bit_of (get_or bytes 0 0) 0;
  eak = bit_of (get_or bytes 0 0) 1;
  ack = bit_of (get_or bytes 0 0) 2;
  syn = bit_of (get_or bytes 0 0) 3;
  seq_nr = word16 (take 2 (drop 1 bytes));
  ack_nr = word16 (take 2 (drop 3 bytes));
}

-- `csp_rdp_header_ref`, and what is read through it.
unfoldable pub header_ref : Packet → RdpHeader
header_ref p = read_header (drop (header_at p) (from_length p))

-- The writes through it: the bytes behind `k` of the header.
unfoldable pub header_write : Packet → ℕ → List ℕ → Packet
header_write p k bytes = of_memory p (blit (from_length p) (header_at p + k) bytes)

-- `csp_rdp_header_add`
unfoldable pub header_add : Packet → Packet
header_add p = record p {
  contents = blit p.contents p.length (replicate header_size 0);
  length = (p.length + header_size) % 2 ^ 16;
}

-- `csp_rdp_header_remove`
unfoldable pub header_remove : Packet → Packet
header_remove p = record p { length = (p.length + 2 ^ 16 - header_size) % 2 ^ 16 }

abbrev pub bit : Bool → ℕ → ℕ
bit b k = if b then 2 ^ k else 0

-- The first byte of a header whose bits are set one by one after the memset.
abbrev pub header_byte : Bool → Bool → Bool → Bool → ℕ
header_byte syn ack eak rst = bit syn 3 + bit ack 2 + bit eak 1 + bit rst 0

-- A header in place, with the numbers in network order.
unfoldable pub header_fill : Packet → Bool → Bool → Bool → Bool → ℕ → ℕ → Packet
unfolding header_add
header_fill p syn ack eak rst seq_nr ack_nr =
    let p' = header_add p in
    record p' {
      contents = blit p'.contents p.length (
          header_byte syn ack eak rst ∷ bytes16 (hton16 false (seq_nr % 2 ^ 16))
          ++ bytes16 (hton16 false (ack_nr % 2 ^ 16)));
    }

-- `csp_rdp_new_packet` converts the two numbers where they stand: the acknowledgement first.
unfoldable pub to_host : Packet → Packet
unfolding header_ref header_write
to_host p =
    let p' = header_write p 3 (bytes16 (ntoh16 false (header_ref p).ack_nr)) in
    header_write p' 1 (bytes16 (ntoh16 false (header_ref p').seq_nr))
