-- ===== src/Transport/Packets/Options.antt =====
-- libCSP/trunk/src/transport/csp_rdp.c: the options that a SYN carries.
use cubesat_space_protocol.Base.{
  ℕ, ◌+◌, ◌*◌, ◌^◌, ◌≤◌, ◌<◌, ◌≡◌, List, true, false, length, length-blit, take, drop,
  take-drop-blit, take-drop-take, bytes32, word32, word32-bytes32, sym, ap, ◌∙◌, arith,
}
use cubesat_space_protocol.Header.{Packet, IsPacketId}
use cubesat_space_protocol.Endian.{hton32, ntoh32}
use cubesat_space_protocol.Endian.Swap.{ntoh-hton, hton32-lt}
use cubesat_space_protocol.Conn.{Rdp}
use cubesat_space_protocol.Transport.{Options}
use cubesat_space_protocol.Transport.Head.{header_fill, to_host}
use cubesat_space_protocol.Transport.Head.Carried.{header_carried}
use cubesat_space_protocol.Transport.Control.{option_bytes, syn_packet}
use cubesat_space_protocol.Transport.Packets.{option_at, accepted}

-- The options are numbers of 32 bits.
pub record IsOptions (o : Options) : Type 0 where
  pub window_size_in : o.window_size < 2 ^ 32
  pub conn_timeout_in : o.conn_timeout < 2 ^ 32
  pub packet_timeout_in : o.packet_timeout < 2 ^ 32
  pub delayed_acks_in : o.delayed_acks < 2 ^ 32
  pub ack_timeout_in : o.ack_timeout < 2 ^ 32
  pub ack_delay_count_in : o.ack_delay_count < 2 ^ 32

-- The SYN with its header, as the other side has it.
abbrev pub received_syn : Packet → Options → ℕ → Packet
received_syn p o iss = to_host (header_fill (syn_packet p o) true false false false iss 0)

-- An option that was turned twice.
turned : (x : ℕ) → x < 2 ^ 32 → ntoh32 false (word32 (bytes32 (hton32 false x))) ≡ x
turned x h =
    ap (ntoh32 false) (word32-bytes32 (hton32 false x) (hton32-lt false x h))
    ∙ (ntoh-hton false x 0 h (omega arith)).0

-- The contents up to the header.
syn_contents :
    (p : Packet) (o : Options) (iss : ℕ)
    → IsPacketId p.id
    → 29 ≤ length p.contents
    → iss < 2 ^ 16
    → take 24 (received_syn p o iss).contents ≡ option_bytes o
unfolding syn_packet
syn_contents p o iss v room iss_in =
    let (_, _, same, _) =
      header_carried (syn_packet p o) true false false false iss 0 v
        (omega (arith, length-blit p.contents 0 (option_bytes o), room)) (omega arith) iss_in
        (omega arith) in
    same ∙ take-drop-blit p.contents 0 (option_bytes o) (omega (arith, room))

option_read :
    (q : Packet) (bytes : List ℕ) (i : ℕ)
    → 4 * i + 4 ≤ 24
    → take 24 q.contents ≡ bytes
    → option_at q i ≡ ntoh32 false (word32 (take 4 (drop (4 * i) bytes)))
option_read q bytes i h e =
    ap (λ l. ntoh32 false (word32 l))
      (sym (take-drop-take (4 * i) 4 24 q.contents h) ∙ ap (λ l. take 4 (drop (4 * i) l)) e)

-- A connection that is accepted on a SYN works with the options of the side that sent it.
pub accepted-options :
    (r : Rdp) (p : Packet) (o : Options) (iss seq_nr own : ℕ)
    → IsPacketId p.id
    → IsOptions o
    → 29 ≤ length p.contents
    → iss < 2 ^ 16
    → let r' : Rdp = accepted r own (received_syn p o iss) seq_nr in
      (r'.window_size ≡ o.window_size)
      × (r'.conn_timeout ≡ o.conn_timeout)
      × (r'.packet_timeout ≡ o.packet_timeout)
      × (r'.delayed_acks ≡ o.delayed_acks)
      × (r'.ack_timeout ≡ o.ack_timeout)
      × (r'.ack_delay_count ≡ o.ack_delay_count)
accepted-options r p o iss seq_nr own v is room iss_in =
    let q = received_syn p o iss in
    let e = syn_contents p o iss v room iss_in in
    (
      option_read q (option_bytes o) 0 (omega arith) e ∙ turned o.window_size is.window_size_in,
      option_read q (option_bytes o) 1 (omega arith) e ∙ turned o.conn_timeout is.conn_timeout_in,
      option_read q (option_bytes o) 2 (omega arith) e
          ∙ turned o.packet_timeout is.packet_timeout_in,
      option_read q (option_bytes o) 3 (omega arith) e ∙ turned o.delayed_acks is.delayed_acks_in,
      option_read q (option_bytes o) 4 (omega arith) e ∙ turned o.ack_timeout is.ack_timeout_in,
      option_read q (option_bytes o) 5 (omega arith) e
          ∙ turned o.ack_delay_count is.ack_delay_count_in,
    )
