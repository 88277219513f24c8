-- ===== src/Header/Tests.antt =====
-- The theorems on identifiers at concrete ones.
use cubesat_space_protocol.Base.{◌≡◌, ◌↔◌, bit_and, arith}
use cubesat_space_protocol.Header.{PacketId, ext, conn_mask}
use cubesat_space_protocol.Header.Masks.{conn_mask_iff}

abbrev ping : PacketId
ping = record { pri = 2; src = 1; dst = 5; dport = 1; sport = 20; flags = 3 }

abbrev pong : PacketId
pong = record { pri = 0; src = 1; dst = 5; dport = 1; sport = 20; flags = 0 }

conn_mask_iff_example :
    (bit_and (ext ping) conn_mask ≡ bit_and (ext pong) conn_mask)
    ↔ ((1 ≡ pong.src) × (ping.dst ≡ 5) × (ping.dport ≡ 1) × (ping.sport ≡ 20))
conn_mask_iff_example = conn_mask_iff (omega arith) (omega arith)
