-- ===== src/Header.antt =====
-- libCSP/trunk/include/csp/csp.h: the packet identifier `csp_id_t`, its masks, the flags and the
-- socket options, and the packet structure. The header is the one of CSP 1.0 (`CSP_HDR_0_9` unset).
pub mod Masks
mod Tests
use cubesat_space_protocol.Base.{
  ℕ, ◌+◌, ◌-◌, ◌*◌, ◌/◌, ◌%◌, ◌^◌, ◌<◌, bit_and, bit_or, Bool, not, ◌==◌, List,
}

abbrev pub prio_size : ℕ
prio_size = 2

abbrev pub host_size : ℕ
host_size = 5

abbrev pub port_size : ℕ
port_size = 6

abbrev pub flags_size : ℕ
flags_size = 8

-- CSP_ID_HOST_MAX and CSP_ID_PORT_MAX
abbrev pub host_max : ℕ
host_max = 2 ^ host_size - 1

abbrev pub port_max : ℕ
port_max = 2 ^ port_size - 1

-- CSP_ID_SRC_MASK, CSP_ID_DST_MASK, CSP_ID_DPORT_MASK, CSP_ID_SPORT_MASK, CSP_ID_CONN_MASK
abbrev pub src_mask : ℕ
src_mask = host_max * 2 ^ (flags_size + 2 * port_size + 1 * host_size)

abbrev pub dst_mask : ℕ
dst_mask = host_max * 2 ^ (flags_size + 2 * port_size)

abbrev pub dport_mask : ℕ
dport_mask = port_max * 2 ^ (flags_size + 1 * port_size)

abbrev pub sport_mask : ℕ
sport_mask = port_max * 2 ^ flags_size

abbrev pub conn_mask : ℕ
conn_mask = bit_or (bit_or (bit_or src_mask dst_mask) dport_mask) sport_mask

-- The bit fields of `csp_id_t`.
pub record PacketId : Type 0 where
  pub pri : ℕ
  pub src : ℕ
  pub dst : ℕ
  pub dport : ℕ
  pub sport : ℕ
  pub flags : ℕ

-- The other member of the union: both byte orders give the fields these places in `ext`.
unfoldable pub ext : PacketId → ℕ
ext i =
    i.pri * 2 ^ 30 + i.src * 2 ^ 25 + i.dst * 2 ^ 20 + i.dport * 2 ^ 14 + i.sport * 2 ^ 8 + i.flags

unfoldable pub of_ext : ℕ → PacketId
of_ext x = record {
  pri = x / 2 ^ 30 % 2 ^ prio_size;
  src = x / 2 ^ 25 % 2 ^ host_size;
  dst = x / 2 ^ 20 % 2 ^ host_size;
  dport = x / 2 ^ 14 % 2 ^ port_size;
  sport = x / 2 ^ 8 % 2 ^ port_size;
  flags = x % 2 ^ flags_size;
}

-- Every field fits its width.
pub record IsPacketId (i : PacketId) : Type 0 where
  pub pri_in : i.pri < 2 ^ prio_size
  pub src_in : i.src < 2 ^ host_size
  pub dst_in : i.dst < 2 ^ host_size
  pub dport_in : i.dport < 2 ^ port_size
  pub sport_in : i.sport < 2 ^ port_size
  pub flags_in : i.flags < 2 ^ flags_size

-- CSP_BROADCAST_ADDR and CSP_DEFAULT_ROUTE
abbrev pub broadcast_addr : ℕ
broadcast_addr = host_max

abbrev pub default_route : ℕ
default_route = host_max + 1

-- CSP_FHMAC, CSP_FXTEA, CSP_FRDP, CSP_FCRC32
abbrev pub fhmac : ℕ
fhmac = 0x08

abbrev pub fxtea : ℕ
fxtea = 0x04

abbrev pub frdp : ℕ
frdp = 0x02

abbrev pub fcrc32 : ℕ
fcrc32 = 0x01

-- CSP_SO_RDPREQ, CSP_SO_HMACREQ, CSP_SO_XTEAREQ, CSP_SO_CRC32REQ, CSP_SO_CONN_LESS; the connect
-- options CSP_O_RDP, CSP_O_HMAC, CSP_O_XTEA and CSP_O_CRC32 are the same bits as the first four.
abbrev pub so_rdpreq : ℕ
so_rdpreq = 0x0001

abbrev pub so_hmacreq : ℕ
so_hmacreq = 0x0004

abbrev pub so_xteareq : ℕ
so_xteareq = 0x0010

abbrev pub so_crc32req : ℕ
so_crc32req = 0x0040

abbrev pub so_conn_less : ℕ
so_conn_less = 0x0100

-- The C test `word & bit` of an `if`.
abbrev pub has : ℕ → ℕ → Bool
has word bit = not (bit_and word bit == 0)

-- `csp_packet_t`: `length` says how much of `contents`, the element's data area, is in use. The
-- two words are the padding as `rdp_packet_t` reads it.
pub record Packet : Type 0 where
  pub quarantine : ℕ
  pub timestamp : ℕ
  pub length : ℕ
  pub id : PacketId
  pub contents : List ℕ
