-- ===== src/Header/Masks.antt =====
-- The union of `csp_id_t` loses nothing, and the masks of csp.h compare the fields that they name.
use cubesat_space_protocol.Base.{ℕ, ◌*◌, ◌/◌, ◌%◌, ◌^◌, ◌<◌, bit_and, ◌≡◌, ◌↔◌, arith}
use cubesat_space_protocol.Base.Bits.{and_field}
use cubesat_space_protocol.Header.{PacketId, IsPacketId, ext, of_ext, conn_mask, dport_mask}

pub ext-lt : {i : PacketId} → IsPacketId i → ext i < 2 ^ 32
unfolding ext
ext-lt v = omega arith

-- Writing the fields and reading the word, then writing the word and reading the fields, gives the
-- identifier back, for an identifier whose fields fit their widths.
pub of_ext-ext : {i : PacketId} → IsPacketId i → of_ext (ext i) ≡ i
unfolding ext of_ext
of_ext-ext v = ground arith

pub ext-of_ext : (x : ℕ) → x < 2 ^ 32 → ext (of_ext x) ≡ x
unfolding ext of_ext
ext-of_ext x h = omega arith

pub of_ext-IsPacketId : (x : ℕ) → IsPacketId (of_ext x)
unfolding of_ext
of_ext-IsPacketId x = omega arith

conn_mask_lem : (x : ℕ) → bit_and x conn_mask ≡ (x / 2 ^ 8 % 2 ^ 22) * 2 ^ 8
conn_mask_lem x = and_field 8 22 x

dport_mask_lem : (x : ℕ) → bit_and x dport_mask ≡ (x / 2 ^ 14 % 2 ^ 6) * 2 ^ 14
dport_mask_lem x = and_field 14 6 x

-- Two identifiers agree under CSP_ID_CONN_MASK exactly when they have the same source, destination
-- and ports.
pub conn_mask_iff :
    {i j : PacketId}
    → IsPacketId i
    → IsPacketId j
    → (bit_and (ext i) conn_mask ≡ bit_and (ext j) conn_mask)
      ↔ ((i.src ≡ j.src) × (i.dst ≡ j.dst) × (i.dport ≡ j.dport) × (i.sport ≡ j.sport))
unfolding ext
conn_mask_iff {i} {j} v w = (
  λ e. omega (arith, conn_mask_lem (ext i), conn_mask_lem (ext j), e),
  λ h. omega (arith, conn_mask_lem (ext i), conn_mask_lem (ext j), h),
)

-- Two identifiers agree under CSP_ID_DPORT_MASK exactly when they have the same destination port.
pub dport_mask_iff :
    {i j : PacketId}
    → IsPacketId i
    → IsPacketId j
    → (bit_and (ext i) dport_mask ≡ bit_and (ext j) dport_mask) ↔ (i.dport ≡ j.dport)
unfolding ext
dport_mask_iff {i} {j} v w = (
  λ e. omega (arith, dport_mask_lem (ext i), dport_mask_lem (ext j), e),
  λ h. omega (arith, dport_mask_lem (ext i), dport_mask_lem (ext j), h),
)
