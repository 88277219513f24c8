-- ===== src/Security.antt =====
-- The security of packets: what `csp_send_direct` (libCSP/trunk/src/csp_io.c) appends to a packet of
-- this node, and `csp_route_security_check` (libCSP/trunk/src/csp_route.c), with HMAC, CRC32 and XTEA
-- compiled in, on a host that keeps the least significant byte first.
pub mod Roundtrip
pub mod Required
pub mod Nodes
mod Tests
use cubesat_space_protocol.Base.{
  ℕ, ◌+◌, ◌-◌, ◌%◌, ◌^◌, List, take, drop, blit, length, ltb, ◌||◌, if◌then◌else◌, Bool, true,
  false, bytes32, word32,
}
use cubesat_space_protocol.Error.{Error, err_xtea, err_crc32, err_hmac}
use cubesat_space_protocol.Header.{has, fhmac, fcrc32, fxtea, so_hmacreq, so_crc32req, so_xteareq}
use cubesat_space_protocol.Endian.{hton32, ntoh32}
use cubesat_space_protocol.Crc32.{Verdict, stripped, failed, out_of_bounds, append, verify}
use cubesat_space_protocol.Xtea.{encrypt, decrypt}
use cubesat_space_protocol.Hmac.{hmac_append, hmac_verify}

-- `csp_hmac_key` and `csp_xtea_key`.
pub record Keys : Type 0 where
  pub hmac_key : List ℕ
  pub xtea_key : List ℕ

-- What a node has for security: its keys, and what the arrays of `csp_hmac_memory` and `csp_hmac_append`
-- hold on its own stack before they are written.
pub record Crypto : Type 0 where
  pub keys : Keys
  pub stack : List ℕ
  pub hmac : List ℕ

-- The counters `autherr` and `rx_error` of a `csp_iface_t`.
pub record Errors : Type 0 where
  pub autherr : ℕ
  pub rx_error : ℕ

-- The data area of a packet and its length.
abbrev pub Area : Type 0
Area = List ℕ × ℕ

-- What `csp_route_security_check` comes to: the packet afterwards, or the error.
pub data Checked : Type 0 where
  passed : List ℕ → ℕ → Checked
  rejected : Error → Checked
  overrun : Checked

-- A step that has failed or a feature that is required and missing ends the check.
abbrev pub step_of : Verdict → Error → List ℕ → Checked
step_of (stripped n) e memory = passed memory n
step_of failed e memory = rejected e
step_of out_of_bounds e memory = overrun

abbrev pub then_with : Checked → (List ℕ → ℕ → Checked) → Checked
then_with (passed memory n) f = f memory n
then_with (rejected e) f = rejected e
then_with overrun f = overrun

-- What the error adds to the counters of the interface.
abbrev pub counted : Checked → Errors → Errors
counted (rejected err_crc32) c = record c { rx_error = (c.rx_error + 1) % 2 ^ 32 }
counted (rejected _) c = record c { autherr = (c.autherr + 1) % 2 ^ 32 }
counted _ c = c

module _ (k : Crypto) where
  -- The three steps of `csp_send_direct`; none of their calls fails.
  pub add_hmac : ℕ → Area → Area
  add_hmac flags (memory, n) =
      if has flags fhmac then hmac_append k.stack k.hmac k.keys.hmac_key memory n else (memory, n)

  pub add_crc : ℕ → Area → Area
  add_crc flags (memory, n) = if has flags fcrc32 then append memory n else (memory, n)

  pub add_xtea : ℕ → ℕ → Area → Area
  add_xtea flags nonce (memory, n) =
      if has flags fxtea
      then (
        (encrypt false k.keys.xtea_key (blit memory n (bytes32 (hton32 false nonce))) n nonce 1).0,
        (n + 4) % 2 ^ 16,
      )
      else (memory, n)

  unfoldable pub protect : ℕ → ℕ → Area → Area
  unfolding add_hmac add_crc add_xtea
  protect flags nonce packet = add_xtea flags nonce (add_crc flags (add_hmac flags packet))

  pub check_xtea : ℕ → ℕ → List ℕ → ℕ → Checked
  check_xtea opts flags memory n =
      let nonce = ntoh32 false (word32 (take 4 (drop (n - 4) memory))) in
      if has flags fxtea
      then if ltb n 4 || ltb (length memory) n
        then overrun
        else passed (decrypt false k.keys.xtea_key memory (n - 4) nonce 1).0 (n - 4)
      else if has opts so_xteareq
      then rejected err_xtea
      else passed memory n

  pub check_crc : ℕ → ℕ → List ℕ → ℕ → Checked
  check_crc opts flags memory n =
      if has flags fcrc32
      then step_of (verify memory n) err_crc32 memory
      else if has opts so_crc32req
      then rejected err_crc32
      else passed memory n

  pub check_hmac : ℕ → ℕ → List ℕ → ℕ → Checked
  check_hmac opts flags memory n =
      if has flags fhmac
      then step_of (hmac_verify k.stack k.hmac k.keys.hmac_key memory n) err_hmac memory
      else if has opts so_hmacreq
      then rejected err_hmac
      else passed memory n

  -- The three steps of `csp_route_security_check`.
  pub check : ℕ → ℕ → List ℕ → ℕ → Checked
  unfolding check_xtea check_crc check_hmac
  check opts flags memory n = then_with (check_xtea opts flags memory n) λ memory' n'.
      then_with (check_crc opts flags memory' n') λ memory'' n''. check_hmac opts flags memory'' n''

  -- `csp_route_security_check`: also the counters of the interface afterwards.
  unfoldable pub security_check : ℕ → ℕ → Errors → List ℕ → ℕ → Checked × Errors
  unfolding check
  security_check opts flags c memory n = let r = check opts flags memory n in (r, counted r c)
