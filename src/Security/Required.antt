-- ===== src/Security/Required.antt =====
-- What `csp_route_security_check` requires of a packet that it passes.
use cubesat_space_protocol.Base.{ℕ, ◌≡◌, List, if◌then◌else◌, Bool, true, false, refl, arith}
use cubesat_space_protocol.Header.{has, fhmac, fcrc32, fxtea, so_hmacreq, so_crc32req, so_xteareq}
use cubesat_space_protocol.Error.{Error}
use cubesat_space_protocol.Security.{
  Crypto, Errors, Checked, passed, rejected, overrun, then_with, check_xtea, check_crc, check_hmac,
  check, security_check,
}

abbrev pub is_passed : Checked → Bool
is_passed (passed m n) = true
is_passed (rejected e) = false
is_passed overrun = false

-- Every feature that is required is there.
pub record IsHonoured (opts flags : ℕ) : Type 0 where
  pub xtea : has opts so_xteareq ≡ true → has flags fxtea ≡ true
  pub crc : has opts so_crc32req ≡ true → has flags fcrc32 ≡ true
  pub hmac : has opts so_hmacreq ≡ true → has flags fhmac ≡ true

-- A chain of steps passes only if each step does.
both :
    (r : Checked) (f : List ℕ → ℕ → Checked)
    → is_passed (then_with r f) ≡ true
    → (is_passed r ≡ true) × ((m : List ℕ) × (n : ℕ) × (is_passed (f m n) ≡ true))
both (passed m n) f h = (refl, (m, n, h))
both (rejected e) f h = ground (arith, h)
both overrun f h = ground (arith, h)

-- A step for a feature that is required and missing does not pass.
demanded :
    (flag req : Bool) (x y : Checked) (e : Error)
    → is_passed (if flag then x else if req then rejected e else y) ≡ true
    → req ≡ true
    → flag ≡ true
demanded true req x y e h r = refl
demanded false true x y e h r = ground (arith, h)
demanded false false x y e h r = ground (arith, r)

-- The check passes a packet only if its flags say that it has every feature that the options of the socket or connection require.
pub security_check-required :
    (k : Crypto) (opts flags : ℕ) (c : Errors) (memory : List ℕ) (n : ℕ)
    → is_passed (security_check k opts flags c memory n).0 ≡ true
    → IsHonoured opts flags
unfolding security_check check check_xtea check_crc check_hmac
security_check-required k opts flags c memory n h =
    let (x, (m', n', rest)) =
      both (check_xtea k opts flags memory n)
        (λ m' n'.
          then_with (check_crc k opts flags m' n') λ m'' n''. check_hmac k opts flags m'' n'')
        h in
    let (y, (m'', n'', z)) =
      both (check_crc k opts flags m' n') (λ m'' n''. check_hmac k opts flags m'' n'') rest in
    record {
      xtea = demanded (has flags fxtea) (has opts so_xteareq) _ _ _ x;
      crc = demanded (has flags fcrc32) (has opts so_crc32req) _ _ _ y;
      hmac = demanded (has flags fhmac) (has opts so_hmacreq) _ _ _ z;
    }
