-- ===== src/Security/Tests.antt =====
-- A packet of two bytes with every feature, sent and received, and the theorems on it.
use cubesat_space_protocol.Base.{ℕ, ◌≡◌, List, [], ◌∷◌, replicate, true, refl, arith}
use cubesat_space_protocol.Security.{
  Crypto, Errors, protect, security_check, Checked, passed, rejected, overrun,
}
use cubesat_space_protocol.Security.Roundtrip.{IsMet, Restored}
use cubesat_space_protocol.Security.Nodes.{security_check-protect}
use cubesat_space_protocol.Security.Required.{IsHonoured, is_passed, security_check-required}

abbrev keys : Crypto
keys = record {
  keys = record { hmac_key = replicate 16 7; xtea_key = 1 ∷ 2 ∷ 3 ∷ 4 ∷ [] };
  stack = replicate 64 0;
  hmac = replicate 20 0;
}

-- The receiver: its stack holds something else.
abbrev receiver : Crypto
receiver = record keys { stack = replicate 64 0xA5; hmac = replicate 20 0x5A }

abbrev area : List ℕ
area = 1 ∷ 2 ∷ replicate 14 0

abbrev no_errors : Errors
no_errors = record { autherr = 0; rx_error = 0 }

-- 0x0D is CSP_FHMAC, CSP_FXTEA and CSP_FCRC32 together; 4 is CSP_SO_HMACREQ.
all-IsMet : IsMet 4 0x0D
all-IsMet = record {
  xtea = λ h. ground (arith, h);
  crc = λ h. ground (arith, h);
  hmac = λ h. ground (arith, h);
}

security_check-protect_example :
    let (m', n') = protect keys 0x0D 99 (area, 2) in
    let (r, c') = security_check receiver 4 0x0D no_errors m' n' in
    Restored r area 2 × (c' ≡ no_errors)
security_check-protect_example =
    security_check-protect keys receiver 4 0x0D 99 2 area no_errors
      (record { keys = refl; block = refl; block' = refl }) (omega arith) (omega arith)
      (omega arith) (omega arith) all-IsMet

Restored-passed : (r : Checked) (memory : List ℕ) (n : ℕ) → Restored r memory n → is_passed r ≡ true
Restored-passed (passed m n') memory n h = refl
Restored-passed (rejected e) memory n h = elim h [ ]
Restored-passed overrun memory n h = elim h [ ]

abbrev received : List ℕ × ℕ
received = protect keys 0x0D 99 (area, 2)

sent_passes :
    let (r, c') = security_check receiver 4 0x0D no_errors received.0 received.1 in
    Restored r area 2 × (c' ≡ no_errors)
sent_passes =
    security_check-protect keys receiver 4 0x0D 99 2 area no_errors
      (record { keys = refl; block = refl; block' = refl }) (omega arith) (omega arith)
      (omega arith) (omega arith) all-IsMet

-- The packet that was sent with every feature, where a code is required.
security_check-required_example : IsHonoured 4 0x0D
security_check-required_example =
    security_check-required receiver 4 0x0D no_errors received.0 received.1 (
      Restored-passed (security_check receiver 4 0x0D no_errors received.0 received.1).0 area 2
        sent_passes.0)
