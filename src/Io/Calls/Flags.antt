-- ===== src/Io/Calls/Flags.antt =====
-- libCSP/trunk/src/csp_io.c: a packet that `csp_sendto` has sent, at the node that it is for.
use cubesat_space_protocol.Base.{
  ℕ, ◌+◌, ◌≤◌, ◌<◌, ◌≡◌, ◌^◌, ◌%◌, some, bit_or, length, Bool, true, false, if◌then◌else◌, refl,
  sym, ◌∙◌, subst, arith, eq→==, Bool-cases, inl, inr,
}
use cubesat_space_protocol.Error.{Error, err_none, is_none}
use cubesat_space_protocol.Header.{
  Packet, PacketId, has, frdp, fhmac, fxtea, fcrc32, so_rdpreq, so_hmacreq, so_xteareq, so_crc32req,
}
use cubesat_space_protocol.Security.{Crypto, Errors}
use cubesat_space_protocol.Security.Roundtrip.{IsMet}
use cubesat_space_protocol.Security.Nodes.{Share}
use cubesat_space_protocol.Route.Promisc.Copies.{Fresh}
use cubesat_space_protocol.Io.{Station, send_direct}
use cubesat_space_protocol.Io.Direct.Received.{Passes, Left, send_direct-received}
use cubesat_space_protocol.Io.Calls.{
  Features, then_flag, sendto_flags, sendto_id, rename, sendto_with, sendto,
}

abbrev chosen : Bool → Bool → ℕ → ℕ → Bool × ℕ
chosen wanted supported flag flags =
    if wanted
    then if supported then (true, bit_or flags flag) else (false, flags)
    else (true, flags)

-- The flags say what was wanted, and nothing of the reliable transport.
abbrev pub Says : ℕ → Bool → Bool → Bool → Type 0
Says flags hmac xtea crc =
    (has flags fhmac ≡ hmac)
    × (has flags fxtea ≡ xtea)
    × (has flags fcrc32 ≡ crc)
    × (has flags frdp ≡ false)

chosen-Says :
    (h x c fh fx fc : Bool)
    → let r =
        then_flag
          (chosen h fh fhmac 0)
          (λ flags. then_flag (chosen x fx fxtea flags) (λ flags'. chosen c fc fcrc32 flags')) in
      r.0 ≡ true → Says r.1 h x c
chosen-Says false false false fh fx fc e = (refl, refl, refl, refl)
chosen-Says true x c false fx fc e = cc
chosen-Says true true c true false fc e = cc
chosen-Says true true true true true false e = cc
chosen-Says true true true true true true e = (refl, refl, refl, refl)
chosen-Says true true false true true fc e = (refl, refl, refl, refl)
chosen-Says true false true true fx false e = cc
chosen-Says true false true true fx true e = (refl, refl, refl, refl)
chosen-Says true false false true fx fc e = (refl, refl, refl, refl)
chosen-Says false true c fh false fc e = cc
chosen-Says false true true fh true false e = cc
chosen-Says false true true fh true true e = (refl, refl, refl, refl)
chosen-Says false true false fh true fc e = (refl, refl, refl, refl)
chosen-Says false false true fh fx false e = cc
chosen-Says false false true fh fx true e = (refl, refl, refl, refl)

sendto_flags-Says :
    (f : Features) (opts : ℕ)
    → (sendto_flags f opts).0 ≡ true
    → Says
        (sendto_flags f opts).1
        (has opts so_hmacreq)
        (has opts so_xteareq)
        (has opts so_crc32req)
unfolding sendto_flags
sendto_flags-Says f opts = elim (Bool-cases (has opts so_rdpreq)) [
  | inl t ↦ rw t (λ e. cc)
  | inr t ↦ rw t (
      chosen-Says (has opts so_hmacreq) (has opts so_xteareq) (has opts so_crc32req) f.hmac f.xtea
        f.crc32)
]

-- A receiver that requires no more than `opts`.
pub record Asks (required opts : ℕ) : Type 0 where
  pub xtea : has opts so_xteareq ≡ false → has required so_xteareq ≡ false
  pub crc : has opts so_crc32req ≡ false → has required so_crc32req ≡ false
  pub hmac : has opts so_hmacreq ≡ false → has required so_hmacreq ≡ false

Says-IsMet :
    (required opts flags : ℕ)
    → Asks required opts
    → Says flags (has opts so_hmacreq) (has opts so_xteareq) (has opts so_crc32req)
    → IsMet required flags
Says-IsMet required opts flags v (h, x, c, r) = record {
  xtea = λ e. v.xtea (sym x ∙ e);
  crc = λ e. v.crc (sym c ∙ e);
  hmac = λ e. v.hmac (sym h ∙ e);
}

sendto_with-flags :
    (s : Station) (a : ℕ) (id : ℕ → PacketId) (r : Bool × ℕ)
    → (sendto_with s a id r).0 ≡ true
    → r.0 ≡ true
unfolding sendto_with
sendto_with-flags s a id (false, flags) ok = cc
sendto_with-flags s a id (true, flags) ok = refl

-- Room for what security adds, and a buffer that is not given out again.
pub record IsReady (s : Station) (a : ℕ) : Type 0 where
  pub fresh : Fresh a s.endpoint.supply
  pub address : s.my_address < 2 ^ 5
  pub fits : (s.endpoint.mem a).length + 12 ≤ length (s.endpoint.mem a).contents
  pub small : (s.endpoint.mem a).length + 12 < 2 ^ 16
  pub keyed : 1 ≤ length s.crypto.keys.hmac_key

module _ (s : Station) (receiver : Crypto) (a required : ℕ) (c : Errors) where
  -- The packet at `a` has gone, with identifier `id`, as a receiver with the same keys will have it.
  abbrev pub Arrives : PacketId → Station → Type 0
  Arrives id s' =
      let s'' = rename s a id in
      Passes s'' receiver id required c (s.endpoint.mem a) (s'.endpoint.mem a)
      × Left s'' receiver id required c a (s'.endpoint.mem a) s'

  none_lem : (e : Error) → is_none e ≡ true → e ≡ err_none
  none_lem err_none h = refl
  none_lem e h = cc

  sent-Arrives :
      (id : PacketId)
      → is_none (send_direct (rename s a id) id (some a)).0 ≡ true
      → IsReady s a
      → Share s.crypto receiver
      → id.src ≡ s.my_address
      → IsMet required id.flags
      → Arrives id (send_direct (rename s a id) id (some a)).1
  sent-Arrives id ok v share mine met =
      let there : (rename s a id).endpoint.mem a ≡ record (s.endpoint.mem a) { id = id } =
        rw (eq→== a a refl) refl in
      let received =
        send_direct-received (rename s a id) receiver id a required c (none_lem _ ok) v.fresh share
          mine (subst (λ (p : Packet). p.length + 12 ≤ length p.contents) (sym there) v.fits)
          (subst (λ (p : Packet). p.length + 12 < 2 ^ 16) (sym there) v.small) v.keyed met in
      let q = (send_direct (rename s a id) id (some a)).1.endpoint.mem a in
      (subst (λ p. Passes (rename s a id) receiver id required c p q) there received.0, received.1)

  with-Arrives :
      (id : ℕ → PacketId) (r : Bool × ℕ)
      → (sendto_with s a id r).0 ≡ true
      → IsReady s a
      → Share s.crypto receiver
      → (id r.1).src ≡ s.my_address
      → (r.0 ≡ true → IsMet required (id r.1).flags)
      → Arrives (id r.1) (sendto_with s a id r).1
  unfolding sendto_with
  with-Arrives id (false, flags) ok v share mine met = cc
  with-Arrives id (true, flags) ok v share mine met =
      sent-Arrives (id flags) ok v share mine (met refl)

-- A packet that `csp_sendto` sends with success, from a buffer with room for 12 bytes more, bears an identifier whose flags ask for authentication, encryption and checksum as the options do and never for the reliable transport; it has left, by a driver, or by the loopback interface, which has put it last in the queue of its priority at this node's router or, that queue being full, given it back; and a receiver with the same keys, whatever its own stack holds, that requires no more than the options ask for passes it with the length and the data that the caller gave.
pub sendto-Arrives :
    (f : Features) (s : Station) (receiver : Crypto) (prio dest dport src_port opts a required : ℕ)
    (c : Errors)
    → (sendto f s prio dest dport src_port opts a).0 ≡ true
    → IsReady s a
    → Share s.crypto receiver
    → Asks required opts
    → let flags = (sendto_flags f opts).1 in
      let id = sendto_id s.my_address prio dest dport src_port flags in
      Says flags (has opts so_hmacreq) (has opts so_xteareq) (has opts so_crc32req)
      × Arrives s receiver a required c id (sendto f s prio dest dport src_port opts a).1
unfolding sendto
sendto-Arrives f s receiver prio dest dport src_port opts a required c ok v share asks =
    let id = sendto_id s.my_address prio dest dport src_port in
    let mine : s.my_address % 2 ^ 5 ≡ s.my_address = omega (arith, v.address) in
    let goes = sendto_with-flags s a id (sendto_flags f opts) ok in
    let says = sendto_flags-Says f opts goes in
    (
      says,
      with-Arrives s receiver a required c id (sendto_flags f opts) ok v share mine
          (λ e. Says-IsMet required opts _ asks says),
    )
