-- ===== src/Io/Sockets/Supported.antt =====
-- libCSP/trunk/src/csp_io.c: the options that a socket can have.
use cubesat_space_protocol.Base.{
  ℕ, ◌≡◌, ◌≢◌, ◌⊎◌, inl, inr, Option, none, some, Bool, true, false, not, ◌&&◌, if◌then◌else◌, refl,
}
use cubesat_space_protocol.Header.{
  has, so_rdpreq, so_xteareq, so_hmacreq, so_crc32req, so_conn_less,
}
use cubesat_space_protocol.Io.Calls.{Features}
use cubesat_space_protocol.Io.Sockets.{
  so_unknown, is_supported, Created, given, refused, lost, with_queue, allocated, socket,
}

-- Every option is known, and what is required is compiled in.
pub record IsSupported (f : Features) (opts : ℕ) : Type 0 where
  pub rdp : has opts so_rdpreq ≡ true → f.rdp ≡ true
  pub xtea : has opts so_xteareq ≡ true → f.xtea ≡ true
  pub hmac : has opts so_hmacreq ≡ true → f.hmac ≡ true
  pub crc32 : has opts so_crc32req ≡ true → f.crc32 ≡ true
  pub known : has opts so_unknown ≡ false

-- What a call can come to, for the options and the outcomes of the two allocations.
abbrev pub Sorted : Features → Bool → Option ℕ → ℕ → Created → Type 0
Sorted f memory queue opts (given s) =
    IsSupported f opts
    × (s.opts ≡ opts)
    × (s.queue ≡ (if has opts so_conn_less then queue else none))
    × (has opts so_conn_less ≡ true → queue ≢ none)
Sorted f memory queue opts refused = (memory ≡ false) ⊎ (¬ IsSupported f opts)
Sorted f memory queue opts lost =
    IsSupported f opts × (memory ≡ true) × (has opts so_conn_less ≡ true) × (queue ≡ none)

given_or_lost :
    (f : Features) (opts : ℕ) (connless : Bool) (queue : Option ℕ)
    → IsSupported f opts
    → has opts so_conn_less ≡ connless
    → Sorted f true queue opts
        (if connless then with_queue opts queue else given (record { queue = none; opts = opts }))
unfolding with_queue
given_or_lost f opts true none v e = (v, refl, e, refl)
given_or_lost f opts true (some q) v e = (v, refl, rw e refl, λ e'. cc)
given_or_lost f opts false queue v e = (v, refl, rw e refl, λ e'. cc)

allocated-Sorted :
    (f : Features) (memory : Bool) (queue : Option ℕ) (opts : ℕ)
    → IsSupported f opts
    → Sorted f memory queue opts (allocated memory queue opts)
unfolding allocated
allocated-Sorted f false queue opts v = inl refl
allocated-Sorted f true queue opts v = given_or_lost f opts (has opts so_conn_less) queue v refl

abbrev Allowed : Bool → Bool → Type 0
Allowed wanted supported = wanted ≡ true → supported ≡ true

abbrev or_refused : Bool → Bool → Bool → Bool
or_refused wanted supported rest = if wanted && not supported then false else rest

-- What a test and the tests behind it come to.
abbrev Decides : Bool → Type 0 → Type 0
Decides b P = ((b ≡ true) × P) ⊎ ((b ≡ false) × (¬ P))

unlike : false ≢ true
unlike e = cc

or_refused-Decides :
    (wanted supported rest : Bool) (P : Type 0)
    → Decides rest P
    → Decides (or_refused wanted supported rest) (Allowed wanted supported × P)
or_refused-Decides true false rest P d = inr (refl, λ v. unlike (v.0 refl))
or_refused-Decides true true rest P (inl (e, p)) = inl (e, ((λ e'. refl), p))
or_refused-Decides true true rest P (inr (e, n)) = inr (e, λ v. n v.1)
or_refused-Decides false supported rest P (inl (e, p)) = inl (e, ((λ e'. cc), p))
or_refused-Decides false supported rest P (inr (e, n)) = inr (e, λ v. n v.1)

none_unknown : (b : Bool) → Decides (not b) (b ≡ false)
none_unknown true = inr (refl, λ e. cc)
none_unknown false = inl (refl, refl)

is_supported-Decides :
    (f : Features) (opts : ℕ) → Decides (is_supported f opts) (IsSupported f opts)
unfolding is_supported
is_supported-Decides f opts = as_record (
    or_refused-Decides (has opts so_rdpreq) f.rdp _ _ (
      or_refused-Decides (has opts so_xteareq) f.xtea _ _ (
        or_refused-Decides (has opts so_hmacreq) f.hmac _ _ (
          or_refused-Decides (has opts so_crc32req) f.crc32 _ _
            (none_unknown (has opts so_unknown))))))
  where
    as_record :
        {b : Bool}
        → Decides b (
            Allowed (has opts so_rdpreq) f.rdp
            × (Allowed (has opts so_xteareq) f.xtea
                × (Allowed (has opts so_hmacreq) f.hmac
                    × (Allowed (has opts so_crc32req) f.crc32 × (has opts so_unknown ≡ false)))))
        → Decides b (IsSupported f opts)
    as_record (inl (e, (r, (x, (h, (c, k)))))) =
        inl (e, record { rdp = r; xtea = x; hmac = h; crc32 = c; known = k })
    as_record (inr (e, n)) = inr (e, λ v. n (v.rdp, (v.xtea, (v.hmac, (v.crc32, v.known)))))

-- A socket is given only with options that are known and whose requirements are compiled in, with exactly these, and with a queue of its own exactly if it is without connections; it is refused only if the options are not such or there is no memory; and where a socket without connections gets no queue, the call fails with the memory of the socket lost.
pub socket-Sorted :
    (f : Features) (memory : Bool) (queue : Option ℕ) (opts : ℕ)
    → Sorted f memory queue opts (socket f memory queue opts)
unfolding socket
socket-Sorted f memory queue opts = by_test (is_supported f opts) (is_supported-Decides f opts)
  where
    by_test :
        (b : Bool)
        → Decides b (IsSupported f opts)
        → Sorted f memory queue opts (if b then allocated memory queue opts else refused)
    by_test true (inl (e, v)) = allocated-Sorted f memory queue opts v
    by_test true (inr (e, n)) = cc
    by_test false (inl (e, v)) = cc
    by_test false (inr (e, n)) = inr n
