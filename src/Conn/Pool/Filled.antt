-- ===== src/Conn/Pool/Filled.antt =====
-- libCSP/trunk/src/csp_conn.c: what `csp_conn_new` writes, and to which connection.
use cubesat_space_protocol.Base.{
  ℕ, zero, suc, ◌^◌, ◌≤◌, ◌<◌, ◌≡◌, ◌≢◌, inl, inr, List, [], Option, none, some, length, ◌==◌,
  ==_iff, ne→==, Bool-cases, Bool, true, false, refl, arith,
}
use cubesat_space_protocol.Base.Cycle.{
  next, distance, next-lt, next_cases, distance-next, distance-lt, distance_inj, distance-after,
}
use native.Mathlib.Decide.{ℕ_discrete as dec_eq}
use native.Mathlib.Nat.{mod-eq_of_lt}
use cubesat_space_protocol.Header.{PacketId}
use cubesat_space_protocol.Conn.{Conn, Effect}
use cubesat_space_protocol.Conn.Pool.{
  Connections, closed_at, scan, update, fill, flushed_at, give, new,
}

-- A loop over at least two connections, of which `last` was given before.
pub record IsConnections (p : Connections) : Type 0 where
  pub two : 2 ≤ length p.arr_conn
  pub byte : length p.arr_conn ≤ 2 ^ 8
  pub given_in : p.last_given < length p.arr_conn

abbrev pub Scanned : List Conn → ℕ → ℕ → Option (ℕ × Bool) → Type 0
Scanned cs last i none = ⊥
Scanned cs last i (some (k, true)) = (k < length cs) × (k ≢ last) × (closed_at cs k ≡ true)
Scanned cs last i (some (k, false)) =
    (k ≡ last)
    × ((j : ℕ)
        → j < length cs
        → distance (length cs) last j ≤ distance (length cs) last i
        → j ≢ last
        → closed_at cs j ≡ false)

further :
    (cs : List Conn) (last i : ℕ) (r : Option (ℕ × Bool))
    → i < length cs
    → last < length cs
    → i ≢ last
    → closed_at cs i ≡ false
    → Scanned cs last (next (length cs) i) r
    → Scanned cs last i r
further cs last i none hi hl ne e h = h
further cs last i (some (k, true)) hi hl ne e h = h
further cs last i (some (k, false)) hi hl ne e (at, h) =
    (at, λ j hj d jne. elim (dec_eq j i) [ yes q ↦ rw q e | no q ↦ h j hj (nearer j hj d q) jne ])
  where
    nearer :
        (j : ℕ)
        → j < length cs
        → distance (length cs) last j ≤ distance (length cs) last i
        → j ≢ i
        → distance (length cs) last j ≤ distance (length cs) last (next (length cs) i)
    nearer j hj d q = omega (
      arith,
      distance-next (length cs) last i hi hl ne,
      λ (w : distance (length cs) last j ≡ distance (length cs) last i).
          q (distance_inj (length cs) last j i hj hi hl w),
    )

none_left :
    (cs : List Conn) (last i : ℕ)
    → last < length cs
    → i ≡ last
    → Scanned cs last i (some (last, false))
none_left cs last i hl e =
    (refl, λ j hj d ne. absurd (ne (distance_inj (length cs) last j last hj hl hl (ground arith))))

scan-Scanned :
    (fuel : ℕ) (cs : List Conn) (last i : ℕ)
    → i < length cs
    → last < length cs
    → i ≢ last
    → distance (length cs) last i ≤ fuel
    → Scanned cs last i (scan fuel cs last i)
unfolding scan
scan-Scanned zero cs last i hi hl ne d = absurd (ground arith)
scan-Scanned (suc fuel) cs last i hi hl ne d = elim (Bool-cases (closed_at cs i)) [
  | inl e ↦ rw e (hi, ne, e)
  | inr e ↦ rw e (elim (Bool-cases (next (length cs) i == last)) [
    | inl q ↦ rw q (
        further cs last i (some (last, false)) hi hl ne e
          (none_left cs last (next (length cs) i) hl ((==_iff (next (length cs) i) last).0 q)))
    | inr q ↦ rw q (
        further cs last i (scan fuel cs last (next (length cs) i)) hi hl ne e (
          scan-Scanned fuel cs last (next (length cs) i) (next-lt (length cs) i hi) hl
            (ground arith) (omega (arith, distance-next (length cs) last i hi hl ne))))
  ])
]

at_least :
    (p : Connections) → IsConnections p → next (length p.arr_conn) p.last_given ≢ p.last_given
at_least p v = λ e. ground (arith, e, v.two, next_cases (length p.arr_conn) p.last_given v.given_in)

-- Whatever the loop of `new` comes to, it covers the whole array.
scan_all :
    (p : Connections)
    → IsConnections p
    → let count = length p.arr_conn in
      Scanned p.arr_conn p.last_given
        (next count p.last_given)
        (scan count p.arr_conn p.last_given (next count p.last_given))
scan_all p v =
    let count = length p.arr_conn in
    let first = next-lt count p.last_given v.given_in in
    scan-Scanned count p.arr_conn p.last_given (next count p.last_given) first v.given_in
      (at_least p v)
      (omega (arith, distance-lt count p.last_given (next count p.last_given) first v.given_in))

-- What `new` may come to: a connection that was closed, filled in, and everything else kept; or
-- nothing, and every connection but the one given last is in use.
abbrev pub Filled :
    PacketId → PacketId → ℕ → Connections → Option ℕ × Connections × List Effect → Type 0
Filled idin idout now p (some i, p', es) =
    (closed_at p.arr_conn i ≡ true)
    × (p'.arr_conn ≡ update p.arr_conn i (fill idin idout now))
    × (p'.last_given ≡ i)
    × (i < length p.arr_conn)
    × (es ≡ flushed_at p.arr_conn i)
Filled idin idout now p (none, p', es) =
    (p' ≡ p)
    × (es ≡ [])
    × ((j : ℕ) → j < length p.arr_conn → j ≢ p.last_given → closed_at p.arr_conn j ≡ false)

give-Filled :
    (idin idout : PacketId) (now : ℕ) (p : Connections) (r : Option (ℕ × Bool))
    → IsConnections p
    → Scanned p.arr_conn p.last_given (next (length p.arr_conn) p.last_given) r
    → Filled idin idout now p (give idin idout now p r)
unfolding give
give-Filled idin idout now p none v h = elim h [ ]
give-Filled idin idout now p (some (k, true)) v (lt, ne, e) =
    rw (ne→== k p.last_given ne) (e, refl, mod-eq_of_lt (omega (arith, lt, v.byte)), lt, refl)
give-Filled idin idout now p (some (k, false)) v (e, h) = rw ((==_iff k p.last_given).1 e) (
  refl,
  refl,
  λ j hj ne. h j hj (distance-after (length p.arr_conn) p.last_given j hj v.given_in) ne,
)

pub new-Filled :
    (now : ℕ) (p : Connections) (idin idout : PacketId)
    → IsConnections p
    → Filled idin idout now p (new true now p idin idout)
unfolding new
new-Filled now p idin idout v =
    give-Filled idin idout now p
      (scan (length p.arr_conn) p.arr_conn p.last_given (next (length p.arr_conn) p.last_given)) v
      (scan_all p v)
