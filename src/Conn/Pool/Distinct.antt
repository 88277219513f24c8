-- ===== src/Conn/Pool/Distinct.antt =====
-- libCSP/trunk/src/csp_conn.c: after `csp_conn_new` the search of `csp_conn_find` gives the new
-- connection, and no two open connections answer to one identifier.
use cubesat_space_protocol.Base.{
  ℕ, zero, suc, ◌<◌, ◌≡◌, ◌≢◌, List, [], ◌∷◌, Option, none, some, length, ◌==◌, eq→==, ==_iff, Bool,
  true, false, refl, ap, ◌∙◌, sym, subst, bit_and, arith, ◌&&◌, not,
}
use native.Mathlib.Decide.{ℕ_discrete as dec_eq}
use cubesat_space_protocol.Header.{PacketId, ext, conn_mask}
use cubesat_space_protocol.Conn.{Conn, Effect, flush_rx_queue, is_closed}
use cubesat_space_protocol.Conn.Pool.{Connections, find, update, fill, new}
use cubesat_space_protocol.Conn.Pool.Find.{matches_at, First, find-First}
use cubesat_space_protocol.Conn.Pool.Filled.{IsConnections, Filled, new-Filled}

-- The connection that is filled in answers to its identifier, and the others as before.
matches_filled :
    (cs : List Conn) (i : ℕ) (idin idout : PacketId) (now id mask : ℕ)
    → i < length cs
    → matches_at (update cs i (fill idin idout now)) i id mask
      ≡ (bit_and (ext idin) mask == bit_and id mask)
unfolding flush_rx_queue
matches_filled [] i idin idout now id mask h = elim h [ ]
matches_filled (c ∷ cs) zero idin idout now id mask h = refl
matches_filled (c ∷ cs) (suc i) idin idout now id mask h =
    matches_filled cs i idin idout now id mask (omega arith)

matches_kept :
    (cs : List Conn) (i j : ℕ) (f : Conn → Conn) (id mask : ℕ)
    → i ≢ j
    → matches_at (update cs i f) j id mask ≡ matches_at cs j id mask
matches_kept [] i j f id mask ne = refl
matches_kept (c ∷ cs) zero zero f id mask ne = absurd (ne refl)
matches_kept (c ∷ cs) zero (suc j) f id mask ne = refl
matches_kept (c ∷ cs) (suc i) zero f id mask ne = refl
matches_kept (c ∷ cs) (suc i) (suc j) f id mask ne =
    matches_kept cs i j f id mask (λ e. ne (ap suc e))

-- No connection but `i` answers to `id`.
abbrev pub Only : List Conn → ℕ → ℕ → Type 0
Only cs i id = (j : ℕ) → matches_at cs j id conn_mask ≡ true → j ≡ i

not_false : {A : Type 0} {b : Bool} → b ≡ true → b ≡ false → A
not_false h e = ground arith

absent :
    (cs : List Conn) (id mask : ℕ) (r : Option ℕ)
    → r ≡ none
    → First cs 0 id mask r
    → (j : ℕ) → matches_at cs j id mask ≡ false
absent cs id mask none e h = h
absent cs id mask (some r) e h = absurd (ground (arith, e))

found-First :
    (cs : List Conn) (i id mask : ℕ) (r : Option ℕ)
    → matches_at cs i id mask ≡ true
    → ((j : ℕ) → matches_at cs j id mask ≡ true → j ≡ i)
    → First cs 0 id mask r
    → r ≡ some i
found-First cs i id mask none m only h = not_false m (h i)
found-First cs i id mask (some r) m only (k, at, lt, mk, before) =
    ap some (omega (arith, at, only k mk))

filled-Only :
    (cs : List Conn) (i : ℕ) (idin idout : PacketId) (now : ℕ)
    → find cs (ext idin) conn_mask ≡ none
    → Only (update cs i (fill idin idout now)) i (ext idin)
filled-Only cs i idin idout now e j m = elim (dec_eq i j) [
  | yes q ↦ sym q
  | no q ↦ not_false m (
      matches_kept cs i j (fill idin idout now) (ext idin) conn_mask q
      ∙ absent cs (ext idin) conn_mask (find cs (ext idin) conn_mask) e
          (find-First cs (ext idin) conn_mask) j)
]

found_filled :
    (cs : List Conn) (i : ℕ) (idin idout : PacketId) (now : ℕ)
    → i < length cs
    → find cs (ext idin) conn_mask ≡ none
    → find (update cs i (fill idin idout now)) (ext idin) conn_mask ≡ some i
found_filled cs i idin idout now h e =
    let cs' = update cs i (fill idin idout now) in
    found-First cs' i (ext idin) conn_mask (find cs' (ext idin) conn_mask)
      (matches_filled cs i idin idout now (ext idin) conn_mask h
        ∙ eq→== (bit_and (ext idin) conn_mask) (bit_and (ext idin) conn_mask) refl)
      (filled-Only cs i idin idout now e) (find-First cs' (ext idin) conn_mask)

-- Any two open connections have different source, destination or ports.
abbrev pub Distinct : List Conn → Type 0
Distinct cs =
    (i j id : ℕ) → matches_at cs i id conn_mask ≡ true → matches_at cs j id conn_mask ≡ true → i ≡ j

matches_same :
    (cs : List Conn) (j id id' mask : ℕ)
    → bit_and id mask ≡ bit_and id' mask
    → matches_at cs j id mask ≡ matches_at cs j id' mask
matches_same [] j id id' mask e = refl
matches_same (c ∷ cs) zero id id' mask e =
    ap (λ w. not (is_closed c.state) && (bit_and (ext c.idin) mask == w)) e
matches_same (c ∷ cs) (suc j) id id' mask e = matches_same cs j id id' mask e

filled-fresh :
    (cs : List Conn) (i j : ℕ) (idin idout : PacketId) (now id : ℕ)
    → i < length cs
    → find cs (ext idin) conn_mask ≡ none
    → i ≢ j
    → matches_at (update cs i (fill idin idout now)) i id conn_mask ≡ true
    → matches_at (update cs i (fill idin idout now)) j id conn_mask ≡ false
filled-fresh cs i j idin idout now id h e ne m =
    let same =
      (==_iff (bit_and (ext idin) conn_mask) (bit_and id conn_mask)).0
        (sym (matches_filled cs i idin idout now id conn_mask h) ∙ m) in
    matches_kept cs i j (fill idin idout now) id conn_mask ne
    ∙ matches_same cs j id (ext idin) conn_mask (sym same)
    ∙ absent cs (ext idin) conn_mask (find cs (ext idin) conn_mask) e
        (find-First cs (ext idin) conn_mask) j

at_slot :
    (cs : List Conn) (i j : ℕ) (f : Conn → Conn) (id : ℕ)
    → i ≡ j
    → matches_at (update cs i f) j id conn_mask ≡ true
    → matches_at (update cs i f) i id conn_mask ≡ true
at_slot cs i j f id e m = subst (λ y. matches_at (update cs i f) y id conn_mask ≡ true) (sym e) m

filled-Distinct :
    (cs : List Conn) (i : ℕ) (idin idout : PacketId) (now : ℕ)
    → i < length cs
    → find cs (ext idin) conn_mask ≡ none
    → Distinct cs
    → Distinct (update cs i (fill idin idout now))
filled-Distinct cs i idin idout now h e d j k id mj mk =
    let f = fill idin idout now in
    elim (dec_eq i j) [
      | yes p ↦ elim (dec_eq i k) [
        | yes q ↦ sym p ∙ q
        | no q ↦
            not_false mk (filled-fresh cs i k idin idout now id h e q (at_slot cs i j f id p mj))
      ]
      | no p ↦ elim (dec_eq i k) [
        | yes q ↦
            not_false mj (filled-fresh cs i j idin idout now id h e p (at_slot cs i k f id q mk))
        | no q ↦
            d j k id (sym (matches_kept cs i j f id conn_mask p) ∙ mj)
              (sym (matches_kept cs i k f id conn_mask q) ∙ mk)
      ]
    ]

Given-Distinct :
    (idin idout : PacketId) (now : ℕ) (p : Connections) (r : Option ℕ × Connections × List Effect)
    → find p.arr_conn (ext idin) conn_mask ≡ none
    → Distinct p.arr_conn
    → Filled idin idout now p r
    → Distinct r.1.arr_conn
Given-Distinct idin idout now p (none, p', es) e d (same, none_sent, all_open) =
    subst (λ q. Distinct q.arr_conn) (sym same) d
Given-Distinct idin idout now p (some i, p', es) e d (c, filled, at, h, freed) =
    subst Distinct (sym filled) (filled-Distinct p.arr_conn i idin idout now h e d)

-- If no open connection answers to the packet's addresses and ports, a new connection for it keeps the open connections apart: no two of them have the same addresses and ports.
pub new-Distinct :
    (now : ℕ) (p : Connections) (idin idout : PacketId)
    → IsConnections p
    → find p.arr_conn (ext idin) conn_mask ≡ none
    → Distinct p.arr_conn
    → Distinct (new true now p idin idout).1.arr_conn
new-Distinct now p idin idout v e d =
    Given-Distinct idin idout now p (new true now p idin idout) e d (new-Filled now p idin idout v)

Given-found :
    (idin idout : PacketId) (now : ℕ) (p : Connections) (r : Option ℕ × Connections × List Effect)
    (i : ℕ)
    → find p.arr_conn (ext idin) conn_mask ≡ none
    → r.0 ≡ some i
    → Filled idin idout now p r
    → find r.1.arr_conn (ext idin) conn_mask ≡ some i
Given-found idin idout now p (none, p', es) i e at g = absurd (ground (arith, at))
Given-found idin idout now p (some k, p', es) i e at (c, filled, last, h, freed) =
    ap (λ cs. find cs (ext idin) conn_mask) filled
    ∙ found_filled p.arr_conn k idin idout now h e
    ∙ at

-- If no open connection answers to the packet's addresses and ports and a new one is given for it, the search for the packet's connection gives the new one from then on.
pub find-new :
    (now : ℕ) (p : Connections) (idin idout : PacketId) (i : ℕ)
    → IsConnections p
    → find p.arr_conn (ext idin) conn_mask ≡ none
    → (new true now p idin idout).0 ≡ some i
    → find (new true now p idin idout).1.arr_conn (ext idin) conn_mask ≡ some i
find-new now p idin idout i v e at =
    Given-found idin idout now p (new true now p idin idout) i e at (new-Filled now p idin idout v)
