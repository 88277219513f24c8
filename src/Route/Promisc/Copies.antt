-- ===== src/Route/Promisc/Copies.antt =====
-- libCSP/trunk/src/csp_route.c: what promiscuous mode leaves as it was, and what it lets the user read.
use cubesat_space_protocol.Base.{
  ℕ, ◌≤◌, ◌≡◌, ◌≢◌, ◌⊎◌, inl, inr, List, [], ◌∷◌, ◌++◌, Option, none, some, length, take,
  length-take, take-drop-blit, blit, subst, Bool, true, false, refl, ne→==, eq→==, sym, arith, ltb,
  Bool-cases, ltb→lt, ◌<◌,
}
use cubesat_space_protocol.Header.{Packet}
use cubesat_space_protocol.Queue.Fifo.{Fifo, push}
use cubesat_space_protocol.Transport.{Endpoint, from_supply, given_back}
use cubesat_space_protocol.Route.Promisc.{
  Promisc, promisc_add, add_to, add_copy, copy_queued, as_copy,
}

-- The next buffer that the pool gives out is not the one at `a`, which is in use.
abbrev pub Fresh : ℕ → List (Option ℕ) → Type 0
Fresh a [] = Unit
Fresh a (none ∷ os) = Unit
Fresh a (some b ∷ os) = a ≢ b

-- What a call leaves of the packet at `a`, of `rand` and of the connection.
pub record Kept (w w' : Endpoint) (a : ℕ) : Type 0 where
  pub packet : w'.mem a ≡ w.mem a
  pub rand : w'.rand ≡ w.rand
  pub conn : w'.conn ≡ w.conn

same : (w : Endpoint) (a : ℕ) → Kept w w a
same w a = record { packet = refl; rand = refl; conn = refl }

copy_queued-Kept :
    (s : Promisc) (w w' : Endpoint) (a copy : ℕ) (r : Bool × Fifo ℕ)
    → Kept w w' a
    → Kept w (copy_queued s w' copy r).1 a
unfolding copy_queued
copy_queued-Kept s w w' a copy (true, q) k = k
copy_queued-Kept s w w' a copy (false, q) k = record {
  packet = k.packet;
  rand = k.rand;
  conn = k.conn;
}

add_copy-Kept :
    (s : Promisc) (q : Fifo ℕ) (w : Endpoint) (a : ℕ) (os : List (Option ℕ))
    → Fresh a os
    → Kept w (add_copy s q a (from_supply os w)).1 a
unfolding add_copy
add_copy-Kept s q w a [] h = same w a
add_copy-Kept s q w a (none ∷ os) h = record { packet = refl; rand = refl; conn = refl }
add_copy-Kept s q w a (some b ∷ os) h =
    copy_queued-Kept s w _ a b (push q b)
      (record { packet = rw (ne→== a b h) refl; rand = refl; conn = refl })

add_to-Kept :
    (on : Bool) (queue : Option (Fifo ℕ)) (s : Promisc) (w : Endpoint) (a : ℕ)
    → Fresh a w.supply
    → Kept w (add_to on queue s w a).1 a
unfolding add_to
add_to-Kept false queue s w a h = same w a
add_to-Kept true none s w a h = same w a
add_to-Kept true (some q) s w a h = add_copy-Kept s q w a w.supply h

-- Watching a packet leaves it as it is.
pub promisc_add-Kept :
    (s : Promisc) (w : Endpoint) (a : ℕ) → Fresh a w.supply → Kept w (promisc_add s w a).1 a
unfolding promisc_add
promisc_add-Kept s w a h = add_to-Kept s.enabled s.queue s w a h

-- A copy has the length, the identifier and the data of the packet.
abbrev pub IsCopy : Packet → Packet → Type 0
IsCopy p' p =
    (p'.length ≡ p.length) × (p'.id ≡ p.id) × (take p.length p'.contents ≡ take p.length p.contents)

as_copy-IsCopy :
    (buffer p : Packet)
    → p.length ≤ length p.contents
    → p.length ≤ length buffer.contents
    → IsCopy (as_copy buffer p) p
as_copy-IsCopy buffer p h room =
    let vs = take p.length p.contents in
    let size : length vs ≡ p.length = omega (arith, length-take p.length p.contents, h) in
    (
      refl,
      refl,
      subst (λ n. take n (blit buffer.contents 0 vs) ≡ vs) size
          (take-drop-blit buffer.contents 0 vs (omega (arith, size, room))),
    )

-- The copy at `b` is at the end of the user's queue, which had room, or given back, the queue being full.
abbrev pub Watched : Promisc → Fifo ℕ → Endpoint → ℕ → ℕ → Promisc × Endpoint → Type 0
Watched s q w a b (s', w') =
    IsCopy (w'.mem b) (w.mem a)
    × (((length q.content < q.capacity)
          × (s' ≡ record s { queue = some (record q { content = q.content ++ (b ∷ []) }) })
          × (w'.actions ≡ w.actions))
        ⊎ ((q.capacity ≤ length q.content)
            × (s' ≡ s)
            × (w'.actions ≡ w.actions ++ (given_back b ∷ []))))

add_copy-Watched :
    (s : Promisc) (q : Fifo ℕ) (w : Endpoint) (a b : ℕ) (os : List (Option ℕ))
    → (w.mem a).length ≤ length (w.mem a).contents
    → (w.mem a).length ≤ length (w.mem b).contents
    → Watched s q w a b (add_copy s q a (from_supply (some b ∷ os) w))
unfolding add_copy copy_queued push
add_copy-Watched s q w a b os h room =
    let copy = as_copy-IsCopy (w.mem b) (w.mem a) h room in
    elim (Bool-cases (ltb (length q.content) q.capacity)) [
      | inl e ↦
          rw e
            (rw (eq→== b b refl) (copy, inl (ltb→lt (length q.content) q.capacity e, refl, refl)))
      | inr e ↦ rw e (rw (eq→== b b refl) (copy, inr (ground (arith, e), refl, refl)))
    ]

-- While promiscuous mode is on and the pool has a buffer with room, a packet that is added is copied to it, with its length, identifier and data, and the copy is last in the user's queue, or, if that is full, given back to the pool with the queue as before; the packet itself stays.
pub promisc_add-Watched :
    (s : Promisc) (w : Endpoint) (a b : ℕ) {q : Fifo ℕ} {os : List (Option ℕ)}
    → s.enabled ≡ true
    → s.queue ≡ some q
    → w.supply ≡ some b ∷ os
    → a ≢ b
    → (w.mem a).length ≤ length (w.mem a).contents
    → (w.mem a).length ≤ length (w.mem b).contents
    → Watched s q w a b (promisc_add s w a) × ((promisc_add s w a).1.mem a ≡ w.mem a)
unfolding promisc_add add_to
promisc_add-Watched s w a b {q} {os} on watched supply apart h room = (
  subst (λ e. Watched s q w a b (add_to e s.queue s w a)) (sym on)
      (subst (λ o. Watched s q w a b (add_to true o s w a)) (sym watched)
        (subst (λ l. Watched s q w a b (add_copy s q a (from_supply l w))) (sym supply)
          (add_copy-Watched s q w a b os h room))),
  (promisc_add-Kept s w a (subst (Fresh a) (sym supply) apart)).packet,
)
