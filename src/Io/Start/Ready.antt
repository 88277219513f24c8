-- ===== src/Io/Start/Ready.antt =====
-- libCSP/trunk/src/csp_conn.c: the connections that `csp_conn_init` leaves.
use cubesat_space_protocol.Base.{
  ℕ, ◌+◌, ◌-◌, ◌*◌, ◌%◌, ◌^◌, ◌≤◌, ◌<◌, ◌≡◌, List, [], ◌∷◌, map, replicate, Option, none, some, ap,
  ap₂, ◌∙◌, Bool, ◌⊎◌, inl, inr, if◌then◌else◌, true, false, refl, arith,
}
use cubesat_space_protocol.Error.{Error, err_none, err_nomem}
use cubesat_space_protocol.Header.{port_max}
use cubesat_space_protocol.Queue.Fifo.{Fifo, fresh}
use cubesat_space_protocol.Port.{max_bind_port}
use cubesat_space_protocol.Conn.{
  Conn, is_closed, rdp_closed, rx_queues, rx_queue_length, conn_queue_length,
}
use cubesat_space_protocol.Conn.Packets.{IsFed}
use cubesat_space_protocol.Transport.{Options, rdp_max_window}
use cubesat_space_protocol.Transport.Client.{rdp_allocate}
use cubesat_space_protocol.Io.Start.{
  Created, Prepared, queue_create, queued, allocate_for, then_rest, init_each, behind_each,
  conn_init,
}

-- The queues, if no pointer is NULL.
abbrev all_there : List (Option (Fifo ℕ)) → Option (List (Fifo ℕ))
all_there [] = some []
all_there (none ∷ qs) = none
all_there (some q ∷ qs) = elim (all_there qs) [ none ↦ none | some l ↦ some (q ∷ l) ]

abbrev with_queues : Conn → Option (List (Fifo ℕ)) → Option (Fifo ℕ) → Option Conn
with_queues c none event = none
with_queues c (some qs) none = none
with_queues c (some qs) (some event) = some (record c { rx_queue = qs; rx_event = event })

-- The connection, if it can be used.
abbrev pub usable : Prepared → Option Conn
usable c = with_queues c.conn (all_there c.rx_queue) c.rx_event

abbrev pub all_created : List Bool → Bool
all_created [] = true
all_created (b ∷ bs) = if b then all_created bs else false

-- A connection that was set up: closed, and the queues of its transport empty and as long as they have to
-- be. Only if each creation of a queue for its user has succeeded, which is not looked at, it can be used,
-- and then these queues are in order.
pub record IsReady (made : Created) (c : Prepared) : Type 0 where
  pub closed : is_closed c.conn.state ≡ true
  pub transport : c.conn.rdp.state ≡ rdp_closed
  pub tx_queue : c.conn.rdp.tx_queue ≡ fresh rdp_max_window
  pub rx_queue : c.conn.rdp.rx_queue ≡ fresh (rdp_max_window * 2)
  pub fed :
      made.rx_fifos ≡ replicate rx_queues true
      → made.rx_event ≡ true
      → (d : Conn) × (usable c ≡ some d) × IsFed d
  pub unusable : (all_created made.rx_fifos ≡ false) ⊎ (made.rx_event ≡ false) → usable c ≡ none

abbrev pub AllReady : List (Created × Prepared) → List Prepared → Type 0
AllReady [] [] = Unit
AllReady ((made, was) ∷ made_of) (c ∷ cs) = IsReady made c × AllReady made_of cs
AllReady [] (c ∷ cs) = ⊥
AllReady (m ∷ made_of) [] = ⊥

missing_fifo :
    (fs : List Bool)
    → all_created fs ≡ false
    → all_there (map (queue_create rx_queue_length) fs) ≡ none
missing_fifo [] e = absurd (ground (arith, e))
missing_fifo (false ∷ fs) e = refl
missing_fifo (true ∷ fs) e =
    ap
      (λ (o : Option (List (Fifo ℕ))). elim o [
        | none ↦ none
        | some l ↦ some (fresh rx_queue_length ∷ l)
      ])
      (missing_fifo fs e)

without_event : (c : Conn) (o : Option (List (Fifo ℕ))) → with_queues c o none ≡ none
without_event c none = refl
without_event c (some qs) = refl

unusable_of :
    (c : Conn) (fs : List Bool) (event : Bool)
    → (all_created fs ≡ false) ⊎ (event ≡ false)
    → with_queues c
        (all_there (map (queue_create rx_queue_length) fs))
        (queue_create conn_queue_length event)
      ≡ none
unusable_of c fs event (inl e) =
    ap (λ o. with_queues c o (queue_create conn_queue_length event)) (missing_fifo fs e)
unusable_of c fs event (inr e) =
    ap
      (λ b.
        with_queues c (all_there (map (queue_create rx_queue_length) fs))
          (queue_create conn_queue_length b))
      e
    ∙ without_event c (all_there (map (queue_create rx_queue_length) fs))

IsFed-usable :
    (c : Conn) (fifos : List Bool) (event : Bool)
    → fifos ≡ replicate rx_queues true
    → event ≡ true
    → (d : Conn) × (with_queues c
          (all_there (map (queue_create rx_queue_length) fifos))
          (queue_create conn_queue_length event)
        ≡ some d)
      × IsFed d
unfolding fresh
IsFed-usable c fifos event all there = (
  record c {
    rx_queue = replicate rx_queues (fresh rx_queue_length);
    rx_event = fresh conn_queue_length;
  },
  ap₂
      (λ l e.
        with_queues c (all_there (map (queue_create rx_queue_length) l))
          (queue_create conn_queue_length e))
      all there,
  record { queues = refl; bounded = omega arith; room = refl; balanced = refl },
)

allocated-IsReady :
    (o : Options) (made : Created) (c : Prepared)
    → (allocate_for o made (queued made c)).0 ≡ err_none
    → IsReady made (allocate_for o made (queued made c)).1
unfolding allocate_for rdp_allocate fresh
allocated-IsReady o made c =
    by_outcomes made.rx_fifos made.rx_event made.lock made.tx_wait made.tx_queue made.rx_queue
  where
    conn_of : List Bool → Bool → Conn
    conn_of fs event =
        let m : Created = record {
          rx_fifos = fs;
          rx_event = event;
          lock = true;
          tx_wait = true;
          tx_queue = true;
          rx_queue = true;
        } in
        (allocate_for o m (queued m c)).1.conn

    by_outcomes :
        (fs : List Bool) (event l s t r : Bool)
        → let m : Created = record {
          rx_fifos = fs;
          rx_event = event;
          lock = l;
          tx_wait = s;
          tx_queue = t;
          rx_queue = r;
        } in
          let x = allocate_for o m (queued m c) in x.0 ≡ err_none → IsReady m x.1
    by_outcomes fs event true true true true e = record {
      closed = refl;
      transport = refl;
      tx_queue = refl;
      rx_queue = refl;
      fed = IsFed-usable (conn_of fs event) fs event;
      unusable = unusable_of (conn_of fs event) fs event;
    }
    by_outcomes fs event false s t r e = cc
    by_outcomes fs event true false t r e = cc
    by_outcomes fs event true true false r e = cc
    by_outcomes fs event true true true false e = cc

rest-AllReady :
    (made : Created) (was : Prepared) (of_rest : List (Created × Prepared)) (r : Error × Prepared)
    (cs : List Prepared) (rest : Error × List Prepared)
    → (then_rest r cs rest).0 ≡ err_none
    → (r.0 ≡ err_none → IsReady made r.1)
    → (rest.0 ≡ err_none → AllReady of_rest rest.1)
    → AllReady ((made, was) ∷ of_rest) (then_rest r cs rest).1
unfolding then_rest
rest-AllReady made was of_rest (err_none, c) cs rest ok ready behind = (ready refl, behind ok)
rest-AllReady made was of_rest (err_nomem, c) cs rest ok ready behind = cc
rest-AllReady made was of_rest (e, c) cs rest ok ready behind = cc

each-AllReady :
    (o : Options) (cs : List (Created × Prepared))
    → (init_each o cs).0 ≡ err_none
    → AllReady cs (init_each o cs).1
unfolding init_each
each-AllReady o [] ok = tt
each-AllReady o ((made, c) ∷ cs) ok =
    rest-AllReady made c cs (allocate_for o made (queued made c)) (map (λ t. t.1) cs)
      (init_each o cs) ok (allocated-IsReady o made c) (each-AllReady o cs)

behind-AllReady :
    (cs : List (Created × Prepared)) (lock : Bool) (sport : ℕ) (r : Error × List Prepared)
    → (behind_each lock sport r).0 ≡ err_none
    → (r.0 ≡ err_none → AllReady cs r.1)
    → let made = (behind_each lock sport r).1 in AllReady cs made.arr_conn × (made.sport ≡ sport)
unfolding behind_each
behind-AllReady cs true sport (err_none, l) e h = (h refl, refl)
behind-AllReady cs false sport (err_none, l) e h = cc
behind-AllReady cs lock sport (e', l) e h = cc

-- When `csp_conn_init` succeeds, it has set up every connection: each is closed and has the empty queues of its transport. The creations of the queues for its user are not looked at: a connection for which each of them has succeeded can be used and has these queues in order, and one for which any of them has failed cannot, although the call succeeds. And the first ephemeral port is one that no socket can be bound to.
pub conn_init-AllReady :
    (sport_lock conn_lock : Bool) (rand : ℕ) (o : Options) (cs : List (Created × Prepared))
    → (conn_init sport_lock conn_lock rand o cs).0 ≡ err_none
    → let made = (conn_init sport_lock conn_lock rand o cs).1 in
      AllReady cs made.arr_conn × (max_bind_port < made.sport) × (made.sport ≤ port_max)
unfolding conn_init
conn_init-AllReady false conn_lock rand o cs ok = cc
conn_init-AllReady true conn_lock rand o cs ok =
    let sport = (rand % (port_max - max_bind_port) + (max_bind_port + 1)) % 2 ^ 8 in
    let (all, port) = behind-AllReady cs conn_lock sport (init_each o cs) ok (each-AllReady o cs) in
    (all, omega (arith, port), omega (arith, port))
