-- ===== src/Transport/Client/Connecting.antt =====
-- libCSP/trunk/src/transport/csp_rdp.c: how `csp_rdp_connect` ends.
use cubesat_space_protocol.Base.{
  ℕ, zero, suc, ◌≡◌, ◌≢◌, Bool, true, false, if_cases, refl, sym, ◌∙◌, arith,
}
use cubesat_space_protocol.Error.{Error, err_none, err_timedout, err_already, is_none}
use cubesat_space_protocol.Conn.{
  RdpState, rdp_closed, rdp_syn_sent, rdp_syn_rcvd, rdp_open, rdp_close_wait,
}
use cubesat_space_protocol.Conn.Pool.States.{rdp_flush_all-state}
use cubesat_space_protocol.Transport.{Endpoint, set_state}
use cubesat_space_protocol.Transport.Control.{send_syn}
use cubesat_space_protocol.Transport.Client.{
  configured, numbered, connect_woken, connect_waited, connect_sent, attempt_in, attempt, flush_all,
  rdp_connect,
}

-- How a connect from an endpoint ends.
pub data Outcome (w : Endpoint) : Error × Endpoint → Type 0 where
  connected : {w' : Endpoint} → w'.conn.rdp.state ≡ rdp_open → Outcome w (err_none, w')
  open_already : {w' : Endpoint} → w.conn.rdp.state ≡ rdp_open → Outcome w (err_already, w')
  given_up : {w' : Endpoint} → w'.conn.rdp.state ≡ rdp_close_wait → Outcome w (err_timedout, w')

connect_woken-Outcome :
    (w v : Endpoint) (s : RdpState) (again : Endpoint → Error × Endpoint)
    → v.conn.rdp.state ≡ s
    → (s ≡ rdp_syn_sent → Outcome w (again v))
    → Outcome w (connect_woken s again v)
unfolding connect_woken
connect_woken-Outcome w v rdp_open again e h = connected e
connect_woken-Outcome w v rdp_syn_sent again e h = h refl
connect_woken-Outcome w v rdp_closed again e h = given_up refl
connect_woken-Outcome w v rdp_syn_rcvd again e h = given_up refl
connect_woken-Outcome w v rdp_close_wait again e h = given_up refl

connect_waited-Outcome :
    (w : Endpoint) (again : Endpoint → Error × Endpoint) (r : Bool × Endpoint)
    → ((v : Endpoint) → v.conn.rdp.state ≡ rdp_syn_sent → Outcome w (again v))
    → Outcome w (connect_waited again r)
unfolding connect_waited
connect_waited-Outcome w again (false, v) h = given_up refl
connect_waited-Outcome w again (true, v) h =
    connect_woken-Outcome w v v.conn.rdp.state again refl (h v)

connect_sent-Outcome :
    (w : Endpoint) (wait : Endpoint → Bool × Endpoint) (again : Endpoint → Error × Endpoint)
    (r : Error × Endpoint)
    → ((v : Endpoint) → v.conn.rdp.state ≡ rdp_syn_sent → Outcome w (again v))
    → Outcome w (connect_sent wait again r)
unfolding connect_sent
connect_sent-Outcome w wait again (e, v) h =
    if_cases (Outcome w) (is_none e) _ _ (λ _. connect_waited-Outcome w again (wait v) h)
      (λ _. given_up refl)

attempt_in-Outcome :
    (s : RdpState) (w v : Endpoint) (wait : Endpoint → Bool × Endpoint)
    (again : Endpoint → Error × Endpoint)
    → (s ≡ rdp_open → w.conn.rdp.state ≡ rdp_open)
    → ((v' : Endpoint) → v'.conn.rdp.state ≡ rdp_syn_sent → Outcome w (again v'))
    → Outcome w (attempt_in s wait again v)
unfolding attempt_in
attempt_in-Outcome rdp_open w v wait again e h = open_already (e refl)
attempt_in-Outcome rdp_closed w v wait again e h =
    connect_sent-Outcome w wait again (send_syn (numbered v)) h
attempt_in-Outcome rdp_syn_sent w v wait again e h =
    connect_sent-Outcome w wait again (send_syn (numbered v)) h
attempt_in-Outcome rdp_syn_rcvd w v wait again e h =
    connect_sent-Outcome w wait again (send_syn (numbered v)) h
attempt_in-Outcome rdp_close_wait w v wait again e h =
    connect_sent-Outcome w wait again (send_syn (numbered v)) h

sent_not_open : {s : RdpState} {A : Type 0} → s ≡ rdp_syn_sent → s ≡ rdp_open → A
sent_not_open e q = absurd (ground (arith, sym e ∙ q))

attempt-Outcome :
    (retry : ℕ) (w v : Endpoint) (wait : Endpoint → Bool × Endpoint)
    → (v.conn.rdp.state ≡ rdp_open → w.conn.rdp.state ≡ rdp_open)
    → Outcome w (attempt retry wait v)
unfolding attempt flush_all
attempt-Outcome zero w v wait e =
    attempt_in-Outcome v.conn.rdp.state w v wait _ e (λ v' _. given_up refl)
attempt-Outcome (suc retry) w v wait e =
    attempt_in-Outcome v.conn.rdp.state w v wait _ e (λ v' sent.
      attempt-Outcome retry w (flush_all v') wait
        (sent_not_open (rdp_flush_all-state v'.conn ∙ sent)))

abbrev failed : Endpoint → Error × Endpoint
failed v = (err_timedout, set_state v rdp_close_wait)

-- What comes of the wait for the answer; `next` is what holds of a retry.
pub data Answered (next : Endpoint → Error × Endpoint → Type 0)
    : Bool × Endpoint → Error × Endpoint → Type 0 where
  unanswered : {v : Endpoint} → Answered next (false, v) (failed v)
  agreed : {v : Endpoint} → v.conn.rdp.state ≡ rdp_open → Answered next (true, v) (err_none, v)
  half_open :
      {v : Endpoint} {r : Error × Endpoint}
      → v.conn.rdp.state ≡ rdp_syn_sent
      → next v r
      → Answered next (true, v) r
  lost :
      {v : Endpoint}
      → v.conn.rdp.state ≢ rdp_open
      → v.conn.rdp.state ≢ rdp_syn_sent
      → Answered next (true, v) (failed v)

module _ (wait : Endpoint → Bool × Endpoint) where
  -- One try: a SYN packet with a new number is sent.
  pub data Try (next : Endpoint → Error × Endpoint → Type 0) (v : Endpoint)
      : Error × Endpoint → Type 0 where
    refused : v.conn.rdp.state ≡ rdp_open → Try next v (err_already, v)
    not_sent :
        v.conn.rdp.state ≢ rdp_open
        → is_none (send_syn (numbered v)).0 ≡ false
        → Try next v (failed (send_syn (numbered v)).1)
    waited :
        {r : Error × Endpoint}
        → v.conn.rdp.state ≢ rdp_open
        → is_none (send_syn (numbered v)).0 ≡ true
        → Answered next (wait (send_syn (numbered v)).1) r
        → Try next v r

  -- A try with `n` retries behind it, each on emptied queues; behind the last one the connect is given up.
  abbrev pub Tries : ℕ → Endpoint → Error × Endpoint → Type 0
  Tries zero v r = Try (λ v' r'. r' ≡ failed v') v r
  Tries (suc n) v r = Try (λ v' r'. Tries n (flush_all v') r') v r

  woken-Answered :
      (next : Endpoint → Error × Endpoint → Type 0) (again : Endpoint → Error × Endpoint)
      (s : RdpState) (v : Endpoint)
      → v.conn.rdp.state ≡ s
      → ((v' : Endpoint) → next v' (again v'))
      → Answered next (true, v) (connect_woken s again v)
  unfolding connect_woken
  woken-Answered next again rdp_open v e h = agreed e
  woken-Answered next again rdp_syn_sent v e h = half_open e (h v)
  woken-Answered next again rdp_closed v e h =
      lost (λ q. ground (arith, sym e ∙ q)) (λ q. ground (arith, sym e ∙ q))
  woken-Answered next again rdp_syn_rcvd v e h =
      lost (λ q. ground (arith, sym e ∙ q)) (λ q. ground (arith, sym e ∙ q))
  woken-Answered next again rdp_close_wait v e h =
      lost (λ q. ground (arith, sym e ∙ q)) (λ q. ground (arith, sym e ∙ q))

  waited-Answered :
      (next : Endpoint → Error × Endpoint → Type 0) (again : Endpoint → Error × Endpoint)
      (r : Bool × Endpoint)
      → ((v' : Endpoint) → next v' (again v'))
      → Answered next r (connect_waited again r)
  unfolding connect_waited
  waited-Answered next again (false, v) h = unanswered
  waited-Answered next again (true, v) h = woken-Answered next again v.conn.rdp.state v refl h

  module _ (next : Endpoint → Error × Endpoint → Type 0) (again : Endpoint → Error × Endpoint)
      (h : (v' : Endpoint) → next v' (again v')) where
    sent-Try :
        (v : Endpoint)
        → v.conn.rdp.state ≢ rdp_open
        → Try next v (connect_sent wait again (send_syn (numbered v)))
    unfolding connect_sent
    sent-Try v closed_ =
        if_cases (Try next v) (is_none (send_syn (numbered v)).0) _ _
          (λ ok. waited closed_ ok (waited-Answered next again (wait (send_syn (numbered v)).1) h))
          (λ ok. not_sent closed_ ok)

    attempt_in-Try :
        (s : RdpState) (v : Endpoint)
        → v.conn.rdp.state ≡ s
        → Try next v (attempt_in s wait again v)
    unfolding attempt_in
    attempt_in-Try rdp_open v e = refused e
    attempt_in-Try rdp_closed v e = sent-Try v (λ q. ground (arith, sym e ∙ q))
    attempt_in-Try rdp_syn_sent v e = sent-Try v (λ q. ground (arith, sym e ∙ q))
    attempt_in-Try rdp_syn_rcvd v e = sent-Try v (λ q. ground (arith, sym e ∙ q))
    attempt_in-Try rdp_close_wait v e = sent-Try v (λ q. ground (arith, sym e ∙ q))

  attempt-Tries : (n : ℕ) (v : Endpoint) → Tries n v (attempt n wait v)
  unfolding attempt
  attempt-Tries zero v =
      attempt_in-Try (λ v' r'. r' ≡ failed v') failed (λ v'. refl) v.conn.rdp.state v refl
  attempt-Tries (suc n) v =
      attempt_in-Try (λ v' r'. Tries n (flush_all v') r') (λ v'. attempt n wait (flush_all v'))
        (λ v'. attempt-Tries n (flush_all v')) v.conn.rdp.state v refl

-- Whatever the other tasks do in the meantime, a connect ends in one of three ways: it succeeds, and the connection is open; it is refused, and the connection was open before; or it is given up, and the connection waits for its close. It sends a SYN, and waits for the answer; only if it is woken with the connection still in SYN_SENT does it try again, with its queues emptied, and that once: if it is woken so a second time, it is given up.
pub rdp_connect-Outcome :
    (wait : Endpoint → Bool × Endpoint) (w : Endpoint)
    → Outcome w (rdp_connect wait w) × Tries wait 1 (configured w) (rdp_connect wait w)
unfolding rdp_connect
rdp_connect-Outcome wait w =
    (attempt-Outcome 1 w (configured w) wait (λ q. q), attempt-Tries wait 1 (configured w))
