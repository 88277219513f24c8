-- ===== src/Transport/Receive/Flush.antt =====
-- libCSP/trunk/src/transport/csp_rdp.c: `csp_rdp_rx_queue_flush` delivers what is due.
use cubesat_space_protocol.Base.{
  ℕ, zero, suc, ◌≤◌, ◌<◌, ◌≡◌, ◌≢◌, List, [], ◌∷◌, ◌++◌, some, Bool, true, false, length,
  length-append, append_assoc, append-nil, ◌==◌, ltb-true, if_cases, if◌then◌else◌, sym, ap, subst,
  ◌∙◌, arith,
}
use cubesat_space_protocol.Header.{Packet}
use cubesat_space_protocol.Queue.Fifo.{Fifo, push, pop, IsBounded}
use cubesat_space_protocol.Conn.{Rdp}
use cubesat_space_protocol.Transport.{Endpoint}
use cubesat_space_protocol.Transport.Head.{header_ref}
use cubesat_space_protocol.Transport.Control.{requeue}
use cubesat_space_protocol.Transport.Receive.{
  set_rx_queue, number_of, next_number, deliver_due, pass_step, flush_pass, flush_again,
  flush_rounds, rx_queue_flush,
}
use cubesat_space_protocol.Transport.Receive.Frame.{deliver_due-rdp}

-- None of the packets has the number that is due.
abbrev pub NoneDue : (ℕ → Packet) → ℕ → List ℕ → Type 0
NoneDue mem due [] = Unit
NoneDue mem due (x ∷ xs) = ((header_ref (mem x)).seq_nr ≢ due) × NoneDue mem due xs

abbrev pub NothingDue : Endpoint → Type 0
NothingDue w = NoneDue w.mem (next_number w) w.conn.rdp.rx_queue.content

NoneDue-append :
    (mem : ℕ → Packet) (due : ℕ) (xs ys : List ℕ)
    → NoneDue mem due xs
    → NoneDue mem due ys
    → NoneDue mem due (xs ++ ys)
NoneDue-append mem due [] ys h k = k
NoneDue-append mem due (x ∷ xs) ys (ne, h) k = (ne, NoneDue-append mem due xs ys h k)

-- A round ends with nothing due, or with one packet less.
abbrev Round : ℕ → Bool × Endpoint → Type 0
Round n (false, w) = IsBounded w.conn.rdp.rx_queue × NothingDue w
Round n (true, w) = IsBounded w.conn.rdp.rx_queue × (suc (length w.conn.rdp.rx_queue.content) ≡ n)

requeue_lem :
    (q : Fifo ℕ) (x : ℕ)
    → length q.content < q.capacity
    → requeue q x ≡ record q { content = q.content ++ (x ∷ []) }
unfolding requeue push
requeue_lem q x h =
    ap
      (λ b.
        (if◌then◌else◌ {A = Bool × Fifo ℕ} b (true, record q { content = q.content ++ (x ∷ []) })
          (false, q)).1)
      (ltb-true (length q.content) q.capacity h)

due-Round :
    (n : ℕ) (w : Endpoint) (x : ℕ) (q : Fifo ℕ)
    → IsBounded q
    → suc (length q.content) ≡ n
    → Round n (true, deliver_due (set_rx_queue w q) x)
due-Round n w x q b e =
    let same : (deliver_due (set_rx_queue w q) x).conn.rdp.rx_queue ≡ q =
      ap (λ (r : Rdp). r.rx_queue) (deliver_due-rdp (set_rx_queue w q) x) in
    subst (λ (q' : Fifo ℕ). IsBounded q' × (suc (length q'.content) ≡ n)) (sym same) (b, e)

ne_of : {a b : ℕ} → a == b ≡ false → a ≢ b
ne_of t r = ground (arith, t, r)

-- `xs` is still to be looked at, `ys` has been put back.
flush_pass-Round :
    (xs ys : List ℕ) (c n : ℕ) (w : Endpoint)
    → w.conn.rdp.rx_queue ≡ record { capacity = c; content = xs ++ ys }
    → length (xs ++ ys) ≤ c
    → length (xs ++ ys) ≡ n
    → NoneDue w.mem (next_number w) ys
    → Round n (flush_pass (length xs) w)
unfolding flush_pass pass_step pop
flush_pass-Round [] ys c n w q b e h =
    subst (λ (q' : Fifo ℕ). IsBounded q' × NoneDue w.mem (next_number w) q'.content) (sym q) (b, h)
flush_pass-Round (x ∷ xs) ys c n w q b e h =
    let q' : Fifo ℕ = record { capacity = c; content = xs ++ ys } in
    let popped : pop w.conn.rdp.rx_queue ≡ some (x, q') = ap pop q in
    subst (λ o. Round n (pass_step (flush_pass (length xs)) w o)) (sym popped)
      (if_cases (Round n) (number_of w x == next_number w) _ _
        (λ _. due-Round n w x q' (omega (arith, b)) e)
        (λ t.
          let back : requeue q' x ≡ record { capacity = c; content = xs ++ (ys ++ (x ∷ [])) } =
            requeue_lem q' x (omega (arith, b))
            ∙ ap (λ l. record { capacity = c; content = l }) (append_assoc xs ys (x ∷ [])) in
          let longer : length (xs ++ (ys ++ (x ∷ []))) ≡ suc (length (xs ++ ys)) = omega (
            arith,
            length-append xs (ys ++ (x ∷ [])),
            length-append ys (x ∷ []),
            length-append xs ys,
          ) in
          flush_pass-Round xs (ys ++ (x ∷ [])) c n (set_rx_queue w (requeue q' x)) back
            (omega (arith, longer, b)) (longer ∙ e)
            (NoneDue-append w.mem (next_number w) ys (x ∷ []) h ((λ r. ne_of t r), tt))))

flush_again-NothingDue :
    (rest : Endpoint → Endpoint) (fuel n : ℕ) (r : Bool × Endpoint)
    → ((w : Endpoint)
        → IsBounded w.conn.rdp.rx_queue
        → length w.conn.rdp.rx_queue.content < fuel
        → NothingDue (rest w))
    → n ≤ fuel
    → Round n r
    → NothingDue (flush_again rest r)
unfolding flush_again
flush_again-NothingDue rest fuel n (false, w) h le (b, due) = due
flush_again-NothingDue rest fuel n (true, w) h le (b, e) = h w b (omega (arith, le, e))

-- Each round but the last makes the queue shorter, so one more round than packets is enough.
flush_rounds-NothingDue :
    (fuel : ℕ) (w : Endpoint)
    → IsBounded w.conn.rdp.rx_queue
    → length w.conn.rdp.rx_queue.content < fuel
    → NothingDue (flush_rounds fuel w)
unfolding flush_rounds
flush_rounds-NothingDue zero w b h = absurd (omega (arith, h))
flush_rounds-NothingDue (suc fuel) w b h =
    let xs = w.conn.rdp.rx_queue.content in
    let q = w.conn.rdp.rx_queue in
    let all : xs ++ [] ≡ xs = append-nil xs in
    let first =
      flush_pass-Round xs [] q.capacity (length xs) w (ap (λ l. record q { content = l }) (sym all))
        (subst (λ l. length l ≤ q.capacity) (sym all) b) (ap length all) tt in
    flush_again-NothingDue (flush_rounds fuel) fuel (length xs) (flush_pass (length xs) w)
      (λ w'. flush_rounds-NothingDue fuel w') (omega (arith, h)) first

-- With a receive queue within its bounds, flushing it ends with no packet in it that is due: every packet whose number follows the last one delivered has been taken out, however the packets were ordered.
pub rx_queue_flush-NothingDue :
    (w : Endpoint) → IsBounded w.conn.rdp.rx_queue → NothingDue (rx_queue_flush w)
unfolding rx_queue_flush
rx_queue_flush-NothingDue w b =
    flush_rounds-NothingDue (suc (length w.conn.rdp.rx_queue.content)) w b (omega arith)
