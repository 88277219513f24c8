-- ===== src/Queue/Refine.antt =====
-- The ring behaves as the bounded FIFO of the items that it holds.
use cubesat_space_protocol.Base.{
  ℕ, ◌<◌, ◌≡◌, List, [], ◌∷◌, Option, none, some, get_elem?, length, Bool, true, false, refl, arith,
  ltb, ◌==◌, ◌∙◌, not, sym, ltb→lt, lt→ltb, ltb-false, eq→==, ne→==,
}
use native.Mathlib.Decide.{dec_lt}
use cubesat_space_protocol.Queue.{
  Status, ok, error, Queue, Wait, failed, woken, await_room, store, fetch, put_in, enqueue, dequeue,
}
use cubesat_space_protocol.Queue.Contents.{Holds, store-Holds, fetch-Holds}
use cubesat_space_protocol.Queue.Fifo.{Fifo, push, pop}

abbrev pub is_ok : Status → Bool
is_ok ok = true
is_ok error = false

module _ {ℓ} {A : Type ℓ} where
  -- The queue as the FIFO of `xs`.
  abbrev pub view : Queue A → List A → Fifo A
  view q xs = record { capacity = q.size; content = xs }

  enqueue-ok : (q : Queue A) (v : A) → q.items < q.size → enqueue true [] q v ≡ (ok, store q v)
  unfolding enqueue
  enqueue-ok q v n = rw (ne→== q.items q.size (omega arith))

  enqueue-full : (q : Queue A) (v : A) → q.items ≡ q.size → enqueue true [] q v ≡ (error, q)
  unfolding enqueue
  enqueue-full q v e = rw (eq→== q.items q.size e)

  dequeue-ok :
      (q : Queue A) → 0 < q.items → dequeue true [] q ≡ (ok, get_elem? q.buffer q.output, fetch q)
  unfolding dequeue
  dequeue-ok q n = rw (ne→== q.items 0 (omega arith))

  dequeue-empty : (q : Queue A) → q.items ≡ 0 → dequeue true [] q ≡ (error, none, q)
  unfolding dequeue
  dequeue-empty q e = rw (eq→== q.items 0 e)

  size-store : (q : Queue A) (v : A) → (store q v).size ≡ q.size
  unfolding store
  size-store q v = refl

  size-fetch : (q : Queue A) → (fetch q).size ≡ q.size
  unfolding fetch
  size-fetch q = refl

  -- With no time to wait, `pthread_queue_enqueue` answers as the bounded FIFO does, and leaves the
  -- queue holding what the FIFO holds.
  pub enqueue_refines :
      {q : Queue A} {xs : List A} (v : A)
      → Holds q xs
      → let (s, q') = enqueue true [] q v in
        let (b, f) = push (view q xs) v in
        (is_ok s ≡ b) × Holds q' f.content × (q'.size ≡ f.capacity)
  unfolding push
  enqueue_refines {q} {xs} v h = elim (dec_lt (length xs) q.size) [
    | yes room ↦
        rw (enqueue-ok q v (omega (arith, h.counted)), lt→ltb _ _ room)
          (refl, store-Holds v h room, size-store q v)
    | no full ↦
        rw
          (
            enqueue-full q v (omega (arith, h.counted, h.fits)),
            ltb-false (length xs) q.size (omega arith),
          )
          (refl, h, refl)
  ]

  -- What a call of `dequeue` returns and leaves, against the FIFO.
  abbrev pub Took : Queue A → Status × Option A × Queue A → Option (A × Fifo A) → Type ℓ
  Took q (s, out, q') none = (s ≡ error) × (out ≡ none) × (q' ≡ q)
  Took q (s, out, q') (some (x, f)) =
      (s ≡ ok) × (out ≡ some x) × Holds q' f.content × (q'.size ≡ f.capacity)

  -- With no time to wait, `pthread_queue_dequeue` answers as the FIFO does: the oldest item, or an
  -- error from an empty queue.
  pub dequeue_refines :
      {q : Queue A} (xs : List A) → Holds q xs → Took q (dequeue true [] q) (pop (view q xs))
  unfolding pop
  dequeue_refines {q} [] h = rw (dequeue-empty q h.counted) (refl, refl, refl)
  dequeue_refines {q} (x ∷ xs) h =
      let f = fetch-Holds h in
      rw (dequeue-ok q (omega (arith, h.counted))) (refl, f.0, f.1, size-fetch q)

  -- What other threads leave behind while this one waits.
  abbrev pub Shared : ℕ → List (Wait A) → Type ℓ
  Shared n [] = Unit
  Shared n (failed ∷ ws) = Shared n ws
  Shared n (woken q ∷ ws) = ((xs : List A) × Holds q xs × (q.size ≡ n)) × Shared n ws

  -- Where a wait for room ends: the queue holds something, and with room if it ends well.
  abbrev Ready : ℕ → Bool × Queue A → Type ℓ
  Ready n (b, q) = (xs : List A) × Holds q xs × (q.size ≡ n) × (b ≡ ltb (length xs) n)

  items-Ready :
      {q : Queue A} {n : ℕ} (xs : List A)
      → Holds q xs
      → q.size ≡ n
      → Ready n (not (q.items == q.size), q)
  items-Ready {q} xs h e = (xs, h, e, ground (arith, h.counted, h.fits))

  await_room-Ready :
      {n : ℕ} (ws : List (Wait A)) {q : Queue A} (xs : List A)
      → Shared n ws
      → Holds q xs
      → q.size ≡ n
      → Ready n (await_room ws q)
  unfolding await_room
  await_room-Ready [] xs s h e = items-Ready xs h e
  await_room-Ready (failed ∷ ws) xs s h e = items-Ready xs h e
  await_room-Ready {n} (woken q' ∷ ws) {q} xs s h e = elim (dec_lt (length xs) q.size) [
    | yes room ↦ rw (ne→== q.items q.size (omega (arith, h.counted))) (xs, h, e, ground arith)
    | no full ↦
        rw (eq→== q.items q.size (omega (arith, h.counted, h.fits)))
          (await_room-Ready ws s.0.0 s.1 s.0.1 s.0.2)
  ]

  -- The call put the item behind some contents of the queue, or found that they fill it.
  abbrev pub Answers : ℕ → A → Status × Queue A → Type ℓ
  Answers n v (s, q') =
      (ys : List A) × (is_ok s ≡ (push (record { capacity = n; content = ys }) v).0)
      × Holds q' (push (record { capacity = n; content = ys }) v).1.content
      × (q'.size ≡ n)

  put_in-Answers : {n : ℕ} (v : A) (r : Bool × Queue A) → Ready n r → Answers n v (put_in v r)
  unfolding put_in push
  put_in-Answers {n} v (true, q) h = (
    h.0,
    rw (← h.3),
    rw (← h.3) (store-Holds v h.1 (omega (arith, h.2, ltb→lt (length h.0) n (sym h.3)))),
    size-store q v ∙ h.2,
  )
  put_in-Answers {n} v (false, q) h = (h.0, rw (← h.3), rw (← h.3) h.1, h.2)

  -- However long `pthread_queue_enqueue` waits, and whatever the other threads do to the queue
  -- meanwhile, as long as it holds some items in its size: it answers as the FIFO of what the queue
  -- holds in the end.
  pub enqueue_waits :
      {n : ℕ} (ws : List (Wait A)) {q : Queue A} (xs : List A) (v : A)
      → Shared n ws
      → Holds q xs
      → q.size ≡ n
      → Answers n v (enqueue true ws q v)
  unfolding enqueue
  enqueue_waits {n} ws {q} xs v s h e =
      put_in-Answers v (await_room ws q) (await_room-Ready ws xs s h e)
