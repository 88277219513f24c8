-- ===== src/Queue.antt =====
-- libCSP/trunk/src/arch/posix/pthread_queue.c: the queue behind `csp_queue_handle_t`, items of a
-- generic type in a ring. The mutex makes each call one step but for its waits: a call is given
-- what each `pthread_cond_timedwait` comes to, and a wait with nothing left to come times out.
pub mod Deadline
pub mod Contents
pub mod Refine
pub mod Fifo
mod Tests
use cubesat_space_protocol.Base.{
  ℕ, zero, suc, ◌+◌, ◌-◌, ◌%◌, ◌≤◌, ◌<◌, ◌≡◌, List, [], ◌∷◌, Option, none, some, get_elem?, set,
  length, ◌==◌, if◌then◌else◌, Bool, true, false, not,
}

-- PTHREAD_QUEUE_OK, and PTHREAD_QUEUE_ERROR, which is also PTHREAD_QUEUE_EMPTY and
-- PTHREAD_QUEUE_FULL.
pub data Status : Type 0 where
  ok error : Status

-- `pthread_queue_t`: `buffer` has room for `size` items, of which `items` are queued.
pub record Queue {ℓ} (A : Type ℓ) : Type ℓ where
  pub buffer : List A
  pub size : ℕ
  pub items : ℕ
  pub input : ℕ
  pub output : ℕ

-- What one `pthread_cond_timedwait` comes to: an error, such as the timeout, or a wake-up, with the
-- queue as the other threads left it.
pub data Wait {ℓ} (A : Type ℓ) : Type ℓ where
  failed : Wait A
  woken : Queue A → Wait A

module _ {ℓ} {A : Type ℓ} where
  -- `pthread_queue_create`, on the outcomes of the two `malloc` calls (the second gives a buffer
  -- with whatever it holds) and of the initialisation of the mutex and the conditions.
  pub create : Bool → Option (List A) → Bool → ℕ → Option (Queue A)
  create false memory sync length = none
  create true none sync length = none
  create true (some buffer) false length = none
  create true (some buffer) true length =
      some (record { buffer = buffer; size = length; items = 0; input = 0; output = 0 })

  -- The loop `while (items == size)` of `pthread_queue_enqueue`: whether there is room in the end,
  -- and the queue as the thread last sees it.
  pub await_room : List (Wait A) → Queue A → Bool × Queue A
  await_room [] q = (not (q.items == q.size), q)
  await_room (failed ∷ ws) q = (not (q.items == q.size), q)
  await_room (woken q' ∷ ws) q =
      let rest = await_room ws q' in if q.items == q.size then rest else (true, q)

  -- The loop `while (items == 0)` of `pthread_queue_dequeue`.
  pub await_item : List (Wait A) → Queue A → Bool × Queue A
  await_item [] q = (not (q.items == 0), q)
  await_item (failed ∷ ws) q = (not (q.items == 0), q)
  await_item (woken q' ∷ ws) q =
      let rest = await_item ws q' in if q.items == 0 then rest else (true, q)

  -- The copy into the ring and the counters.
  pub store : Queue A → A → Queue A
  store q value = record q {
    buffer = set q.buffer q.input value;
    items = q.items + 1;
    input = (q.input + 1) % q.size;
  }

  pub fetch : Queue A → Queue A
  fetch q = record q { items = q.items - 1; output = (q.output + 1) % q.size }

  put_in : A → Bool × Queue A → Status × Queue A
  put_in value (false, q) = (error, q)
  put_in value (true, q) = (ok, store q value)

  take_out : Bool × Queue A → Status × Option A × Queue A
  take_out (false, q) = (error, none, q)
  take_out (true, q) = (ok, get_elem? q.buffer q.output, fetch q)

  -- `pthread_queue_enqueue`: the first argument is whether `clock_gettime` works.
  pub enqueue : Bool → List (Wait A) → Queue A → A → Status × Queue A
  unfolding await_room store put_in
  enqueue false waits q value = (error, q)
  enqueue true waits q value = put_in value (await_room waits q)

  -- `pthread_queue_dequeue`: also what is copied to `buf`.
  pub dequeue : Bool → List (Wait A) → Queue A → Status × Option A × Queue A
  unfolding await_item fetch take_out
  dequeue false waits q = (error, none, q)
  dequeue true waits q = take_out (await_item waits q)

  -- `pthread_queue_items`
  pub count : Queue A → ℕ
  count q = q.items
