-- ===== src/Queue/Fifo.antt =====
-- What a queue promises: a bounded sequence, oldest item first. The router, the connections and
-- the transport use their queues through these functions.
use cubesat_space_protocol.Base.{
  ℕ, ◌≤◌, List, [], ◌∷◌, ◌++◌, Option, none, some, length, ltb, if◌then◌else◌, Bool, true, false,
}

pub record Fifo {ℓ} (A : Type ℓ) : Type ℓ where
  pub capacity : ℕ
  pub content : List A

module _ {ℓ} {A : Type ℓ} where
  -- A fresh queue for `n` items.
  unfoldable pub fresh : ℕ → Fifo A
  fresh n = record { capacity = n; content = [] }

  -- With no time to wait: whether the item went in, and the queue afterwards.
  unfoldable pub push : Fifo A → A → Bool × Fifo A
  push q x =
      if ltb (length q.content) q.capacity
      then (true, record q { content = q.content ++ (x ∷ []) })
      else (false, q)

  pop_content : ℕ → List A → Option (A × Fifo A)
  pop_content n [] = none
  pop_content n (x ∷ xs) = some (x, record { capacity = n; content = xs })

  unfoldable pub pop : Fifo A → Option (A × Fifo A)
  unfolding pop_content
  pop q = pop_content q.capacity q.content

  abbrev pub IsBounded : Fifo A → Type 0
  IsBounded q = length q.content ≤ q.capacity
