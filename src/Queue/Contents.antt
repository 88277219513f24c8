-- ===== src/Queue/Contents.antt =====
-- The items that a ring holds, and what a copy into it or out of it does to them.
use cubesat_space_protocol.Base.{
  ℕ, suc, ◌+◌, ◌-◌, ◌%◌, ◌≤◌, ◌<◌, ◌≡◌, ◌≢◌, List, [], ◌∷◌, ◌++◌, some, get_elem?, set, length,
  length-set, length-append, get_elem?-set_self, get_elem?-set_ne, true, refl, arith, ◌∙◌, ap, sym,
  subst,
}
use mathlib.Core.Option.{some-injective}
use cubesat_space_protocol.Queue.{Queue, create, store, fetch}
use native.Mathlib.Nat.{mod-eq_of_lt, mod-eq-sub-mod, mod-add-mod, add-zero}
use native.Mathlib.Decide.{dec_lt}

module _ {ℓ} {A : Type ℓ} where
  -- `xs` lies in the ring from index `at` on.
  abbrev pub Lies : List A → ℕ → ℕ → List A → Type ℓ
  Lies buffer size at [] = Unit
  Lies buffer size at (x ∷ xs) =
      (get_elem? buffer at ≡ some x) × Lies buffer size ((at + 1) % size) xs

  -- The queue holds `xs`, oldest first.
  pub record Holds (q : Queue A) (xs : List A) : Type ℓ where
    pub room : q.size ≤ length q.buffer
    pub output_in : q.output < q.size
    pub counted : q.items ≡ length xs
    pub fits : q.items ≤ q.size
    pub input_at : q.input ≡ (q.output + q.items) % q.size
    pub lies : Lies q.buffer q.size q.output xs

-- Fewer steps than the ring is long do not come back.
ahead : (size at n : ℕ) → at < size → suc n < size → (at + suc n) % size ≢ at
ahead size at n h k = elim (dec_lt (at + suc n) size) [
  | yes p ↦ omega (arith, mod-eq_of_lt p)
  | no p ↦ omega (
    arith,
    mod-eq-sub-mod {n = at + suc n} {m = size} (omega arith),
    mod-eq_of_lt {n = at + suc n - size} {m = size} (omega arith),
  )
]

turn : (size at n : ℕ) → (at + suc n) % size ≡ ((at + 1) % size + n) % size
turn size at n = ap (λ (t : ℕ). t % size) regroup ∙ sym (mod-add-mod (at + 1) size n)
  where
    regroup : at + suc n ≡ at + 1 + n
    regroup = omega arith

step_mod : (size at n : ℕ) → ((at + n) % size + 1) % size ≡ (at + (n + 1)) % size
step_mod size at n = mod-add-mod (at + n) size 1 ∙ ap (λ (t : ℕ). t % size) (omega arith)

module _ {ℓ} {A : Type ℓ} where
  -- A write just behind `xs` extends it.
  Lies-set :
      (buffer : List A) (size : ℕ) (v : A) (at index : ℕ) (xs : List A)
      → size ≤ length buffer
      → at < size
      → length xs < size
      → index ≡ (at + length xs) % size
      → Lies buffer size at xs
      → Lies (set buffer index v) size at (xs ++ (v ∷ []))
  Lies-set buffer size v at index [] big h n e l =
      let here : index ≡ at = e ∙ ap (λ (t : ℕ). t % size) (add-zero at) ∙ mod-eq_of_lt h in
      (rw here (get_elem?-set_self buffer at v (omega arith)), tt)
  Lies-set buffer size v at index (x ∷ xs) big h n e l =
      let apart : index ≢ at = rw e (ahead size at (length xs) h n) in
      (
        get_elem?-set_ne buffer v apart ∙ l.0,
        Lies-set buffer size v ((at + 1) % size) index xs big (omega arith) (omega arith)
            (e ∙ turn size at (length xs)) l.1,
      )

  -- `pthread_queue_enqueue` on a queue with room adds the item behind the others.
  pub store-Holds :
      {q : Queue A} (v : A) {xs : List A}
      → Holds q xs
      → length xs < q.size
      → Holds (store q v) (xs ++ (v ∷ []))
  unfolding store
  store-Holds {q} v {xs} h n = record {
    room = omega (arith, h.room, length-set q.buffer q.input v);
    output_in = h.output_in;
    counted = omega (arith, h.counted, length-append xs (v ∷ []));
    fits = omega (arith, h.counted);
    input_at = ap (λ (t : ℕ). (t + 1) % q.size) h.input_at ∙ step_mod q.size q.output q.items;
    lies =
        Lies-set q.buffer q.size v q.output q.input xs h.room h.output_in n
          (h.input_at ∙ ap (λ (t : ℕ). (q.output + t) % q.size) h.counted) h.lies;
  }

  -- `pthread_queue_dequeue` on a queue with items takes the oldest.
  pub fetch-Holds :
      {q : Queue A} {x : A} {xs : List A}
      → Holds q (x ∷ xs)
      → (get_elem? q.buffer q.output ≡ some x) × Holds (fetch q) xs
  unfolding fetch
  fetch-Holds {q} {x} {xs} h = (
    h.lies.0,
    record {
      room = h.room;
      output_in = omega (arith, h.output_in);
      counted = omega (arith, h.counted);
      fits = omega (arith, h.fits);
      input_at =
          h.input_at
          ∙ ap (λ (t : ℕ). (q.output + t) % q.size) h.counted
          ∙ turn q.size q.output (length xs)
          ∙ ap (λ (t : ℕ). ((q.output + 1) % q.size + t) % q.size) (omega (arith, h.counted));
      lies = h.lies.1;
    },
  )

  -- A new queue is empty.
  pub create-Holds :
      (buffer : List A) (n : ℕ) {q : Queue A}
      → 0 < n
      → n ≤ length buffer
      → create true (some buffer) true n ≡ some q
      → Holds q []
  unfolding create
  create-Holds buffer n {q} pos big e =
      subst (λ r. Holds r []) (some-injective _ _ e)
        (record {
          room = big;
          output_in = pos;
          counted = refl;
          fits = omega arith;
          input_at = omega arith;
          lies = tt;
        })
