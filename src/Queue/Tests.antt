-- ===== src/Queue/Tests.antt =====
-- The theorems on the ring at concrete queues.
use cubesat_space_protocol.Base.{ℕ, ◌≡◌, [], ◌∷◌, some, true, refl, arith}
use cubesat_space_protocol.Queue.{Queue, ok, enqueue, dequeue}
use cubesat_space_protocol.Queue.Contents.{Holds}
use cubesat_space_protocol.Queue.Fifo.{push, pop}
use cubesat_space_protocol.Queue.Deadline.{Timespec}
use cubesat_space_protocol.Queue.Refine.{is_ok, view, Took, enqueue_refines, dequeue_refines}

-- 8, then 9, round the end of the buffer.
abbrev wrapped : Queue ℕ
wrapped = record { buffer = 9 ∷ 7 ∷ 8 ∷ []; size = 3; items = 2; input = 1; output = 2 }

abbrev full : Queue ℕ
full = record { buffer = 1 ∷ 2 ∷ 3 ∷ []; size = 3; items = 3; input = 0; output = 0 }

wrapped-Holds : Holds wrapped (8 ∷ 9 ∷ [])
wrapped-Holds = record {
  room = omega arith;
  output_in = omega arith;
  counted = refl;
  fits = omega arith;
  input_at = refl;
  lies = (refl, (refl, tt));
}

full-Holds : Holds full (1 ∷ 2 ∷ 3 ∷ [])
full-Holds = record {
  room = omega arith;
  output_in = omega arith;
  counted = refl;
  fits = omega arith;
  input_at = refl;
  lies = (refl, (refl, (refl, tt)));
}

dequeue_runs :
    dequeue true [] wrapped
    ≡ (ok, some 8, record { buffer = 9 ∷ 7 ∷ 8 ∷ []; size = 3; items = 1; input = 1; output = 0 })
unfolding dequeue
dequeue_runs = refl

enqueue_refines_example :
    let (s, q') = enqueue true [] wrapped 4 in
    let (b, f) = push (view wrapped (8 ∷ 9 ∷ [])) 4 in
    (is_ok s ≡ b) × Holds q' f.content × (q'.size ≡ f.capacity)
enqueue_refines_example = enqueue_refines 4 wrapped-Holds

dequeue_refines_example : Took wrapped (dequeue true [] wrapped) (pop (view wrapped (8 ∷ 9 ∷ [])))
dequeue_refines_example = dequeue_refines (8 ∷ 9 ∷ []) wrapped-Holds

abbrev half_past : Timespec
half_past = record { sec = 10; nsec = 500000000 }
