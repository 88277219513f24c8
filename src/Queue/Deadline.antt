-- ===== src/Queue/Deadline.antt =====
-- The absolute time at which a wait ends, as both calls of pthread_queue.c compute it.
use cubesat_space_protocol.Base.{
  ℕ, ◌+◌, ◌-◌, ◌*◌, ◌/◌, ◌%◌, ◌<◌, ◌≡◌, ltb, ◌==◌, if◌then◌else◌, arith,
}

-- `struct timespec`
pub record Timespec : Type 0 where
  pub sec : ℕ
  pub nsec : ℕ

-- From the time now and a timeout in milliseconds that is not negative.
pub deadline : Timespec → ℕ → Timespec
deadline ts timeout =
    let sec = timeout / 1000 in
    let nsec = (timeout - 1000 * sec) * 1000000 in
    record {
      sec = (if ltb 1000000000 (ts.nsec + nsec) then ts.sec + sec + 1 else ts.sec + sec);
      nsec = (ts.nsec + nsec) % 1000000000;
    }

abbrev pub nanoseconds : Timespec → ℕ
nanoseconds ts = ts.sec * 1000000000 + ts.nsec

-- The wait ends the timeout after now, except where the nanoseconds add up to exactly a second:
-- then no second is carried, and the wait ends a second early.
pub deadline_lem :
    (ts : Timespec) (timeout : ℕ)
    → ts.nsec < 1000000000
    → (nanoseconds (deadline ts timeout)
          + (if ts.nsec + timeout % 1000 * 1000000 == 1000000000 then 1000000000 else 0)
        ≡ nanoseconds ts + timeout * 1000000)
      × ((deadline ts timeout).nsec < 1000000000)
unfolding deadline
deadline_lem ts timeout h = ground arith
