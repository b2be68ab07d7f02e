-- ===== src/Lock/Tests.antt =====
-- Instances of the theorems on locks and locked jobs.
use lavish_fashion.Prelude.{
  ℕ, All, leb, ◌==◌, ◌+◌, ◌≡◌, ◌<◌, refl, Bool, true, false, List, ◌∷◌, [], ◌++◌, Result, ok, arith,
}
use lavish_fashion.Lock.{Lock, drop_expired, new_lock, acquire_distributed_lock}
use lavish_fashion.Lock.Keeps.{
  Call, Holds, acquires, releases, expires, time_of, is_call_of, run_calls,
}
use lavish_fashion.Lock.Laws.{run_calls-Holds}
use lavish_fashion.Lock.Job.{Site, outcome_of, mark_of, marked_started, run_locked_job}
use lavish_fashion.Lock.Job.Runs.{run_locked_job_held, run_locked_job_releases}

-- Owner 7 holds the lock 1 until 1000.
abbrev held_locks : List Lock
held_locks = new_lock 400 1 7 600 ∷ []

abbrev attempts : List Call
attempts = acquires 500 1 8 100 ∷ releases 600 1 8 ∷ expires 700 ∷ []

held_by_7 : Holds 7 1 1000 held_locks
held_by_7 = (new_lock 400 1 7 600, refl, refl, refl)

run_calls-Holds_example :
    Holds 7 1 1000 (run_calls attempts held_locks)
    × ((now owner ttl : ℕ)
        → now < 1000
        → ((acquire_distributed_lock now 1 owner ttl (run_calls attempts held_locks)).0.acquired
            ≡ false)
          × ((acquire_distributed_lock now 1 owner ttl (run_calls attempts held_locks)).1
              ≡ run_calls attempts held_locks))
unfolding is_call_of time_of
run_calls-Holds_example =
    run_calls-Holds 7 1 1000 attempts held_locks
      ((refl, omega arith), ((refl, omega arith), ((refl, omega arith), tt))) held_by_7

-- A job that counts its runs.
abbrev count_run : ℕ → Result Bool ℕ × ℕ
count_run n = (ok n, n + 1)

abbrev site : Site ℕ
site = record { locks = held_locks; marks = []; world = 3 }

-- Another owner tries, and the database drops what has expired.
abbrev others : List Call
others = acquires 2050 1 9 100 ∷ expires 2090 ∷ []

run_locked_job_held_example :
    run_locked_job false (run_calls attempts) 500 510 1 6 100 count_run site ≡ (
      outcome_of (count_run 3).0,
      record {
        locks = run_calls attempts held_locks;
        marks = [] ++ marked_started ∷ mark_of (count_run 3).0 ∷ [];
        world = 4;
      },
    )
unfolding run_calls drop_expired
run_locked_job_held_example =
    run_locked_job_held 500 510 1 6 100 count_run site false (run_calls attempts) 7 1000 held_by_7
      (omega arith) refl

run_locked_job_releases_example :
    let r = run_locked_job true (run_calls others) 2000 2100 1 8 500 count_run site in
    let left = run_calls others (acquire_distributed_lock 2000 1 8 500 held_locks).1 in
    (r.0 ≡ outcome_of (count_run 3).0)
    × (All (λ c. (is_call_of 8 c ≡ false) × (time_of c < 2500)) others
        → (now' owner' ttl' : ℕ)
        → (acquire_distributed_lock now' 1 owner' ttl' r.1.locks).0.acquired ≡ leb 2500 now')
    × ((a t : ℕ) → Holds a 1 t left → (8 == a) ≡ false → r.1.locks ≡ left)
unfolding acquire_distributed_lock
run_locked_job_releases_example =
    run_locked_job_releases 2000 2100 1 8 500 count_run site true others refl
