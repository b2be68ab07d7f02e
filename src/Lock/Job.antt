-- ===== src/Lock/Job.antt =====
-- server/jobs/_runLockedJob.js: a job that is run under a lock. The marks are the writes of
-- server/services/systemJobStateService.js, whose failures are swallowed.
-- An error of acquireDistributedLock, which leaves runLockedJob before anything happens, is left out.
pub mod Runs
use lavish_fashion.Prelude.{
  ℕ, Bool, true, false, some, List, [], ◌∷◌, ◌++◌, Result, ok, err, if◌then◌else◌,
}
use lavish_fashion.Lock.{Lock, Acquired, acquire_distributed_lock, release_distributed_lock}

pub data JobMark : Type 0 where
  marked_skipped marked_started marked_completed marked_failed : JobMark

-- `fn` acts on a world W of its own and returns or throws.
pub data JobResult (E A : Type 0) : Type 0 where
  skipped : JobResult E A
  finished : A → JobResult E A
  broken : E → JobResult E A

-- The test `!lock` on what acquireDistributedLock returns, which is always an object.
is_missing : Acquired → Bool
is_missing a = false

pub record Site (W : Type 0) : Type 0 where
  pub locks : List Lock
  pub marks : List JobMark
  pub world : W

module _ {E A : Type 0} where
  abbrev pub mark_of : Result E A → JobMark
  mark_of (ok a) = marked_completed
  mark_of (err e) = marked_failed

  abbrev pub outcome_of : Result E A → JobResult E A
  outcome_of (ok a) = finished a
  outcome_of (err e) = broken e

-- The release of the `finally`; one that throws is only logged.
release_at_end : Bool → ℕ → ℕ → ℕ → List Lock → List Lock
unfolding release_distributed_lock
release_at_end true later k owner locks = locks
release_at_end false later k owner locks =
    (release_distributed_lock later (some k) (some owner) locks).1

module _ {W E A : Type 0} where
  -- The run behind the skip; `later` is the time it ends, and `meanwhile` is what others do to the
  -- locks before that.
  run_unskipped :
      Bool
      → (List Lock → List Lock)
      → ℕ
      → ℕ
      → ℕ
      → (W → Result E A × W)
      → Site W
      → JobResult E A × Site W
  unfolding release_at_end
  run_unskipped release_fails meanwhile later k owner fn s =
      let (r, w) = fn s.world in
      (
        outcome_of r,
        record {
          locks = release_at_end release_fails later k owner (meanwhile s.locks);
          marks = s.marks ++ marked_started ∷ mark_of r ∷ [];
          world = w;
        },
      )

  unfoldable pub run_locked_job :
      Bool
      → (List Lock → List Lock)
      → ℕ
      → ℕ
      → ℕ
      → ℕ
      → ℕ
      → (W → Result E A × W)
      → Site W
      → JobResult E A × Site W
  unfolding acquire_distributed_lock is_missing run_unskipped
  run_locked_job release_fails meanwhile now later k owner ttl fn s =
      let (a, locks) = acquire_distributed_lock now k owner ttl s.locks in
      if is_missing a
      then (skipped, record s { marks = s.marks ++ marked_skipped ∷ [] })
      else run_unskipped release_fails meanwhile later k owner fn (record s { locks = locks })
