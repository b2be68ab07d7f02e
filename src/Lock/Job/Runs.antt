-- ===== src/Lock/Job/Runs.antt =====
-- What the lock does for `runLockedJob`: it is released, but not waited for.
use lavish_fashion.Prelude.{
  ℕ, ◌+◌, Bool, none, Option-cases, Bool-cases, inl, inr, sym, ◌∙◌, All, if◌then◌else◌, ◌≡◌, ◌<◌,
  refl, true, false, some, List, ◌∷◌, [], ◌++◌, Result, find_by, find_by-update_by_self, ◌==◌, leb,
  ==_refl, arith,
}
use lavish_fashion.Lock.{
  owned_by, Lock, lock_key, free_lock, acquire_distributed_lock, release_distributed_lock,
  release_owned,
}
use lavish_fashion.Lock.Keeps.{
  Holds, Call, time_of, is_call_of, run_calls, acquire_held, acquire_expired, lt→leb, ne_sym,
}
use lavish_fashion.Lock.Laws.{acquire_iff, run_calls-Holds}
use lavish_fashion.Lock.Job.{
  Site, mark_of, outcome_of, marked_started, is_missing, release_at_end, run_unskipped,
  run_locked_job,
}

leb_zero : (n : ℕ) → leb 0 n ≡ true
leb_zero n = ground arith

release_held :
    (now a k t : ℕ) (locks : List Lock)
    → Holds a k t locks
    → (l : Lock) × (find_by lock_key k (release_owned now k a locks).1 ≡ some l)
      × (l.expires_at ≡ some 0)
unfolding release_owned
release_held now a k t locks (l, there, o, e) = (
  free_lock now l,
  rw (there, release_owned)
      (simp (o, ==_refl a) (find_by-update_by_self lock_key k (free_lock now) locks l refl there)),
  refl,
)

-- Whether the owner has the lock k.
abbrev pub owns : ℕ → ℕ → List Lock → Bool
owns owner k locks = elim (find_by lock_key k locks) [
  | none ↦ false
  | some l ↦ owned_by owner l.owner_id
]

owns-found :
    (owner k : ℕ) (locks : List Lock) (l : Lock)
    → find_by lock_key k locks ≡ some l
    → owns owner k locks ≡ owned_by owner l.owner_id
owns-found owner k locks l there = rw (there, owns) refl

release_foreign :
    (now owner k : ℕ) (locks : List Lock)
    → owns owner k locks ≡ false
    → (release_owned now k owner locks).1 ≡ locks
unfolding release_owned
release_foreign now owner k locks foreign = elim (Option-cases (find_by lock_key k locks)) [
  | inl missing ↦ rw (missing, release_owned) refl
  | inr (l, there) ↦
      rw (there, release_owned) (rw (sym (owns-found owner k locks l there) ∙ foreign) refl)
]

release_at_end-foreign :
    (release_fails : Bool) (now owner k : ℕ) (locks : List Lock)
    → owns owner k locks ≡ false
    → release_at_end release_fails now k owner locks ≡ locks
unfolding release_at_end release_distributed_lock
release_at_end-foreign true now owner k locks foreign = refl
release_at_end-foreign false now owner k locks foreign = release_foreign now owner k locks foreign

Holds-owns :
    (owner a k t : ℕ) (locks : List Lock)
    → (owner == a) ≡ false
    → Holds a k t locks
    → owns owner k locks ≡ false
Holds-owns owner a k t locks foreign (l, there, o, e) =
    owns-found owner k locks l there ∙ simp (o, ne_sym owner a foreign)

-- Who asks for a lock after the release of its owner gets it, or, if that throws, once it expires.
released :
    (release_fails : Bool) (later now' owner' ttl' a k t : ℕ) (locks : List Lock)
    → Holds a k t locks
    → (acquire_distributed_lock now' k owner' ttl'
        (release_at_end release_fails later k a locks)).0.acquired
      ≡ (if release_fails then leb t now' else true)
unfolding release_at_end release_distributed_lock acquire_distributed_lock
released false later now' owner' ttl' a k t locks holds =
    let (l, there, gone) = release_held later a k t locks holds in
    rw (
      acquire_expired now' k owner' ttl' (release_owned later k a locks).1 l there
        (rw gone (leb_zero now')))
released true later now' owner' ttl' a k t locks (l, there, o, e) = elim (Bool-cases (leb t now')) [
  | inl old ↦ rw (acquire_expired now' k owner' ttl' locks l there (rw e old)) (sym old)
  | inr new ↦ rw (acquire_held now' k owner' ttl' locks l there (rw e new)) (sym new)
]

module _ {W E A : Type 0} (now later k owner ttl : ℕ) (fn : W → Result E A × W) (s : Site W) where
  -- While another owner holds the lock of a job, beyond the time of the call, `runLockedJob` does
  -- not skip the job: it runs it, marks it as started and ended, returns what it gives, and leaves
  -- the locks as others made them meanwhile, whether or not its release throws; the others do not
  -- make this run the holder of that lock.
  pub run_locked_job_held :
      (release_fails : Bool) (meanwhile : List Lock → List Lock) (a t : ℕ)
      → Holds a k t s.locks
      → now < t
      → owns owner k (meanwhile s.locks) ≡ false
      → run_locked_job release_fails meanwhile now later k owner ttl fn s ≡ (
        outcome_of (fn s.world).0,
        record {
          locks = meanwhile s.locks;
          marks = s.marks ++ marked_started ∷ mark_of (fn s.world).0 ∷ [];
          world = (fn s.world).1;
        },
      )
  unfolding run_locked_job run_unskipped is_missing
  run_locked_job_held release_fails meanwhile a t (l, there, o, e) early foreign =
      rw (acquire_held now k owner ttl s.locks l there (rw e (lt→leb t now early)))
        (rw (release_at_end-foreign release_fails later owner k (meanwhile s.locks) foreign))

  -- When the lock is free or expired at the time of the call, the job runs and its result is
  -- returned. Say that others make any calls of the lock service meanwhile. If none of them has
  -- the owner of this run and all come before its time to live is over, then afterwards whoever asks
  -- for the lock gets it, or, if the release at the end throws, gets it exactly from the end of the
  -- time to live on. If another owner has taken the lock over by the end, the job leaves all locks
  -- as they are.
  pub run_locked_job_releases :
      (release_fails : Bool) (cs : List Call)
      → (acquire_distributed_lock now k owner ttl s.locks).0.acquired ≡ true
      → let r = run_locked_job release_fails (run_calls cs) now later k owner ttl fn s in
        let left = run_calls cs (acquire_distributed_lock now k owner ttl s.locks).1 in
        (r.0 ≡ outcome_of (fn s.world).0)
        × (All (λ c. (is_call_of owner c ≡ false) × (time_of c < now + ttl)) cs
            → (now' owner' ttl' : ℕ)
            → (acquire_distributed_lock now' k owner' ttl' r.1.locks).0.acquired
              ≡ (if release_fails then leb (now + ttl) now' else true))
        × ((a t : ℕ) → Holds a k t left → (owner == a) ≡ false → r.1.locks ≡ left)
  unfolding run_locked_job run_unskipped is_missing
  run_locked_job_releases release_fails cs free =
      let locks = (acquire_distributed_lock now k owner ttl s.locks).1 in
      let mine = (acquire_iff now k owner ttl s.locks).1 free in
      (
        refl,
        λ others now' owner' ttl'.
            released release_fails later now' owner' ttl' owner k (now + ttl) (run_calls cs locks)
              (run_calls-Holds owner k (now + ttl) cs locks others mine).0,
        λ a t theirs foreign.
            release_at_end-foreign release_fails later owner k (run_calls cs locks)
              (Holds-owns owner a k t (run_calls cs locks) foreign theirs),
      )
