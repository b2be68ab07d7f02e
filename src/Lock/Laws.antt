-- ===== src/Lock/Laws.antt =====
-- Who holds a lock of server/services/distributedLockService.js, and what takes it away.
use lavish_fashion.Prelude.{
  ℕ, ◌+◌, ◌<◌, ◌≡◌, ◌↔◌, inl, inr, refl, sym, ◌∙◌, ==_refl, true, false, some, List, [], ◌∷◌, All,
  find_by, find_by-append, find_by-update_by_self, Bool-cases, Option-cases,
}
use lavish_fashion.Lock.{
  Lock, lock_key, expired, take_lock, new_lock, acquire_distributed_lock, release_distributed_lock,
  refresh_distributed_lock,
}
use lavish_fashion.Lock.Keeps.{
  Holds, Call, time_of, is_call_of, run_call, run_calls, lt→leb, find_kept, acquire_missing,
  acquire_expired, acquire_held, acquire-keeps, release-keeps, refresh-keeps, acquires, releases,
  refreshes, expires,
}

-- One call that its owner a does not make, before the lock expires, leaves a's lock.
call-Holds :
    (a k t : ℕ) (c : Call) (locks : List Lock)
    → is_call_of a c ≡ false
    → time_of c < t
    → Holds a k t locks
    → Holds a k t (run_call c locks)
unfolding run_call is_call_of time_of release_distributed_lock refresh_distributed_lock
call-Holds a k t (acquires now j owner ttl) locks foreign early (l, there, o, e) =
    (l, acquire-keeps now j owner ttl k t locks l there e early, o, e)
call-Holds a k t (releases now j owner) locks foreign early (l, there, o, e) =
    (l, release-keeps now j owner a k locks l there o foreign, o, e)
call-Holds a k t (refreshes now j owner ttl) locks foreign early (l, there, o, e) =
    (l, refresh-keeps now j owner ttl a k locks l there o foreign, o, e)
call-Holds a k t (expires now) locks foreign early (l, there, o, e) =
    (l, find_kept now t k locks l there e early, o, e)

-- Mutual exclusion: while an owner holds a lock, no calls of others that come before its expiry,
-- in whatever number and order, the database dropping expired locks included, take it away; and
-- whoever else then tries to acquire it before the expiry is refused and changes nothing.
pub run_calls-Holds :
    (a k t : ℕ) (cs : List Call) (locks : List Lock)
    → All (λ c. (is_call_of a c ≡ false) × (time_of c < t)) cs
    → Holds a k t locks
    → Holds a k t (run_calls cs locks)
      × ((now owner ttl : ℕ)
          → now < t
          → ((acquire_distributed_lock now k owner ttl (run_calls cs locks)).0.acquired ≡ false)
            × ((acquire_distributed_lock now k owner ttl (run_calls cs locks)).1
                ≡ run_calls cs locks))
unfolding run_calls acquire_distributed_lock
run_calls-Holds a k t [] locks h (l, there, o, e) = (
  (l, there, o, e),
  λ now owner ttl early.
      rw (acquire_held now k owner ttl locks l there (rw e (lt→leb t now early))) (refl, refl),
)
run_calls-Holds a k t (c ∷ cs) locks (h, hs) holds =
    run_calls-Holds a k t cs (run_call c locks) hs (call-Holds a k t c locks h.0 h.1 holds)

-- Acquiring a lock succeeds exactly when it is not there or has expired (or has no expiry), and
-- then its caller holds it for the time to live that was asked for.
pub acquire_iff :
    (now k owner ttl : ℕ) (locks : List Lock)
    → (((acquire_distributed_lock now k owner ttl locks).0.acquired ≡ true)
        ↔ ((l : Lock) → find_by lock_key k locks ≡ some l → expired now l.expires_at ≡ true))
      × ((acquire_distributed_lock now k owner ttl locks).0.acquired ≡ true
          → Holds owner k (now + ttl) (acquire_distributed_lock now k owner ttl locks).1)
unfolding acquire_distributed_lock
acquire_iff now k owner ttl locks = elim (Option-cases (find_by lock_key k locks)) [
  | inl missing ↦ rw (acquire_missing now k owner ttl locks missing) (
    ((λ h l there. cc), λ h. refl),
    λ h. (
      new_lock now k owner ttl,
      find_by-append lock_key k locks (new_lock now k owner ttl) missing ∙ rw (==_refl k),
      refl,
      refl,
    ),
  )
  | inr (l, there) ↦ elim (Bool-cases (expired now l.expires_at)) [
    | inl old ↦ rw (acquire_expired now k owner ttl locks l there old) (
      ((λ h m found. cc), λ h. refl),
      λ h. (
        take_lock now owner ttl l,
        find_by-update_by_self lock_key k (take_lock now owner ttl) locks l refl there,
        refl,
        refl,
      ),
    )
    | inr new ↦
        rw (acquire_held now k owner ttl locks l there new)
          (((λ h m found. cc), λ h. sym new ∙ h l there), λ h. cc)
  ]
]
