-- ===== src/Lock.antt =====
-- server/services/distributedLockService.js: locks with an owner and an expiry, as documents of
-- server/models/distributedLockModel.js, whose keys are unique. Keys, owners and times are numbers;
-- the metadata is left out.
pub mod Keeps
pub mod Laws
pub mod Job
mod Tests
use lavish_fashion.Prelude.{
  ℕ, ◌+◌, ◌/◌, Bool, true, false, not, ◌&&◌, Option, none, some, List, [], ◌∷◌, ◌++◌, keep_if,
  find_by, update_by, ltb, leb, ◌==◌, if◌then◌else◌, pos, negsuc,
}
use lavish_fashion.Money.{JsNumber, nan, infinite, finite, unit}

-- `owner_id` is `none` for the empty text, and `expires_at` for null.
pub record Lock : Type 0 where
  pub key : ℕ
  pub owner_id : Option ℕ
  pub expires_at : Option ℕ
  pub last_acquired_at : Option ℕ
  pub last_released_at : Option ℕ

abbrev pub lock_key : Lock → ℕ
lock_key l = l.key

abbrev pub default_lock_ttl_ms : ℕ
default_lock_ttl_ms = 60_000

-- A value that is finite and positive is cut to its whole part, which may be 0.
unfoldable pub get_lock_ttl_ms : JsNumber → ℕ
get_lock_ttl_ms (finite (pos n)) = if ltb 0 n then n / unit else default_lock_ttl_ms
get_lock_ttl_ms _ = default_lock_ttl_ms

abbrev pub expired : ℕ → Option ℕ → Bool
expired now none = true
expired now (some t) = leb t now

pub record Acquired : Type 0 where
  pub acquired : Bool
  pub owner_id : ℕ
  pub lock : Option Lock

abbrev pub take_lock : ℕ → ℕ → ℕ → Lock → Lock
take_lock now owner ttl l = record l {
  owner_id = some owner;
  expires_at = some (now + ttl);
  last_acquired_at = some now;
}

-- What the upsert inserts.
abbrev pub new_lock : ℕ → ℕ → ℕ → ℕ → Lock
new_lock now k owner ttl = record {
  key = k;
  owner_id = some owner;
  expires_at = some (now + ttl);
  last_acquired_at = some now;
  last_released_at = none;
}

-- The upsert: a document that matches is changed; without one it inserts, which the unique key
-- refuses if the lock is there, and then the lock is only read.
unfoldable pub acquire_distributed_lock : ℕ → ℕ → ℕ → ℕ → List Lock → Acquired × List Lock
acquire_distributed_lock now k owner ttl locks = elim (find_by lock_key k locks) [
  | none ↦ (
    record { acquired = true; owner_id = owner; lock = some (new_lock now k owner ttl) },
    locks ++ new_lock now k owner ttl ∷ [],
  )
  | some l ↦
      if expired now l.expires_at
      then (
        record { acquired = true; owner_id = owner; lock = some (take_lock now owner ttl l) },
        update_by lock_key k (take_lock now owner ttl) locks,
      )
      else (record { acquired = false; owner_id = owner; lock = some l }, locks)
]

abbrev pub owned_by : ℕ → Option ℕ → Bool
owned_by owner none = false
owned_by owner (some o) = o == owner

abbrev pub free_lock : ℕ → Lock → Lock
free_lock now l = record l { owner_id = none; expires_at = some 0; last_released_at = some now }

-- Behind the test that both arguments are given.
unfoldable pub release_owned : ℕ → ℕ → ℕ → List Lock → Bool × List Lock
release_owned now k owner locks = elim (find_by lock_key k locks) [
  | none ↦ (false, locks)
  | some l ↦
      if owned_by owner l.owner_id
      then (true, update_by lock_key k (free_lock now) locks)
      else (false, locks)
]

unfoldable pub release_distributed_lock : ℕ → Option ℕ → Option ℕ → List Lock → Bool × List Lock
unfolding release_owned
release_distributed_lock now (some k) (some owner) locks = release_owned now k owner locks
release_distributed_lock now _ _ locks = (false, locks)

abbrev pub prolong : ℕ → ℕ → Lock → Lock
prolong now ttl l = record l { expires_at = some (now + ttl); last_acquired_at = some now }

unfoldable pub refresh_owned : ℕ → ℕ → ℕ → ℕ → List Lock → Option Lock × List Lock
refresh_owned now k owner ttl locks = elim (find_by lock_key k locks) [
  | none ↦ (none, locks)
  | some l ↦
      if owned_by owner l.owner_id
      then (some (prolong now ttl l), update_by lock_key k (prolong now ttl) locks)
      else (none, locks)
]

unfoldable pub refresh_distributed_lock :
    ℕ → Option ℕ → Option ℕ → ℕ → List Lock → Option Lock × List Lock
unfolding refresh_owned
refresh_distributed_lock now (some k) (some owner) ttl locks = refresh_owned now k owner ttl locks
refresh_distributed_lock now _ _ ttl locks = (none, locks)

unfoldable pub get_distributed_lock : Option ℕ → List Lock → Option Lock
get_distributed_lock none locks = none
get_distributed_lock (some k) locks = find_by lock_key k locks

-- The index on `expiresAt` lets the database drop a document once its time has come.
unfoldable pub drop_expired : ℕ → List Lock → List Lock
drop_expired now locks = keep_if (λ l. not (has_passed now l.expires_at)) locks
  where
    has_passed : ℕ → Option ℕ → Bool
    has_passed now none = false
    has_passed now (some t) = leb t now
