-- ===== src/Lock/Keeps.antt =====
-- Who holds a lock, and that no single call of another owner takes it away before it expires.
use lavish_fashion.Prelude.{
  ℕ, ◌<◌, ◌≡◌, inl, inr, refl, ◌∙◌, Bool, true, false, none, some, List, [], ◌∷◌, ◌++◌, find_by,
  update_by, find_by-update_by_ne, leb, ◌==◌, Bool-cases, Option-cases, arith,
}
use lavish_fashion.Lock.{
  Lock, lock_key, expired, take_lock, new_lock, free_lock, prolong, owned_by,
  acquire_distributed_lock, release_distributed_lock, refresh_distributed_lock, release_owned,
  refresh_owned, drop_expired,
}

-- Owner a holds the lock k until time t.
abbrev pub Holds : ℕ → ℕ → ℕ → List Lock → Type 0
Holds a k t locks =
    (l : Lock) × (find_by lock_key k locks ≡ some l)
    × (l.owner_id ≡ some a)
    × (l.expires_at ≡ some t)

-- A call of the service, at a time, by an owner, or the database dropping what has expired.
pub data Call : Type 0 where
  acquires : ℕ → ℕ → ℕ → ℕ → Call
  releases : ℕ → ℕ → ℕ → Call
  refreshes : ℕ → ℕ → ℕ → ℕ → Call
  expires : ℕ → Call

unfoldable pub time_of : Call → ℕ
time_of (acquires now k owner ttl) = now
time_of (releases now k owner) = now
time_of (refreshes now k owner ttl) = now
time_of (expires now) = now

-- The owner that makes the call, if one does.
unfoldable pub is_call_of : ℕ → Call → Bool
is_call_of a (acquires now k owner ttl) = owner == a
is_call_of a (releases now k owner) = owner == a
is_call_of a (refreshes now k owner ttl) = owner == a
is_call_of a (expires now) = false

unfoldable pub run_call : Call → List Lock → List Lock
unfolding acquire_distributed_lock release_distributed_lock refresh_distributed_lock
run_call (acquires now k owner ttl) locks = (acquire_distributed_lock now k owner ttl locks).1
run_call (releases now k owner) locks = (release_distributed_lock now (some k) (some owner) locks).1
run_call (refreshes now k owner ttl) locks =
    (refresh_distributed_lock now (some k) (some owner) ttl locks).1
run_call (expires now) locks = drop_expired now locks

unfoldable pub run_calls : List Call → List Lock → List Lock
unfolding run_call
run_calls [] locks = locks
run_calls (c ∷ cs) locks = run_calls cs (run_call c locks)

pub lt→leb : (t now : ℕ) → now < t → leb t now ≡ false
lt→leb t now h = ground arith

pub ne_sym : (a b : ℕ) → (a == b) ≡ false → (b == a) ≡ false
ne_sym a b h = ground arith

-- A write to another lock, or none to this one, leaves it where it is.
find_other :
    (k j : ℕ) (f : Lock → Lock) (locks : List Lock) (l : Lock)
    → ((x : Lock) → (f x).key ≡ x.key)
    → (k == j) ≡ false
    → find_by lock_key j locks ≡ some l
    → find_by lock_key j (update_by lock_key k f locks) ≡ some l
find_other k j f locks l same other there =
    find_by-update_by_ne lock_key k j f locks same (λ e. ground (arith, e)) ∙ there

find_append :
    (j : ℕ) (locks : List Lock) (x l : Lock)
    → find_by lock_key j locks ≡ some l
    → find_by lock_key j (locks ++ x ∷ []) ≡ some l
find_append j [] x l there = cc
find_append j (y ∷ ys) x l there = ground (arith, find_append j ys x l)

pub find_kept :
    (now t j : ℕ) (locks : List Lock) (l : Lock)
    → find_by lock_key j locks ≡ some l
    → l.expires_at ≡ some t
    → now < t
    → find_by lock_key j (drop_expired now locks) ≡ some l
unfolding drop_expired
find_kept now t j [] l there e early = cc
find_kept now t j (y ∷ ys) l there e early = ground (arith, find_kept now t j ys l)

same_lock :
    (j k : ℕ) (locks : List Lock) (l : Lock)
    → (j == k) ≡ true
    → find_by lock_key k locks ≡ some l
    → find_by lock_key j locks ≡ some l
same_lock j k locks l same there = ground (arith, there)

-- The three ends of `acquire_distributed_lock`.
pub acquire_missing :
    (now k owner ttl : ℕ) (locks : List Lock)
    → find_by lock_key k locks ≡ none
    → acquire_distributed_lock now k owner ttl locks ≡ (
      record { acquired = true; owner_id = owner; lock = some (new_lock now k owner ttl) },
      locks ++ new_lock now k owner ttl ∷ [],
    )
unfolding acquire_distributed_lock
acquire_missing now k owner ttl locks missing = rw (missing, acquire_distributed_lock)

pub acquire_expired :
    (now k owner ttl : ℕ) (locks : List Lock) (l : Lock)
    → find_by lock_key k locks ≡ some l
    → expired now l.expires_at ≡ true
    → acquire_distributed_lock now k owner ttl locks ≡ (
      record { acquired = true; owner_id = owner; lock = some (take_lock now owner ttl l) },
      update_by lock_key k (take_lock now owner ttl) locks,
    )
unfolding acquire_distributed_lock
acquire_expired now k owner ttl locks l there old = rw (there, acquire_distributed_lock) (rw old)

pub acquire_held :
    (now k owner ttl : ℕ) (locks : List Lock) (l : Lock)
    → find_by lock_key k locks ≡ some l
    → expired now l.expires_at ≡ false
    → acquire_distributed_lock now k owner ttl locks
      ≡ (record { acquired = false; owner_id = owner; lock = some l }, locks)
unfolding acquire_distributed_lock
acquire_held now k owner ttl locks l there new = rw (there, acquire_distributed_lock) (rw new)

pub acquire-keeps :
    (now j owner ttl k t : ℕ) (locks : List Lock) (l : Lock)
    → find_by lock_key k locks ≡ some l
    → l.expires_at ≡ some t
    → now < t
    → find_by lock_key k (acquire_distributed_lock now j owner ttl locks).1 ≡ some l
unfolding acquire_distributed_lock
acquire-keeps now j owner ttl k t locks l there e early = elim (Bool-cases (j == k)) [
  | inl same ↦
      rw
        (acquire_held now j owner ttl locks l (same_lock j k locks l same there)
          (rw e (lt→leb t now early)))
        there
  | inr other ↦ elim (Option-cases (find_by lock_key j locks)) [
    | inl missing ↦
        rw (missing, acquire_distributed_lock)
          (find_append k locks (new_lock now j owner ttl) l there)
    | inr (m, found) ↦ elim (Bool-cases (expired now m.expires_at)) [
      | inl old ↦
          rw (found, acquire_distributed_lock)
            (rw old (find_other j k (take_lock now owner ttl) locks l (λ x. refl) other there))
      | inr new ↦ rw (found, acquire_distributed_lock) (rw new there)
    ]
  ]
]

-- Release and refresh write only where the owner matches.
pub release-keeps :
    (now j owner a k : ℕ) (locks : List Lock) (l : Lock)
    → find_by lock_key k locks ≡ some l
    → l.owner_id ≡ some a
    → (owner == a) ≡ false
    → find_by lock_key k (release_owned now j owner locks).1 ≡ some l
unfolding release_owned
release-keeps now j owner a k locks l there o foreign = elim (Bool-cases (j == k)) [
  | inl same ↦
      rw (same_lock j k locks l same there, release_owned) (simp (o, ne_sym owner a foreign) there)
  | inr other ↦ elim (Option-cases (find_by lock_key j locks)) [
    | inl missing ↦ rw (missing, release_owned) there
    | inr (m, found) ↦ elim (Bool-cases (owned_by owner m.owner_id)) [
      | inl own ↦
          rw (found, release_owned)
            (rw own (find_other j k (free_lock now) locks l (λ x. refl) other there))
      | inr theirs ↦ rw (found, release_owned) (rw theirs there)
    ]
  ]
]

pub refresh-keeps :
    (now j owner ttl a k : ℕ) (locks : List Lock) (l : Lock)
    → find_by lock_key k locks ≡ some l
    → l.owner_id ≡ some a
    → (owner == a) ≡ false
    → find_by lock_key k (refresh_owned now j owner ttl locks).1 ≡ some l
unfolding refresh_owned
refresh-keeps now j owner ttl a k locks l there o foreign = elim (Bool-cases (j == k)) [
  | inl same ↦
      rw (same_lock j k locks l same there, refresh_owned) (simp (o, ne_sym owner a foreign) there)
  | inr other ↦ elim (Option-cases (find_by lock_key j locks)) [
    | inl missing ↦ rw (missing, refresh_owned) there
    | inr (m, found) ↦ elim (Bool-cases (owned_by owner m.owner_id)) [
      | inl own ↦
          rw (found, refresh_owned)
            (rw own (find_other j k (prolong now ttl) locks l (λ x. refl) other there))
      | inr theirs ↦ rw (found, refresh_owned) (rw theirs there)
    ]
  ]
]
