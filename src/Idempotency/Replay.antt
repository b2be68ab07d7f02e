-- ===== src/Idempotency/Replay.antt =====
-- A request under a key runs once, and its response is what every repetition gets.
use lavish_fashion.Prelude.{
  Bool, false, not, leb, keep_if, ◌≤◌, le→leb, inl, inr, Bool-cases, ℕ, ◌+◌, ◌≡◌, ◌<◌, refl, ap,
  ◌∙◌, true, none, some, List, [], ◌∷◌, ◌++◌, All, update_by-append_last, find_by, ◌==◌,
  if◌then◌else◌, arith,
}
use lavish_fashion.Lock.Keeps.{lt→leb}
use lavish_fashion.Idempotency.{
  key_ttl_ms, drop_expired_keys, Request, Body, KeyRecord, Keys, record_key, conflict,
  in_progress_reply, replay, proceed, is_for, find_record, answer, in_progress, look_up, new_record,
  create_record, begin_idempotent_request, complete, complete_idempotent_request,
}

-- Ids of records are given once.
abbrev pub HasNewIds : Keys → Type 0
HasNewIds keys = All (λ r. r.id < keys.next_id) keys.records

find_new : (n : ℕ) (rs : List KeyRecord) → All (λ r. r.id < n) rs → find_by record_key n rs ≡ none
find_new n [] h = refl
find_new n (r ∷ rs) h = ground (arith, find_new n rs h.1)

find_record-append :
    (q : Request) (rs : List KeyRecord) (r : KeyRecord)
    → find_record q rs ≡ none
    → is_for q r ≡ true
    → find_record q (rs ++ r ∷ []) ≡ some r
find_record-append q [] r h fits = rw fits
find_record-append q (x ∷ xs) r h fits = ground (arith, find_record-append q xs r)

if_kept : (b : Bool) (x : KeyRecord) → b ≡ false → (if not b then some x else none) ≡ some x
if_kept b x h = rw h refl

if_gone : (b : Bool) (x : KeyRecord) → b ≡ true → (if not b then some x else none) ≡ none
if_gone b x h = rw h refl

-- A sweep keeps the last record or not, and those before it are about other requests.
swept_found :
    (p : KeyRecord → Bool) (q : Request) (rs : List KeyRecord) (r : KeyRecord)
    → find_record q rs ≡ none
    → is_for q r ≡ true
    → find_record q (keep_if p (rs ++ r ∷ [])) ≡ (if p r then some r else none)
swept_found p q [] r h fits = elim (Bool-cases (p r)) [
  | inl kept ↦ rw kept (rw fits refl)
  | inr gone ↦ rw gone refl
]
swept_found p q (x ∷ xs) r h fits = ground (arith, swept_found p q xs r)

is_for-new :
    (hash : ℕ → ℕ) (now id : ℕ) (q q' : Request)
    → q'.user_id ≡ q.user_id
    → q'.scope ≡ q.scope
    → q'.key ≡ q.key
    → is_for q' (new_record hash now id q) ≡ true
is_for-new hash now id q q' u s k = ground (arith, u, s, k)

unknown' :
    (q q' : Request) (rs : List KeyRecord)
    → q'.user_id ≡ q.user_id
    → q'.scope ≡ q.scope
    → q'.key ≡ q.key
    → find_record q rs ≡ none
    → find_record q' rs ≡ none
unknown' q q' [] u s k h = refl
unknown' q q' (r ∷ rs) u s k h = ground (arith, u, s, k, unknown' q q' rs u s k)

module _ (hash : ℕ → ℕ) (now : ℕ) (q q' : Request) (keys : Keys) (u : q'.user_id ≡ q.user_id)
    (s : q'.scope ≡ q.scope) (k : q'.key ≡ q.key)
    (unknown : find_record q keys.records ≡ none) where
  abbrev pub begun : Keys
  begun = record {
    records = keys.records ++ new_record hash now keys.next_id q ∷ [];
    next_id = keys.next_id + 1;
  }

  begins : begin_idempotent_request hash now q keys ≡ (proceed keys.next_id, begun)
  unfolding begin_idempotent_request look_up create_record
  begins = rw (unknown, begin_idempotent_request) (rw (unknown, create_record))

  known : find_record q' begun.records ≡ some (new_record hash now keys.next_id q)
  known =
      find_record-append q' keys.records (new_record hash now keys.next_id q)
        (unknown' q q' keys.records u s k unknown) (is_for-new hash now keys.next_id q q' u s k)

  again :
      (later : ℕ)
      → begin_idempotent_request hash later q' begun
        ≡ (answer (hash q'.payload) (new_record hash now keys.next_id q) in_progress, begun)
  unfolding begin_idempotent_request look_up
  again later = rw (known, begin_idempotent_request)

  -- Two requests with one user, scope and key, which is not known yet: both may look before either
  -- inserts. The one that inserts first goes on; the other is told that a request is running if it
  -- inserts after that, and if it only looks after that, it is told the same or, if the hash of
  -- its payload is another, that there is a conflict. Neither answer writes anything. The database
  -- drops no record between the requests.
  pub begin_race :
      (later : ℕ)
      → (look_up hash q keys ≡ none)
        × (look_up hash q' keys ≡ none)
        × (begin_idempotent_request hash now q keys ≡ (proceed keys.next_id, begun))
        × (create_record hash later q' begun ≡ (in_progress_reply, begun))
        × (begin_idempotent_request hash later q' begun
            ≡ (if hash q.payload == hash q'.payload then in_progress_reply else conflict, begun))
  unfolding look_up create_record answer
  begin_race later = (
    (rw (unknown, look_up)),
    (rw (unknown' q q' keys.records u s k unknown, look_up)),
    begins,
    (rw (known, create_record)),
    again later ∙ ap (λ a. (a, begun)) (ground arith),
  )

  completes :
      (code : ℕ) (body : Body)
      → HasNewIds keys
      → (complete_idempotent_request (some keys.next_id) code body begun).records
        ≡ keys.records ++ complete code body (new_record hash now keys.next_id q) ∷ []
  unfolding complete_idempotent_request
  completes code body new =
      update_by-append_last record_key keys.next_id (complete code body) keys.records
        (new_record hash now keys.next_id q) (find_new keys.next_id keys.records new) refl

  swept :
      (code : ℕ) (body : Body)
      → HasNewIds keys
      → (swept_at : ℕ)
      → find_record q'
          (drop_expired_keys swept_at
            (complete_idempotent_request (some keys.next_id) code body begun)).records
        ≡ (if not (leb (now + key_ttl_ms) swept_at)
            then some (complete code body (new_record hash now keys.next_id q))
            else none)
  unfolding drop_expired_keys complete_idempotent_request
  swept code body new swept_at =
      let kept : KeyRecord → Bool = λ r. not (leb (r.created_at + key_ttl_ms) swept_at) in
      ap (λ rs. find_record q' (keep_if kept rs)) (completes code body new)
      ∙ swept_found kept q' keys.records (complete code body (new_record hash now keys.next_id q))
          (unknown' q q' keys.records u s k unknown) (is_for-new hash now keys.next_id q q' u s k)

  -- A request that went on is completed with a status that is not 0 and a body, and the database
  -- sweeps its records at some time. If that is less than 24 hours after the request, every
  -- repetition with the same payload gets that status and body then, and one with another payload
  -- (by its hash) is a conflict; neither writes anything. If it is later, the record is gone, and
  -- the first repetition, with any payload, goes on as a new request.
  pub begin_replays :
      (code : ℕ) (body : Body)
      → HasNewIds keys
      → 0 < code
      → (swept_at later : ℕ)
      → let done =
          drop_expired_keys swept_at
            (complete_idempotent_request (some keys.next_id) code body begun) in
        (swept_at < now + key_ttl_ms
          → begin_idempotent_request hash later q' done
            ≡ (if hash q.payload == hash q'.payload then replay code body else conflict, done))
        × (now + key_ttl_ms ≤ swept_at
            → (begin_idempotent_request hash later q' done).0 ≡ proceed done.next_id)
  unfolding begin_idempotent_request look_up answer create_record
  begin_replays code body new some_code swept_at later =
      let r = complete code body (new_record hash now keys.next_id q) in
      let done =
        drop_expired_keys swept_at
          (complete_idempotent_request (some keys.next_id) code body begun) in
      let found = swept code body new swept_at in
      (
        λ early.
            rw
              (
                found ∙ if_kept _ r (lt→leb (now + key_ttl_ms) swept_at early),
                begin_idempotent_request,
              )
              (ap (λ a. (a, done)) (ground (arith, some_code))),
        λ late.
            let gone = found ∙ if_gone _ r (le→leb (now + key_ttl_ms) swept_at late) in
            rw (gone, begin_idempotent_request) (rw (gone, create_record) refl),
      )
