-- ===== src/Idempotency.antt =====
-- server/services/idempotencyService.js and server/middleware/refundIdempotency.js, on the documents
-- of server/models/idempotencyKeyModel.js. Users, scopes, keys, record ids and the bodies of the
-- controller are numbers, since they are only compared or passed on; `hash` stands for the SHA-256
-- of the payload.
pub mod Replay
mod Tests
use lavish_fashion.Prelude.{
  ℕ, ◌+◌, Bool, true, false, not, ◌&&◌, Option, none, some, List, [], ◌∷◌, ◌++◌, update_by, keep_if,
  ◌*◌, leb, ◌==◌, ltb, if◌then◌else◌,
}

pub record Request : Type 0 where
  pub user_id : ℕ
  pub scope : ℕ
  pub key : ℕ
  pub payload : ℕ

-- A body that the controller gave, the default of a replay, or a refusal of the service.
pub data Body : Type 0 where
  given : ℕ → Body
  plain_success different_payload still_running key_missing key_too_long not_authenticated
        service_error :
      Body

pub data KeyState : Type 0 where
  in_progress completed : KeyState

pub record KeyRecord : Type 0 where
  pub id : ℕ
  pub user_id : ℕ
  pub scope : ℕ
  pub key : ℕ
  pub request_hash : ℕ
  pub state : KeyState
  pub status_code : Option ℕ
  pub response_body : Option Body
  pub created_at : ℕ

pub record Keys : Type 0 where
  pub records : List KeyRecord
  pub next_id : ℕ

-- Twenty-four hours, in milliseconds.
abbrev pub key_ttl_ms : ℕ
key_ttl_ms = 1_000 * 60 * 60 * 24

-- The index on `createdAt`: a sweep of the database at `now` drops the records that are old enough.
unfoldable pub drop_expired_keys : ℕ → Keys → Keys
drop_expired_keys now keys = record keys {
  records = keep_if (λ r. not (leb (r.created_at + key_ttl_ms) now)) keys.records;
}

abbrev pub record_key : KeyRecord → ℕ
record_key r = r.id

pub data Action : Type 0 where
  conflict in_progress_reply : Action
  replay : ℕ → Body → Action
  proceed : ℕ → Action

abbrev pub is_for : Request → KeyRecord → Bool
is_for q r = r.user_id == q.user_id && r.scope == q.scope && r.key == q.key

abbrev pub find_record : Request → List KeyRecord → Option KeyRecord
find_record q [] = none
find_record q (r ∷ rs) = if is_for q r then some r else find_record q rs

-- `statusCode || 200` and `responseBody || { success: true }`.
status_or_ok : Option ℕ → ℕ
status_or_ok none = 200
status_or_ok (some c) = if c == 0 then 200 else c

body_or_success : Option Body → Body
body_or_success none = plain_success
body_or_success (some b) = b

answer : ℕ → KeyRecord → KeyState → Action
unfolding status_or_ok body_or_success
answer h r completed =
    if not (r.request_hash == h)
    then conflict
    else replay (status_or_ok r.status_code) (body_or_success r.response_body)
answer h r in_progress = if not (r.request_hash == h) then conflict else in_progress_reply

module _ (hash : ℕ → ℕ) where
  -- The first read, and what it answers when the record is there.
  pub look_up : Request → Keys → Option Action
  unfolding answer
  look_up q keys = elim (find_record q keys.records) [
    | none ↦ none
    | some r ↦ some (answer (hash q.payload) r r.state)
  ]

  abbrev pub new_record : ℕ → ℕ → Request → KeyRecord
  new_record now id q = record {
    id = id;
    user_id = q.user_id;
    scope = q.scope;
    key = q.key;
    request_hash = hash q.payload;
    state = in_progress;
    status_code = none;
    response_body = none;
    created_at = now;
  }

  -- The insert, which the unique index refuses when another request came in between.
  pub create_record : ℕ → Request → Keys → Action × Keys
  create_record now q keys = elim (find_record q keys.records) [
    | some r ↦ (in_progress_reply, keys)
    | none ↦ (
      proceed keys.next_id,
      record {
        records = keys.records ++ new_record now keys.next_id q ∷ [];
        next_id = keys.next_id + 1;
      },
    )
  ]

  pub begin_idempotent_request : ℕ → Request → Keys → Action × Keys
  unfolding look_up create_record
  begin_idempotent_request now q keys = elim (look_up q keys) [
    | some a ↦ (a, keys)
    | none ↦ create_record now q keys
  ]

abbrev pub complete : ℕ → Body → KeyRecord → KeyRecord
complete code body r = record r {
  state = completed;
  status_code = some code;
  response_body = some body;
}

unfoldable pub complete_idempotent_request : Option ℕ → ℕ → Body → Keys → Keys
complete_idempotent_request none code body keys = keys
complete_idempotent_request (some id) code body keys = record keys {
  records = update_by record_key id (complete code body) keys.records;
}

-- What the middleware sees of a request: the key and its length, if it is a text, and the user, if
-- there is one.
pub record Arrival : Type 0 where
  pub key : Option (ℕ × ℕ)
  pub user_id : Option ℕ
  pub payload : ℕ

-- A response that ends the request, or the record with which the controller goes on.
pub data Verdict : Type 0 where
  responds : ℕ → Body → Verdict
  goes_on : ℕ → Verdict

abbrev pub refund_scope : ℕ
refund_scope = 1

verdict_of : Action → Verdict
verdict_of conflict = responds 409 different_payload
verdict_of in_progress_reply = responds 409 still_running
verdict_of (replay code body) = responds code body
verdict_of (proceed id) = goes_on id

module _ (hash : ℕ → ℕ) where
  unfoldable pub refund_idempotency : ℕ → Arrival → Keys → Verdict × Keys
  unfolding begin_idempotent_request verdict_of
  refund_idempotency now a keys = elim a.key [
    | none ↦ (responds 400 key_missing, keys)
    | some (key, size) ↦
        if ltb 120 size then (responds 400 key_too_long, keys) else elim a.user_id [
          | none ↦ (responds 401 not_authenticated, keys)
          | some user ↦
              let (action, keys') =
                begin_idempotent_request hash now
                  (record { user_id = user; scope = refund_scope; key = key; payload = a.payload })
                  keys in
              (verdict_of action, keys')
        ]
  ]
