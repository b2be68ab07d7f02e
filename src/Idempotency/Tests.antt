-- ===== src/Idempotency/Tests.antt =====
-- Instances of the theorems on idempotency keys.
use lavish_fashion.Prelude.{ℕ, ◌+◌, ◌<◌, ◌≤◌, ◌≡◌, refl, none, some, [], ◌==◌, if◌then◌else◌, arith}
use lavish_fashion.Idempotency.{
  key_ttl_ms, drop_expired_keys, Request, Keys, conflict, in_progress_reply, replay, proceed, given,
  look_up, create_record, begin_idempotent_request, complete_idempotent_request, responds,
  key_too_long, refund_idempotency,
}
use lavish_fashion.Idempotency.Replay.{begun, begin_race, begin_replays}

-- A hash that tells all payloads apart.
abbrev parity : ℕ → ℕ
parity n = n

abbrev first_request : Request
first_request = record { user_id = 5; scope = 1; key = 77; payload = 3 }

abbrev repeated : Request
repeated = record first_request { payload = 4 }

abbrev fresh_keys : Keys
fresh_keys = record { records = []; next_id = 1 }

abbrev started : Keys
started = begun parity 10 first_request repeated fresh_keys refl refl refl refl

begin_race_example :
    (look_up parity first_request fresh_keys ≡ none)
    × (look_up parity repeated fresh_keys ≡ none)
    × (begin_idempotent_request parity 10 first_request fresh_keys ≡ (proceed 1, started))
    × (create_record parity 12 repeated started ≡ (in_progress_reply, started))
    × (begin_idempotent_request parity 12 repeated started
        ≡ (if 3 == 4 then in_progress_reply else conflict, started))
begin_race_example = begin_race parity 10 first_request repeated fresh_keys refl refl refl refl 12

begin_replays_example :
    let done = drop_expired_keys 500 (complete_idempotent_request (some 1) 201 (given 8) started) in
    (500 < 10 + key_ttl_ms
      → begin_idempotent_request parity 600 repeated done
        ≡ (if 3 == 4 then replay 201 (given 8) else conflict, done))
    × (10 + key_ttl_ms ≤ 500
        → (begin_idempotent_request parity 600 repeated done).0 ≡ proceed done.next_id)
begin_replays_example =
    begin_replays parity 10 first_request repeated fresh_keys refl refl refl refl 201 (given 8) tt
      (omega arith) 500 600

-- A key of more than 120 characters is refused.
refuses_long_key :
    refund_idempotency parity 10
      (record { key = some (7, 121); user_id = some 5; payload = 3 })
      fresh_keys
    ≡ (responds 400 key_too_long, fresh_keys)
unfolding refund_idempotency
refuses_long_key = refl
