-- ===== src/Refund/Service/Retry.antt =====
-- `retry` of server/services/refundService.js.
pub mod Effect
mod Tests
use lavish_fashion.Prelude.{
  ℕ, ◌+◌, Bool, true, false, none, some, Exec, Result, ok, err, leb, if◌then◌else◌, pure, throw,
  lift, beside, ◌>>=◌, ◌>>◌, not,
}
use lavish_fashion.Refund.State.{pending, failed, permanently_failed, same_state, can_move}
use lavish_fashion.Refund.Errors.{
  Thrown, typed, plain_error, gateway_error, refund_not_found_error, refund_not_retryable,
  refund_manual_not_retryable, is_refund_error,
}
use lavish_fashion.Refund.Store.{
  Db, Order, Refund, Faults, Channel, bank_transfer, GatewayId, unset, message_of,
  audit_permanently_failed, audit_retry_succeeded, audit_retry_failed, find_order,
  find_refund_or_throw, save_refund, write_audit,
}
use lavish_fashion.Refund.Router.{Gateway, retry_key, choose_channel, execute}
use lavish_fashion.Refund.Projector.{project}
use lavish_fashion.Refund.Service.Reserve.{compute_next_retry_at, transition_refund_state}

is_manual : Channel → Bool
is_manual bank_transfer = true
is_manual _ = false

-- The guards before the order is read.
check_retryable : Refund → Result Thrown Refund
unfolding same_state is_manual
check_retryable r =
    if not (same_state r.state failed)
    then err (typed (plain_error 409 refund_not_retryable))
    else if is_manual r.channel
    then err (typed (plain_error 409 refund_manual_not_retryable))
    else ok r

order_or_throw : ℕ → Exec Db Thrown Order
order_or_throw k db = elim (find_order k db) [
  | none ↦ (err (typed refund_not_found_error), db)
  | some o ↦ (ok o, db)
]

-- The retries are used up.
give_up : Faults → ℕ → Refund → Exec Db Thrown Refund
unfolding transition_refund_state save_refund project write_audit
give_up faults now r = do
  dead ← lift (transition_refund_state now r permanently_failed)
  save_refund faults.save dead
  _ ← project faults.project now dead.order_id
  write_audit audit_permanently_failed dead "system"
  pure dead

-- `strategyResult.gatewayRefundId || refund.gatewayRefundId`
pub keep_gateway_id : GatewayId → GatewayId → GatewayId
keep_gateway_id unset old = old
keep_gateway_id new old = new

-- The body of the `try`, with the document as the `catch` finds it.
resubmit : Faults → Gateway → ℕ → Channel → Order → Refund → Exec Db (Thrown × Refund) Refund
unfolding execute keep_gateway_id save_refund project write_audit
resubmit faults g now channel order r = do
  s ← beside r (lift (execute g channel r order (retry_key r.idempotency_key r.retry_count)))
  let accepted = record r {
    gateway_refund_id = keep_gateway_id s.gateway_refund_id r.gateway_refund_id;
  }
  beside accepted (save_refund faults.save accepted)
  _ ← beside accepted (project faults.project now accepted.order_id)
  write_audit audit_retry_succeeded accepted "system"
  pure accepted

pub wrap_retry : Thrown → Thrown
unfolding is_refund_error
wrap_retry e = if is_refund_error e then e else typed (gateway_error true)

pub failed_again : ℕ → Thrown → Refund → Refund
unfolding can_move compute_next_retry_at
failed_again now e r =
    let noted = record r {
      failure_reason = some (message_of e);
      next_retry_at = some (compute_next_retry_at now r.retry_count);
    } in
    if can_move r.state failed then record noted { state = failed } else noted

-- The body of the `catch`: a failing save leaves it at once.
note_failure : Faults → ℕ → Thrown → Refund → Exec Db Thrown Refund
unfolding failed_again save_refund write_audit wrap_retry
note_failure faults now e r = do
  save_refund faults.mark_failed (failed_again now e r)
  write_audit audit_retry_failed (failed_again now e r) "system"
  throw (wrap_retry e)

settle_retry : Faults → ℕ → Result (Thrown × Refund) Refund → Exec Db Thrown Refund
unfolding note_failure
settle_retry faults now (ok r) db = (ok r, db)
settle_retry faults now (err (e, r)) db = note_failure faults now e r db

-- One more attempt: the count goes up and the refund is pending before the gateway is called. The
-- first save of the two has a fault flag of its own, `create`.
try_again : Faults → Gateway → ℕ → Order → Refund → Exec Db Thrown Refund
unfolding transition_refund_state choose_channel resubmit settle_retry save_refund
try_again faults g now order r = do
  again ← lift (transition_refund_state now (record r { retry_count = r.retry_count + 1 }) pending)
  save_refund faults.create again
  channel ← lift (choose_channel (some order))
  λ db.
      let (res, db') = resubmit faults g now channel order again db in
      settle_retry faults now res db'

unfoldable pub retry : Faults → Gateway → ℕ → ℕ → Exec Db Thrown Refund
unfolding check_retryable order_or_throw give_up try_again find_refund_or_throw
retry faults g now k = do
  r ← find_refund_or_throw k
  checked ← lift (check_retryable r)
  order ← order_or_throw checked.order_id
  if leb checked.max_retries checked.retry_count
      then give_up faults now checked
      else try_again faults g now order checked
