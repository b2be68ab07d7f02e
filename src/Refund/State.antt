-- ===== src/Refund/State.antt =====
-- server/utils/refundStateMachine.js: the states of a refund and the legal moves between them.
pub mod Laws
mod Tests
use Prim.Native.String.{String}
use lavish_fashion.Prelude.{
  ℕ, ◌≡◌, Bool, true, false, not, ◌||◌, ◌&&◌, List, [], ◌∷◌, any, Result, ok, err, if◌then◌else◌,
}

pub data RefundState : Type 0 where
  initiated pending processed failed permanently_failed : RefundState

-- What a caller may pass for a state: one of REFUND_STATES, or any other text.
pub data StateName : Type 0 where
  known : RefundState → StateName
  unknown : String → StateName

unfoldable pub same_state : RefundState → RefundState → Bool
same_state initiated initiated = true
same_state pending pending = true
same_state processed processed = true
same_state failed failed = true
same_state permanently_failed permanently_failed = true
same_state _ _ = false

unfoldable pub is_refund_state : StateName → Bool
is_refund_state (known _) = true
is_refund_state (unknown _) = false

unfoldable pub valid_transitions : RefundState → List RefundState
valid_transitions initiated = pending ∷ processed ∷ failed ∷ []
valid_transitions pending = processed ∷ failed ∷ []
valid_transitions failed = pending ∷ permanently_failed ∷ []
valid_transitions processed = []
valid_transitions permanently_failed = []

pub state_priority : RefundState → ℕ
state_priority permanently_failed = 0
state_priority failed = 1
state_priority initiated = 2
state_priority pending = 3
state_priority processed = 4

-- The lookup and the membership test, once both names are states.
unfoldable pub can_move : RefundState → RefundState → Bool
unfolding same_state valid_transitions
can_move from to =
    if same_state from to then false else any (same_state to) (valid_transitions from)

unfoldable pub can_transition : StateName → StateName → Bool
unfolding can_move
can_transition (known from) (known to) = can_move from to
can_transition _ _ = false

-- The error carries both ends of the illegal move.
pub data IllegalMove : Type 0 where
  illegal_move : StateName → StateName → IllegalMove

pub transition : StateName → StateName → Result IllegalMove StateName
unfolding can_transition
transition from to = if not (can_transition from to) then err (illegal_move from to) else ok to

unfoldable pub is_terminal_state : RefundState → Bool
is_terminal_state processed = true
is_terminal_state permanently_failed = true
is_terminal_state _ = false

unfoldable pub should_update_from_webhook : StateName → StateName → Bool
unfolding can_move is_terminal_state same_state
should_update_from_webhook (known current) (known incoming) =
    if same_state current incoming
    then false
    else if is_terminal_state current
    then false
    else can_move current incoming
should_update_from_webhook _ _ = false
