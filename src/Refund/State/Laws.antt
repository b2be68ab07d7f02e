-- ===== src/Refund/State/Laws.antt =====
-- The moves of server/utils/refundStateMachine.js against the diagram at the top of that file.
use lavish_fashion.Prelude.{◌≡◌, refl, ◌↔◌, Bool, true, false, List, [], ◌∷◌, arith, if◌then◌else◌}
use lavish_fashion.Refund.State.{
  RefundState, initiated, pending, processed, failed, permanently_failed, StateName, known, unknown,
  can_move, can_transition, is_terminal_state, should_update_from_webhook,
}

-- The arrows of the diagram.
pub data Edge : RefundState → RefundState → Type 0 where
  submitted : Edge initiated pending
  settled_by_hand : Edge initiated processed
  refused : Edge initiated failed
  settled : Edge pending processed
  bounced : Edge pending failed
  retried : Edge failed pending
  exhausted : Edge failed permanently_failed

pub data Reach (a : RefundState) : RefundState → Type 0 where
  here : Reach a a
  next : {b c : RefundState} → Reach a b → Edge b c → Reach a c

can_move_of_Edge : {a b : RefundState} → Edge a b → can_move a b ≡ true
unfolding can_move
can_move_of_Edge submitted = refl
can_move_of_Edge settled_by_hand = refl
can_move_of_Edge refused = refl
can_move_of_Edge settled = refl
can_move_of_Edge bounced = refl
can_move_of_Edge retried = refl
can_move_of_Edge exhausted = refl

Edge_of_can_move : (a b : RefundState) → can_move a b ≡ true → Edge a b
unfolding can_move
Edge_of_can_move initiated pending h = submitted
Edge_of_can_move initiated processed h = settled_by_hand
Edge_of_can_move initiated failed h = refused
Edge_of_can_move pending processed h = settled
Edge_of_can_move pending failed h = bounced
Edge_of_can_move failed pending h = retried
Edge_of_can_move failed permanently_failed h = exhausted
Edge_of_can_move initiated _ h = cc
Edge_of_can_move pending _ h = cc
Edge_of_can_move failed _ h = cc
Edge_of_can_move processed initiated h = cc
Edge_of_can_move processed _ h = cc
Edge_of_can_move permanently_failed initiated h = cc
Edge_of_can_move permanently_failed _ h = cc

-- `can_transition` accepts two states exactly when the diagram has an arrow between them, and
-- refuses every name that is not a state, on either side.
pub can_transition_iff :
    ((a b : RefundState) → (can_transition (known a) (known b) ≡ true) ↔ Edge a b)
    × ((n : StateName) (s : StateName)
        → can_transition n s ≡ true
        → (a : RefundState) × (b : RefundState) × (n ≡ known a) × (s ≡ known b))
unfolding can_transition
can_transition_iff = (λ a b. (Edge_of_can_move a b, can_move_of_Edge), names)
  where
    names :
        (n s : StateName)
        → can_transition n s ≡ true
        → (a : RefundState) × (b : RefundState) × (n ≡ known a) × (s ≡ known b)
    names (known a) (known b) h = (a, b, refl, refl)
    names (known a) (unknown t) h = cc
    names (unknown t) (known b) h = cc
    names (unknown t) (unknown u) h = cc

Edge-not-terminal : {a b : RefundState} → Edge a b → is_terminal_state a ≡ false
unfolding is_terminal_state
Edge-not-terminal submitted = refl
Edge-not-terminal settled_by_hand = refl
Edge-not-terminal refused = refl
Edge-not-terminal settled = refl
Edge-not-terminal bounced = refl
Edge-not-terminal retried = refl
Edge-not-terminal exhausted = refl

-- The guards of `should_update_from_webhook` before its last line refuse nothing that the last
-- line would accept: it is `can_transition`, on all names.
pub should_update-eq-can_transition :
    (current incoming : StateName)
    → should_update_from_webhook current incoming ≡ can_transition current incoming
unfolding should_update_from_webhook can_transition can_move is_terminal_state
should_update-eq-can_transition (known a) (known b) = ground arith
should_update-eq-can_transition (known a) (unknown t) = refl
should_update-eq-can_transition (unknown t) (known b) = refl
should_update-eq-can_transition (unknown t) (unknown u) = refl

-- A terminal state is never left, whatever the number of moves.
pub Reach-terminal : {a b : RefundState} → is_terminal_state a ≡ true → Reach a b → b ≡ a
Reach-terminal t here = refl
Reach-terminal {a} t (next {b} r e) = cc (Reach-terminal t r, Edge-not-terminal e)

-- No move leads back to `initiated`.
pub not-Edge-initiated : {a b : RefundState} → Edge a b → b ≡ initiated → ⊥
not-Edge-initiated submitted h = cc
not-Edge-initiated settled_by_hand h = cc
not-Edge-initiated refused h = cc
not-Edge-initiated settled h = cc
not-Edge-initiated bounced h = cc
not-Edge-initiated retried h = cc
not-Edge-initiated exhausted h = cc

-- The state after a stream of webhook states, each applied when it should.
pub after_webhooks : RefundState → List RefundState → RefundState
after_webhooks s [] = s
after_webhooks s (w ∷ ws) =
    after_webhooks (if should_update_from_webhook (known s) (known w) then w else s) ws

pub after_webhooks-Reach :
    (a s : RefundState) (ws : List RefundState) → Reach a s → Reach a (after_webhooks s ws)
unfolding after_webhooks
after_webhooks-Reach a s [] r = r
after_webhooks-Reach a s (w ∷ ws) r =
    after_webhooks-Reach a (if should_update_from_webhook (known s) (known w) then w else s) ws
      (step (should_update_from_webhook (known s) (known w)) refl)
  where
    step :
        (b : Bool)
        → should_update_from_webhook (known s) (known w) ≡ b
        → Reach a (if b then w else s)
    step true h = next r (
        (can_transition_iff.0 s w).0
          (rw (should_update-eq-can_transition (known s) (known w)) at h))
    step false h = r

pub after_webhooks_terminal :
    (s : RefundState) (ws : List RefundState) → is_terminal_state s ≡ true → after_webhooks s ws ≡ s
after_webhooks_terminal s ws h = Reach-terminal h (after_webhooks-Reach s s ws here)

-- Whatever webhooks arrive, in whatever order and however often, the state of a refund only moves
-- along the arrows of the diagram, and a terminal state stays.
pub after_webhooks_safe :
    (s : RefundState) (ws : List RefundState)
    → Reach s (after_webhooks s ws) × (is_terminal_state s ≡ true → after_webhooks s ws ≡ s)
after_webhooks_safe s ws = (after_webhooks-Reach s s ws here, after_webhooks_terminal s ws)
