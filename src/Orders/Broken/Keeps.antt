-- ===== src/Orders/Broken/Keeps.antt =====
-- A change of a status that breaks off after its write has changed the status all the same.
use lavish_fashion.Prelude.{
  ℕ, zero, suc, ◌≡◌, ◌≢◌, refl, sym, ap, ◌∙◌, inl, inr, Bool, true, false, Option, none, some, List,
  [], ◌∷◌, All, find_by, Bool-cases, Option-cases,
}
use lavish_fashion.Orders.{
  Order, OrderStatus, same_status, placed, packing, shipped, out_for_delivery, delivered, cancelled,
  order_key,
}
use lavish_fashion.Orders.World.{World, find_order, set_order}
use lavish_fashion.Orders.Kept.{standing_of, standing_steps}
use lavish_fashion.Orders.Cancel.{Setting, should_release_loyalty, mark_cancelled}
use lavish_fashion.Orders.Delivery.{reminded, reward_delivery, user_of}
use lavish_fashion.Orders.Status.{
  Additional, mark_status, deliver, notify, is_repeated_cancellation,
}
use lavish_fashion.Orders.Effects.{
  first_of, status_at, shiprocket-standing, release_points-standing, inventory-status,
  remind-standing,
}
use lavish_fashion.Orders.Moves.{same_status-eq, set-status, set-other}
use lavish_fashion.Orders.Final.{
  deliver-status, deliver-other, plain_write, notify-loyalty, repeated_is_cancelled,
}
use lavish_fashion.Orders.Ids.{
  ids, ids_of, ids_steps, ids-set_order, shiprocket-ids, release_points-ids, inventory-ids,
  remind-ids, deliver-ids, plain-ids,
}
use lavish_fashion.Loyalty.Writes.{finalize-follows, rewards-follow}
use lavish_fashion.Orders.Broken.{
  run_first, cancel_parts, deliver_parts, broken_write, broken_change,
}

-- What each part keeps, any number of them keeps.
run_first-keeps :
    {A : Type 0} (view : World → A) (n : ℕ) (parts : List (World → World)) (w : World)
    → All (λ part. (v : World) → view (part v) ≡ view v) parts
    → view (run_first n parts w) ≡ view w
unfolding run_first
run_first-keeps view zero parts w keep = refl
run_first-keeps view (suc n) [] w keep = refl
run_first-keeps view (suc n) (part ∷ parts) w (h, hs) =
    run_first-keeps view n parts (part w) hs ∙ h w

cancel_parts-status :
    (setting : Setting) (now : ℕ) (passed updated : Order) (k : ℕ)
    → All
        (λ part. (v : World) → status_at k (part v) ≡ status_at k v)
        (cancel_parts setting now passed updated)
cancel_parts-status setting now passed updated k = (
  λ v. ap first_of (release_points-standing (should_release_loyalty passed) now passed k v),
  (
    λ v. inventory-status passed k v,
    (λ v. ap first_of (shiprocket-standing setting now updated k v), tt),
  ),
)

cancel_parts-ids :
    (setting : Setting) (now : ℕ) (passed updated : Order)
    → All (λ part. (v : World) → ids (part v) ≡ ids v) (cancel_parts setting now passed updated)
cancel_parts-ids setting now passed updated = (
  λ v. release_points-ids (should_release_loyalty passed) now passed v,
  (λ v. inventory-ids passed v, (λ v. shiprocket-ids setting now updated v, tt)),
)

notify-status :
    (u : Option Order) (k : ℕ) (v : World) → status_at k (notify delivered u v) ≡ status_at k v
notify-status u k v =
    ap (λ l. first_of (standing_of (find_by order_key k l.orders))) (notify-loyalty delivered u v)

deliver_parts-status :
    (setting : Setting) (now : ℕ) (passed : Order) (b : Bool) (u : Option Order) (w : World) (k : ℕ)
    → All
        (λ part. (v : World) → status_at k (part v) ≡ status_at k v)
        (deliver_parts setting now passed b u w)
deliver_parts-status setting now passed true (some u) w k =
    let r = reward_delivery setting now u w in
    let user = user_of passed.user_id r.1 in
    (
      λ v. notify-status (some u) k v,
      (
        λ v. ap first_of (finalize-follows (standing_steps k) now u v.loyalty),
        (
          λ v. ap first_of (rewards-follow (standing_steps k) setting.rewards now u v.loyalty),
          (
            λ v. refl,
            (
              λ v. ap first_of (remind-standing now u.id user (reminded (find_order u.id r.1)) k v),
              tt,
            ),
          ),
        ),
      ),
    )
deliver_parts-status setting now passed true none w k = (λ v. notify-status none k v, tt)
deliver_parts-status setting now passed false u w k = (λ v. notify-status u k v, tt)

deliver_parts-ids :
    (setting : Setting) (now : ℕ) (passed : Order) (b : Bool) (u : Option Order) (w : World)
    → All (λ part. (v : World) → ids (part v) ≡ ids v) (deliver_parts setting now passed b u w)
deliver_parts-ids setting now passed true (some u) w =
    let r = reward_delivery setting now u w in
    let user = user_of passed.user_id r.1 in
    (
      λ v. ap ids_of (notify-loyalty delivered (some u) v),
      (
        λ v. finalize-follows ids_steps now u v.loyalty,
        (
          λ v. rewards-follow ids_steps setting.rewards now u v.loyalty,
          (λ v. refl, (λ v. remind-ids now u.id user (reminded (find_order u.id r.1)) v, tt)),
        ),
      ),
    )
deliver_parts-ids setting now passed true none w =
    (λ v. ap ids_of (notify-loyalty delivered none v), tt)
deliver_parts-ids setting now passed false u w = (λ v. ap ids_of (notify-loyalty delivered u v), tt)

-- The branches of a cancellation.
broken_missing :
    (n : ℕ) (setting : Setting) (now : ℕ) (c : Order) (additional : Additional) (w : World)
    → find_order c.id w ≡ none
    → broken_write n setting now c cancelled additional w ≡ w
unfolding broken_write
broken_missing n setting now c additional w missing = rw (missing, broken_write) refl

broken_again :
    (n : ℕ) (setting : Setting) (now : ℕ) (c o : Order) (additional : Additional) (w : World)
    → find_order c.id w ≡ some o
    → same_status o.status cancelled ≡ true
    → broken_write n setting now c cancelled additional w ≡ w
unfolding broken_write
broken_again n setting now c o additional w there over = rw (there, broken_write) (rw over refl)

broken_first :
    (n : ℕ) (setting : Setting) (now : ℕ) (c o : Order) (additional : Additional) (w : World)
    → find_order c.id w ≡ some o
    → same_status o.status cancelled ≡ false
    → broken_write n setting now c cancelled additional w
      ≡ run_first n
          (cancel_parts setting now c (mark_cancelled now c o))
          (set_order c.id (mark_cancelled now c) w)
unfolding broken_write
broken_first n setting now c o additional w there going = rw (there, broken_write) (rw going refl)

-- The order has the new status afterwards, if it is there; the others have theirs.
abbrev pub BreaksAt : OrderStatus → Order → World → World → Type 0
BreaksAt status c w w' =
    ((o : Order) → find_order c.id w ≡ some o → status_at c.id w' ≡ some status)
    × ((k : ℕ) → c.id ≢ k → status_at k w' ≡ status_at k w)
    × (ids w' ≡ ids w)

cancel-BreaksAt :
    (n : ℕ) (setting : Setting) (now : ℕ) (c : Order) (additional : Additional) (w : World)
    → BreaksAt cancelled c w (broken_write n setting now c cancelled additional w)
cancel-BreaksAt n setting now c additional w = elim (Option-cases (find_order c.id w)) [
  | inl missing ↦
      rw (broken_missing n setting now c additional w missing)
        (λ o there. absurd (none_some o (sym missing ∙ there)), λ k apart. refl, refl)
  | inr (o, there) ↦ elim (Bool-cases (same_status o.status cancelled)) [
    | inl over ↦ rw (broken_again n setting now c o additional w there over) (
      λ x found.
          ap (λ x. first_of (standing_of x)) there
          ∙ ap some (same_status-eq o.status cancelled over),
      λ k apart. refl,
      refl,
    )
    | inr going ↦
        let u = mark_cancelled now c o in
        let w1 = set_order c.id (mark_cancelled now c) w in
        let parts = cancel_parts setting now c u in
        rw (broken_first n setting now c o additional w there going) (
          λ x found.
              run_first-keeps (status_at c.id) n parts w1 (cancel_parts-status setting now c u c.id)
              ∙ set-status c.id (mark_cancelled now c) o w there refl,
          λ k apart.
              run_first-keeps (status_at k) n parts w1 (cancel_parts-status setting now c u k)
              ∙ set-other k c.id (mark_cancelled now c) w (λ x. refl) apart,
          run_first-keeps ids n parts w1 (cancel_parts-ids setting now c u)
              ∙ ids-set_order c.id (mark_cancelled now c) w (λ x. refl),
        )
  ]
]
  where
    none_some : (o : Order) → none ≢ some o
    none_some o e = cc

deliver-BreaksAt :
    (n : ℕ) (setting : Setting) (now : ℕ) (c : Order) (additional : Additional) (w : World)
    → BreaksAt delivered c w (broken_write n setting now c delivered additional w)
unfolding broken_write
deliver-BreaksAt n setting now c additional w =
    let (rewards, w1) = deliver now additional c w in
    let u = find_order c.id w1 in
    let parts = deliver_parts setting now c rewards u w1 in
    (
      λ o there.
          run_first-keeps (status_at c.id) n parts w1
            (deliver_parts-status setting now c rewards u w1 c.id)
          ∙ deliver-status now additional c o w there,
      λ k apart.
          run_first-keeps (status_at k) n parts w1
            (deliver_parts-status setting now c rewards u w1 k)
          ∙ deliver-other now additional c k w apart,
      run_first-keeps ids n parts w1 (deliver_parts-ids setting now c rewards u w1)
          ∙ deliver-ids now additional c w,
    )

plain-BreaksAt :
    (c : Order) (status : OrderStatus) (additional : Additional) (w : World)
    → BreaksAt status c w (set_order c.id (mark_status status additional) w)
plain-BreaksAt c status additional w =
    let (own, others) = plain_write c status additional w in
    (own, others, plain-ids c status additional w)

write-BreaksAt :
    (n : ℕ) (setting : Setting) (now : ℕ) (c : Order) (status : OrderStatus)
    (additional : Additional) (w : World)
    → BreaksAt status c w (broken_write n setting now c status additional w)
unfolding broken_write
write-BreaksAt n setting now c cancelled additional w = cancel-BreaksAt n setting now c additional w
write-BreaksAt n setting now c delivered additional w =
    deliver-BreaksAt n setting now c additional w
write-BreaksAt n setting now c placed additional w = plain-BreaksAt c placed additional w
write-BreaksAt n setting now c packing additional w = plain-BreaksAt c packing additional w
write-BreaksAt n setting now c shipped additional w = plain-BreaksAt c shipped additional w
write-BreaksAt n setting now c out_for_delivery additional w =
    plain-BreaksAt c out_for_delivery additional w

-- For an order that is the stored one.
pub broken_change-moves :
    (n : ℕ) (setting : Setting) (now : ℕ) (o : Order) (status : OrderStatus)
    (additional : Additional) (w : World)
    → find_order o.id w ≡ some o
    → let w' = broken_change n setting now o status additional w in
      (status_at o.id w' ≡ some status)
      × ((k : ℕ) → o.id ≢ k → status_at k w' ≡ status_at k w)
      × (ids w' ≡ ids w)
unfolding broken_change
broken_change-moves n setting now o status additional w there =
    elim (Bool-cases (is_repeated_cancellation o.status status)) [
      | inl again ↦
          let (old, new) = repeated_is_cancelled o.status status again in
          rw again (
            ap (λ x. first_of (standing_of x)) there ∙ ap some (old ∙ sym new),
            λ k apart. refl,
            refl,
          )
      | inr first ↦
          let (own, others, same) = write-BreaksAt n setting now o status additional w in
          rw first (own o there, others, same)
    ]
