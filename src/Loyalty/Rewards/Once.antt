-- ===== src/Loyalty/Rewards/Once.antt =====
-- A delivered order is rewarded once, and so is a referral.
use lavish_fashion.Prelude.{
  ℕ, ◌≡◌, refl, sym, ap, ◌∙◌, subst, inl, inr, true, false, not, ◌&&◌, Option, none, some, find_by,
  find_by-key, find_by-update_by_self, ◌==◌, Bool-cases, Option-cases,
}
use lavish_fashion.Orders.{Order, delivered, same_status, order_key}
use lavish_fashion.Loyalty.{User, Store, user_key}
use lavish_fashion.Loyalty.Points.{find_user, write_order, or_now}
use lavish_fashion.Loyalty.Rewards.{
  RewardRules, RewardSummary, award_order_points, reward_referral, mark_rewarded, reward_user,
  reward_of, award_order_delivery_rewards,
}
use lavish_fashion.Loyalty.Rewards.Gains.{order_points-follows, referral-follows}
use lavish_fashion.Loyalty.Rewards.Due.{
  due_for, due_to, due, orders_kept, order_points-user, referral-settled,
}

closed_of :
    (u : User) (r : ℕ)
    → u.referred_by ≡ some r
    → due_to (some u) ≡ false
    → (not u.referral_reward_unlocked && not (u.id == r)) ≡ false
unfolding due_to due_for
closed_of u r by h = subst (λ b. due_for u.id u.referral_reward_unlocked b ≡ false) by h

not_due-nothing :
    (rules : RewardRules) (points : ℕ) (u : User) (by : Option ℕ) (s : Store)
    → u.referred_by ≡ by
    → due_to (some u) ≡ false
    → (reward_referral rules points u by s).1 ≡ s
unfolding reward_referral
not_due-nothing rules points u none s by h = refl
not_due-nothing rules points u (some r) s by h = rw (closed_of u r by h) refl

abbrev pub Unchanged : Store → Store → Type 0
Unchanged s t = (t.users ≡ s.users) × (t.transactions ≡ s.transactions)

reward_user-nothing :
    (rules : RewardRules) (now t : ℕ) (o : Order) (u : User) (s : Store)
    → o.awarded_at ≡ some t
    → due_to (some u) ≡ false
    → Unchanged s (reward_user rules now o u s).1
unfolding reward_user award_order_points
reward_user-nothing rules now t o u s awarded h = rw awarded (
  ap (λ x. x.users) (not_due-nothing rules o.points_awarded u u.referred_by s refl h),
  ap (λ x. x.transactions) (not_due-nothing rules o.points_awarded u u.referred_by s refl h),
)

reward_of-nothing :
    (rules : RewardRules) (now t : ℕ) (o : Order) (user : Option User) (s : Store)
    → o.awarded_at ≡ some t
    → due_to user ≡ false
    → Unchanged s (reward_of rules now o user s).1
unfolding reward_of
reward_of-nothing rules now t o none s awarded h = (refl, refl)
reward_of-nothing rules now t o (some u) s awarded h =
    reward_user-nothing rules now t o u s awarded h

award_to_guest :
    (rules : RewardRules) (now : ℕ) (o : Order) (s : Store)
    → o.user_id ≡ none
    → award_order_delivery_rewards rules now o s ≡ (none, s)
unfolding award_order_delivery_rewards
award_to_guest rules now o s guest = rw (guest, award_order_delivery_rewards) refl

award_elsewhere :
    (rules : RewardRules) (now k : ℕ) (o : Order) (s : Store)
    → o.user_id ≡ some k
    → same_status o.status delivered ≡ false
    → award_order_delivery_rewards rules now o s ≡ (none, s)
unfolding award_order_delivery_rewards
award_elsewhere rules now k o s owner elsewhere =
    rw (owner, award_order_delivery_rewards) (rw elsewhere refl)

award_delivered :
    (rules : RewardRules) (now k : ℕ) (o : Order) (s : Store)
    → o.user_id ≡ some k
    → same_status o.status delivered ≡ true
    → award_order_delivery_rewards rules now o s ≡ reward_of rules now o (find_user k s) s
unfolding award_order_delivery_rewards
award_delivered rules now k o s owner there =
    rw (owner, award_order_delivery_rewards) (rw there refl)

abbrev After : RewardRules → ℕ → Order → Store → Type 0
After rules later o after =
    (o' : Order) × (find_by order_key o.id after.orders ≡ some o')
    × Unchanged after (award_order_delivery_rewards rules later o' after).1

or_now-some : (now : ℕ) (a : Option ℕ) → (t : ℕ) × (or_now now a ≡ some t)
or_now-some now none = (now, refl)
or_now-some now (some t) = (t, refl)

module _ (rules : RewardRules) (now later k : ℕ) (o : Order) (s : Store)
    (owner : o.user_id ≡ some k) (delivery : same_status o.status delivered ≡ true)
    (stored : find_by order_key o.id s.orders ≡ some o) where
  rewarded_user-once :
      (u : User) → find_user k s ≡ some u → After rules later o (reward_user rules now o u s).1
  unfolding reward_user due
  rewarded_user-once u there =
      let id = find_by-key user_key k s.users u there in
      let first = award_order_points rules o u.id o.awarded_at s in
      let (u', there', same) =
        order_points-user rules o u.id o.awarded_at u s
          (subst (λ i. find_user i s ≡ some u) (sym id) there) in
      let second = reward_referral rules first.0 u u.referred_by first.1 in
      let o' = mark_rewarded now second.0.awarded_order_points o o in
      let after = write_order o.id (mark_rewarded now second.0.awarded_order_points o) second.1 in
      let orders =
        referral-follows orders_kept rules first.0 u u.referred_by first.1
        ∙ order_points-follows orders_kept rules o u.id o.awarded_at s in
      let (t, awarded) = or_now-some now o.awarded_at in
      (
        o',
        find_by-update_by_self order_key o.id (mark_rewarded now second.0.awarded_order_points o)
            second.1.orders o refl (ap (find_by order_key o.id) orders ∙ stored),
        rw (award_delivered rules later k o' after owner delivery) (
            reward_of-nothing rules later t o' (find_user k after) after awarded (
              subst (λ i. due_to (find_user i after) ≡ false) id
                (referral-settled rules first.0 u u' u.referred_by first.1 refl there' same))),
      )

-- A call that gives nothing gives nothing again.
nothing-once :
    (rules : RewardRules) (later : ℕ) (o : Order) (s : Store) (r : Option RewardSummary × Store)
    → find_by order_key o.id s.orders ≡ some o
    → award_order_delivery_rewards rules later o s ≡ (none, s)
    → r ≡ (none, s)
    → After rules later o r.1
nothing-once rules later o s r stored again first = rw first (o, stored, rw again (refl, refl))

-- Rewarding an order that is stored as it was passed leaves it stored, and when it is read again and
-- rewarded again, no user and no transaction changes: the points of the order come once, and so
-- does the referral, even if the first call gave nothing.
pub rewards_once :
    (rules : RewardRules) (now later : ℕ) (o : Order) (s : Store)
    → find_by order_key o.id s.orders ≡ some o
    → let after = (award_order_delivery_rewards rules now o s).1 in
      (o' : Order) × (find_by order_key o.id after.orders ≡ some o')
      × Unchanged after (award_order_delivery_rewards rules later o' after).1
unfolding reward_of
rewards_once rules now later o s stored = elim (Option-cases o.user_id) [
  | inl guest ↦
      nothing-once rules later o s (award_order_delivery_rewards rules now o s) stored
        (award_to_guest rules later o s guest) (award_to_guest rules now o s guest)
  | inr (k, owner) ↦ elim (Bool-cases (same_status o.status delivered)) [
    | inr elsewhere ↦
        nothing-once rules later o s (award_order_delivery_rewards rules now o s) stored
          (award_elsewhere rules later k o s owner elsewhere)
          (award_elsewhere rules now k o s owner elsewhere)
    | inl there ↦ elim (Option-cases (find_user k s)) [
      | inl missing ↦
          nothing-once rules later o s (award_order_delivery_rewards rules now o s) stored
            (award_delivered rules later k o s owner there
              ∙ ap (λ x. reward_of rules later o x s) missing)
            (award_delivered rules now k o s owner there
              ∙ ap (λ x. reward_of rules now o x s) missing)
      | inr (u, found) ↦
          rw
            (award_delivered rules now k o s owner there
              ∙ ap (λ x. reward_of rules now o x s) found)
            (rewarded_user-once rules now later k o s owner there stored u found)
    ]
  ]
]
