-- ===== src/Loyalty/Writes.antt =====
-- Sequences of the writes of server/services/loyaltyService.js, and what holds of all of them
-- because it holds of each write to the collections.
use lavish_fashion.Prelude.{
  ℕ, ◌-◌, ◌≡◌, refl, inl, inr, Option, none, some, List, [], ◌∷◌, keep_if, ◌==◌, Bool-cases,
  Option-cases, pos,
}
use lavish_fashion.Orders.{Order, delivered, same_status}
use lavish_fashion.Loyalty.{User, TransactionType, Store}
use lavish_fashion.Loyalty.Points.{
  find_user, write_order, award_loyalty_points, reserve_for, reserve_loyalty_redemption,
  release_from, release_user_reserved_loyalty_points, finalize_for,
  finalize_reserved_loyalty_redemption, reserving_user, close_released, mark_released, is_stale,
  release_reserved_loyalty_redemption, release_stale, cleanup_stale_reservations,
}
use lavish_fashion.Loyalty.Rewards.Gains.{
  Gains, gain-follows, order_points-follows, referral-follows,
}
use lavish_fashion.Loyalty.Rewards.{
  RewardRules, award_order_points, reward_referral, mark_rewarded, reward_user, reward_of,
  award_order_delivery_rewards,
}

-- The writes of the service; a gain is an award of points that are not negative.
pub data Write : Type 0 where
  gains : Option ℕ → ℕ → TransactionType → Write
  reserves lets_go : Option ℕ → ℕ → Write
  finalizes releases : ℕ → Order → Write
  delivers : RewardRules → ℕ → Order → Write
  cleans_up : ℕ → ℕ → Write

pub write : Write → Store → Store
unfolding award_loyalty_points reserve_loyalty_redemption release_user_reserved_loyalty_points
    finalize_reserved_loyalty_redemption release_reserved_loyalty_redemption
    cleanup_stale_reservations award_order_delivery_rewards
write (gains user n type) s = (award_loyalty_points user (pos n) type s).1
write (reserves user p) s = (reserve_loyalty_redemption user p s).1
write (lets_go user p) s = (release_user_reserved_loyalty_points user p s).1
write (finalizes now o) s = (finalize_reserved_loyalty_redemption now o s).1
write (releases now o) s = (release_reserved_loyalty_redemption now o s).1
write (delivers rules now o) s = (award_order_delivery_rewards rules now o s).1
write (cleans_up now stale_cutoff) s = (cleanup_stale_reservations now stale_cutoff s).1

pub writes : List Write → Store → Store
unfolding write
writes [] s = s
writes (w ∷ ws) s = writes ws (write w s)

-- A change of an order that leaves its status and its stock alone.
abbrev pub IsAboutPoints : (Order → Order) → Type 0
IsAboutPoints f =
    (o : Order)
    → ((f o).id ≡ o.id)
      × ((f o).status ≡ o.status)
      × ((f o).inventory_reserved ≡ o.inventory_reserved)

-- A relation between the store before and after, with a law also for each write that is no gain.
pub record Steps (R : Store → Store → Type 0) : Type 0 where
  pub gain : Gains R
  pub reserve : (k p : ℕ) (s : Store) → R s (reserve_for k p s).1
  pub let_go : (k p : ℕ) (s : Store) → R s (release_from k p s).1
  pub finalize : (now : ℕ) (o : Order) (k : ℕ) (s : Store) → R s (finalize_for now o k s).1
  pub order : (k : ℕ) (f : Order → Order) (s : Store) → IsAboutPoints f → R s (write_order k f s)

module _ {R : Store → Store → Type 0} (steps : Steps R) where
  let_go-follows :
      (user : Option ℕ) (p : ℕ) (s : Store) → R s (release_user_reserved_loyalty_points user p s).1
  unfolding release_user_reserved_loyalty_points
  let_go-follows none p s = steps.gain.same s
  let_go-follows (some k) p s = elim (Bool-cases (p == 0)) [
    | inl nothing ↦ rw nothing (steps.gain.same s)
    | inr something ↦ rw something (steps.let_go k p s)
  ]

  reserve-follows :
      (user : Option ℕ) (p : ℕ) (s : Store) → R s (reserve_loyalty_redemption user p s).1
  unfolding reserve_loyalty_redemption
  reserve-follows none p s = steps.gain.same s
  reserve-follows (some k) p s = elim (Bool-cases (p == 0)) [
    | inl nothing ↦ rw nothing (steps.gain.same s)
    | inr something ↦ rw something (steps.reserve k p s)
  ]

  close-follows :
      (now k : ℕ) (s : Store) (r : Option User × Store) → R s r.1 → R s (close_released now k r).1
  unfolding close_released
  close-follows now k s (none, t) h = h
  close-follows now k s (some u, t) h =
      steps.gain.chain s t (write_order k (mark_released now) t) h
        (steps.order k (mark_released now) t (λ o. (refl, refl, refl)))

  pub release-follows :
      (now : ℕ) (o : Order) (s : Store) → R s (release_reserved_loyalty_redemption now o s).1
  unfolding release_reserved_loyalty_redemption
  release-follows now o s = elim (Option-cases (reserving_user o)) [
    | inl nobody ↦ rw (nobody, release_reserved_loyalty_redemption) (steps.gain.same s)
    | inr (k, owner) ↦
        rw (owner, release_reserved_loyalty_redemption)
          (close-follows now o.id s
            (release_user_reserved_loyalty_points (some k) o.points_redeemed s)
            (let_go-follows (some k) o.points_redeemed s))
  ]

  pub finalize-follows :
      (now : ℕ) (o : Order) (s : Store) → R s (finalize_reserved_loyalty_redemption now o s).1
  unfolding finalize_reserved_loyalty_redemption
  finalize-follows now o s = elim (Option-cases (reserving_user o)) [
    | inl nobody ↦ rw (nobody, finalize_reserved_loyalty_redemption) (steps.gain.same s)
    | inr (k, owner) ↦ rw (owner, finalize_reserved_loyalty_redemption) (steps.finalize now o k s)
  ]

  stale-follows : (now : ℕ) (os : List Order) (s : Store) → R s (release_stale now os s).1
  unfolding release_stale
  stale-follows now [] s = steps.gain.same s
  stale-follows now (o ∷ os) s =
      let t = (release_reserved_loyalty_redemption now o s).1 in
      steps.gain.chain s t (release_stale now os t).1 (release-follows now o s)
        (stale-follows now os t)

  reward_user-follows :
      (rules : RewardRules) (now : ℕ) (o : Order) (u : User) (s : Store)
      → R s (reward_user rules now o u s).1
  unfolding reward_user
  reward_user-follows rules now o u s =
      let first = award_order_points rules o u.id o.awarded_at s in
      let second = reward_referral rules first.0 u u.referred_by first.1 in
      steps.gain.chain s second.1
        (write_order o.id (mark_rewarded now second.0.awarded_order_points o) second.1)
        (steps.gain.chain s first.1 second.1
          (order_points-follows steps.gain rules o u.id o.awarded_at s)
          (referral-follows steps.gain rules first.0 u u.referred_by first.1))
        (steps.order o.id (mark_rewarded now second.0.awarded_order_points o) second.1
          (λ x. (refl, refl, refl)))

  reward_of-follows :
      (rules : RewardRules) (now : ℕ) (o : Order) (user : Option User) (s : Store)
      → R s (reward_of rules now o user s).1
  unfolding reward_of
  reward_of-follows rules now o none s = steps.gain.same s
  reward_of-follows rules now o (some u) s = reward_user-follows rules now o u s

  pub rewards-follow :
      (rules : RewardRules) (now : ℕ) (o : Order) (s : Store)
      → R s (award_order_delivery_rewards rules now o s).1
  unfolding award_order_delivery_rewards
  rewards-follow rules now o s = elim (Option-cases o.user_id) [
    | inl guest ↦ rw guest (steps.gain.same s)
    | inr (k, owner) ↦ elim (Bool-cases (same_status o.status delivered)) [
      | inl there ↦ rw (owner, there) (reward_of-follows rules now o (find_user k s) s)
      | inr elsewhere ↦ rw (owner, elsewhere) (steps.gain.same s)
    ]
  ]

  write-follows : (w : Write) (s : Store) → R s (write w s)
  unfolding write cleanup_stale_reservations
  write-follows (gains user n type) s = gain-follows steps.gain user n type s
  write-follows (reserves user p) s = reserve-follows user p s
  write-follows (lets_go user p) s = let_go-follows user p s
  write-follows (finalizes now o) s = finalize-follows now o s
  write-follows (releases now o) s = release-follows now o s
  write-follows (delivers rules now o) s = rewards-follow rules now o s
  write-follows (cleans_up now stale_cutoff) s =
      stale-follows now (keep_if (is_stale (now - stale_cutoff)) s.orders) s

  pub writes-follow : (ws : List Write) (s : Store) → R s (writes ws s)
  unfolding writes
  writes-follow [] s = steps.gain.same s
  writes-follow (w ∷ ws) s =
      steps.gain.chain s (write w s) (writes ws (write w s)) (write-follows w s)
        (writes-follow ws (write w s))
