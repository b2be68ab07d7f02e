-- ===== src/Loyalty/Points/Redeemed.antt =====
-- What becomes of reserved points: given back as they were, or spent with the order.
use lavish_fashion.Prelude.{
  ℕ, ◌+◌, ◌-◌, ◌≤◌, ◌<◌, ◌≡◌, refl, ap, ◌∙◌, true, false, ◌&&◌, none, some, List, [], ◌∷◌, ok, err,
  find_by, update_by, find_by-update_by_self, ◌==◌, leb, le→leb, sub_ℕ, ◌++◌, arith,
}
use lavish_fashion.Orders.{Order, reserved, redeemed, order_key}
use lavish_fashion.Loyalty.{User, points_redeemed_entry, Store, user_key}
use lavish_fashion.Loyalty.Points.{
  find_user, write_user, write_order, note_transaction, reserve_for, hold,
  reserve_loyalty_redemption, release_from, unhold, release_user_reserved_loyalty_points,
  finalize_for, spend, mark_redeemed, finalize_reserved_loyalty_redemption, is_reserved,
  reserving_user, release_reserved_loyalty_redemption, unable_to_reserve,
}

update_by_back :
    (f g : User → User) (k : ℕ) (us : List User)
    → ((u : User) → (g u).id ≡ u.id)
    → ((u : User) → f (g u) ≡ u)
    → update_by user_key k f (update_by user_key k g us) ≡ us
update_by_back f g k [] same back = refl
update_by_back f g k (u ∷ us) same back =
    ground (arith, same u, back u, update_by_back f g k us same back)

pub unhold-hold : (p : ℕ) (u : User) → unhold p (hold p u) ≡ u
unhold-hold p u =
    ap (λ n. record u { reserved_loyalty_points = n }) (the_same u.reserved_loyalty_points p)
  where
    the_same : (a b : ℕ) → a + b - b ≡ a
    the_same a b = omega arith

not_le : (a b : ℕ) → b < a → leb a b ≡ false
not_le a b h = ground arith

nonzero : (p : ℕ) → 0 < p → (p == 0) ≡ false
nonzero p h = ground arith

pub reserve_ok :
    (k p : ℕ) (u : User) (s : Store)
    → find_user k s ≡ some u
    → 0 < p
    → leb (u.reserved_loyalty_points + p) u.loyalty_points ≡ true
    → reserve_loyalty_redemption (some k) p s ≡ (ok (some (hold p u)), write_user k (hold p) s)
unfolding reserve_loyalty_redemption reserve_for
reserve_ok k p u s there some_points enough =
    rw (nonzero p some_points, reserve_loyalty_redemption) (rw (there, reserve_for) (rw enough))

reserve_short :
    (k p : ℕ) (u : User) (s : Store)
    → find_user k s ≡ some u
    → 0 < p
    → leb (u.reserved_loyalty_points + p) u.loyalty_points ≡ false
    → reserve_loyalty_redemption (some k) p s ≡ (err unable_to_reserve, s)
unfolding reserve_loyalty_redemption reserve_for
reserve_short k p u s there some_points short =
    rw (nonzero p some_points, reserve_loyalty_redemption) (rw (there, reserve_for) (rw short))

pub let_go_ok :
    (k p : ℕ) (u : User) (s : Store)
    → find_user k s ≡ some u
    → 0 < p
    → leb p u.reserved_loyalty_points ≡ true
    → release_user_reserved_loyalty_points (some k) p s
      ≡ (some (unhold p u), write_user k (unhold p) s)
unfolding release_user_reserved_loyalty_points release_from
let_go_ok k p u s there some_points enough =
    rw (nonzero p some_points, release_user_reserved_loyalty_points)
      (rw (there, release_from) (rw enough))

-- A user who is there can reserve points, not 0 of them, when they and those that are reserved
-- already are no more than the user has, and gets an error otherwise, with nothing written.
-- Releasing as many right after such a reservation puts the store back to what it was.
pub reserve_then_release :
    (k p : ℕ) (u : User) (s : Store)
    → find_user k s ≡ some u
    → 0 < p
    → (u.reserved_loyalty_points + p ≤ u.loyalty_points
        → ((reserve_loyalty_redemption (some k) p s).0 ≡ ok (some (hold p u)))
          × ((release_user_reserved_loyalty_points
                (some k)
                p
                (reserve_loyalty_redemption (some k) p s).1).1
              ≡ s))
      × (u.loyalty_points < u.reserved_loyalty_points + p
          → reserve_loyalty_redemption (some k) p s ≡ (err unable_to_reserve, s))
reserve_then_release k p u s there some_points = (
  λ enough. rw (reserve_ok k p u s there some_points (le→leb _ _ enough)) (
    refl,
    rw
        (let_go_ok k p (hold p u) (write_user k (hold p) s)
          (find_by-update_by_self user_key k (hold p) s.users u refl there) some_points
          (le→leb p (u.reserved_loyalty_points + p) (omega arith)))
        (ap (λ us. record s { users = us })
          (update_by_back (unhold p) (hold p) k s.users (λ x. refl) (unhold-hold p))),
  ),
  λ short. reserve_short k p u s there some_points (not_le _ _ short),
)

can_spend :
    (p : ℕ) (u : User)
    → p ≤ u.loyalty_points
    → p ≤ u.reserved_loyalty_points
    → (leb p u.loyalty_points && leb p u.reserved_loyalty_points) ≡ true
can_spend p u a b = ground arith

reserving_user-of :
    (o : Order)
    → 0 < o.points_redeemed
    → o.redemption_status ≡ reserved
    → reserving_user o ≡ o.user_id
unfolding reserving_user is_reserved
reserving_user-of o some_points status = ground arith

reserving_user-none : (o : Order) → o.redemption_status ≡ redeemed → reserving_user o ≡ none
unfolding reserving_user is_reserved
reserving_user-none o status = ground arith

finalize_nobody :
    (now : ℕ) (o : Order) (s : Store)
    → o.redemption_status ≡ redeemed
    → finalize_reserved_loyalty_redemption now o s ≡ (none, s)
unfolding finalize_reserved_loyalty_redemption
finalize_nobody now o s status =
    rw (reserving_user-none o status, finalize_reserved_loyalty_redemption)

release_nobody :
    (now : ℕ) (o : Order) (s : Store)
    → o.redemption_status ≡ redeemed
    → release_reserved_loyalty_redemption now o s ≡ (none, s)
unfolding release_reserved_loyalty_redemption
release_nobody now o s status =
    rw (reserving_user-none o status, release_reserved_loyalty_redemption)

-- The store after a finalization.
abbrev finalized : ℕ → ℕ → Order → User → Store → Store
finalized now k o u s = write_order o.id (mark_redeemed now o) (
    note_transaction k points_redeemed_entry (sub_ℕ 0 o.points_redeemed)
      (u.loyalty_points - o.points_redeemed) (write_user k (spend o.points_redeemed) s))

finalize_ok :
    (now k : ℕ) (o : Order) (u : User) (s : Store)
    → o.user_id ≡ some k
    → 0 < o.points_redeemed
    → o.redemption_status ≡ reserved
    → find_user k s ≡ some u
    → o.points_redeemed ≤ u.loyalty_points
    → o.points_redeemed ≤ u.reserved_loyalty_points
    → finalize_reserved_loyalty_redemption now o s
      ≡ (some (spend o.points_redeemed u), finalized now k o u s)
unfolding finalize_reserved_loyalty_redemption finalize_for
finalize_ok now k o u s owner some_points status there has holds =
    rw (reserving_user-of o some_points status ∙ owner, finalize_reserved_loyalty_redemption)
      (rw (there, finalize_for) (rw (can_spend o.points_redeemed u has holds)))

module _ (now k : ℕ) (o : Order) (u : User) (s : Store) (owner : o.user_id ≡ some k)
    (some_points : 0 < o.points_redeemed) (status : o.redemption_status ≡ reserved)
    (there : find_user k s ≡ some u) (has : o.points_redeemed ≤ u.loyalty_points)
    (holds : o.points_redeemed ≤ u.reserved_loyalty_points) where
  -- Finalizing an order that is stored as it was passed, with reserved points that its user, who
  -- is there, has and has reserved: the points and their reservation are taken from the user, one
  -- transaction says so, and the order is stored such that neither a second finalization nor a
  -- release of it changes anything.
  pub finalize_once :
      find_by order_key o.id s.orders ≡ some o
      → let after = (finalize_reserved_loyalty_redemption now o s).1 in
        (o' : Order) × (find_by order_key o.id after.orders ≡ some o')
        × (find_user k after ≡ some (spend o.points_redeemed u))
        × (after.transactions
            ≡ s.transactions
              ++ record {
                user_id = k;
                type = points_redeemed_entry;
                points = sub_ℕ 0 o.points_redeemed;
                balance_after = u.loyalty_points - o.points_redeemed;
              }
                ∷ [])
        × ((later : ℕ) → finalize_reserved_loyalty_redemption later o' after ≡ (none, after))
        × ((later : ℕ) → release_reserved_loyalty_redemption later o' after ≡ (none, after))
  finalize_once stored =
      let o' = mark_redeemed now o o in
      rw (finalize_ok now k o u s owner some_points status there has holds) (
        o',
        find_by-update_by_self order_key o.id (mark_redeemed now o) s.orders o refl stored,
        find_by-update_by_self user_key k (spend o.points_redeemed) s.users u refl there,
        refl,
        (λ later. finalize_nobody later o' (finalized now k o u s) refl),
        (λ later. release_nobody later o' (finalized now k o u s) refl),
      )

  -- The guards on the status read the order that is passed: for an order with reserved points and
  -- a user who has twice these points and twice as many reserved, a second finalization of the
  -- same old copy takes the points again.
  pub finalize_stale_copy :
      o.points_redeemed + o.points_redeemed ≤ u.loyalty_points
      → o.points_redeemed + o.points_redeemed ≤ u.reserved_loyalty_points
      → (later : ℕ)
      → find_user k
          (finalize_reserved_loyalty_redemption later o
            (finalize_reserved_loyalty_redemption now o s).1).1
        ≡ some (spend o.points_redeemed (spend o.points_redeemed u))
  finalize_stale_copy has_twice holds_twice later =
      let us = update_by user_key k (spend o.points_redeemed) s.users in
      let once = find_by-update_by_self user_key k (spend o.points_redeemed) s.users u refl there in
      rw (finalize_ok now k o u s owner some_points status there has holds) (
        rw
          (finalize_ok later k o (spend o.points_redeemed u) (finalized now k o u s) owner
            some_points status once (omega (arith, has_twice)) (omega (arith, holds_twice)))
          (find_by-update_by_self user_key k (spend o.points_redeemed) us
            (spend o.points_redeemed u) refl once))
