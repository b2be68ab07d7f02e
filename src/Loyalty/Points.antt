-- ===== src/Loyalty/Points.antt =====
-- The writes of server/services/loyaltyService.js: awards, reservations and what ends them. An
-- order is passed as the caller read it, so it may be older than the stored one.
pub mod Backed
pub mod Booked
pub mod Redeemed
use lavish_fashion.Prelude.{
  ℕ, ◌+◌, ◌-◌, ◌*◌, suc, zero, Bool, true, false, not, ◌&&◌, Option, none, some, List, [], ◌∷◌,
  ◌++◌, keep_if, map, Result, ok, err, Exec, find_by, update_by, ltb, leb, ◌==◌, if◌then◌else◌, ℤ,
  pos, negsuc, sub_ℕ,
}
use lavish_fashion.Orders.{
  Order, RedemptionStatus, reserved, redeemed, released, no_redemption, order_key,
}
use lavish_fashion.Loyalty.{
  User, Transaction, TransactionType, points_redeemed_entry, Store, user_key,
}

abbrev pub find_user : ℕ → Store → Option User
find_user k s = find_by user_key k s.users

abbrev pub write_user : ℕ → (User → User) → Store → Store
write_user k f s = record s { users = update_by user_key k f s.users }

-- The filter of an award: a loss must be covered.
unfoldable pub covers : ℤ → User → Bool
covers (pos n) u = true
covers (negsuc n) u = leb (suc n) u.loyalty_points

abbrev pub apply_award : ℤ → User → User
apply_award (pos n) u = record u {
  loyalty_points = u.loyalty_points + n;
  lifetime_loyalty_points = u.lifetime_loyalty_points + n;
}
apply_award (negsuc n) u = record u { loyalty_points = u.loyalty_points - suc n }

abbrev pub note_transaction : ℕ → TransactionType → ℤ → ℕ → Store → Store
note_transaction k type points balance s = record s {
  transactions =
      s.transactions
      ++ record { user_id = k; type = type; points = points; balance_after = balance } ∷ [];
}

-- Behind the test that there is a user and that the points are not 0.
unfoldable pub award_to : ℕ → ℤ → TransactionType → Store → Option User × Store
unfolding covers
award_to k points type s = elim (find_user k s) [
  | none ↦ (none, s)
  | some u ↦
      if covers points u
      then (
        some (apply_award points u),
        note_transaction k type points (apply_award points u).loyalty_points
            (write_user k (apply_award points) s),
      )
      else (none, s)
]

unfoldable pub award_loyalty_points : Option ℕ → ℤ → TransactionType → Store → Option User × Store
unfolding award_to
award_loyalty_points none points type s = (none, s)
award_loyalty_points (some k) (pos zero) type s = (none, s)
award_loyalty_points (some k) points type s = award_to k points type s

pub data LoyaltyError : Type 0 where
  unable_to_reserve : LoyaltyError

abbrev pub hold : ℕ → User → User
hold p u = record u { reserved_loyalty_points = u.reserved_loyalty_points + p }

-- The `$expr` of the filter: the points that are not reserved reach.
unfoldable pub reserve_for : ℕ → ℕ → Exec Store LoyaltyError (Option User)
reserve_for k p s = elim (find_user k s) [
  | none ↦ (err unable_to_reserve, s)
  | some u ↦
      if leb (u.reserved_loyalty_points + p) u.loyalty_points
      then (ok (some (hold p u)), write_user k (hold p) s)
      else (err unable_to_reserve, s)
]

unfoldable pub reserve_loyalty_redemption : Option ℕ → ℕ → Exec Store LoyaltyError (Option User)
unfolding reserve_for
reserve_loyalty_redemption none p s = (ok none, s)
reserve_loyalty_redemption (some k) p s = if p == 0 then (ok none, s) else reserve_for k p s

abbrev pub unhold : ℕ → User → User
unhold p u = record u { reserved_loyalty_points = u.reserved_loyalty_points - p }

abbrev pub unhold_all : User → User
unhold_all u = record u { reserved_loyalty_points = 0 }

-- The guarded write, and the one that clamps to 0 where less is reserved.
unfoldable pub release_from : ℕ → ℕ → Store → Option User × Store
release_from k p s = elim (find_user k s) [
  | none ↦ (none, s)
  | some u ↦
      if leb p u.reserved_loyalty_points
      then (some (unhold p u), write_user k (unhold p) s)
      else if ltb 0 u.reserved_loyalty_points
      then (some (unhold_all u), write_user k unhold_all s)
      else (none, s)
]

unfoldable pub release_user_reserved_loyalty_points : Option ℕ → ℕ → Store → Option User × Store
unfolding release_from
release_user_reserved_loyalty_points none p s = (none, s)
release_user_reserved_loyalty_points (some k) p s = if p == 0 then (none, s) else release_from k p s

abbrev pub spend : ℕ → User → User
spend p u = record u {
  loyalty_points = u.loyalty_points - p;
  reserved_loyalty_points = u.reserved_loyalty_points - p;
}

abbrev pub or_now : ℕ → Option ℕ → Option ℕ
or_now now none = some now
or_now now (some t) = some t

-- The update sets the status and the time, which comes from the order that was passed.
abbrev pub mark_redeemed : ℕ → Order → Order → Order
mark_redeemed now passed o = record o {
  redemption_status = redeemed;
  applied_at = or_now now passed.applied_at;
}

abbrev pub mark_released : ℕ → Order → Order
mark_released now o = record o { redemption_status = released; released_at = some now }

abbrev pub write_order : ℕ → (Order → Order) → Store → Store
write_order k f s = record s { orders = update_by order_key k f s.orders }

unfoldable pub is_reserved : RedemptionStatus → Bool
is_reserved reserved = true
is_reserved _ = false

-- The guards on the order that both endings share: its user, if it has reserved points.
unfoldable pub reserving_user : Order → Option ℕ
unfolding is_reserved
reserving_user o =
    if ltb 0 o.points_redeemed && is_reserved o.redemption_status then o.user_id else none

-- The guarded write of `finalizeReservedLoyaltyRedemption`, the transaction and the order.
unfoldable pub finalize_for : ℕ → Order → ℕ → Store → Option User × Store
finalize_for now o k s = elim (find_user k s) [
  | none ↦ (none, s)
  | some u ↦
      if leb o.points_redeemed u.loyalty_points && leb o.points_redeemed u.reserved_loyalty_points
      then (
        some (spend o.points_redeemed u),
        write_order o.id (mark_redeemed now o) (
            note_transaction k points_redeemed_entry (sub_ℕ 0 o.points_redeemed)
              (spend o.points_redeemed u).loyalty_points
              (write_user k (spend o.points_redeemed) s)),
      )
      else (none, s)
]

unfoldable pub finalize_reserved_loyalty_redemption : ℕ → Order → Store → Option User × Store
unfolding reserving_user finalize_for
finalize_reserved_loyalty_redemption now o s = elim (reserving_user o) [
  | none ↦ (none, s)
  | some k ↦ finalize_for now o k s
]

unfoldable pub close_released : ℕ → ℕ → Option User × Store → Option User × Store
close_released now k (none, s) = (none, s)
close_released now k (some u, s) = (some u, write_order k (mark_released now) s)

unfoldable pub release_reserved_loyalty_redemption : ℕ → Order → Store → Option User × Store
unfolding reserving_user release_user_reserved_loyalty_points close_released
release_reserved_loyalty_redemption now o s = elim (reserving_user o) [
  | none ↦ (none, s)
  | some k ↦
      close_released now o.id (release_user_reserved_loyalty_points (some k) o.points_redeemed s)
]

-- The filter of `cleanupStaleReservations`, and the loop over what it found before any release.
unfoldable pub is_stale : ℕ → Order → Bool
unfolding is_reserved
is_stale cutoff o =
    is_reserved o.redemption_status && ltb 0 o.points_redeemed && ltb o.date cutoff && not o.payment

unfoldable pub release_stale : ℕ → List Order → Store → List (ℕ × ℕ) × Store
unfolding release_reserved_loyalty_redemption
release_stale now [] s = ([], s)
release_stale now (o ∷ os) s =
    let (done, s') = release_reserved_loyalty_redemption now o s in
    let (results, s'') = release_stale now os s' in (report done o results, s'')
  where
    report : Option User → Order → List (ℕ × ℕ) → List (ℕ × ℕ)
    report none o results = results
    report (some u) o results = (o.id, o.points_redeemed) ∷ results

unfoldable pub cleanup_stale_reservations : ℕ → ℕ → Store → List (ℕ × ℕ) × Store
unfolding is_stale release_stale
cleanup_stale_reservations now stale_cutoff s =
    release_stale now (keep_if (is_stale (now - stale_cutoff)) s.orders) s
