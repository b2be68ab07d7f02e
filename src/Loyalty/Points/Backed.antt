-- ===== src/Loyalty/Points/Backed.antt =====
-- What a user has reserved stays Covered by the points the user has.
use lavish_fashion.Prelude.{
  ℕ, ◌+◌, ◌≤◌, ◌≡◌, inl, inr, sym, ◌∙◌, true, ◌&&◌, some, List, [], ◌∷◌, All, find_by, update_by,
  ◌==◌, leb, ltb, pos, Bool-cases, Option-cases, arith,
}
use lavish_fashion.Orders.{Order}
use lavish_fashion.Loyalty.Rewards.{unlock, count_referral}
use lavish_fashion.Loyalty.Rewards.Gains.{Gains}
use lavish_fashion.Loyalty.Writes.{Write, writes, Steps, writes-follow}
use lavish_fashion.Loyalty.{User, TransactionType, Store, user_key}
use lavish_fashion.Loyalty.Points.{
  find_user, award_to, covers, apply_award, reserve_for, hold, release_from, unhold, unhold_all,
  finalize_for, spend,
}

abbrev pub Covered : User → Type 0
Covered u = u.reserved_loyalty_points ≤ u.loyalty_points

-- No user has more points reserved than there are.
abbrev pub IsBacked : Store → Type 0
IsBacked s = All Covered s.users

All-update :
    (k : ℕ) (f : User → User) (us : List User)
    → ((u : User) → find_by user_key k us ≡ some u → Covered u → Covered (f u))
    → All Covered us
    → All Covered (update_by user_key k f us)
All-update k f [] keeps h = tt
All-update k f (u ∷ us) keeps h = elim (Bool-cases (u.id == k)) [
  | inl same ↦ rw same ((keeps u (rw same) h.0), h.1)
  | inr other ↦ rw other (h.0, All-update k f us (λ x there. keeps x (rw other there)) h.1)
]

award_to-Backed :
    (k n : ℕ) (type : TransactionType) (s : Store)
    → IsBacked s
    → IsBacked (award_to k (pos n) type s).1
unfolding award_to covers
award_to-Backed k n type s h = elim (Option-cases (find_user k s)) [
  | inl missing ↦ rw (missing, award_to) h
  | inr (u, there) ↦
      rw (there, award_to)
        (All-update k (apply_award (pos n)) s.users (λ x found c. omega (arith, c)) h)
]

hold-Covered :
    (k p : ℕ) (us : List User) (u x : User)
    → find_by user_key k us ≡ some u
    → find_by user_key k us ≡ some x
    → leb (u.reserved_loyalty_points + p) u.loyalty_points ≡ true
    → Covered (hold p x)
hold-Covered k p us u x there found enough = ground (arith, sym there ∙ found)

reserve_for-Backed : (k p : ℕ) (s : Store) → IsBacked s → IsBacked (reserve_for k p s).1
unfolding reserve_for
reserve_for-Backed k p s h = elim (Option-cases (find_user k s)) [
  | inl missing ↦ rw (missing, reserve_for) h
  | inr (u, there) ↦ elim (Bool-cases (leb (u.reserved_loyalty_points + p) u.loyalty_points)) [
    | inl enough ↦
        rw (there, reserve_for)
          (rw enough (
            All-update k (hold p) s.users
              (λ x found c. hold-Covered k p s.users u x there found enough) h))
    | inr short ↦ rw (there, reserve_for) (rw short h)
  ]
]

release_from-Backed : (k p : ℕ) (s : Store) → IsBacked s → IsBacked (release_from k p s).1
unfolding release_from
release_from-Backed k p s h = elim (Option-cases (find_user k s)) [
  | inl missing ↦ rw (missing, release_from) h
  | inr (u, there) ↦ elim (Bool-cases (leb p u.reserved_loyalty_points)) [
    | inl enough ↦
        rw (there, release_from)
          (rw enough (All-update k (unhold p) s.users (λ x found c. omega (arith, c)) h))
    | inr short ↦ elim (Bool-cases (ltb 0 u.reserved_loyalty_points)) [
      | inl some_left ↦
          rw (there, release_from)
            (rw (short, some_left) (All-update k unhold_all s.users (λ x found c. omega arith) h))
      | inr nothing ↦ rw (there, release_from) (rw (short, nothing) h)
    ]
  ]
]

finalize_for-Backed :
    (now : ℕ) (o : Order) (k : ℕ) (s : Store) → IsBacked s → IsBacked (finalize_for now o k s).1
unfolding finalize_for
finalize_for-Backed now o k s h = elim (Option-cases (find_user k s)) [
  | inl missing ↦ rw (missing, finalize_for) h
  | inr (u, there) ↦
      elim (Bool-cases (
        leb o.points_redeemed u.loyalty_points
        && leb o.points_redeemed u.reserved_loyalty_points)) [
          | inl enough ↦
              rw (there, finalize_for)
                (rw enough (
                  All-update k (spend o.points_redeemed) s.users (λ x found c. omega (arith, c)) h))
          | inr short ↦ rw (there, finalize_for) (rw short h)
        ]
]

cover_gains : Gains (λ s s'. IsBacked s → IsBacked s')
cover_gains = record {
  same = λ s h. h;
  chain = λ s t u first second h. second (first h);
  award = λ k n type s h. award_to-Backed k n type s h;
  flag = λ k s h. All-update k unlock s.users (λ x found c. c) h;
  count = λ k s h. All-update k count_referral s.users (λ x found c. c) h;
}

pub cover_steps : Steps (λ s s'. IsBacked s → IsBacked s')
cover_steps = record {
  gain = cover_gains;
  reserve = λ k p s h. reserve_for-Backed k p s h;
  let_go = λ k p s h. release_from-Backed k p s h;
  finalize = λ now o k s h. finalize_for-Backed now o k s h;
  order = λ k f s about h. h;
}

-- In any sequence of gains, reservations, releases, redemptions (also for orders that were read
-- long before), rewards for delivered orders and clean-ups, no user comes to have more points
-- reserved than there are.
pub writes-Backed : (ws : List Write) (s : Store) → IsBacked s → IsBacked (writes ws s)
writes-Backed ws s h = writes-follow cover_steps ws s h
