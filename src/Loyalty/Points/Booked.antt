-- ===== src/Loyalty/Points/Booked.antt =====
-- The transactions book what happens to the points of the users.
use lavish_fashion.Prelude.{
  ℕ, ◌+◌, ◌≡◌, refl, inl, inr, true, ◌&&◌, some, List, [], ◌∷◌, sum_by, sum_by-append,
  sum_by-update_by, update_by, leb, ℤ, pos, negsuc, pos_part, neg_part, sub_ℕ, ltb, Bool-cases,
  Option-cases, arith,
}
use lavish_fashion.Orders.{Order}
use lavish_fashion.Loyalty.{User, TransactionType, points_redeemed_entry, Store, user_key}
use lavish_fashion.Loyalty.Rewards.{unlock, count_referral}
use lavish_fashion.Loyalty.Rewards.Gains.{Gains}
use lavish_fashion.Loyalty.Writes.{Write, writes, Steps, writes-follow}
use lavish_fashion.Loyalty.Points.{
  find_user, write_user, note_transaction, award_to, covers, apply_award, reserve_for, hold,
  release_from, unhold, unhold_all, finalize_for, spend,
}

abbrev points_of : User → ℕ
points_of u = u.loyalty_points

-- The points of all users.
abbrev pub all_points : Store → ℕ
all_points s = sum_by points_of s.users

-- What all transactions gave, and what they took.
abbrev pub given : Store → ℕ
given s = sum_by (λ t. pos_part t.points) s.transactions

abbrev pub taken : Store → ℕ
taken s = sum_by (λ t. neg_part t.points) s.transactions

-- The points of all users change by what the new transactions say.
abbrev pub IsBooked : Store → Store → Type 0
IsBooked s t = all_points t + given s + taken t ≡ all_points s + given t + taken s

keeps_points :
    (k : ℕ) (f : User → User) (us : List User)
    → ((u : User) → (f u).loyalty_points ≡ u.loyalty_points)
    → sum_by points_of (update_by user_key k f us) ≡ sum_by points_of us
keeps_points k f [] same = refl
keeps_points k f (u ∷ us) same = ground (arith, same u, keeps_points k f us same)

moves_points :
    (k : ℕ) (f : User → User) (u : User) (s : Store)
    → find_user k s ≡ some u
    → all_points (write_user k f s) + u.loyalty_points ≡ all_points s + (f u).loyalty_points
moves_points k f u s there = sum_by-update_by user_key points_of k f s.users u there

-- A write to one user with the transaction that says how the points change.
noted-Booked :
    (k : ℕ) (f : User → User) (type : TransactionType) (z : ℤ) (balance : ℕ) (u : User) (s : Store)
    → find_user k s ≡ some u
    → (f u).loyalty_points + neg_part z ≡ u.loyalty_points + pos_part z
    → IsBooked s (note_transaction k type z balance (write_user k f s))
noted-Booked k f type z balance u s there says = omega (
  arith,
  moves_points k f u s there,
  says,
  sum_by-append (λ t. pos_part t.points) s.transactions
      (record { user_id = k; type = type; points = z; balance_after = balance } ∷ []),
  sum_by-append (λ t. neg_part t.points) s.transactions
      (record { user_id = k; type = type; points = z; balance_after = balance } ∷ []),
)

award_says :
    (z : ℤ) (u : User)
    → covers z u ≡ true
    → (apply_award z u).loyalty_points + neg_part z ≡ u.loyalty_points + pos_part z
unfolding covers
award_says (pos n) u enough = omega arith
award_says (negsuc n) u enough = ground arith

pub award_to-Booked :
    (k : ℕ) (z : ℤ) (type : TransactionType) (s : Store) → IsBooked s (award_to k z type s).1
unfolding award_to
award_to-Booked k z type s = elim (Option-cases (find_user k s)) [
  | inl missing ↦ rw (missing, award_to) refl
  | inr (u, there) ↦ elim (Bool-cases (covers z u)) [
    | inl enough ↦
        rw (there, award_to)
          (rw enough (
            noted-Booked k (apply_award z) type z (apply_award z u).loyalty_points u s there
              (award_says z u enough)))
    | inr short ↦ rw (there, award_to) (rw short refl)
  ]
]

held-Booked :
    (k : ℕ) (f : User → User) (s : Store)
    → ((u : User) → (f u).loyalty_points ≡ u.loyalty_points)
    → IsBooked s (write_user k f s)
held-Booked k f s same = omega (arith, keeps_points k f s.users same)

reserve_for-Booked : (k p : ℕ) (s : Store) → IsBooked s (reserve_for k p s).1
unfolding reserve_for
reserve_for-Booked k p s = elim (Option-cases (find_user k s)) [
  | inl missing ↦ rw (missing, reserve_for) refl
  | inr (u, there) ↦ elim (Bool-cases (leb (u.reserved_loyalty_points + p) u.loyalty_points)) [
    | inl enough ↦ rw (there, reserve_for) (rw enough (held-Booked k (hold p) s (λ x. refl)))
    | inr short ↦ rw (there, reserve_for) (rw short refl)
  ]
]

release_from-Booked : (k p : ℕ) (s : Store) → IsBooked s (release_from k p s).1
unfolding release_from
release_from-Booked k p s = elim (Option-cases (find_user k s)) [
  | inl missing ↦ rw (missing, release_from) refl
  | inr (u, there) ↦ elim (Bool-cases (leb p u.reserved_loyalty_points)) [
    | inl enough ↦ rw (there, release_from) (rw enough (held-Booked k (unhold p) s (λ x. refl)))
    | inr short ↦ elim (Bool-cases (ltb 0 u.reserved_loyalty_points)) [
      | inl some_left ↦
          rw (there, release_from) (rw (short, some_left) (held-Booked k unhold_all s (λ x. refl)))
      | inr nothing ↦ rw (there, release_from) (rw (short, nothing) refl)
    ]
  ]
]

spend_says :
    (p : ℕ) (u : User)
    → (leb p u.loyalty_points && leb p u.reserved_loyalty_points) ≡ true
    → (spend p u).loyalty_points + neg_part (sub_ℕ 0 p) ≡ u.loyalty_points + pos_part (sub_ℕ 0 p)
spend_says p u enough = ground arith

finalize_for-Booked :
    (now : ℕ) (o : Order) (k : ℕ) (s : Store) → IsBooked s (finalize_for now o k s).1
unfolding finalize_for
finalize_for-Booked now o k s = elim (Option-cases (find_user k s)) [
  | inl missing ↦ rw (missing, finalize_for) refl
  | inr (u, there) ↦
      elim (Bool-cases (
        leb o.points_redeemed u.loyalty_points
        && leb o.points_redeemed u.reserved_loyalty_points)) [
          | inl enough ↦
              rw (there, finalize_for)
                (rw enough (
                  noted-Booked k (spend o.points_redeemed) points_redeemed_entry
                    (sub_ℕ 0 o.points_redeemed) (spend o.points_redeemed u).loyalty_points u s there
                    (spend_says o.points_redeemed u enough)))
          | inr short ↦ rw (there, finalize_for) (rw short refl)
        ]
]

book_gains : Gains IsBooked
book_gains = record {
  same = λ s. refl;
  chain = λ s t u first second. omega (arith, first, second);
  award = λ k n type s. award_to-Booked k (pos n) type s;
  flag = λ k s. held-Booked k unlock s (λ x. refl);
  count = λ k s. held-Booked k count_referral s (λ x. refl);
}

pub book_steps : Steps IsBooked
book_steps = record {
  gain = book_gains;
  reserve = λ k p s. reserve_for-Booked k p s;
  let_go = λ k p s. release_from-Booked k p s;
  finalize = λ now o k s. finalize_for-Booked now o k s;
  order = λ k f s about. refl;
}

-- Over any sequence of gains, reservations, releases, redemptions, rewards for delivered orders and
-- clean-ups, the points of all users together change by exactly what the transactions that were
-- written meanwhile add up to.
pub writes-Booked : (ws : List Write) (s : Store) → IsBooked s (writes ws s)
writes-Booked ws s = writes-follow book_steps ws s
