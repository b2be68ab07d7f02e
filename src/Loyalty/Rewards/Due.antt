-- ===== src/Loyalty/Rewards/Due.antt =====
-- When a referral is due, and that a rewarded one is due no more.
use lavish_fashion.Prelude.{
  ℕ, zero, suc, ◌≡◌, refl, ◌∙◌, inl, inr, Bool, true, false, not, ◌&&◌, Option, none, some, List,
  [], ◌∷◌, find_by, update_by, find_by-key, find_by-update_by_self, ◌==◌, pos, Bool-cases,
  Option-cases, ==_refl, arith,
}
use lavish_fashion.Orders.{Order}
use lavish_fashion.Loyalty.{User, TransactionType, order_delivered_entry, Store, user_key}
use lavish_fashion.Loyalty.Points.{
  find_user, write_user, award_to, award_loyalty_points, apply_award, covers,
}
use lavish_fashion.Loyalty.Rewards.{
  RewardRules, calculated_order_points, award_order_points, unlock, can_claim, same_referrer,
  claim_referral_reward_unlock, count_referral, grant_if, reward_referral,
}
use lavish_fashion.Loyalty.Rewards.Gains.{Gains, granted-follows}

-- A referral of another user that is not rewarded yet.
unfoldable pub due_for : ℕ → Bool → Option ℕ → Bool
due_for id unlocked none = false
due_for id unlocked (some r) = not unlocked && not (id == r)

unfoldable pub due_to : Option User → Bool
unfolding due_for
due_to none = false
due_to (some u) = due_for u.id u.referral_reward_unlocked u.referred_by

unfoldable pub due : ℕ → Store → Bool
unfolding due_to
due k s = due_to (find_user k s)

due_kept :
    (k j : ℕ) (f : User → User) (us : List User)
    → ((u : User) → (f u).id ≡ u.id)
    → ((u : User) → due_to (some (f u)) ≡ due_to (some u))
    → due_to (find_by user_key k (update_by user_key j f us)) ≡ due_to (find_by user_key k us)
unfolding due_to
due_kept k j f [] same kept = refl
due_kept k j f (u ∷ us) same kept = ground (arith, same u, kept u, due_kept k j f us same kept)

abbrev KeepsOrders : Store → Store → Type 0
KeepsOrders s t = t.orders ≡ s.orders

award_to-orders :
    (k n : ℕ) (type : TransactionType) (s : Store) → (award_to k (pos n) type s).1.orders ≡ s.orders
unfolding award_to covers
award_to-orders k n type s = elim (Option-cases (find_user k s)) [
  | inl missing ↦ rw (missing, award_to) refl
  | inr (u, there) ↦ rw (there, award_to) refl
]

pub orders_kept : Gains KeepsOrders
orders_kept = record {
  same = λ s. refl;
  chain = λ s t u first second. second ∙ first;
  award = award_to-orders;
  flag = λ k s. refl;
  count = λ k s. refl;
}

abbrev KeepsSettled : ℕ → Store → Store → Type 0
KeepsSettled k s t = due k s ≡ false → due k t ≡ false

due_unlocked : (u : User) → due_to (some u) ≡ false → due_to (some (unlock u)) ≡ false
unfolding due_to due_for
due_unlocked u h = elim (Option-cases u.referred_by) [
  | inl missing ↦ rw missing refl
  | inr (r, there) ↦ rw there refl
]

unlock_settles :
    (k j : ℕ) (us : List User)
    → due_to (find_by user_key k us) ≡ false
    → due_to (find_by user_key k (update_by user_key j unlock us)) ≡ false
unfolding due_to
unlock_settles k j [] h = refl
unlock_settles k j (u ∷ us) h = ground (arith, due_unlocked u, unlock_settles k j us)

award_to-due :
    (k j n : ℕ) (type : TransactionType) (s : Store) → due k (award_to j (pos n) type s).1 ≡ due k s
unfolding award_to covers due due_to
award_to-due k j n type s = elim (Option-cases (find_user j s)) [
  | inl missing ↦ rw (missing, award_to) refl
  | inr (u, there) ↦
      rw (there, award_to) (due_kept k j (apply_award (pos n)) s.users (λ x. refl) (λ x. refl))
]

settled_kept : (k : ℕ) → Gains (KeepsSettled k)
unfolding due due_to
settled_kept k = record {
  same = λ s h. h;
  chain = λ s t u first second h. second (first h);
  award = λ j n type s h. award_to-due k j n type s ∙ h;
  flag = λ j s h. unlock_settles k j s.users h;
  count = λ j s h. due_kept k j count_referral s.users (λ x. refl) (λ x. refl) ∙ h;
}

-- What of a user the referral reads.
abbrev SameReferral : User → User → Type 0
SameReferral u u' =
    (u'.referred_by ≡ u.referred_by) × (u'.referral_reward_unlocked ≡ u.referral_reward_unlocked)

gain-user :
    (k n : ℕ) (type : TransactionType) (u : User) (s : Store)
    → find_user k s ≡ some u
    → (u' : User) × (find_user k (award_loyalty_points (some k) (pos n) type s).1 ≡ some u')
      × SameReferral u u'
unfolding award_loyalty_points award_to covers
gain-user k zero type u s there = (u, there, (refl, refl))
gain-user k (suc n) type u s there =
    rw (there, award_to)
      (
        apply_award (pos (suc n)) u,
        find_by-update_by_self user_key k (apply_award (pos (suc n))) s.users u refl there,
        (refl, refl),
      )

pub order_points-user :
    (rules : RewardRules) (o : Order) (k : ℕ) (awarded : Option ℕ) (u : User) (s : Store)
    → find_user k s ≡ some u
    → (u' : User) × (find_user k (award_order_points rules o k awarded s).1 ≡ some u')
      × SameReferral u u'
unfolding award_order_points
order_points-user rules o k (some t) u s there = (u, there, (refl, refl))
order_points-user rules o k none u s there =
    gain-user k (calculated_order_points rules o.amount) order_delivered_entry u s there

claim_wins :
    (k r : ℕ) (u : User) (s : Store)
    → find_user k s ≡ some u
    → u.referred_by ≡ some r
    → u.referral_reward_unlocked ≡ false
    → claim_referral_reward_unlock k r s ≡ (true, write_user k unlock s)
unfolding claim_referral_reward_unlock can_claim same_referrer
claim_wins k r u s there by locked =
    rw (there, claim_referral_reward_unlock) (rw (by, locked) (rw (==_refl r) refl))

claimed-settled :
    (k : ℕ) (u : User) (s : Store) → find_user k s ≡ some u → due k (write_user k unlock s) ≡ false
unfolding due due_to due_for
claimed-settled k u s there =
    rw (find_by-update_by_self user_key k unlock s.users u refl there, due_to) (unlocked u)
  where
    unlocked : (u : User) → due_to (some (unlock u)) ≡ false
    unlocked u = elim (Option-cases u.referred_by) [
      | inl missing ↦ rw missing refl
      | inr (r, there) ↦ rw there refl
    ]

due_of_same :
    (u u' : User)
    → SameReferral u u'
    → u'.id ≡ u.id
    → due_to (some u) ≡ false
    → due_to (some u') ≡ false
unfolding due_to
due_of_same u u' (by, locked) same h = rw (by, locked, same) h

no_referrer-settled : (u : User) → u.referred_by ≡ none → due_to (some u) ≡ false
unfolding due_to due_for
no_referrer-settled u missing = rw missing refl

not_unlocked :
    (u : User) (r : ℕ)
    → (not u.referral_reward_unlocked && not (u.id == r)) ≡ true
    → u.referral_reward_unlocked ≡ false
not_unlocked u r h = ground arith

is_closed :
    (u : User) (r : ℕ)
    → u.referred_by ≡ some r
    → (not u.referral_reward_unlocked && not (u.id == r)) ≡ false
    → due_to (some u) ≡ false
unfolding due_to due_for
is_closed u r by h = rw by h

pub referral-settled :
    (rules : RewardRules) (points : ℕ) (u u' : User) (by : Option ℕ) (s : Store)
    → u.referred_by ≡ by
    → find_user u.id s ≡ some u'
    → SameReferral u u'
    → due u.id (reward_referral rules points u by s).1 ≡ false
unfolding reward_referral due grant_if
referral-settled rules points u u' none s by there (by', locked) =
    rw there (no_referrer-settled u' (by' ∙ by))
referral-settled rules points u u' (some r) s by there (by', locked) =
    elim (Bool-cases (not u.referral_reward_unlocked && not (u.id == r))) [
      | inl fresh ↦
          rw (fresh, claim_wins u.id r u' s there (by' ∙ by) (locked ∙ not_unlocked u r fresh))
            (granted-follows (settled_kept u.id) rules points u.id r (write_user u.id unlock s)
              (claimed-settled u.id u' s there))
      | inr closed ↦
          rw (closed, there)
            (due_of_same u u' (by', locked) (find_by-key user_key u.id s.users u' there)
              (is_closed u r by closed))
    ]
