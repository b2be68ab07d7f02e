-- ===== src/Shipping/Matching.antt =====
-- An event of Shiprocket is matched with one order, the one that its id finds.
use mathlib.Core.Option.{some-injective}
use lavish_fashion.Prelude.{
  ℕ, ◌≡◌, ◌≢◌, refl, sym, ap, ◌∙◌, subst, inl, inr, Bool, true, false, not, ◌&&◌, ◌||◌, any, Option,
  none, some, List, [], ◌∷◌, map, ◌==◌, ==_iff, ==_refl, find_by, Bool-cases, Option-cases, arith,
}
use lavish_fashion.Orders.{Order, order_key}
use lavish_fashion.Orders.World.{World}
use lavish_fashion.Orders.Ids.{ids}
use lavish_fashion.Payments.Webhook.{is_id}
use lavish_fashion.Shipping.{Payload}
use lavish_fashion.Shipping.Signal.{order_where, search_by, find_order_for_shiprocket_webhook}

-- No two orders have the same id.
abbrev pub distinct : List Order → Bool
distinct [] = true
distinct (o ∷ os) = not (any (λ x. x.id == o.id) os) && distinct os

distinct_ids : List ℕ → Bool
distinct_ids [] = true
distinct_ids (k ∷ ks) = not (any (λ j. j == k) ks) && distinct_ids ks

any_id : (k : ℕ) (os : List Order) → any (λ x. x.id == k) os ≡ any (λ j. j == k) (map order_key os)
any_id k [] = refl
any_id k (o ∷ os) = rw (any_id k os) refl

distinct-ids : (os : List Order) → distinct os ≡ distinct_ids (map order_key os)
unfolding distinct_ids
distinct-ids [] = refl
distinct-ids (o ∷ os) = rw (any_id o.id os, distinct-ids os) refl

-- Whether ids are distinct depends on the ids only.
pub distinct_as :
    (w w' : World)
    → ids w' ≡ ids w
    → distinct w.loyalty.orders ≡ true
    → distinct w'.loyalty.orders ≡ true
distinct_as w w' same apart =
    distinct-ids w'.loyalty.orders
    ∙ ap distinct_ids same
    ∙ sym (distinct-ids w.loyalty.orders)
    ∙ apart

or_true : (b : Bool) → (b || true) ≡ true
or_true b = ground arith

and_left : (a b : Bool) → (a && b) ≡ true → a ≡ true
and_left a b h = ground arith

and_right : (a b : Bool) → (a && b) ≡ true → b ≡ true
and_right a b h = ground arith

not_both : {b : Bool} → not b ≡ true → b ≢ true
not_both {b} h = ground arith

-- A search that misses the first order goes on with the others.
where_hit :
    (field : Order → Option ℕ) (k : ℕ) (o x : Order) (os : List Order)
    → is_id (field x) k ≡ true
    → order_where field k (x ∷ os) ≡ some o
    → x ≡ o
unfolding order_where
where_hit field k o x os hit there = some-injective x o (sym (rw (hit, order_where) refl) ∙ there)

where_miss :
    (field : Order → Option ℕ) (k : ℕ) (o x : Order) (os : List Order)
    → is_id (field x) k ≡ false
    → order_where field k (x ∷ os) ≡ some o
    → order_where field k os ≡ some o
unfolding order_where
where_miss field k o x os miss there = sym (rw (miss, order_where) refl) ∙ there

found_there :
    (field : Order → Option ℕ) (k : ℕ) (o : Order) (os : List Order)
    → order_where field k os ≡ some o
    → any (λ x. x.id == o.id) os ≡ true
unfolding order_where
found_there field k o [] there = cc
found_there field k o (x ∷ os) there = elim (Bool-cases (is_id (field x) k)) [
  | inl hit ↦ rw (ap (λ y. y.id) (where_hit field k o x os hit there), ==_refl o.id) refl
  | inr miss ↦
      rw (found_there field k o os (where_miss field k o x os miss there)) (or_true (x.id == o.id))
]

found_by_id :
    (field : Order → Option ℕ) (k : ℕ) (o : Order) (os : List Order)
    → distinct os ≡ true
    → order_where field k os ≡ some o
    → find_by order_key o.id os ≡ some o
unfolding order_where
found_by_id field k o [] apart there = cc
found_by_id field k o (x ∷ os) apart there = elim (Bool-cases (is_id (field x) k)) [
  | inl hit ↦
      subst (λ y. find_by order_key o.id (y ∷ os) ≡ some o)
        (sym (where_hit field k o x os hit there)) (rw (==_refl o.id) refl)
  | inr miss ↦
      let rest = where_miss field k o x os miss there in
      elim (Bool-cases (x.id == o.id)) [
        | inr other ↦ rw other (found_by_id field k o os (and_right _ _ apart) rest)
        | inl same ↦ absurd (
            not_both (and_left _ _ apart) (
              subst (λ i. any (λ y. y.id == i) os ≡ true) (sym ((==_iff x.id o.id).0 same))
                (found_there field k o os rest)))
      ]
]

search_keyed :
    (field : Order → Option ℕ) (k : Option ℕ) (o : Order) (os : List Order) (rest : Option Order)
    → distinct os ≡ true
    → (rest ≡ some o → find_by order_key o.id os ≡ some o)
    → search_by field k os rest ≡ some o
    → find_by order_key o.id os ≡ some o
unfolding search_by
search_keyed field none o os rest apart then there = then there
search_keyed field (some k) o os rest apart then there =
    elim (Option-cases (order_where field k os)) [
      | inl missing ↦ then (sym (rw (missing, search_by) refl) ∙ there)
      | inr (x, found) ↦
          found_by_id field k o os apart (found ∙ sym (rw (found, search_by) refl) ∙ there)
    ]

-- The order that an event is matched with is the one that its id finds.
pub matched_by_id :
    (payload : Payload) (o : Order) (os : List Order)
    → distinct os ≡ true
    → find_order_for_shiprocket_webhook payload os ≡ some o
    → find_by order_key o.id os ≡ some o
unfolding find_order_for_shiprocket_webhook
matched_by_id payload o os apart = search_keyed _ payload.shipment_id o os _ apart (
    search_keyed _ payload.shiprocket_order_id o os _ apart (
      search_keyed _ payload.awb_code o os _ apart
        (search_keyed _ payload.reference_order_id o os none apart (λ e. cc))))
