-- ===== src/Refund/Ledger/Laws.antt =====
-- What server/services/ledgerService.js writes, and the balances it reads back.
use lavish_fashion.Prelude.{
  ℕ, zero, suc, ◌≡◌, ◌≢◌, refl, Bool, false, Option, none, some, List, [], ◌∷◌, ◌++◌, Result, ok,
  err, ℤ, pos, negsuc, ◌+ℤ◌, int_laws, +ℤ_comm, +ℤ_assoc, Bool-cases, inl, inr, ◌⊎◌, arith, ◌==◌,
  if◌then◌else◌,
}
use lavish_fashion.Refund.Errors.{Thrown, database_error}
use lavish_fashion.Refund.Store.{
  Db, LedgerEntry, LedgerType, LedgerSource, Reference, refund_entry, adjustment_entry,
}
use lavish_fashion.Refund.Ledger.{
  EntryInput, build_entry, append_entry, write_entry, balance_of, get_balance, record_refund,
  record_adjustment,
}

abbrev pub row : LedgerType → LedgerSource → ℤ → ℕ → EntryInput → LedgerEntry
row t s a o input = record {
  type = t;
  amount_in_paise = a;
  reference_id = input.reference_id;
  order_id = o;
  refund_id = input.refund_id;
  source = s;
}

-- The four parts that a valid entry has.
pub record IsValid (type : Option LedgerType) (source : Option LedgerSource) (amount : Option ℤ)
    (order : Option ℕ) : Type 0 where
  pub t : LedgerType
  pub s : LedgerSource
  pub a : ℤ
  pub o : ℕ
  pub has_type : type ≡ some t
  pub has_source : source ≡ some s
  pub has_amount : amount ≡ some a
  pub not_zero : a ≢ pos 0
  pub has_order : order ≡ some o

build_entry-cases :
    (t : Option LedgerType) (s : Option LedgerSource) (a : Option ℤ) (o : Option ℕ)
    (input : EntryInput)
    → ((e : Thrown) × (build_entry t s a o input ≡ err e) × ¬ IsValid t s a o)
      ⊎ ((v : IsValid t s a o) × (build_entry t s a o input ≡ ok (row v.t v.s v.a v.o input)))
unfolding build_entry
build_entry-cases none s a o input = inl (_, refl, λ v. cc v.has_type)
build_entry-cases (some t) none a o input = inl (_, refl, λ v. cc v.has_source)
build_entry-cases (some t) (some s) none o input = inl (_, refl, λ v. cc v.has_amount)
build_entry-cases (some t) (some s) (some (pos zero)) o input =
    inl (_, refl, λ v. v.not_zero (ground (arith, v.has_amount)))
build_entry-cases (some t) (some s) (some (pos (suc n))) none input =
    inl (_, refl, λ v. cc v.has_order)
build_entry-cases (some t) (some s) (some (negsuc n)) none input =
    inl (_, refl, λ v. cc v.has_order)
build_entry-cases (some t) (some s) (some (pos (suc n))) (some o) input = inr (
  record {
    t = t;
    s = s;
    a = pos (suc n);
    o = o;
    has_type = refl;
    has_source = refl;
    has_amount = refl;
    not_zero = λ e. ground arith;
    has_order = refl;
  },
  refl,
)
build_entry-cases (some t) (some s) (some (negsuc n)) (some o) input = inr (
  record {
    t = t;
    s = s;
    a = negsuc n;
    o = o;
    has_type = refl;
    has_source = refl;
    has_amount = refl;
    not_zero = λ e. ground arith;
    has_order = refl;
  },
  refl,
)

-- `write_entry` either throws and writes nothing, or appends exactly the row of its input and
-- changes nothing else; with the database up it throws exactly when the type, the source or the
-- order is missing or the amount is not an integer other than zero.
pub write_entry_effect :
    (fault : Bool) (type : Option LedgerType) (input : EntryInput) (db : Db)
    → ((e : Thrown) × (write_entry fault type input db ≡ (err e, db))
        × (fault ≡ false → ¬ IsValid type input.source input.amount_in_paise input.order_id))
      ⊎ ((v : IsValid type input.source input.amount_in_paise input.order_id) × (write_entry fault
              type input db
            ≡ (ok tt, record db { ledger = db.ledger ++ row v.t v.s v.a v.o input ∷ [] })))
unfolding write_entry append_entry
write_entry_effect fault type input db =
    elim (build_entry-cases type input.source input.amount_in_paise input.order_id input) [
      | inl (e, refused, invalid) ↦ inl (e, (rw refused), λ _. invalid)
      | inr (v, built) ↦ elim (Bool-cases fault) [
        | inl broken ↦ inl (database_error, (rw (built, broken)), λ up. cc)
        | inr fine ↦ inr (v, rw (built, fine))
      ]
    ]

-- Whatever happens, only the ledger is written.
pub write_entry-cases :
    (fault : Bool) (type : Option LedgerType) (input : EntryInput) (db : Db)
    → (r : Result Thrown (Unit {0})) × (l : List LedgerEntry) × (write_entry fault type input db
        ≡ (r, record db { ledger = l }))
write_entry-cases fault type input db = elim (write_entry_effect fault type input db) [
  | inl (e, refused, _) ↦ (err e, db.ledger, refused)
  | inr (v, written) ↦ (ok tt, db.ledger ++ row v.t v.s v.a v.o input ∷ [], written)
]

-- A valid entry is written, with the database up.
pub write_entry_ok :
    (type : Option LedgerType) (input : EntryInput) (db : Db)
    → IsValid type input.source input.amount_in_paise input.order_id
    → (l : List LedgerEntry) × (write_entry false type input db ≡ (ok tt, record db { ledger = l }))
write_entry_ok type input db valid = elim (write_entry_effect false type input db) [
  | inl (e, refused, invalid) ↦ absurd (invalid refl valid)
  | inr (v, written) ↦ (db.ledger ++ row v.t v.s v.a v.o input ∷ [], written)
]

-- One more row adds its amount to the balance of its order, and to no other.
pub balance_of-append :
    (k : ℕ) (es : List LedgerEntry) (e : LedgerEntry)
    → balance_of k (es ++ e ∷ [])
      ≡ (if e.order_id == k then balance_of k es +ℤ e.amount_in_paise else balance_of k es)
balance_of-append k [] e = ground (arith, +ℤ_comm e.amount_in_paise (pos 0))
balance_of-append k (x ∷ es) e = ground (
  arith,
  balance_of-append k es e,
  +ℤ_assoc x.amount_in_paise (balance_of k es) e.amount_in_paise,
)

abbrev pub entry : ℤ → LedgerSource → Reference → ℕ → Option ℕ → EntryInput
entry a s ref o refund = record {
  amount_in_paise = some a;
  source = some s;
  reference_id = ref;
  order_id = some o;
  refund_id = refund;
}

cancels : (a : ℤ) (n : ℕ) → a +ℤ negsuc n +ℤ pos (suc n) ≡ a
cancels a n = omega int_laws

two_rows :
    (k n : ℕ) (es : List LedgerEntry) (d c : LedgerEntry)
    → c.order_id ≡ d.order_id
    → d.amount_in_paise ≡ negsuc n
    → c.amount_in_paise ≡ pos (suc n)
    → balance_of k ((es ++ d ∷ []) ++ c ∷ []) ≡ balance_of k es
two_rows k n es d c same out back = ground (
  arith,
  balance_of-append k (es ++ d ∷ []) c,
  balance_of-append k es d,
  cancels (balance_of k es) n,
)

-- A refund row and a later adjustment of the opposite amount, both written, leave the balance of
-- every order as it was, whatever was written for other orders' sake before.
pub adjustment-record_refund :
    (n o k : ℕ) (s s' : LedgerSource) (ref ref' : Reference) (refund : Option ℕ) (db : Db)
    → let debited = (record_refund false (entry (negsuc n) s ref o refund) db).1 in
      let reversed = (record_adjustment false (entry (pos (suc n)) s' ref' o refund) debited).1 in
      (get_balance (some k) reversed ≡ get_balance (some k) db)
      × (balance_of o debited.ledger ≡ balance_of o db.ledger +ℤ negsuc n)
unfolding record_refund record_adjustment get_balance
adjustment-record_refund n o k s s' ref ref' refund db =
    let d = row refund_entry s (negsuc n) o (entry (negsuc n) s ref o refund) in
    let c = row adjustment_entry s' (pos (suc n)) o (entry (pos (suc n)) s' ref' o refund) in
    (
      rw (two_rows k n db.ledger d c refl refl refl),
      ground (arith, balance_of-append o db.ledger d),
    )
