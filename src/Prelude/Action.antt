-- ===== src/Prelude/Action.antt =====
-- Actions that read and write a state and may throw. What was written before a throw stays
-- written: the state comes back beside the error.
use lavish_fashion.Prelude.Outcome.{Result, ok, err}

abbrev pub Exec : Type 0 → Type 0 → Type 0 → Type 0
Exec S E A = S → Result E A × S

module _ {S E A : Type 0} where
  abbrev pub pure : A → Exec S E A
  pure a s = (ok a, s)

  abbrev pub throw : E → Exec S E A
  throw e s = (err e, s)

  abbrev pub lift : Result E A → Exec S E A
  lift r s = (r, s)

  abbrev pub gets : (S → A) → Exec S E A
  gets f s = (ok (f s), s)

module _ {S E : Type 0} where
  abbrev pub modify : (S → S) → Exec S E (Unit {0})
  modify f s = (ok tt, f s)

module _ {S E A B : Type 0} where
  abbrev pub continue : Result E A → (A → Exec S E B) → Exec S E B
  continue (ok a) f s = f a s
  continue (err e) f s = (err e, s)

  infixl 5 ◌>>=◌
  abbrev pub ◌>>=◌ : Exec S E A → (A → Exec S E B) → Exec S E B
  ◌>>=◌ m f s = let (r, s') = m s in continue r f s'

module _ {S E B : Type 0} where
  infixl 5 ◌>>◌
  abbrev pub ◌>>◌ : Exec S E (Unit {0}) → Exec S E B → Exec S E B
  m >> k = m >>= λ _. k

-- What a `catch` clause needs of the locals: the error goes on with a value beside it.
module _ {E L A : Type 0} where
  abbrev pub mark : L → Result E A → Result (E × L) A
  mark local (ok a) = ok a
  mark local (err e) = err (e, local)

module _ {S E L A : Type 0} where
  abbrev pub beside : L → Exec S E A → Exec S (E × L) A
  beside local m s = let (r, s') = m s in (mark local r, s')
