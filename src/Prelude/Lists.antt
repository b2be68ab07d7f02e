-- ===== src/Prelude/Lists.antt =====
-- Lists measured by native numbers, and predicates and tests over them.
use Prim.Native.Nat.{ℕ, zero, suc, ◌+◌, ◌≤◌}
use mathlib.Core.Path.{◌≡◌, refl}
use mathlib.Core.Logic.{◌≢◌}
use mathlib.Core.Bool.{Bool, false, ◌||◌}
use mathlib.Core.Option.{Option, none, some}
use mathlib.Core.List.{List, [], ◌∷◌, ◌++◌}
use native.Mathlib.Omega.{arith}
use lavish_fashion.Prelude.Tests.{if◌then◌else◌, ◌==◌}

module _ {ℓ} {A : Type ℓ} where
  abbrev pub length : List A → ℕ
  length [] = 0
  length (x ∷ xs) = suc (length xs)

  abbrev pub take : ℕ → List A → List A
  take zero xs = []
  take (suc n) [] = []
  take (suc n) (x ∷ xs) = x ∷ take n xs

  abbrev pub any : (A → Bool) → List A → Bool
  any p [] = false
  any p (x ∷ xs) = p x || any p xs

  abbrev pub All {κ} : (A → Type κ) → List A → Type κ
  All P [] = Unit
  All P (x ∷ xs) = P x × All P xs

  -- Array.prototype.filter, by a Boolean test.
  abbrev pub keep_if : (A → Bool) → List A → List A
  keep_if p [] = []
  keep_if p (x ∷ xs) = let rest = keep_if p xs in if p x then x ∷ rest else rest

  -- A sum over a list.
  abbrev pub sum_by : (A → ℕ) → List A → ℕ
  sum_by f [] = 0
  sum_by f (x ∷ xs) = f x + sum_by f xs

  pub length-take-le : (n : ℕ) (xs : List A) → length (take n xs) ≤ n
  length-take-le zero xs = omega arith
  length-take-le (suc n) [] = omega arith
  length-take-le (suc n) (x ∷ xs) = omega (arith, length-take-le n xs)

  pub sum_by-append : (f : A → ℕ) (xs ys : List A) → sum_by f (xs ++ ys) ≡ sum_by f xs + sum_by f ys
  sum_by-append f [] ys = omega arith
  sum_by-append f (x ∷ xs) ys = omega (arith, sum_by-append f xs ys)

-- A collection of documents: the first with a given key, and a write to that one.
module _ {ℓ} {A : Type ℓ} (key : A → ℕ) where
  abbrev pub find_by : ℕ → List A → Option A
  find_by k [] = none
  find_by k (x ∷ xs) = if key x == k then some x else find_by k xs

  abbrev pub update_by : ℕ → (A → A) → List A → List A
  update_by k f [] = []
  update_by k f (x ∷ xs) = if key x == k then f x ∷ xs else x ∷ update_by k f xs

  pub find_by-append :
      (k : ℕ) (xs : List A) (y : A)
      → find_by k xs ≡ none
      → find_by k (xs ++ y ∷ []) ≡ (if key y == k then some y else none)
  find_by-append k [] y h = refl
  find_by-append k (x ∷ xs) y h = ground (arith, find_by-append k xs y)

  pub find_by-key : (k : ℕ) (xs : List A) (x : A) → find_by k xs ≡ some x → key x ≡ k
  find_by-key k [] x h = cc
  find_by-key k (y ∷ xs) x h = ground (arith, find_by-key k xs x)

  -- What the first document with the key adds to a sum is exchanged by a write to it.
  pub sum_by-update_by :
      (g : A → ℕ) (k : ℕ) (f : A → A) (xs : List A) (x : A)
      → find_by k xs ≡ some x
      → sum_by g (update_by k f xs) + g x ≡ sum_by g xs + g (f x)
  sum_by-update_by g k f [] x h = cc
  sum_by-update_by g k f (y ∷ xs) x h = ground (arith, sum_by-update_by g k f xs x)

  pub update_by_missing :
      (k : ℕ) (f : A → A) (xs : List A) → find_by k xs ≡ none → update_by k f xs ≡ xs
  update_by_missing k f [] h = refl
  update_by_missing k f (y ∷ xs) h = ground (arith, update_by_missing k f xs)

  pub find_by-update_by_self :
      (k : ℕ) (f : A → A) (xs : List A) (x : A)
      → key (f x) ≡ key x
      → find_by k xs ≡ some x
      → find_by k (update_by k f xs) ≡ some (f x)
  find_by-update_by_self k f [] x same h = cc
  find_by-update_by_self k f (y ∷ xs) x same h =
      ground (arith, find_by-key k (y ∷ xs) x, find_by-update_by_self k f xs x same)

  pub find_by-update_by_ne :
      (k j : ℕ) (f : A → A) (xs : List A)
      → ((x : A) → key (f x) ≡ key x)
      → k ≢ j
      → find_by j (update_by k f xs) ≡ find_by j xs
  find_by-update_by_ne k j f [] same ne = refl
  find_by-update_by_ne k j f (y ∷ xs) same ne =
      ground (arith, same y, find_by-update_by_ne k j f xs same ne)

  -- A write to a document that came last touches only that one.
  pub update_by-append_last :
      (k : ℕ) (f : A → A) (xs : List A) (y : A)
      → find_by k xs ≡ none
      → key y ≡ k
      → update_by k f (xs ++ y ∷ []) ≡ xs ++ f y ∷ []
  update_by-append_last k f [] y h e = ground arith
  update_by-append_last k f (x ∷ xs) y h e = ground (arith, update_by-append_last k f xs y)

module _ {ℓ} {A : Type ℓ} where
  pub any-append : (p : A → Bool) (xs ys : List A) → any p (xs ++ ys) ≡ any p xs || any p ys
  any-append p [] ys = refl
  any-append p (x ∷ xs) ys = ground (arith, any-append p xs ys)

module _ {ℓ} {A : Type ℓ} (key : A → ℕ) where
  -- Writing twice what writing once already settles.
  pub update_by_twice :
      (k : ℕ) (f : A → A) (xs : List A)
      → ((x : A) → key (f x) ≡ key x)
      → ((x : A) → f (f x) ≡ f x)
      → update_by key k f (update_by key k f xs) ≡ update_by key k f xs
  update_by_twice k f [] same settles = refl
  update_by_twice k f (x ∷ xs) same settles =
      ground (arith, same x, settles x, update_by_twice k f xs same settles)
