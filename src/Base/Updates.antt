-- ===== src/Base/Updates.antt =====
-- In-place changes one after another, changes that change nothing, and what `filter` leaves.
use Prim.Native.Nat.{◌+◌, ◌≤◌}
use mathlib.Core.Path.{◌≡◌, refl}
use mathlib.Core.Logic.{inl, inr}
use mathlib.Core.Bool.{Bool, true, false}
use mathlib.Core.Option.{some}
use mathlib.Core.List.{List, [], ◌∷◌, ◌++◌}
use native.Mathlib.Omega.{arith}
use recommendation_trip_plat.Base.Tests.{Bool-cases}
use recommendation_trip_plat.Base.Lists.{length, find?, filter, update_first, All}

-- One change after another, and a change that changes nothing.
module _ {ℓ} {A : Type ℓ} (p : A → Bool) where
  pub update_first-update_first :
      (f g : A → A) (xs : List A)
      → ((x : A) → p x ≡ true → p (f x) ≡ true)
      → update_first p g (update_first p f xs) ≡ update_first p (λ x. g (f x)) xs
  unfolding update_first
  update_first-update_first f g [] k = refl
  update_first-update_first f g (x ∷ xs) k = elim (Bool-cases (p x)) [
    | inl e ↦ ground (arith, k x)
    | inr e ↦ ground (arith, update_first-update_first f g xs k)
  ]

  pub update_first-found :
      (f : A → A) (xs : List A) (x : A) → find? p xs ≡ some x → f x ≡ x → update_first p f xs ≡ xs
  unfolding update_first find?
  update_first-found f [] x found e = refl
  update_first-found f (y ∷ xs) x found e = elim (Bool-cases (p y)) [
    | inl t ↦ ground arith
    | inr t ↦ ground (arith, update_first-found f xs x)
  ]

  pub find?-update_first :
      (f : A → A) (xs : List A) (x : A)
      → find? p xs ≡ some x
      → p (f x) ≡ true
      → find? p (update_first p f xs) ≡ some (f x)
  unfolding update_first find?
  find?-update_first f [] x found e = cc
  find?-update_first f (y ∷ xs) x found e = elim (Bool-cases (p y)) [
    | inl t ↦ ground arith
    | inr t ↦ ground (arith, find?-update_first f xs x)
  ]

  pub length-filter : (xs : List A) → length (filter p xs) ≤ length xs
  unfolding filter
  length-filter [] = omega arith
  length-filter (x ∷ xs) = ground (arith, length-filter xs)

  pub filter-same_length : (xs : List A) → length (filter p xs) ≡ length xs → filter p xs ≡ xs
  unfolding filter
  filter-same_length [] e = refl
  filter-same_length (x ∷ xs) e = ground (arith, filter-same_length xs, length-filter xs)

  pub filter-push :
      (xs : List A) (x : A) → All (λ y. p y ≡ true) xs → p x ≡ false → filter p (xs ++ x ∷ []) ≡ xs
  unfolding filter
  filter-push [] x h e = ground arith
  filter-push (y ∷ xs) x (h, hs) e = ground (arith, filter-push xs x hs e)

  pub length-push : (xs : List A) (x : A) → length (xs ++ x ∷ []) ≡ length xs + 1
  length-push [] x = omega arith
  length-push (y ∷ xs) x = omega (arith, length-push xs x)
