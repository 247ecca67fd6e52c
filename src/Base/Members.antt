-- ===== src/Base/Members.antt =====
-- An element that stands in a list, said without a test.
use mathlib.Core.Path.{◌≡◌, refl, sym, subst}
use mathlib.Core.Logic.{◌↔◌, ◌⊎◌, inl, inr}
use Prim.Native.String.{String}
use text.Mathlib.Text.{◌==◌}
use text.Mathlib.TextEquality.{eq_iff}
use mathlib.Core.Bool.{Bool, true, not}
use mathlib.Core.List.{List, [], ◌∷◌, ◌++◌}
use native.Mathlib.Omega.{arith}
use recommendation_trip_plat.Base.Tests.{Bool-cases}
use recommendation_trip_plat.Base.Lists.{any, filter, distinct}

module _ {A : Type 0} where
  abbrev pub Holds : A → List A → Type 0
  Holds x [] = ⊥
  Holds x (y ∷ ys) = (y ≡ x) ⊎ Holds x ys

  pub Holds-left : (x : A) (xs ys : List A) → Holds x xs → Holds x (xs ++ ys)
  Holds-left x [] ys h = elim h [ ]
  Holds-left x (y ∷ xs) ys (inl e) = inl e
  Holds-left x (y ∷ xs) ys (inr h) = inr (Holds-left x xs ys h)

  pub Holds-right : (x : A) (xs ys : List A) → Holds x ys → Holds x (xs ++ ys)
  Holds-right x [] ys h = h
  Holds-right x (y ∷ xs) ys h = inr (Holds-right x xs ys h)

  -- `xs.some(p)`
  pub any-Holds :
      (p : A → Bool) (xs : List A) → any p xs ≡ true → (x : A) × Holds x xs × (p x ≡ true)
  unfolding any
  any-Holds p [] h = cc
  any-Holds p (x ∷ xs) h = elim (Bool-cases (p x)) [
    | inl e ↦ (x, inl refl, e)
    | inr e ↦ let (y, here, holds) = any-Holds p xs (rw e at h) in (y, inr here, holds)
  ]

  pub Holds-any : (p : A → Bool) (x : A) (xs : List A) → Holds x xs → p x ≡ true → any p xs ≡ true
  unfolding any
  Holds-any p x [] k h = elim k [ ]
  Holds-any p x (y ∷ xs) (inl e) h =
      let same : p y ≡ true = subst (λ z. p z ≡ true) (sym e) h in rw same
  Holds-any p x (y ∷ xs) (inr k) h = let rest = Holds-any p x xs k h in ground arith

  pub Holds-filter :
      (p : A → Bool) (x : A) (xs : List A) → Holds x xs → p x ≡ true → Holds x (filter p xs)
  unfolding filter
  Holds-filter p x [] k h = elim k [ ]
  Holds-filter p x (y ∷ xs) (inl e) h =
      let same : p y ≡ true = subst (λ z. p z ≡ true) (sym e) h in rw same (inl e)
  Holds-filter p x (y ∷ xs) (inr k) h = elim (Bool-cases (p y)) [
    | inl e ↦ rw e (inr (Holds-filter p x xs k h))
    | inr e ↦ rw e (Holds-filter p x xs k h)
  ]

pub Holds-distinct : (x : String) (xs : List String) → Holds x xs → Holds x (distinct xs)
unfolding distinct
Holds-distinct x [] h = elim h [ ]
Holds-distinct x (y ∷ xs) (inl e) = inl e
Holds-distinct x (y ∷ xs) (inr k) = elim (Bool-cases (y == x)) [
  | inl e ↦ inl ((eq_iff y x).0 e)
  | inr e ↦
      inr (Holds-filter (λ z. not (y == z)) x (distinct xs) (Holds-distinct x xs k) (rw e refl))
]

-- `names.includes(name)`
pub includes_iff :
    (names : List String) (name : String) → (any (λ n. n == name) names ≡ true) ↔ Holds name names
includes_iff names name = (
  λ h.
      let (n, here, same) = any-Holds (λ n. n == name) names h in
      subst (λ z. Holds z names) ((eq_iff n name).0 same) here,
  λ h. Holds-any (λ n. n == name) name names h ((eq_iff name name).1 refl),
)
