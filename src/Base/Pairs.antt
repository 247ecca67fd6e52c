-- ===== src/Base/Pairs.antt =====
-- Properties of every pair of elements, under `push`, `filter` and an in-place change.
use mathlib.Core.Path.{◌≡◌, sym, ◌∙◌}
use mathlib.Core.Logic.{◌≢◌, ◌↔◌, inl, inr}
use mathlib.Core.Bool.{Bool, true, false}
use mathlib.Core.List.{List, [], ◌∷◌, ◌++◌}
use recommendation_trip_plat.Base.Tests.{Bool-cases}
use recommendation_trip_plat.Base.Lists.{
  filter, update_first, All, AllPairs, All-append, All-filter, All-update_first, All-map, All-zip,
}

module _ {ℓ κ} {A : Type ℓ} (R : A → A → Type κ) where
  -- `xs.push(y)`
  pub AllPairs-push :
      (xs : List A) (y : A) → All (λ x. R x y) xs → AllPairs R xs → AllPairs R (xs ++ y ∷ [])
  AllPairs-push [] y h hs = (tt, tt)
  AllPairs-push (x ∷ xs) y (h, hy) (hx, hs) =
      (All-append (R x) xs (y ∷ []) hx (h, tt), AllPairs-push xs y hy hs)

  pub AllPairs-filter : (p : A → Bool) (xs : List A) → AllPairs R xs → AllPairs R (filter p xs)
  unfolding filter
  AllPairs-filter p [] h = tt
  AllPairs-filter p (x ∷ xs) (h, hs) = elim (Bool-cases (p x)) [
    | inl e ↦ rw e (All-filter (R x) p xs h, AllPairs-filter p xs hs)
    | inr e ↦ rw e (AllPairs-filter p xs hs)
  ]

  -- Where one element at most passes the test, its change must relate it to those that do not.
  pub AllPairs-update_first :
      (p : A → Bool) (f : A → A) (xs : List A)
      → ((x : A) → p x ≡ true → All (λ y. p y ≡ false → R (f x) y × R y (f x)) xs)
      → AllPairs (λ x y. p x ≡ true → p y ≡ false) xs
      → AllPairs R xs
      → AllPairs R (update_first p f xs)
  unfolding update_first
  AllPairs-update_first p f [] k u h = tt
  AllPairs-update_first p f (x ∷ xs) k (u, us) (h, hs) = elim (Bool-cases (p x)) [
    | inl e ↦ rw e (All-zip (λ y g w. (g (w e)).0) xs (k x e).1 u, hs)
    | inr e ↦ rw e (
      All-update_first (R x) p f xs (λ z t g. ((k z t).0 e).1) h,
      AllPairs-update_first p f xs (λ z t. (k z t).1) us hs,
    )
  ]

  -- A change that keeps the relation on both sides.
  pub AllPairs-update_first_same :
      (p : A → Bool) (f : A → A) (xs : List A)
      → ((x y : A) → p x ≡ true → R x y → R (f x) y)
      → ((x y : A) → p y ≡ true → R x y → R x (f y))
      → AllPairs R xs
      → AllPairs R (update_first p f xs)
  unfolding update_first
  AllPairs-update_first_same p f [] k l h = tt
  AllPairs-update_first_same p f (x ∷ xs) k l (h, hs) = elim (Bool-cases (p x)) [
    | inl e ↦ rw e (All-map (λ y r. k x y e r) xs h, hs)
    | inr e ↦ rw e (
      All-update_first (R x) p f xs (λ y t r. l x y t r) h,
      AllPairs-update_first_same p f xs k l hs,
    )
  ]

module _ {ℓ κ μ} {A : Type ℓ} {R : A → A → Type κ} {S : A → A → Type μ} where
  pub AllPairs-map : (k : (x y : A) → R x y → S x y) (xs : List A) → AllPairs R xs → AllPairs S xs
  AllPairs-map k [] h = tt
  AllPairs-map k (x ∷ xs) (h, hs) = (All-map (k x) xs h, AllPairs-map k xs hs)

module _ {ℓ} {A B : Type ℓ} where
  -- Distinct keys: one element at most has a given key.
  pub AllPairs-key :
      (key : A → B) (p : A → Bool) (b : B) (xs : List A)
      → ((x : A) → (p x ≡ true) ↔ (key x ≡ b))
      → AllPairs (λ x y. key x ≢ key y) xs
      → AllPairs (λ x y. p x ≡ true → p y ≡ false) xs
  AllPairs-key key p b xs w h = AllPairs-map step xs h
    where
      step : (x y : A) → key x ≢ key y → p x ≡ true → p y ≡ false
      step x y n t = elim (Bool-cases (p y)) [
        | inl e ↦ absurd (n ((w x).0 t ∙ sym ((w y).0 e)))
        | inr e ↦ e
      ]
