-- ===== src/Base/Repository/Laws.antt =====
-- Tables that change row by row: how many rows pass a test, and which rows there are.
use recommendation_trip_plat.Base.{
  if◌then◌else◌, Bool-cases, length, any, filter, All, AllPairs, All-map, All-zip, suc, ◌+◌, ◌≤◌,
  String, ◌≡◌, refl, ap, ◌∙◌, inl, inr, Bool, true, false, List, [], ◌∷◌, ◌++◌, arith, ◌==◌, eq_iff,
  eq_refl,
}
use recommendation_trip_plat.Base.Repository.{change_rows}

module _ {A : Type 0} where
  pub All-test : (p : A → Bool) (xs : List A) → All (λ x. p x ≡ true) (filter p xs)
  unfolding filter
  All-test p [] = tt
  All-test p (x ∷ xs) = elim (Bool-cases (p x)) [
    | inl e ↦ rw e (e, All-test p xs)
    | inr e ↦ rw e (All-test p xs)
  ]

  pub All-change_rows :
      (P Q : A → Type 0) (p : A → Bool) (f : A → A) (xs : List A)
      → ((x : A) → P x → Q (if p x then f x else x))
      → All P xs
      → All Q (change_rows p f xs)
  All-change_rows P Q p f [] k h = tt
  All-change_rows P Q p f (x ∷ xs) k (h, hs) = (k x h, All-change_rows P Q p f xs k hs)

  pub AllPairs-change_rows :
      (R : A → A → Type 0) (p : A → Bool) (f : A → A) (xs : List A)
      → ((x y : A) → R x y → R (if p x then f x else x) (if p y then f y else y))
      → AllPairs R xs
      → AllPairs R (change_rows p f xs)
  AllPairs-change_rows R p f [] k h = tt
  AllPairs-change_rows R p f (x ∷ xs) k (h, hs) = (
    All-change_rows (R x) (R (if p x then f x else x)) p f xs (k x) h,
    AllPairs-change_rows R p f xs k hs,
  )

  -- The rows that pass a test are not more after a change by which no row comes to pass it.
  pub length-change_rows :
      (q p : A → Bool) (f : A → A) (xs : List A)
      → All (λ x. q (if p x then f x else x) ≡ true → q x ≡ true) xs
      → length (filter q (change_rows p f xs)) ≤ length (filter q xs)
  unfolding filter
  length-change_rows q p f [] k = omega arith
  length-change_rows q p f (x ∷ xs) (k, ks) = elim (Bool-cases (p x)) [
    | inl e ↦ ground (arith, k, length-change_rows q p f xs ks)
    | inr e ↦ ground (arith, k, length-change_rows q p f xs ks)
  ]

  -- As many rows pass one test after a change as pass another one before.
  pub count-change_rows :
      (q t p : A → Bool) (f : A → A) (xs : List A)
      → All (λ x. q (if p x then f x else x) ≡ t x) xs
      → length (filter q (change_rows p f xs)) ≡ length (filter t xs)
  unfolding filter
  count-change_rows q t p f [] k = refl
  count-change_rows q t p f (x ∷ xs) (k, ks) = elim (Bool-cases (t x)) [
    | inl e ↦ rw (k ∙ e) (rw e (ap suc (count-change_rows q t p f xs ks)))
    | inr e ↦ rw (k ∙ e) (rw e (count-change_rows q t p f xs ks))
  ]

  pub length-append :
      (q : A → Bool) (xs : List A) (y : A)
      → length (filter q (xs ++ y ∷ [])) ≡ length (filter q xs) + (if q y then 1 else 0)
  unfolding filter
  length-append q [] y = ground arith
  length-append q (x ∷ xs) y = ground (arith, length-append q xs y)

  -- Of rows with distinct keys exactly one has the key of a row that is stored.
  pub count_none :
      (q : A → Bool) (xs : List A) → All (λ x. q x ≡ false) xs → length (filter q xs) ≡ 0
  unfolding filter
  count_none q [] h = refl
  count_none q (x ∷ xs) (h, hs) = rw h (count_none q xs hs)

  pub count_one :
      (q : A → Bool) (xs : List A)
      → AllPairs (λ x y. q x ≡ true → q y ≡ false) xs
      → any q xs ≡ true
      → length (filter q xs) ≡ 1
  unfolding filter any
  count_one q [] h e = cc
  count_one q (x ∷ xs) (h, hs) e = elim (Bool-cases (q x)) [
    | inl t ↦ rw t (ap suc (count_none q xs (All-map (λ y k. k t) xs h)))
    | inr t ↦ rw t (count_one q xs hs (rw t at e))
  ]

  pub change_rows-change_rows :
      (p : A → Bool) (f g : A → A) (xs : List A)
      → ((x : A) → p (f x) ≡ p x)
      → change_rows p g (change_rows p f xs) ≡ change_rows p (λ x. g (f x)) xs
  change_rows-change_rows p f g [] k = refl
  change_rows-change_rows p f g (x ∷ xs) k = elim (Bool-cases (p x)) [
    | inl e ↦ rw e (rw (k x ∙ e) (ap (λ ys. g (f x) ∷ ys) (change_rows-change_rows p f g xs k)))
    | inr e ↦ rw e (rw e (ap (λ ys. x ∷ ys) (change_rows-change_rows p f g xs k)))
  ]

  pub any-change_rows :
      (q p : A → Bool) (f : A → A) (xs : List A)
      → ((x : A) → q (f x) ≡ q x)
      → any q (change_rows p f xs) ≡ any q xs
  unfolding any
  any-change_rows q p f [] k = refl
  any-change_rows q p f (x ∷ xs) k = elim (Bool-cases (p x)) [
    | inl e ↦ rw e (rw (k x) (rw (any-change_rows q p f xs k)))
    | inr e ↦ rw e (rw (any-change_rows q p f xs k))
  ]

-- Rows with different keys: whatever has the key of a row is that row.
module _ {A : Type 0} (key : A → String) where
  abbrev pub DifferentKeys : A → A → Type 0
  DifferentKeys x y = (key y == key x) ≡ false

  pub All-keyed :
      (xs : List A)
      → AllPairs DifferentKeys xs
      → All
          (λ x.
            (any (λ y. key y == key x) xs ≡ true) × All (λ y. (key y == key x) ≡ true → y ≡ x) xs)
          xs
  unfolding any
  All-keyed [] h = tt
  All-keyed (x ∷ xs) (h, hs) = (
    (ground (arith, eq_refl (key x)), ((λ e. refl), All-map (λ y d e. cc) xs h)),
    All-zip step xs h (All-keyed xs hs),
  )
    where
      away : (y : A) → DifferentKeys x y → key x ≡ key y → x ≡ y
      away y d e =
          let hit : (key y == key x) ≡ true = ap (λ k. key y == k) e ∙ eq_refl (key y) in cc

      step :
          (y : A)
          → DifferentKeys x y
          → (any (λ z. key z == key y) xs ≡ true) × All (λ z. (key z == key y) ≡ true → z ≡ y) xs
          → (any (λ z. key z == key y) (x ∷ xs) ≡ true)
            × All (λ z. (key z == key y) ≡ true → z ≡ y) (x ∷ xs)
      step y d (here, only) = (ground arith, ((λ e. away y d ((eq_iff (key x) (key y)).0 e)), only))

-- Of the rows that pass a test, where one passes it at most: each is the only one.
module _ {A : Type 0} (p : A → Bool) where
  pub All-single :
      (xs : List A)
      → AllPairs (λ x y. p x ≡ true → p y ≡ false) xs
      → All (λ x. p x ≡ true → All (λ y. p y ≡ true → y ≡ x) xs) xs
  All-single [] h = tt
  All-single (x ∷ xs) (h, hs) = (
    λ e. ((λ _. refl), All-map (λ y k f. let g : p y ≡ false = k e in cc) xs h),
    All-zip (λ y k rest e. ((λ f. let g : p y ≡ false = k f in cc), rest e)) xs h
        (All-single xs hs),
  )

  pub All-any : (xs : List A) → All (λ x. p x ≡ true → any p xs ≡ true) xs
  unfolding any
  All-any [] = tt
  All-any (x ∷ xs) = (
    (λ e. rw e refl),
    All-map (λ y k e. elim (Bool-cases (p x)) [ inl t ↦ rw t refl | inr t ↦ rw t (k e) ]) xs
        (All-any xs),
  )

  pub All-empty : (xs : List A) → filter p xs ≡ [] → All (λ x. p x ≡ false) xs
  unfolding filter
  All-empty [] e = tt
  All-empty (x ∷ xs) e = elim (Bool-cases (p x)) [
    | inl t ↦ let q : x ∷ filter p xs ≡ [] = rw t at e in cc
    | inr t ↦ (t, All-empty xs (rw t at e))
  ]
