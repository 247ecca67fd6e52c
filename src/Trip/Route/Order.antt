-- ===== src/Trip/Route/Order.antt =====
-- What a stable sort by a numeric key does, and lists that are joined.
use recommendation_trip_plat.Base.{
  leb, leb→le, Bool-cases, length, filter, concat_map, All, AllPairs, All-map, ℕ, ◌+◌, ◌≤◌, ◌≡◌,
  refl, sym, ◌≢◌, inl, inr, Bool, List, [], ◌∷◌, ◌++◌, arith,
}
use recommendation_trip_plat.Trip.Route.{insert_by, sort_by}

module _ {A : Type 0} (key : A → ℕ) where
  insert_by-All :
      (P : A → Type 0) (x : A) (xs : List A) → P x → All P xs → All P (insert_by key x xs)
  unfolding insert_by
  insert_by-All P x [] h hs = (h, tt)
  insert_by-All P x (y ∷ ys) h (g, gs) = elim (Bool-cases (leb (key x) (key y))) [
    | inl e ↦ rw e (h, (g, gs))
    | inr e ↦ rw e (g, insert_by-All P x ys h gs)
  ]

  pub sort_by-All : (P : A → Type 0) (xs : List A) → All P xs → All P (sort_by key xs)
  unfolding sort_by
  sort_by-All P [] h = tt
  sort_by-All P (x ∷ xs) (h, hs) = insert_by-All P x (sort_by key xs) h (sort_by-All P xs hs)

  insert_by-sorted :
      (x : A) (xs : List A)
      → AllPairs (λ y z. key y ≤ key z) xs
      → AllPairs (λ y z. key y ≤ key z) (insert_by key x xs)
  unfolding insert_by
  insert_by-sorted x [] h = (tt, tt)
  insert_by-sorted x (y ∷ ys) (h, hs) = elim (Bool-cases (leb (key x) (key y))) [
    | inl e ↦
        let le : key x ≤ key y = leb→le (key x) (key y) e in
        rw e ((le, All-map (λ z k. omega (arith, le, k)) ys h), (h, hs))
    | inr e ↦
        let lt : key y ≤ key x = ground arith in
        rw e (insert_by-All (λ z. key y ≤ key z) x ys lt h, insert_by-sorted x ys hs)
  ]

  pub sort_by-sorted : (xs : List A) → AllPairs (λ y z. key y ≤ key z) (sort_by key xs)
  unfolding sort_by
  sort_by-sorted [] = tt
  sort_by-sorted (x ∷ xs) = insert_by-sorted x (sort_by key xs) (sort_by-sorted xs)

  insert_by-distinct :
      (x : A) (xs : List A)
      → All (λ y. key x ≢ key y) xs
      → AllPairs (λ y z. key y ≢ key z) xs
      → AllPairs (λ y z. key y ≢ key z) (insert_by key x xs)
  unfolding insert_by
  insert_by-distinct x [] h d = (tt, tt)
  insert_by-distinct x (y ∷ ys) (h, hs) (d, ds) = elim (Bool-cases (leb (key x) (key y))) [
    | inl e ↦ rw e ((h, hs), (d, ds))
    | inr e ↦
        rw e (
          insert_by-All (λ z. key y ≢ key z) x ys (λ q. h (sym q)) d,
          insert_by-distinct x ys hs ds,
        )
  ]

  pub sort_by-distinct :
      (xs : List A)
      → AllPairs (λ y z. key y ≢ key z) xs
      → AllPairs (λ y z. key y ≢ key z) (sort_by key xs)
  unfolding sort_by
  sort_by-distinct [] d = tt
  sort_by-distinct (x ∷ xs) (d, ds) =
      insert_by-distinct x (sort_by key xs) (sort_by-All (λ y. key x ≢ key y) xs d)
        (sort_by-distinct xs ds)

module _ {A B : Type 0} (f : A → List B) (q : B → Bool) where
  -- How often a test holds in the list that is made of an element.
  abbrev count_in : A → ℕ
  count_in x = length (filter q (f x))

  pub count-append :
      (xs ys : List B) → length (filter q (xs ++ ys)) ≡ length (filter q xs) + length (filter q ys)
  unfolding filter
  count-append [] ys = omega arith
  count-append (x ∷ xs) ys = ground (arith, count-append xs ys)

  count-insert_by :
      (key : A → ℕ) (x : A) (xs : List A)
      → length (filter q (concat_map f (insert_by key x xs)))
        ≡ count_in x + length (filter q (concat_map f xs))
  unfolding insert_by
  count-insert_by key x [] = count-append (f x) []
  count-insert_by key x (y ∷ ys) = elim (Bool-cases (leb (key x) (key y))) [
    | inl e ↦ rw e (count-append (f x) (f y ++ concat_map f ys))
    | inr e ↦ rw e (
        omega (
          arith,
          count-append (f y) (concat_map f (insert_by key x ys)),
          count-insert_by key x ys,
          count-append (f y) (concat_map f ys),
        ))
  ]

  -- What is made of a sorted list is made as often of the list as it was.
  pub count-sort_by :
      (key : A → ℕ) (xs : List A)
      → length (filter q (concat_map f (sort_by key xs))) ≡ length (filter q (concat_map f xs))
  unfolding sort_by
  count-sort_by key [] = refl
  count-sort_by key (x ∷ xs) = omega (
    arith,
    count-insert_by key x (sort_by key xs),
    count-sort_by key xs,
    count-append (f x) (concat_map f xs),
  )
