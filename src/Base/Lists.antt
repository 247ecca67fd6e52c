-- ===== src/Base/Lists.antt =====
-- Arrays as lists: `length`, `find`, `some`, `filter`, an in-place change of the first match, and
-- the predicates by which invariants speak of every element and of every pair of elements.
use Prim.Native.Nat.{ℕ, suc}
use mathlib.Core.Path.{◌≡◌, subst}
use mathlib.Core.Logic.{inl, inr}
use Prim.Native.String.{String}
use text.Mathlib.Text.{◌==◌}
use mathlib.Core.Bool.{Bool, true, false, not, ◌||◌}
use mathlib.Core.Option.{Option, none, some}
use mathlib.Core.List.{List, [], ◌∷◌, ◌++◌}
use native.Mathlib.Omega.{arith}
use recommendation_trip_plat.Base.Tests.{if◌then◌else◌, Bool-cases}

module _ {ℓ} {A : Type ℓ} where
  abbrev pub length : List A → ℕ
  length [] = 0
  length (x ∷ xs) = suc (length xs)

  -- `xs.find(p)`
  unfoldable pub find? : (A → Bool) → List A → Option A
  find? p [] = none
  find? p (x ∷ xs) = if p x then some x else find? p xs

  -- `xs.some(p)`
  unfoldable pub any : (A → Bool) → List A → Bool
  any p [] = false
  any p (x ∷ xs) = p x || any p xs

  -- `xs.filter(p)`
  unfoldable pub filter : (A → Bool) → List A → List A
  filter p [] = []
  filter p (x ∷ xs) = let rest = filter p xs in if p x then x ∷ rest else rest

  -- A change, through the reference that `xs.find(p)` returns, of the object it refers to.
  unfoldable pub update_first : (A → Bool) → (A → A) → List A → List A
  update_first p f [] = []
  update_first p f (x ∷ xs) = if p x then f x ∷ xs else x ∷ update_first p f xs

-- `[...new Set(xs)]`
unfoldable pub distinct : List String → List String
distinct [] = []
distinct (x ∷ xs) = x ∷ filter (λ y. not (x == y)) (distinct xs)

-- `new Map(xs.map((x) => [key(x), x])).get(k)`: a later element with the key replaces an earlier one.
unfoldable pub find_last {ℓ} : {A : Type ℓ} → (A → Bool) → List A → Option A
find_last p [] = none
find_last p (x ∷ xs) = elim (find_last p xs) [
  | none ↦ if p x then some x else none
  | some y ↦ some y
]

abbrev pub concat_map {ℓ} : {A B : Type ℓ} → (A → List B) → List A → List B
concat_map f [] = []
concat_map f (x ∷ xs) = f x ++ concat_map f xs

-- Every element, every pair (an earlier element first), and some element.
abbrev pub All {ℓ κ} : {A : Type ℓ} → (A → Type κ) → List A → Type κ
All P [] = Unit
All P (x ∷ xs) = P x × All P xs

abbrev pub AllPairs {ℓ κ} : {A : Type ℓ} → (A → A → Type κ) → List A → Type κ
AllPairs R [] = Unit
AllPairs R (x ∷ xs) = All (R x) xs × AllPairs R xs

module _ {ℓ κ} {A : Type ℓ} (P : A → Type κ) where
  pub All-every : ((x : A) → P x) → (xs : List A) → All P xs
  All-every k [] = tt
  All-every k (x ∷ xs) = (k x, All-every k xs)

  pub All-append : (xs ys : List A) → All P xs → All P ys → All P (xs ++ ys)
  All-append [] ys hx hy = hy
  All-append (x ∷ xs) ys (h, hx) hy = (h, All-append xs ys hx hy)

  pub All-append_left : (xs ys : List A) → All P (xs ++ ys) → All P xs
  All-append_left [] ys h = tt
  All-append_left (x ∷ xs) ys (h, hs) = (h, All-append_left xs ys hs)

  pub All-filter : (p : A → Bool) (xs : List A) → All P xs → All P (filter p xs)
  unfolding filter
  All-filter p [] h = tt
  All-filter p (x ∷ xs) (h, hs) = elim (Bool-cases (p x)) [
    | inl e ↦ rw e (h, All-filter p xs hs)
    | inr e ↦ rw e (All-filter p xs hs)
  ]

  -- The change must keep the property at the elements that it may meet.
  pub All-update_first :
      (p : A → Bool) (f : A → A) (xs : List A)
      → ((x : A) → p x ≡ true → P x → P (f x))
      → All P xs
      → All P (update_first p f xs)
  unfolding update_first
  All-update_first p f [] k h = tt
  All-update_first p f (x ∷ xs) k (h, hs) = elim (Bool-cases (p x)) [
    | inl e ↦ rw e (k x e h, hs)
    | inr e ↦ rw e (h, All-update_first p f xs k hs)
  ]

  pub find?-All : (p : A → Bool) (xs : List A) {x : A} → All P xs → find? p xs ≡ some x → P x
  unfolding find?
  find?-All p [] h e = cc
  find?-All p (y ∷ xs) (h, hs) e = elim (Bool-cases (p y)) [
    | inl t ↦ subst P (cc) h
    | inr t ↦ find?-All p xs hs (rw t at e)
  ]

  -- The element that changes is the one that `find?` returns.
  pub All-update_found :
      (p : A → Bool) (f : A → A) (xs : List A) (x : A)
      → find? p xs ≡ some x
      → (P x → P (f x))
      → All P xs
      → All P (update_first p f xs)
  unfolding find? update_first
  All-update_found p f [] x found k h = tt
  All-update_found p f (y ∷ xs) x found k (h, hs) = elim (Bool-cases (p y)) [
    | inl e ↦ rw e (subst (λ z. P z → P (f z)) (cc) k h, hs)
    | inr e ↦ rw e (h, All-update_found p f xs x (rw e at found) k hs)
  ]

module _ {ℓ κ μ} {A : Type ℓ} {P : A → Type κ} {Q : A → Type μ} where
  pub All-map : (k : (x : A) → P x → Q x) (xs : List A) → All P xs → All Q xs
  All-map k [] h = tt
  All-map k (x ∷ xs) (h, hs) = (k x h, All-map k xs hs)

module _ {ℓ κ μ ν} {A : Type ℓ} {P : A → Type κ} {Q : A → Type μ} {T : A → Type ν} where
  pub All-zip : (k : (x : A) → P x → Q x → T x) (xs : List A) → All P xs → All Q xs → All T xs
  All-zip k [] hp hq = tt
  All-zip k (x ∷ xs) (hp, hps) (hq, hqs) = (k x hp hq, All-zip k xs hps hqs)

module _ {ℓ} {A : Type ℓ} where
  pub any-false : (p : A → Bool) (xs : List A) → any p xs ≡ false → All (λ x. p x ≡ false) xs
  unfolding any
  any-false p [] h = tt
  any-false p (x ∷ xs) h = (ground arith, any-false p xs (ground arith))

  pub find?-none : (p : A → Bool) (xs : List A) → find? p xs ≡ none → All (λ x. p x ≡ false) xs
  unfolding find?
  find?-none p [] h = tt
  find?-none p (x ∷ xs) h = elim (Bool-cases (p x)) [
    | inl e ↦ cc
    | inr e ↦ (e, find?-none p xs (rw e at h))
  ]

  pub find?-test : (p : A → Bool) (xs : List A) {x : A} → find? p xs ≡ some x → p x ≡ true
  unfolding find?
  find?-test p [] e = cc
  find?-test p (y ∷ xs) e = elim (Bool-cases (p y)) [
    | inl t ↦ subst (λ z. p z ≡ true) (cc) t
    | inr t ↦ find?-test p xs (rw t at e)
  ]
