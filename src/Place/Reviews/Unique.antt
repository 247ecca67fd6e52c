-- ===== src/Place/Reviews/Unique.antt =====
-- One review of each user for each place.
use recommendation_trip_plat.Base.{
  Bool-cases, Outcome, after, ℕ, String, ◌≡◌, sym, ap, subst, ◌∙◌, inl, inr, true, some, List, ◌==◌,
  eq_iff, done, fail,
}
use recommendation_trip_plat.Place.Reviews.{Review, ReviewEvent, ReviewWorld}
use recommendation_trip_plat.Place.Reviews.Laws.{ReviewWorldLaws, Request, Change}
use recommendation_trip_plat.Place.Reviews.Refinement.{IsFresh, handle-Settles}
use recommendation_trip_plat.Place.Reviews.Settling.{handle, Owned, Settles}

module _ {S : Type 0} (world : ReviewWorld S) (laws : ReviewWorldLaws world) where
  -- Of one user for one place at most one review is stored, open or deleted.
  unfoldable pub AllUnique : S → Type 0
  AllUnique s =
      (i j : String) (a b : Review)
      → world.find_row i s ≡ some a
      → world.find_row j s ≡ some b
      → a.user_id ≡ b.user_id
      → a.place_id ≡ b.place_id
      → i ≡ j

  -- The changed review against one that is as it was.
  changed_one :
      (s : S) (id j : String) (r b : Review)
      → AllUnique s
      → Owned world s id r
      → world.find_row j s ≡ some b
      → r.user_id ≡ b.user_id
      → r.place_id ≡ b.place_id
      → id ≡ j
  unfolding AllUnique
  changed_one s id j r b all (inl (old, h, user, place)) e u p =
      all id j old b h e (sym user ∙ u) (sym place ∙ p)
  changed_one s id j r b all (inr alone) e u p = elim (alone j b e (sym u) (sym p)) [ ]

  Change-AllUnique :
      (s u : S) (id : String) (r : Review) (es : List ReviewEvent)
      → Owned world s id r
      → Change world laws id r es s u
      → AllUnique s
      → AllUnique u
  unfolding AllUnique
  Change-AllUnique s u id r es own c all i j a b ha hb user place = elim (Bool-cases (id == i)) [
    | inl at_i ↦ elim (Bool-cases (id == j)) [
      | inl at_j ↦ sym ((eq_iff id i).0 at_i) ∙ (eq_iff id j).0 at_j
      | inr off_j ↦
          let same : r ≡ a = changed i a at_i ha in
          sym ((eq_iff id i).0 at_i)
          ∙ changed_one s id j r b all own (sym (c.others j off_j) ∙ hb)
              (ap (λ (x : Review). x.user_id) same ∙ user)
              (ap (λ (x : Review). x.place_id) same ∙ place)
    ]
    | inr off_i ↦ elim (Bool-cases (id == j)) [
      | inl at_j ↦
          let same : r ≡ b = changed j b at_j hb in
          sym (
            changed_one s id i r a all own (sym (c.others i off_i) ∙ ha)
              (ap (λ (x : Review). x.user_id) same ∙ sym user)
              (ap (λ (x : Review). x.place_id) same ∙ sym place))
          ∙ (eq_iff id j).0 at_j
      | inr off_j ↦
          all i j a b (sym (c.others i off_i) ∙ ha) (sym (c.others j off_j) ∙ hb) user place
    ]
  ]
    where
      changed : (k : String) (x : Review) → (id == k) ≡ true → world.find_row k u ≡ some x → r ≡ x
      changed k x at h =
          let q : some r ≡ some x =
            sym c.found ∙ (ap (λ m. world.find_row m u) ((eq_iff id k).0 at) ∙ h) in
          cc

  settled-AllUnique :
      (q : Request) (s : S) (o : Outcome S (Unit {0}))
      → Settles world laws q s o
      → AllUnique s
      → AllUnique (after o)
  settled-AllUnique q s (fail e u) same all = subst AllUnique (sym same) all
  settled-AllUnique q s (done _ u) (id, r, mine, own, (es, c, _)) all =
      Change-AllUnique s u id r es own c all

  -- If the database gives new identifiers to new reviews, no request to the service ever stores a
  -- second review of a user for a place, deleted ones counted.
  pub handle-AllUnique :
      (q : Request) (now : ℕ) (s : S)
      → IsFresh world laws q s
      → AllUnique s
      → AllUnique (after (handle world q now s))
  handle-AllUnique q now s f all =
      settled-AllUnique q s (handle world q now s) (handle-Settles world laws q now s f) all
