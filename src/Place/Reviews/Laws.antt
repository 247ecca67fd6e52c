-- ===== src/Place/Reviews/Laws.antt =====
-- The service of the reviews: what each request does to the stored reviews and publishes.
use mathlib.Core.List.{List, append-nil, append_assoc}
use recommendation_trip_plat.Base.{
  if◌then◌else◌, Outcome, ℕ, String, ◌≡◌, sym, ap, ◌∙◌, ◌≢◌, Bool, true, false, Option, none, some,
  [], ◌∷◌, ◌++◌, ◌==◌, eq_refl, done, fail,
}
use recommendation_trip_plat.Place.Reviews.{
  Review, UpsertReviewCommand, UpdateOwnReviewCommand, ReviewEvent, ReviewWorld, is_open,
  review_created, review_updated, review_deleted,
}

abbrev pub marked : ℕ → Option Review → Option Review
marked now none = none
marked now (some r) = some (record r { deleted_at = some now })

abbrev pub unmarked : Option Review → Option Review
unmarked none = none
unmarked (some r) = some (record r { deleted_at = none })

-- What the service relies on in the database and the publisher. `events` is what has been published.
pub record ReviewWorldLaws {S : Type 0} (world : ReviewWorld S) : Type 0 where
  pub events : S → List ReviewEvent
  pub found_id : (id : String) (s : S) (r : Review) → world.find_row id s ≡ some r → r.id ≡ id
  pub pair_found :
      (user_id place_id : String) (s : S) (r : Review)
      → world.find_pair user_id place_id s ≡ some r
      → (world.find_row r.id s ≡ some r) × (r.user_id ≡ user_id) × (r.place_id ≡ place_id)
  pub pair_missing :
      (user_id place_id : String) (s : S)
      → world.find_pair user_id place_id s ≡ none
      → (id : String) (r : Review) → world.find_row id s ≡ some r
      → r.user_id ≡ user_id
      → r.place_id ≢ place_id
  pub find_save :
      (r : Review) (s : S) (id : String)
      → world.find_row id (world.save_row r s)
        ≡ (if r.id == id then some r else world.find_row id s)
  pub find_soft_delete :
      (now : ℕ) (deleted : String) (s : S) (id : String)
      → world.find_row id (world.soft_delete_row now deleted s)
        ≡ (if deleted == id then marked now (world.find_row id s) else world.find_row id s)
  pub find_restore :
      (restored : String) (s : S) (id : String)
      → world.find_row id (world.restore_row restored s)
        ≡ (if restored == id then unmarked (world.find_row id s) else world.find_row id s)
  pub find_publish :
      (e : ReviewEvent) (s : S) (id : String)
      → world.find_row id (world.publish e s) ≡ world.find_row id s
  pub events_save : (r : Review) (s : S) → events (world.save_row r s) ≡ events s
  pub events_soft_delete :
      (now : ℕ) (id : String) (s : S) → events (world.soft_delete_row now id s) ≡ events s
  pub events_restore : (id : String) (s : S) → events (world.restore_row id s) ≡ events s
  pub events_publish : (e : ReviewEvent) (s : S) → events (world.publish e s) ≡ events s ++ e ∷ []

pub data Request : Type 0 where
  upsert : (uuid place_id user_id : String) → UpsertReviewCommand → Request
  update_own : (review_id user_id : String) → UpdateOwnReviewCommand → Request
  delete_own : (review_id user_id : String) → Request
  delete_by_admin restore_by_admin : (review_id : String) → Request

abbrev pub forget {ℓ} : {S : Type ℓ} {A : Type ℓ} → Outcome S A → Outcome S (Unit {ℓ})
forget (done a s) = done tt s
forget (fail e s) = fail e s

-- What the change of a review, live before or not, is to be published as.
abbrev pub account : Option Review → Review → List ReviewEvent
account none r = if is_open r then review_created r.id r.place_id r.user_id r.rating ∷ [] else []
account (some b) r =
    if is_open r
    then review_updated r.id r.place_id r.user_id b.rating r.rating ∷ []
    else review_deleted b.id b.place_id b.user_id b.rating ∷ []

-- Whose review a request may change.
abbrev pub Concerns : Request → Review → Type 0
Concerns (upsert uuid place_id user_id command) r =
    (r.user_id ≡ user_id) × (r.place_id ≡ place_id) × (is_open r ≡ true)
Concerns (update_own review_id user_id command) r =
    (r.id ≡ review_id) × (r.user_id ≡ user_id) × (is_open r ≡ true)
Concerns (delete_own review_id user_id) r =
    (r.id ≡ review_id) × (r.user_id ≡ user_id) × (is_open r ≡ false)
Concerns (delete_by_admin review_id) r = (r.id ≡ review_id) × (is_open r ≡ false)
Concerns (restore_by_admin review_id) r = (r.id ≡ review_id) × (is_open r ≡ true)

-- The events of a request. A restoration by an administrator publishes none.
abbrev pub published : Request → Option Review → Review → List ReviewEvent
published (restore_by_admin review_id) before r = []
published _ before r = account before r

module _ {S : Type 0} (world : ReviewWorld S) (laws : ReviewWorldLaws world) where
  -- From `s` to `u` one review has become `r`, the others are as they were, and the published events
  -- have grown by `es`.
  pub record Change (id : String) (r : Review) (es : List ReviewEvent) (s u : S) : Type 0 where
    pub found : world.find_row id u ≡ some r
    pub others :
        (other : String) → (id == other) ≡ false → world.find_row other u ≡ world.find_row other s
    pub events_grown : laws.events u ≡ laws.events s ++ es

  pub Change-trans :
      (id : String) (r r' : Review) (es es' : List ReviewEvent) (s t u : S)
      → Change id r es s t
      → Change id r' es' t u
      → Change id r' (es ++ es') s u
  Change-trans id r r' es es' s t u c d = record {
    found = d.found;
    others = λ other away. d.others other away ∙ c.others other away;
    events_grown =
        d.events_grown
        ∙ (ap (λ xs. xs ++ es') c.events_grown ∙ append_assoc (laws.events s) es es');
  }

  pub save-Change : (r : Review) (s : S) → Change r.id r [] s (world.save_row r s)
  save-Change r s = record {
    found =
        laws.find_save r s r.id
        ∙ ap (λ (b : Bool). if b then some r else world.find_row r.id s) (eq_refl r.id);
    others = λ other away.
        laws.find_save r s other
        ∙ ap (λ (b : Bool). if b then some r else world.find_row other s) away;
    events_grown = laws.events_save r s ∙ sym (append-nil (laws.events s));
  }

  pub soft_delete-Change :
      (now : ℕ) (id : String) (r : Review) (s : S)
      → world.find_row id s ≡ some r
      → Change id (record r { deleted_at = some now }) [] s (world.soft_delete_row now id s)
  soft_delete-Change now id r s h = record {
    found =
        laws.find_soft_delete now id s id
        ∙ (ap (λ (b : Bool). if b then marked now (world.find_row id s) else world.find_row id s)
              (eq_refl id)
            ∙ ap (marked now) h);
    others = λ other away.
        laws.find_soft_delete now id s other
        ∙ ap
            (λ (b : Bool).
              if b then marked now (world.find_row other s) else world.find_row other s)
            away;
    events_grown = laws.events_soft_delete now id s ∙ sym (append-nil (laws.events s));
  }

  pub restore-Change :
      (id : String) (r : Review) (s : S)
      → world.find_row id s ≡ some r
      → Change id (record r { deleted_at = none }) [] s (world.restore_row id s)
  restore-Change id r s h = record {
    found =
        laws.find_restore id s id
        ∙ (ap (λ (b : Bool). if b then unmarked (world.find_row id s) else world.find_row id s)
              (eq_refl id)
            ∙ ap unmarked h);
    others = λ other away.
        laws.find_restore id s other
        ∙ ap (λ (b : Bool). if b then unmarked (world.find_row other s) else world.find_row other s)
            away;
    events_grown = laws.events_restore id s ∙ sym (append-nil (laws.events s));
  }

  pub publish-Change :
      (id : String) (r : Review) (e : ReviewEvent) (s u : S)
      → Change id r [] s u
      → Change id r (e ∷ []) s (world.publish e u)
  publish-Change id r e s u c = Change-trans id r r [] (e ∷ []) s u (world.publish e u) c (record {
    found = laws.find_publish e u id ∙ c.found;
    others = λ other away. laws.find_publish e u other;
    events_grown = laws.events_publish e u;
  })
