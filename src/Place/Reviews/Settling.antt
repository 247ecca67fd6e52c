-- ===== src/Place/Reviews/Settling.antt =====
-- What a request to the service of the reviews may come to, and the changes of one review that the
-- requests make.
use recommendation_trip_plat.Base.{
  subst, ◌∙◌, sym, ap, Option-cases, Bool-cases, if◌then◌else◌, Outcome, Method, ℕ, String, ◌≡◌,
  refl, ◌≢◌, ◌⊎◌, inl, inr, Bool, true, false, Option, none, some, List, [], ◌∷◌, done, fail,
}
use recommendation_trip_plat.Place.Reviews.{
  Review, UpsertReviewCommand, UpdateOwnReviewCommand, CreatePlaceReviewInput, ReviewEvent,
  ReviewWorld, apply_model_to_orm, first_of, is_open, open_only, is_visible, exists_visible_place,
  find_by_id, create_review, save_found, save_review, created_event, insert_review, revive_review,
  finish_overwrite, overwrite_review, upsert_found, upsert_review, own_review, update_own_review,
  remove_review, delete_review_by_admin, restore_review_by_admin, delete_own_review, review_created,
  review_updated, review_deleted,
}
use recommendation_trip_plat.Place.Reviews.Laws.{
  ReviewWorldLaws, Request, forget, account, Concerns, published, Change, Change-trans, save-Change,
  soft_delete-Change, restore-Change, publish-Change, upsert, update_own, delete_own,
  delete_by_admin, restore_by_admin,
}
use recommendation_trip_plat.Place.Reviews

module _ {S : Type 0} (world : ReviewWorld S) where
  unfoldable pub handle : Request → ℕ → Method S (Unit {0})
  handle (upsert uuid place_id user_id command) now s =
      forget (Reviews.upsert_review world uuid now place_id user_id command s)
  handle (update_own review_id user_id command) now s =
      forget (Reviews.update_own_review world now review_id user_id command s)
  handle (delete_own review_id user_id) now s =
      Reviews.delete_own_review world now review_id user_id s
  handle (delete_by_admin review_id) now s = Reviews.delete_review_by_admin world now review_id s
  handle (restore_by_admin review_id) now s = Reviews.restore_review_by_admin world review_id s

  -- The review that is written to `id` has the owner and the place of the one that was there, or no
  -- review of this owner and place was there.
  abbrev pub Owned : S → String → Review → Type 0
  Owned s id r =
      ((b : Review) × (world.find_row id s ≡ some b)
        × (r.user_id ≡ b.user_id)
        × (r.place_id ≡ b.place_id))
      ⊎ ((other : String) (b : Review)
          → world.find_row other s ≡ some b
          → b.user_id ≡ r.user_id
          → b.place_id ≢ r.place_id)

module _ {S : Type 0} (world : ReviewWorld S) (laws : ReviewWorldLaws world) where
  -- A request that throws has changed nothing; one that returns has changed one review that it
  -- concerns, and has published what the change amounts to.
  abbrev pub Settles : Request → S → Outcome S (Unit {0}) → Type 0
  Settles q s (fail e u) = u ≡ s
  Settles q s (done _ u) =
      (id : String) × (r : Review) × Concerns q r
      × Owned world s id r
      × ((es : List ReviewEvent) × Change world laws id r es s u
          × (es ≡ published q (open_only (world.find_row id s)) r))

  pub open_some : (r : Review) → is_open r ≡ true → open_only (some r) ≡ some r
  open_some r h = ap (λ (b : Bool). if b then some r else none) h

  pub closed_none : (r : Review) → is_open r ≡ false → open_only (some r) ≡ none
  closed_none r h = ap (λ (b : Bool). if b then some r else none) h

  -- What `findById` finds is stored under this identifier and open.
  pub open_found :
      (id : String) (s : S) (r : Review)
      → find_by_id world id s ≡ some r
      → (world.find_row id s ≡ some r) × (is_open r ≡ true) × (r.id ≡ id)
  unfolding find_by_id
  open_found id s r h = elim (Option-cases (world.find_row id s)) [
    | inl e ↦ cc (h, ap open_only e)
    | inr (b, e) ↦ elim (Bool-cases (is_open b)) [
      | inl live ↦
          let same : b ≡ r =
            let q : some b ≡ some r = sym (open_some b live) ∙ (sym (ap open_only e) ∙ h) in cc in
          (
            e ∙ ap some same,
            subst (λ x. is_open x ≡ true) same live,
            laws.found_id id s r (e ∙ ap some same),
          )
      | inr gone ↦ cc (h, ap open_only e, closed_none b gone)
    ]
  ]

  pub removed-Settles :
      (q : Request) (now : ℕ) (id : String) (s : S) (r : Review)
      → find_by_id world id s ≡ some r
      → Concerns q (record r { deleted_at = some now })
      → ((b : Option Review) (r' : Review) → published q b r' ≡ account b r')
      → Settles q s (remove_review world now id r s)
  removed-Settles q now id s r h mine same =
      let (stored, live, _) = open_found id s r h in
      let gone : Review = record r { deleted_at = some now } in
      let e = review_deleted r.id r.place_id r.user_id r.rating in
      let known : open_only (world.find_row id s) ≡ some r =
        ap open_only stored ∙ open_some r live in
      (
        id,
        gone,
        mine,
        inl (r, stored, refl, refl),
        (
          e ∷ [],
          publish-Change world laws id gone e s (world.soft_delete_row now id s)
              (soft_delete-Change world laws now id r s stored),
          sym (same (open_only (world.find_row id s)) gone ∙ ap (λ o. account o gone) known),
        ),
      )

  pub overwritten-Settles :
      (q : Request) (id : String) (s : S) (r new : Review)
      → find_by_id world id s ≡ some r
      → Concerns q new
      → new.id ≡ id
      → (new.user_id ≡ r.user_id)
      → (new.place_id ≡ r.place_id)
      → is_open new ≡ true
      → ((b : Option Review) (r' : Review) → published q b r' ≡ account b r')
      → Settles q s (
          done tt (
            world.publish
              (review_updated new.id new.place_id new.user_id r.rating new.rating)
              (world.save_row new s)))
  overwritten-Settles q id s r new h mine same_id user place live same =
      let (stored, seen, _) = open_found id s r h in
      let e = review_updated new.id new.place_id new.user_id r.rating new.rating in
      let known : open_only (world.find_row id s) ≡ some r =
        ap open_only stored ∙ open_some r seen in
      (
        id,
        new,
        mine,
        inl (r, stored, user, place),
        (
          e ∷ [],
          publish-Change world laws id new e s (world.save_row new s) (
              subst (λ i. Change world laws i new [] s (world.save_row new s)) same_id
                (save-Change world laws new s)),
          sym (
              same (open_only (world.find_row id s)) new
              ∙ (ap (λ o. account o new) known
                  ∙ ap
                      (λ (b : Bool).
                        if b
                        then e ∷ []
                        else review_deleted r.id r.place_id r.user_id r.rating ∷ [])
                      live)),
        ),
      )

  pub insert-Settles :
      (now : ℕ) (uuid place_id user_id : String) (command : UpsertReviewCommand) (s : S)
      → world.find_row uuid s ≡ none
      → world.find_pair user_id place_id s ≡ none
      → Settles
          (upsert uuid place_id user_id command)
          s
          (forget (insert_review world uuid now place_id user_id command s))
  unfolding create_review insert_review
  insert-Settles now uuid place_id user_id command s fresh alone =
      let new : Review = record {
        id = uuid;
        place_id = place_id;
        user_id = user_id;
        rating = command.rating;
        comment = command.comment;
        image_urls = command.image_urls;
        created_at = now;
        updated_at = now;
        deleted_at = none;
      } in
      let e = review_created uuid place_id user_id command.rating in
      (
        uuid,
        new,
        (refl, refl, refl),
        inr (λ other b h same. laws.pair_missing user_id place_id s alone other b h same),
        (
          e ∷ [],
          publish-Change world laws uuid new e s (world.save_row new s)
              (save-Change world laws new s),
          sym (ap (λ o. account (open_only o) new) fresh),
        ),
      )

  pub revive-Settles :
      (now : ℕ) (q : Request) (s : S) (old new : Review)
      → world.find_row old.id s ≡ some old
      → is_open old ≡ false
      → new.id ≡ old.id
      → (new.user_id ≡ old.user_id)
      → (new.place_id ≡ old.place_id)
      → Concerns q (record new { deleted_at = none })
      → ((b : Option Review) (r' : Review) → published q b r' ≡ account b r')
      → Settles q s (forget (revive_review world old new (world.save_row new s)))
  unfolding revive_review find_by_id
  revive-Settles now q s old new stored gone same_id user place mine same =
      let back : Review = record new { deleted_at = none } in
      let e = created_event world new in
      let t = world.save_row new s in
      let saved =
        subst (λ i. Change world laws i new [] s t) same_id (save-Change world laws new s) in
      let restored =
        Change-trans world laws old.id new back [] [] s t (world.restore_row old.id t) saved
          (restore-Change world laws old.id new t saved.found) in
      let c = publish-Change world laws old.id back e s (world.restore_row old.id t) restored in
      let there : world.find_row new.id (world.publish e (world.restore_row old.id t)) ≡ some back =
        subst (λ i. world.find_row i (world.publish e (world.restore_row old.id t)) ≡ some back)
          (sym same_id) c.found in
      (rw there (
        old.id,
        back,
        mine,
        inl (old, stored, user, place),
        (
          e ∷ [],
          c,
          sym (
              same (open_only (world.find_row old.id s)) back
              ∙ ap (λ o. account o back) (ap open_only stored ∙ closed_none old gone)),
        ),
      ))
