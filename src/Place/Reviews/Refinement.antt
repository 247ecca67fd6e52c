-- ===== src/Place/Reviews/Refinement.antt =====
-- Every request to the service of the reviews settles: one review changes, its owner's or at an
-- administrator's request, and the events say how its rating counts before and after.
use recommendation_trip_plat.Base.{
  pure, continue, subst, ◌∙◌, sym, ap, Option-cases, Bool-cases, or_else, is_some, reject_if, ℕ,
  String, ◌≡◌, refl, inl, inr, Bool, true, false, not, Option, none, some, [], ◌==◌, eq_iff,
  review_forbidden,
}
use recommendation_trip_plat.Place.Reviews.{
  Review, UpsertReviewCommand, UpdateOwnReviewCommand, CreatePlaceReviewInput, ReviewEvent,
  ReviewWorld, apply_model_to_orm, first_of, is_open, open_only, is_visible, exists_visible_place,
  find_by_id, create_review, save_found, save_review, created_event, insert_review, revive_review,
  finish_overwrite, overwrite_review, upsert_found, upsert_review, own_review, update_own_review,
  remove_review, delete_review_by_admin, restore_review_by_admin, delete_own_review, review_created,
  review_updated, review_deleted,
}
use recommendation_trip_plat.Place.Reviews.Laws.{
  ReviewWorldLaws, Request, forget, restore-Change, upsert, update_own, delete_own, delete_by_admin,
  restore_by_admin,
}
use recommendation_trip_plat.Place.Reviews
use recommendation_trip_plat.Place.Reviews.Settling.{
  Settles, open_some, open_found, removed-Settles, overwritten-Settles, insert-Settles,
  revive-Settles, handle,
}

module _ {S : Type 0} (world : ReviewWorld S) (laws : ReviewWorldLaws world) where
  delete_by_admin-Settles :
      (now : ℕ) (id : String) (s : S) (o : Option Review)
      → find_by_id world id s ≡ o
      → Settles world laws (delete_by_admin id) s (handle world (delete_by_admin id) now s)
  unfolding handle Reviews.delete_review_by_admin
  delete_by_admin-Settles now id s none h = rw h
  delete_by_admin-Settles now id s (some r) h = rw h (
      removed-Settles world laws (delete_by_admin id) now id s r h
        ((open_found world laws id s r h).2, refl) (λ b r'. refl))

  delete_own-Settles :
      (now : ℕ) (id user_id : String) (s : S) (o : Option Review)
      → find_by_id world id s ≡ o
      → Settles world laws (delete_own id user_id) s (handle world (delete_own id user_id) now s)
  unfolding handle Reviews.delete_own_review Reviews.own_review
  delete_own-Settles now id user_id s none h = rw h
  delete_own-Settles now id user_id s (some r) h = rw h (go (r.user_id == user_id) refl)
    where
      go :
          (b : Bool)
          → (r.user_id == user_id) ≡ b
          → Settles world laws (delete_own id user_id) s (
              continue
                (remove_review world now id)
                (continue (λ _. pure r) (reject_if (not b) review_forbidden s)))
      go false e = refl
      go true e =
          removed-Settles world laws (delete_own id user_id) now id s r h
            ((open_found world laws id s r h).2, (eq_iff r.user_id user_id).0 e, refl)
            (λ b r'. refl)

  restore_by_admin-Settles :
      (now : ℕ) (id : String) (s : S) (o : Option Review)
      → world.find_row id s ≡ o
      → Settles world laws (restore_by_admin id) s (handle world (restore_by_admin id) now s)
  unfolding handle Reviews.restore_review_by_admin
  restore_by_admin-Settles now id s none h = rw h
  restore_by_admin-Settles now id s (some r) h = rw h (
    id,
    record r { deleted_at = none },
    (laws.found_id id s r h, refl),
    inl (r, h, refl, refl),
    ([], restore-Change world laws id r s h, refl),
  )

  update_own-Settles :
      (now : ℕ) (id user_id : String) (command : UpdateOwnReviewCommand) (s : S) (o : Option Review)
      → find_by_id world id s ≡ o
      → Settles world laws
          (update_own id user_id command)
          s
          (handle world (update_own id user_id command) now s)
  unfolding handle Reviews.update_own_review Reviews.own_review save_review apply_model_to_orm
  update_own-Settles now id user_id command s none h = rw h
  update_own-Settles now id user_id command s (some r) h =
      elim (Bool-cases (r.user_id == user_id)) [
        | inr e ↦ rw h (rw e)
        | inl e ↦
            let (stored, seen, same) = open_found world laws id s r h in
            let here : world.find_row r.id s ≡ some r =
              subst (λ i. world.find_row i s ≡ some r) (sym same) stored in
            let new : Review = record r {
              rating = or_else command.rating r.rating;
              comment = first_of command.comment r.comment;
              image_urls = first_of command.image_urls r.image_urls;
              updated_at = now;
            } in
            rw h (
              rw e (
                rw here (
                  overwritten-Settles world laws (update_own id user_id command) id s r new h
                    (same, (eq_iff r.user_id user_id).0 e, seen) same refl refl seen
                    (λ b r'. refl))))
      ]

  overwrite-Settles :
      (now : ℕ) (uuid place_id user_id : String) (command : UpsertReviewCommand) (s : S)
      (old : Review)
      → world.find_pair user_id place_id s ≡ some old
      → Settles world laws
          (upsert uuid place_id user_id command)
          s
          (forget (overwrite_review world now old command s))
  unfolding overwrite_review save_review apply_model_to_orm find_by_id
  overwrite-Settles now uuid place_id user_id command s old h =
      let (stored, user, place) = laws.pair_found user_id place_id s old h in
      let new : Review = record old {
        rating = command.rating;
        comment = command.comment;
        image_urls = command.image_urls;
        updated_at = now;
      } in
      let q = upsert uuid place_id user_id command in
      rw stored (elim (Bool-cases (is_some old.deleted_at)) [
        | inl gone ↦ rw gone (
            revive-Settles world laws now q s old new stored (ap not gone) refl refl refl
              (user, place, refl) (λ b r'. refl))
        | inr live ↦ rw live (
            overwritten-Settles world laws q old.id s old new
              (ap open_only stored ∙ open_some world laws old (ap not live))
              (user, place, ap not live) refl refl refl (ap not live) (λ b r'. refl))
      ])

  upsert-Settles :
      (now : ℕ) (uuid place_id user_id : String) (command : UpsertReviewCommand) (s : S)
      → world.find_row uuid s ≡ none
      → Settles world laws
          (upsert uuid place_id user_id command)
          s
          (handle world (upsert uuid place_id user_id command) now s)
  unfolding handle Reviews.upsert_review
  upsert-Settles now uuid place_id user_id command s fresh =
      elim (Bool-cases (exists_visible_place world place_id s)) [
        | inr e ↦ rw e
        | inl e ↦ rw e (elim (Option-cases (world.find_pair user_id place_id s)) [
          | inl alone ↦
              rw alone (insert-Settles world laws now uuid place_id user_id command s fresh alone)
          | inr (old, h) ↦ rw h (overwrite-Settles now uuid place_id user_id command s old h)
        ])
      ]

  -- The identifier that the database gives to a new review is new.
  abbrev pub IsFresh : Request → S → Type 0
  IsFresh (upsert uuid place_id user_id command) s = world.find_row uuid s ≡ none
  IsFresh _ s = Unit

  -- Every request to the service that throws has changed nothing and published nothing, and one that
  -- returns has changed exactly one review: that of the user and the place for an upsert, the
  -- named one, and the user's own, for an update or a removal of one's own. The events that it
  -- publishes are the account of that change: created if the review was not open before, updated
  -- with both ratings if it was and is, deleted with the old rating if it no longer is. Only a
  -- restoration by an administrator publishes nothing.
  pub handle-Settles :
      (q : Request) (now : ℕ) (s : S) → IsFresh q s → Settles world laws q s (handle world q now s)
  handle-Settles (upsert uuid place_id user_id command) now s f =
      upsert-Settles now uuid place_id user_id command s f
  handle-Settles (update_own id user_id command) now s f =
      update_own-Settles now id user_id command s (find_by_id world id s) refl
  handle-Settles (delete_own id user_id) now s f =
      delete_own-Settles now id user_id s (find_by_id world id s) refl
  handle-Settles (delete_by_admin id) now s f =
      delete_by_admin-Settles now id s (find_by_id world id s) refl
  handle-Settles (restore_by_admin id) now s f =
      restore_by_admin-Settles now id s (world.find_row id s) refl
