-- ===== src/Place/Registration/Visibility.antt =====
-- What becomes of a registration request, and that no use case ever gives a place the status that
-- the catalog, the reviews and the trips ask for.
use recommendation_trip_plat.Base.{
  Option, if◌then◌else◌, Bool-cases, Option-cases, after, trim, ℕ, String, ◌≡◌, refl, sym, ap, ◌∙◌,
  ◌≢◌, inl, inr, Bool, true, none, some, [], ◌==◌, eq_iff, eq_refl, done,
}
use recommendation_trip_plat.Place.Management.Storage.Laws.{PlaceWorldLaws}
use recommendation_trip_plat.Place.Registration.{
  RegistrationRequest, RegistrationWorld, is_open, open_only, is_pending, place_of,
  approved_request, rejected_request, find_pending, approve_request, reject_request,
}
use recommendation_trip_plat.Place.Management.Entities
use recommendation_trip_plat.Place.Registration
use recommendation_trip_plat.Place.Management.Entities.{PlaceStatus, PlaceActorContext}
use recommendation_trip_plat.Place.Management.Storage.{
  PlaceRow, PlaceWorld, Moment, to_persistence, to_domain,
}
use recommendation_trip_plat.Place.Management.Aggregate.{create}
use recommendation_trip_plat.Place.Management.UseCases.Requests.{
  Request, command_of, handle, deleted_at_after,
}
use recommendation_trip_plat.Place.Management.UseCases.Requests
use recommendation_trip_plat.Place.Management.UseCases.Consistency.{Carries, request-AllRows}
use recommendation_trip_plat.Place.Registration.Laws.{RegistrationLaws}

-- The request `b` is `a`, approved for the place `uuid`.
abbrev pub Approved : String → ℕ → String → RegistrationRequest → RegistrationRequest → Type 0
Approved uuid now reviewer a b =
    (b.status ≡ Registration.approved)
    × (b.approved_place_id ≡ some uuid)
    × (b.reviewed_by_user_id ≡ some reviewer)
    × (b.reviewed_at ≡ some now)
    × (b.rejection_reason ≡ none)
    × (b.id ≡ a.id)
    × (b.requester_user_id ≡ a.requester_user_id)
    × (b.partner_id ≡ a.partner_id)

-- The place `uuid` as a draft with the data of the request.
abbrev pub DraftOf : String → RegistrationRequest → PlaceRow → Type 0
DraftOf uuid r row =
    (row.id ≡ uuid)
    × (row.status ≡ Entities.draft)
    × (row.deleted_at ≡ none)
    × (row.partner_id ≡ r.partner_id)
    × (row.name ≡ r.name)
    × (row.description ≡ r.description)
    × (row.address ≡ r.address)
    × (row.lat ≡ r.lat)
    × (row.lng ≡ r.lng)
    × (row.category_id ≡ r.category_id)
    × (row.destination_id ≡ r.destination_id)
    × (row.image_urls ≡ r.image_urls)
    × (row.thumbnail_url ≡ r.thumbnail_url)

module _ {S : Type 0} (places : PlaceWorld S) (laws : PlaceWorldLaws places)
    (world : RegistrationWorld S) (more : RegistrationLaws places laws world) where
  -- No stored place is approved.
  unfoldable pub NoneApproved : S → Type 0
  NoneApproved s =
      (id : String) (row : PlaceRow)
      → places.find_one id s ≡ some row
      → row.status ≢ Entities.approved

  pending-found :
      (id : String) (s : S) (r : RegistrationRequest)
      → world.find_request id s ≡ some r
      → is_open r ≡ true
      → is_pending r.status ≡ true
      → find_pending places world id s ≡ done r s
  unfolding find_pending
  pending-found id s r h o p = rw h (rw o (rw p))

  -- The world after the approval of a request.
  approved_world : String → ℕ → String → RegistrationRequest → S → S
  approved_world uuid now reviewer r s = world.notify_place_approved r.requester_user_id uuid (
      places.publish [] (
        world.save_request (approved_request uuid now reviewer r)
          (places.save_row (to_persistence (place_of uuid r) none) s)))

  approve_request-done :
      (uuid : String) (now : ℕ) (id reviewer : String) (s : S) (r : RegistrationRequest)
      → world.find_request id s ≡ some r
      → is_open r ≡ true
      → is_pending r.status ≡ true
      → world.partner_exists r.partner_id s ≡ true
      → approve_request places world uuid now id reviewer s
        ≡ done (r.id, uuid) (approved_world uuid now reviewer r s)
  unfolding approve_request approved_world place_of create
  approve_request-done uuid now id reviewer s r h o p e = rw (pending-found id s r h o p) (rw e)

  -- Approving an open request that is pending, of a partner who exists, returns: the request is
  -- stored as approved by the reviewer, at the time, for the new place, still as one of the same user
  -- and partner. The place is stored as a draft that is not deleted, with the partner and the data of
  -- the request. It puts no row into the outbox.
  pub approve_request-Creates :
      (uuid : String) (now : ℕ) (id reviewer : String) (s : S) (r : RegistrationRequest)
      → world.find_request id s ≡ some r
      → is_open r ≡ true
      → is_pending r.status ≡ true
      → world.partner_exists r.partner_id s ≡ true
      → (u : S) × (approve_request places world uuid now id reviewer s ≡ done (r.id, uuid) u)
        × ((next : RegistrationRequest) × (world.find_request id u ≡ some next)
            × Approved uuid now reviewer r next)
        × ((row : PlaceRow) × (places.find_one uuid u ≡ some row) × DraftOf uuid r row)
        × (laws.outbox u ≡ laws.outbox s)
  unfolding approved_world to_persistence place_of create
  approve_request-Creates uuid now id reviewer s r h o p e =
      let row = to_persistence (place_of uuid r) none in
      let s₁ = places.save_row row s in
      let next = approved_request uuid now reviewer r in
      let s₂ = world.save_request next s₁ in
      let s₃ = places.publish [] s₂ in
      let hit : (r.id == id) ≡ true = (eq_iff r.id id).1 (more.request_id id s r h) in
      (
        approved_world uuid now reviewer r s,
        approve_request-done uuid now id reviewer s r h o p e,
        (
          next,
          more.request_notified r.requester_user_id uuid s₃ id
              ∙ (more.request_published s₂ id
                  ∙ (more.find_saved next s₁ id
                      ∙ ap (λ (b : Bool). if b then some next else world.find_request id s₁) hit)),
          (refl, refl, refl, refl, refl, refl, refl, refl),
        ),
        (
          row,
          more.place_approved r.requester_user_id uuid s₃ uuid
              ∙ (laws.find_publish [] s₂ uuid
                  ∙ (more.place_request next s₁ uuid
                      ∙ (laws.find_save row s uuid
                          ∙ ap (λ (b : Bool). if b then some row else places.find_one uuid s)
                              (eq_refl uuid)))),
          (refl, refl, refl, refl, refl, refl, refl, refl, refl, refl, refl, refl, refl),
        ),
        more.outbox_approved r.requester_user_id uuid s₃
            ∙ (laws.outbox_publish [] s₂ ∙ (more.outbox_request next s₁ ∙ laws.outbox_save row s)),
      )

  -- No request of a use case approves a place.
  unapproved_kept :
      (request : Request) (now : ℕ) (actor : PlaceActorContext) (key : String)
      → Carries places laws key (λ row. row.status ≢ Entities.approved) request now actor
  unfolding command_of to_domain to_persistence
  unapproved_kept Requests.submit_place now actor key row b ((_, e), _, _, _) h = λ q. cc
  unapproved_kept (Requests.update_place input) now actor key row b ((_, e), _, _, _) h =
      λ q. h (sym e ∙ q)
  unapproved_kept Requests.delete_own_place now actor key row b (e, _, _, _) h = λ q. h (sym e ∙ q)
  unapproved_kept (Requests.delete_place_by_admin reason) now actor key row b (e, _, _, _) h =
      λ q. h (sym e ∙ q)
  unapproved_kept Requests.restore_own_place now actor key row b (e, _, _, _) h = λ q. h (sym e ∙ q)
  unapproved_kept Requests.restore_place_by_admin now actor key row b (e, _, _, _) h =
      λ q. h (sym e ∙ q)

  pub request-NoneApproved :
      (key : String) (request : Request) (m n : Moment) (id : String) (actor : PlaceActorContext)
      (s : S)
      → NoneApproved s
      → NoneApproved (after (handle places key request m n id actor s))
  unfolding NoneApproved
  request-NoneApproved key request m n id actor s all =
      request-AllRows places laws key (λ row. row.status ≢ Entities.approved) request m n id actor s
        (unapproved_kept request n.now actor key) all

  approved_world-places :
      (uuid : String) (now : ℕ) (reviewer : String) (r : RegistrationRequest) (s : S)
      (other : String)
      → places.find_one other (approved_world uuid now reviewer r s) ≡ (
          if uuid == other
          then some (to_persistence (place_of uuid r) none)
          else places.find_one other s)
  unfolding approved_world to_persistence place_of create
  approved_world-places uuid now reviewer r s other =
      let row = to_persistence (place_of uuid r) none in
      let next = approved_request uuid now reviewer r in
      let s₁ = places.save_row row s in
      let s₂ = world.save_request next s₁ in
      more.place_approved r.requester_user_id uuid (places.publish [] s₂) other
      ∙ (laws.find_publish [] s₂ other
          ∙ (more.place_request next s₁ other ∙ laws.find_save row s other))

  approved_world-NoneApproved :
      (uuid : String) (now : ℕ) (reviewer : String) (r : RegistrationRequest) (s : S)
      → NoneApproved s
      → NoneApproved (approved_world uuid now reviewer r s)
  unfolding NoneApproved to_persistence place_of create
  approved_world-NoneApproved uuid now reviewer r s all other row h =
      let created = to_persistence (place_of uuid r) none in
      let there = approved_world-places uuid now reviewer r s other in
      let pick : Bool → Option PlaceRow =
        λ (b : Bool). if b then some created else places.find_one other s in
      elim (Bool-cases (uuid == other)) [
        | inl e ↦
            let same : created ≡ row =
              (let q : some created ≡ some row = sym (there ∙ ap pick e) ∙ h in cc) in
            λ p.
              let bad : Entities.draft ≡ Entities.approved =
                ap (λ (x : PlaceRow). x.status) same ∙ p in
              cc
        | inr e ↦ all other row (sym (there ∙ ap pick e) ∙ h)
      ]

  approve_request-NoneApproved :
      (uuid : String) (now : ℕ) (id reviewer : String) (s : S)
      → NoneApproved s
      → NoneApproved (after (approve_request places world uuid now id reviewer s))
  unfolding approve_request find_pending approved_world place_of create
  approve_request-NoneApproved uuid now id reviewer s all =
      elim (Option-cases (open_only (world.find_request id s))) [
        | inl e ↦ rw e all
        | inr (r, e) ↦ rw e (elim (Bool-cases (is_pending r.status)) [
          | inr p ↦ rw p all
          | inl p ↦ rw p (elim (Bool-cases (world.partner_exists r.partner_id s)) [
            | inr x ↦ rw x all
            | inl x ↦ rw x (approved_world-NoneApproved uuid now reviewer r s all)
          ])
        ])
      ]

  reject_request-NoneApproved :
      (now : ℕ) (id reviewer reason : String) (s : S)
      → NoneApproved s
      → NoneApproved (after (reject_request places world now id reviewer reason s))
  unfolding reject_request find_pending NoneApproved
  reject_request-NoneApproved now id reviewer reason s all =
      elim (Option-cases (open_only (world.find_request id s))) [
        | inl e ↦ rw e all
        | inr (r, e) ↦ rw e (elim (Bool-cases (is_pending r.status)) [
          | inr p ↦ rw p all
          | inl p ↦ rw p λ other row h.
              let next = rejected_request now reviewer reason r in
              all other row (
                sym (
                  more.place_rejected r.requester_user_id r.id (trim reason)
                    (world.save_request next s) other
                  ∙ more.place_request next s other)
                ∙ h)
        ])
      ]

  -- The worlds that the use cases of the places and of the registration requests reach from `s`.
  pub data Reaches (s : S) : S → Type 0 where
    start : Reaches s s
    request :
        (key : String) (q : Request) (m n : Moment) (id : String) (actor : PlaceActorContext)
        (u : S)
        → Reaches s u
        → Reaches s (after (handle places key q m n id actor u))
    approval :
        (uuid : String) (now : ℕ) (id reviewer : String) (u : S)
        → Reaches s u
        → Reaches s (after (approve_request places world uuid now id reviewer u))
    rejection :
        (now : ℕ) (id reviewer reason : String) (u : S)
        → Reaches s u
        → Reaches s (after (reject_request places world now id reviewer reason u))

  -- From a database without approved places the use cases that submit, update, delete and restore
  -- places and those that approve and reject registration requests never reach one with an
  -- approved place, whoever calls them.
  pub Reaches-NoneApproved : (s u : S) → Reaches s u → NoneApproved s → NoneApproved u
  Reaches-NoneApproved s _ start h = h
  Reaches-NoneApproved s _ (request key q m n id actor u r) h =
      request-NoneApproved key q m n id actor u (Reaches-NoneApproved s u r h)
  Reaches-NoneApproved s _ (approval uuid now id reviewer u r) h =
      approve_request-NoneApproved uuid now id reviewer u (Reaches-NoneApproved s u r h)
  Reaches-NoneApproved s _ (rejection now id reviewer reason u r) h =
      reject_request-NoneApproved now id reviewer reason u (Reaches-NoneApproved s u r h)
