-- ===== src/Place/Management/Aggregate.antt =====
-- modules/place/management/domain/entities/place-management.aggregate.ts. The aggregate is its
-- snapshot with the events that nobody has pulled yet.
use recommendation_trip_plat.Base.{
  if◌then◌else◌, or_else, is_some, any, Method, modify, get, ◌>>=◌, ◌>>◌, reject_if, trim, is_empty,
  String, Bool, true, false, not, ◌&&◌, Option, none, some, List, [], ◌∷◌, ◌++◌, ◌==◌,
  invalid_workflow, place_ownership, place_deleted, place_not_deleted, done,
}
use recommendation_trip_plat.Place.Management.Entities.{
  PlaceStatus, DeletionActorRole, Place, PlaceActorContext, CreatePlaceInput, UpdatePlaceInput,
  PlaceEvent, draft, pending_review, approved, rejected, partner_created, owner, admin,
  place_submitted, place_approved, place_rejected, place_deleted_by_owner, place_deleted_by_admin,
  place_restored_by_owner, place_restored_by_admin,
}

pub record PlaceAggregate : Type 0 where
  pub snapshot : Place
  pub pending_events : List PlaceEvent

abbrev pub includes : List String → String → Bool
includes permissions name = any (λ permission. permission == name) permissions

abbrev pub has_admin_approve_permission : PlaceActorContext → Bool
has_admin_approve_permission actor = includes actor.permissions "places_admin:approve"

abbrev pub has_admin_delete_permission : PlaceActorContext → Bool
has_admin_delete_permission actor = includes actor.permissions "places_admin:delete"

-- `create`, before an event.
unfoldable pub create : CreatePlaceInput → PlaceAggregate
create input = record {
  snapshot = record {
    id = input.id;
    name = input.name;
    description = input.description;
    address = input.address;
    lat = input.lat;
    lng = input.lng;
    category_id = input.category_id;
    partner_id = input.partner_id;
    destination_id = input.destination_id;
    status = draft;
    data_source = partner_created;
    opening_hours = input.opening_hours;
    image_urls = input.image_urls;
    thumbnail_url = input.thumbnail_url;
    google_place_id = none;
    tag_scores = none;
    import_batch_id = none;
    rejection_reason = none;
    deleted_reason = none;
    deleted_by_user_id = none;
    deleted_by_role = none;
    deleted_at = none;
  };
  pending_events = [];
}

abbrev pub reconstitute : Place → PlaceAggregate
reconstitute snapshot = record { snapshot = snapshot; pending_events = [] }

unfoldable pub ensure_not_deleted : Method PlaceAggregate (Unit {0})
ensure_not_deleted a = reject_if (is_some a.snapshot.deleted_at) place_deleted a

unfoldable pub ensure_deleted : Method PlaceAggregate (Unit {0})
ensure_deleted a = reject_if (not (is_some a.snapshot.deleted_at)) place_not_deleted a

-- `actor.partnerId` is truthy and equals the identifier.
abbrev pub is_partner : Option String → String → Bool
is_partner none id = false
is_partner (some partner_id) id = not (is_empty partner_id) && (partner_id == id)

unfoldable pub ensure_partner_ownership : PlaceActorContext → Method PlaceAggregate (Unit {0})
ensure_partner_ownership actor a =
    reject_if (not (is_partner actor.partner_id a.snapshot.partner_id))
      (place_ownership "place_ownership_violation") a

unfoldable pub ensure_partner_or_admin_approve_ownership :
    PlaceActorContext → Method PlaceAggregate (Unit {0})
unfolding ensure_partner_ownership
ensure_partner_or_admin_approve_ownership actor a =
    if has_admin_approve_permission actor then done tt a else ensure_partner_ownership actor a

abbrev pub is_editable : PlaceStatus → Bool
is_editable draft = true
is_editable rejected = true
is_editable _ = false

abbrev pub is_pending : PlaceStatus → Bool
is_pending pending_review = true
is_pending _ = false

abbrev pub push_event : PlaceEvent → PlaceAggregate → PlaceAggregate
push_event event a = record a { pending_events = a.pending_events ++ event ∷ [] }

unfoldable pub submit_for_review : PlaceActorContext → Method PlaceAggregate (Unit {0})
unfolding ensure_not_deleted ensure_partner_or_admin_approve_ownership
submit_for_review actor = do
  ensure_not_deleted
  ensure_partner_or_admin_approve_ownership actor
  a ← get
  reject_if (not (is_editable a.snapshot.status))
      (invalid_workflow "place_can_only_submit_from_draft_or_rejected")
  modify λ a. record a { snapshot = record a.snapshot { status = pending_review } }
  modify (push_event (place_submitted a.snapshot.id actor.user_id a.snapshot.partner_id))

unfoldable pub approve : PlaceActorContext → Method PlaceAggregate (Unit {0})
unfolding ensure_not_deleted
approve actor = do
  ensure_not_deleted
  reject_if (not (has_admin_approve_permission actor))
      (place_ownership "place_approve_requires_permission")
  a ← get
  reject_if (not (is_pending a.snapshot.status))
      (invalid_workflow "place_can_only_approve_from_pending_review")
  modify
      λ a. record a { snapshot = record a.snapshot { status = approved; rejection_reason = none } }
  modify (push_event (place_approved a.snapshot.id actor.user_id a.snapshot.partner_id))

unfoldable pub reject : PlaceActorContext → String → Method PlaceAggregate (Unit {0})
unfolding ensure_not_deleted
reject actor reason = do
  ensure_not_deleted
  reject_if (not (has_admin_approve_permission actor))
      (place_ownership "place_reject_requires_permission")
  a ← get
  reject_if (not (is_pending a.snapshot.status))
      (invalid_workflow "place_can_only_reject_from_pending_review")
  reject_if (is_empty (trim reason)) (invalid_workflow "place_reject_reason_required")
  modify λ a. record a {
    snapshot = record a.snapshot { status = rejected; rejection_reason = some (trim reason) };
  }
  modify
      (push_event (place_rejected a.snapshot.id actor.user_id a.snapshot.partner_id (trim reason)))

-- The assignments of `update`.
unfoldable pub assign : UpdatePlaceInput → Place → Place
assign input p = record p {
  name = or_else input.name p.name;
  description = or_else input.description p.description;
  address = or_else input.address p.address;
  lat = or_else input.lat p.lat;
  lng = or_else input.lng p.lng;
  category_id = or_else input.category_id p.category_id;
  destination_id = or_else input.destination_id p.destination_id;
  opening_hours = or_else input.opening_hours p.opening_hours;
  image_urls = or_else input.image_urls p.image_urls;
  thumbnail_url = or_else input.thumbnail_url p.thumbnail_url;
  google_place_id = or_else input.google_place_id p.google_place_id;
  tag_scores = or_else input.tag_scores p.tag_scores;
}

unfoldable pub update : PlaceActorContext → UpdatePlaceInput → Method PlaceAggregate (Unit {0})
unfolding ensure_not_deleted ensure_partner_or_admin_approve_ownership assign
update actor input = do
  ensure_not_deleted
  ensure_partner_or_admin_approve_ownership actor
  a ← get
  reject_if (not (is_editable a.snapshot.status))
      (invalid_workflow "place_can_only_update_in_draft_or_rejected")
  modify λ a. record a { snapshot = assign input a.snapshot }

abbrev pub mark_deleted : String → String → DeletionActorRole → PlaceAggregate → PlaceAggregate
mark_deleted reason user_id role a = record a {
  snapshot = record a.snapshot {
    deleted_reason = some reason;
    deleted_by_user_id = some user_id;
    deleted_by_role = some role;
  };
}

abbrev pub unmark_deleted : PlaceAggregate → PlaceAggregate
unmark_deleted a = record a {
  snapshot = record a.snapshot {
    deleted_reason = none;
    deleted_by_user_id = none;
    deleted_by_role = none;
  };
}

unfoldable pub delete_by_owner : PlaceActorContext → Method PlaceAggregate (Unit {0})
unfolding ensure_not_deleted ensure_partner_ownership
delete_by_owner actor = do
  ensure_not_deleted
  ensure_partner_ownership actor
  a ← get
  modify (mark_deleted "owner_requested_delete" actor.user_id owner)
  modify (push_event (place_deleted_by_owner a.snapshot.id actor.user_id a.snapshot.partner_id))

unfoldable pub delete_by_admin : PlaceActorContext → String → Method PlaceAggregate (Unit {0})
unfolding ensure_not_deleted
delete_by_admin actor reason = do
  ensure_not_deleted
  reject_if (not (has_admin_delete_permission actor))
      (place_ownership "place_delete_requires_admin_permission")
  reject_if (is_empty (trim reason)) (invalid_workflow "place_delete_reason_required")
  a ← get
  modify (mark_deleted (trim reason) actor.user_id admin)
  modify (
      push_event
        (place_deleted_by_admin a.snapshot.id actor.user_id a.snapshot.partner_id (trim reason)))

unfoldable pub restore_by_owner : PlaceActorContext → Method PlaceAggregate (Unit {0})
unfolding ensure_deleted ensure_partner_ownership
restore_by_owner actor = do
  ensure_deleted
  ensure_partner_ownership actor
  a ← get
  modify unmark_deleted
  modify (push_event (place_restored_by_owner a.snapshot.id actor.user_id a.snapshot.partner_id))

unfoldable pub restore_by_admin : PlaceActorContext → Method PlaceAggregate (Unit {0})
unfolding ensure_deleted
restore_by_admin actor = do
  ensure_deleted
  reject_if (not (has_admin_delete_permission actor))
      (place_ownership "place_restore_requires_admin_permission")
  a ← get
  modify unmark_deleted
  modify (push_event (place_restored_by_admin a.snapshot.id actor.user_id a.snapshot.partner_id))

-- `pullEvents`: the events, and the aggregate without them.
abbrev pub pull_events : Method PlaceAggregate (List PlaceEvent)
pull_events a = done a.pending_events (record a { pending_events = [] })
