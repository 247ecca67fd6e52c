-- ===== src/Place/Management/Workflow.antt =====
-- The operations of the aggregate of a place as one type of commands, who may run which of them and
-- in what state, and what each does to the status, to the marks of a deletion and to the events.
use recommendation_trip_plat.Base.{
  Holds, is_some, Outcome, Method, trim, is_empty, String, ◌≡◌, refl, ◌⊎◌, true, false, none, some,
  List, [], ◌∷◌, ◌++◌, arith, done, fail,
}
use mathlib.Core.List.{append-nil}
use recommendation_trip_plat.Place.Management.Entities.{
  PlaceStatus, Place, PlaceActorContext, UpdatePlaceInput, PlaceEvent, draft, pending_review,
  approved, rejected, owner, admin, place_submitted, place_approved, place_rejected,
  place_deleted_by_owner, place_deleted_by_admin, place_restored_by_owner, place_restored_by_admin,
}
use recommendation_trip_plat.Place.Management.Aggregate.{
  PlaceAggregate, create, has_admin_approve_permission, has_admin_delete_permission, is_partner,
}
use recommendation_trip_plat.Place.Management.Aggregate

pub data Command : Type 0 where
  submit_for_review approve : Command
  reject : (reason : String) → Command
  update : UpdatePlaceInput → Command
  delete_by_owner : Command
  delete_by_admin : (reason : String) → Command
  restore_by_owner restore_by_admin : Command

unfoldable pub run : Command → PlaceActorContext → Method PlaceAggregate (Unit {0})
run submit_for_review actor = Aggregate.submit_for_review actor
run approve actor = Aggregate.approve actor
run (reject reason) actor = Aggregate.reject actor reason
run (update input) actor = Aggregate.update actor input
run delete_by_owner actor = Aggregate.delete_by_owner actor
run (delete_by_admin reason) actor = Aggregate.delete_by_admin actor reason
run restore_by_owner actor = Aggregate.restore_by_owner actor
run restore_by_admin actor = Aggregate.restore_by_admin actor

abbrev pub IsLive : Place → Type 0
IsLive p = is_some p.deleted_at ≡ false

abbrev pub IsDeleted : Place → Type 0
IsDeleted p = is_some p.deleted_at ≡ true

abbrev pub IsEditable : Place → Type 0
IsEditable p = (p.status ≡ draft) ⊎ (p.status ≡ rejected)

-- The partner of the actor is the one of the place, and is named.
abbrev pub IsPartner : PlaceActorContext → Place → Type 0
IsPartner actor p = (actor.partner_id ≡ some p.partner_id) × (is_empty p.partner_id ≡ false)

abbrev pub IsApprover : PlaceActorContext → Type 0
IsApprover actor = Holds "places_admin:approve" actor.permissions

abbrev pub IsRemover : PlaceActorContext → Type 0
IsRemover actor = Holds "places_admin:delete" actor.permissions

abbrev pub IsReason : String → Type 0
IsReason reason = is_empty (trim reason) ≡ false

-- Who may run a command, in what state, and with what argument, for given ways to say that the
-- actor may approve, may delete, and is the partner.
abbrev Rule : Type 0 → Type 0 → Type 0 → Command → Place → Type 0
Rule approver remover partner submit_for_review p = IsLive p × (approver ⊎ partner) × IsEditable p
Rule approver remover partner approve p = IsLive p × approver × (p.status ≡ pending_review)
Rule approver remover partner (reject reason) p =
    IsLive p × approver × (p.status ≡ pending_review) × IsReason reason
Rule approver remover partner (update input) p = IsLive p × (approver ⊎ partner) × IsEditable p
Rule approver remover partner delete_by_owner p = IsLive p × partner
Rule approver remover partner (delete_by_admin reason) p = IsLive p × remover × IsReason reason
Rule approver remover partner restore_by_owner p = IsDeleted p × partner
Rule approver remover partner restore_by_admin p = IsDeleted p × remover

abbrev pub Allowed : Command → PlaceActorContext → Place → Type 0
Allowed c actor p = Rule (IsApprover actor) (IsRemover actor) (IsPartner actor p) c p

-- The same by the tests of the code.
abbrev Passes : Command → PlaceActorContext → Place → Type 0
Passes c actor p =
    Rule (has_admin_approve_permission actor ≡ true) (has_admin_delete_permission actor ≡ true)
      (is_partner actor.partner_id p.partner_id ≡ true) c p

abbrev pub Succeeds : Command → PlaceActorContext → PlaceAggregate → Type 0
Succeeds c actor a = (b : PlaceAggregate) × (run c actor a ≡ done tt b)

-- The moves of the status.
abbrev pub Moves : Command → PlaceStatus → PlaceStatus → Type 0
Moves submit_for_review s s' = ((s ≡ draft) ⊎ (s ≡ rejected)) × (s' ≡ pending_review)
Moves approve s s' = (s ≡ pending_review) × (s' ≡ approved)
Moves (reject reason) s s' = (s ≡ pending_review) × (s' ≡ rejected)
Moves (update input) s s' = ((s ≡ draft) ⊎ (s ≡ rejected)) × (s' ≡ s)
Moves _ s s' = s' ≡ s

-- The marks of a deletion: role, user and reason.
abbrev pub Marks : Command → PlaceActorContext → Place → Place → Type 0
Marks delete_by_owner actor p q =
    (q.deleted_by_role ≡ some owner)
    × (q.deleted_by_user_id ≡ some actor.user_id)
    × (q.deleted_reason ≡ some "owner_requested_delete")
Marks (delete_by_admin reason) actor p q =
    (q.deleted_by_role ≡ some admin)
    × (q.deleted_by_user_id ≡ some actor.user_id)
    × (q.deleted_reason ≡ some (trim reason))
Marks restore_by_owner actor p q =
    (q.deleted_by_role ≡ none) × (q.deleted_by_user_id ≡ none) × (q.deleted_reason ≡ none)
Marks restore_by_admin actor p q =
    (q.deleted_by_role ≡ none) × (q.deleted_by_user_id ≡ none) × (q.deleted_reason ≡ none)
Marks _ actor p q =
    (q.deleted_by_role ≡ p.deleted_by_role)
    × (q.deleted_by_user_id ≡ p.deleted_by_user_id)
    × (q.deleted_reason ≡ p.deleted_reason)

-- The events that a command records.
abbrev pub events_of : Command → PlaceActorContext → Place → List PlaceEvent
events_of submit_for_review actor p = place_submitted p.id actor.user_id p.partner_id ∷ []
events_of approve actor p = place_approved p.id actor.user_id p.partner_id ∷ []
events_of (reject reason) actor p =
    place_rejected p.id actor.user_id p.partner_id (trim reason) ∷ []
events_of (update input) actor p = []
events_of delete_by_owner actor p = place_deleted_by_owner p.id actor.user_id p.partner_id ∷ []
events_of (delete_by_admin reason) actor p =
    place_deleted_by_admin p.id actor.user_id p.partner_id (trim reason) ∷ []
events_of restore_by_owner actor p = place_restored_by_owner p.id actor.user_id p.partner_id ∷ []
events_of restore_by_admin actor p = place_restored_by_admin p.id actor.user_id p.partner_id ∷ []

-- What no command changes: in particular not the time of the deletion, which the storage sets.
abbrev pub SamePlace : Place → Place → Type 0
SamePlace p q =
    (q.id ≡ p.id)
    × (q.partner_id ≡ p.partner_id)
    × (q.data_source ≡ p.data_source)
    × (q.deleted_at ≡ p.deleted_at)

abbrev pub Follows :
    Command → PlaceActorContext → PlaceAggregate → Outcome PlaceAggregate (Unit {0}) → Type 0
Follows c actor a (done _ b) =
    Moves c a.snapshot.status b.snapshot.status
    × Marks c actor a.snapshot b.snapshot
    × SamePlace a.snapshot b.snapshot
    × (b.pending_events ≡ a.pending_events ++ events_of c actor a.snapshot)
Follows c actor a (fail e b) = b ≡ a

assign-Same :
    (input : UpdatePlaceInput) (actor : PlaceActorContext) (p : Place)
    → (Aggregate.assign input p).status ≡ p.status
      × Marks (update input) actor p (Aggregate.assign input p)
      × SamePlace p (Aggregate.assign input p)
unfolding Aggregate.assign
assign-Same input actor p = (refl, (refl, refl, refl), (refl, refl, refl, refl))

update-Follows :
    (input : UpdatePlaceInput) (actor : PlaceActorContext) (a : PlaceAggregate)
    → (Aggregate.assign input a.snapshot).status ≡ a.snapshot.status
      × Marks (update input) actor a.snapshot (Aggregate.assign input a.snapshot)
      × SamePlace a.snapshot (Aggregate.assign input a.snapshot)
    → a.pending_events ++ [] ≡ a.pending_events
    → Follows (update input) actor a (Aggregate.update actor input a)
unfolding Aggregate.update Aggregate.ensure_partner_or_admin_approve_ownership
    Aggregate.ensure_partner_ownership Aggregate.ensure_not_deleted
update-Follows input actor a (s, m, k) n = ground arith

-- A command that returns moves the status along the workflow, sets or clears the marks of a
-- deletion as is its own, records its own event (none for an update), and keeps the identifier, the
-- partner, the source of the data and the time of the deletion. A command that throws leaves the
-- aggregate as it is.
pub command-Follows :
    (c : Command) (actor : PlaceActorContext) (a : PlaceAggregate)
    → Follows c actor a (run c actor a)
unfolding run Aggregate.submit_for_review Aggregate.approve Aggregate.reject Aggregate.update
    Aggregate.delete_by_owner Aggregate.delete_by_admin Aggregate.restore_by_owner
    Aggregate.restore_by_admin Aggregate.ensure_partner_or_admin_approve_ownership
    Aggregate.ensure_partner_ownership Aggregate.ensure_deleted Aggregate.ensure_not_deleted
command-Follows submit_for_review actor a = ground arith
command-Follows approve actor a = ground arith
command-Follows (reject reason) actor a = ground arith
command-Follows (update input) actor a =
    update-Follows input actor a (assign-Same input actor a.snapshot) (append-nil a.pending_events)
command-Follows delete_by_owner actor a = ground arith
command-Follows (delete_by_admin reason) actor a = ground arith
command-Follows restore_by_owner actor a = ground arith
command-Follows restore_by_admin actor a = ground arith
