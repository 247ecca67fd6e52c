-- ===== src/Place/Management/Storage/Laws.antt =====
-- What the repository of places relies on in the database, and what it does to a place, to the other
-- places, to the outbox and to the events that are published.
use recommendation_trip_plat.Base.{
  Bool, refl, if◌then◌else◌, ℕ, String, ◌≡◌, sym, ap, subst, ◌∙◌, false, Option, none, some, [],
  ◌∷◌, ◌++◌, ◌==◌, eq_refl,
}
use recommendation_trip_plat.Place.Management.Aggregate.{reconstitute, PlaceAggregate}
use recommendation_trip_plat.Place.Management.Storage.{
  open_row, restore, soft_delete, to_domain, PlaceRow, OutboxRow, Moment, projection_row,
  to_persistence, PlaceWorld, enqueue, save,
}
use mathlib.Core.List.{List, append-nil, append_assoc}
use recommendation_trip_plat.Place.Management.Entities.{PlaceEvent}

abbrev pub mark_row : ℕ → Option PlaceRow → Option PlaceRow
mark_row now none = none
mark_row now (some row) = some (record row { deleted_at = some now })

abbrev pub unmark_row : Option PlaceRow → Option PlaceRow
unmark_row none = none
unmark_row (some row) = some (record row { deleted_at = none })

-- `outbox` and `events` are the rows of the outbox table and the events that the bus was given.
pub record PlaceWorldLaws {S : Type 0} (world : PlaceWorld S) : Type 0 where
  pub outbox : S → List OutboxRow
  pub events : S → List PlaceEvent
  pub found_id :
      (id : String) (s : S) (row : PlaceRow) → world.find_one id s ≡ some row → row.id ≡ id
  pub find_save :
      (row : PlaceRow) (s : S) (id : String)
      → world.find_one id (world.save_row row s)
        ≡ (if row.id == id then some row else world.find_one id s)
  pub find_soft_delete :
      (now : ℕ) (deleted : String) (s : S) (id : String)
      → world.find_one id (world.soft_delete_row now deleted s)
        ≡ (if deleted == id then mark_row now (world.find_one id s) else world.find_one id s)
  pub find_restore :
      (restored : String) (s : S) (id : String)
      → world.find_one id (world.restore_row restored s)
        ≡ (if restored == id then unmark_row (world.find_one id s) else world.find_one id s)
  pub find_outbox :
      (row : OutboxRow) (s : S) (id : String)
      → world.find_one id (world.save_outbox row s) ≡ world.find_one id s
  pub find_publish :
      (es : List PlaceEvent) (s : S) (id : String)
      → world.find_one id (world.publish es s) ≡ world.find_one id s
  pub outbox_save : (row : PlaceRow) (s : S) → outbox (world.save_row row s) ≡ outbox s
  pub outbox_soft_delete :
      (now : ℕ) (id : String) (s : S) → outbox (world.soft_delete_row now id s) ≡ outbox s
  pub outbox_restore : (id : String) (s : S) → outbox (world.restore_row id s) ≡ outbox s
  pub outbox_insert :
      (row : OutboxRow) (s : S) → outbox (world.save_outbox row s) ≡ outbox s ++ row ∷ []
  pub outbox_publish : (es : List PlaceEvent) (s : S) → outbox (world.publish es s) ≡ outbox s
  pub events_save : (row : PlaceRow) (s : S) → events (world.save_row row s) ≡ events s
  pub events_soft_delete :
      (now : ℕ) (id : String) (s : S) → events (world.soft_delete_row now id s) ≡ events s
  pub events_restore : (id : String) (s : S) → events (world.restore_row id s) ≡ events s
  pub events_insert : (row : OutboxRow) (s : S) → events (world.save_outbox row s) ≡ events s
  pub events_publish : (es : List PlaceEvent) (s : S) → events (world.publish es s) ≡ events s ++ es

-- Reading a saved aggregate back gives its snapshot, with the time of the deletion that the row
-- has: saving cannot delete or restore a place.
pub to_domain-to_persistence :
    (a : PlaceAggregate) (row : PlaceRow)
    → to_domain (to_persistence a (some row))
      ≡ reconstitute (record a.snapshot { deleted_at = row.deleted_at })
unfolding to_domain to_persistence
to_domain-to_persistence a row = refl

module _ {S : Type 0} (world : PlaceWorld S) (laws : PlaceWorldLaws world)
    (routing_key : String) where
  -- From `s` to `u` the row of one place has become `row`, every other place is as it was, and the
  -- outbox and the published events have grown by the given lists.
  pub record Change (id : String) (row : PlaceRow) (rows : List OutboxRow) (es : List PlaceEvent)
      (s u : S) : Type 0 where
    pub found : world.find_one id u ≡ some row
    pub others :
        (other : String) → (id == other) ≡ false → world.find_one other u ≡ world.find_one other s
    pub outbox_grown : laws.outbox u ≡ laws.outbox s ++ rows
    pub events_grown : laws.events u ≡ laws.events s ++ es

  pub Change-trans :
      (id : String) (row row' : PlaceRow) (rows rows' : List OutboxRow) (es es' : List PlaceEvent)
      (s t u : S)
      → Change id row rows es s t
      → Change id row' rows' es' t u
      → Change id row' (rows ++ rows') (es ++ es') s u
  Change-trans id row row' rows rows' es es' s t u c d = record {
    found = d.found;
    others = λ other away. d.others other away ∙ c.others other away;
    outbox_grown =
        d.outbox_grown
        ∙ (ap (λ xs. xs ++ rows') c.outbox_grown ∙ append_assoc (laws.outbox s) rows rows');
    events_grown =
        d.events_grown
        ∙ (ap (λ xs. xs ++ es') c.events_grown ∙ append_assoc (laws.events s) es es');
  }

  enqueue-Change :
      (m : Moment) (id : String) (row : PlaceRow) (s t : S)
      → Change id row [] [] s t
      → Change id row
          (projection_row m row routing_key ∷ [])
          []
          s
          (enqueue world m routing_key (some row) t)
  unfolding enqueue
  enqueue-Change m id row s t c =
      let new = projection_row m row routing_key in
      Change-trans id row row [] (new ∷ []) [] [] s t (world.save_outbox new t) c (record {
        found = laws.find_outbox new t id ∙ c.found;
        others = λ other away. laws.find_outbox new t other;
        outbox_grown = laws.outbox_insert new t;
        events_grown = laws.events_insert new t ∙ sym (append-nil (laws.events t));
      })

  -- The repository's `save` of an aggregate whose row is stored.
  pub save-Change :
      (m : Moment) (a : PlaceAggregate) (row : PlaceRow) (s : S)
      → world.find_one a.snapshot.id s ≡ some row
      → Change a.snapshot.id
          (to_persistence a (some row))
          (projection_row m (to_persistence a (some row)) routing_key ∷ [])
          []
          s
          (save world m routing_key a s)
  unfolding save to_persistence
  save-Change m a row s h =
      let id = a.snapshot.id in
      let new = to_persistence a (some row) in
      let t = world.save_row new s in
      let found : world.find_one id t ≡ some new =
        laws.find_save new s id
        ∙ ap (λ b. if b then some new else world.find_one id s) (eq_refl id) in
      subst
        (λ o. Change id new (projection_row m new routing_key ∷ []) [] s (
          enqueue world m routing_key (world.find_one id (world.save_row (to_persistence a o) s))
            (world.save_row (to_persistence a o) s)))
        (sym h)
        (subst
          (λ o.
            Change id new (projection_row m new routing_key ∷ []) [] s
              (enqueue world m routing_key o t))
          (sym found)
          (enqueue-Change m id new s t (record {
            found = found;
            others = λ other away.
                laws.find_save new s other
                ∙ ap (λ b. if b then some new else world.find_one other s) away;
            outbox_grown = laws.outbox_save new s ∙ sym (append-nil (laws.outbox s));
            events_grown = laws.events_save new s ∙ sym (append-nil (laws.events s));
          })))

  pub soft_delete-Change :
      (m : Moment) (id : String) (row : PlaceRow) (s : S)
      → world.find_one id s ≡ some row
      → Change id
          (record row { deleted_at = some m.now })
          (projection_row m (record row { deleted_at = some m.now }) routing_key ∷ [])
          []
          s
          (soft_delete world m routing_key id s)
  unfolding soft_delete
  soft_delete-Change m id row s h =
      let new : PlaceRow = record row { deleted_at = some m.now } in
      let t = world.soft_delete_row m.now id s in
      let old =
        λ (b : Bool). if b then mark_row m.now (world.find_one id s) else world.find_one id s in
      let found : world.find_one id t ≡ some new =
        laws.find_soft_delete m.now id s id ∙ (ap old (eq_refl id) ∙ ap (mark_row m.now) h) in
      subst
        (λ o.
          Change id new (projection_row m new routing_key ∷ []) [] s
            (enqueue world m routing_key o t))
        (sym found)
        (enqueue-Change m id new s t (record {
          found = found;
          others = λ other away.
              laws.find_soft_delete m.now id s other
              ∙ ap
                  (λ b.
                    if b then mark_row m.now (world.find_one other s) else world.find_one other s)
                  away;
          outbox_grown = laws.outbox_soft_delete m.now id s ∙ sym (append-nil (laws.outbox s));
          events_grown = laws.events_soft_delete m.now id s ∙ sym (append-nil (laws.events s));
        }))

  pub restore-Change :
      (m : Moment) (id : String) (row : PlaceRow) (s : S)
      → world.find_one id s ≡ some row
      → Change id
          (record row { deleted_at = none })
          (projection_row m (record row { deleted_at = none }) routing_key ∷ [])
          []
          s
          (restore world m routing_key id s)
  unfolding restore open_row
  restore-Change m id row s h =
      let new : PlaceRow = record row { deleted_at = none } in
      let t = world.restore_row id s in
      let old = λ (b : Bool). if b then unmark_row (world.find_one id s) else world.find_one id s in
      let found : world.find_one id t ≡ some new =
        laws.find_restore id s id ∙ (ap old (eq_refl id) ∙ ap unmark_row h) in
      subst
        (λ o.
          Change id new (projection_row m new routing_key ∷ []) [] s
            (enqueue world m routing_key (open_row world o) t))
        (sym found)
        (enqueue-Change m id new s t (record {
          found = found;
          others = λ other away.
              laws.find_restore id s other
              ∙ ap (λ b. if b then unmark_row (world.find_one other s) else world.find_one other s)
                  away;
          outbox_grown = laws.outbox_restore id s ∙ sym (append-nil (laws.outbox s));
          events_grown = laws.events_restore id s ∙ sym (append-nil (laws.events s));
        }))

  pub publish-Change :
      (id : String) (row : PlaceRow) (es : List PlaceEvent) (s : S)
      → world.find_one id s ≡ some row
      → Change id row [] es s (world.publish es s)
  publish-Change id row es s h = record {
    found = laws.find_publish es s id ∙ h;
    others = λ other away. laws.find_publish es s other;
    outbox_grown = laws.outbox_publish es s ∙ sym (append-nil (laws.outbox s));
    events_grown = laws.events_publish es s;
  }
