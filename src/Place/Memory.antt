-- ===== src/Place/Memory.antt =====
-- The database of the places in memory, which meets the laws that the proofs assume of it: the log of
-- the rows that were written, the last one first.
use recommendation_trip_plat.Base.{
  eq_iff, subst, ◌∙◌, sym, ap, Bool-cases, if◌then◌else◌, String, ◌≡◌, refl, inl, inr, true, false,
  Option, none, some, List, [], ◌∷◌, ◌++◌, ◌==◌,
}
use recommendation_trip_plat.Place.Management.Storage.Laws.{mark_row, unmark_row, PlaceWorldLaws}
use recommendation_trip_plat.Place.Management.Entities.{PlaceEvent}
use recommendation_trip_plat.Place.Management.Storage.{PlaceRow, OutboxRow, PlaceWorld}
use recommendation_trip_plat.Place.Registration.{RegistrationRequest, RegistrationWorld}
use recommendation_trip_plat.Place.Registration.Laws.{RegistrationLaws}

pub record Memory : Type 0 where
  pub rows : List PlaceRow
  pub outbox : List OutboxRow
  pub events : List PlaceEvent
  pub requests : List RegistrationRequest

abbrev find_in : String → List PlaceRow → Option PlaceRow
find_in id [] = none
find_in id (row ∷ rows) = if row.id == id then some row else find_in id rows

abbrev write_over : (PlaceRow → PlaceRow) → Option PlaceRow → Memory → Memory
write_over f none s = s
write_over f (some row) s = record s { rows = f row ∷ s.rows }

abbrev pub memory : PlaceWorld Memory
memory = record {
  find_one = λ id s. find_in id s.rows;
  save_row = λ row s. record s { rows = row ∷ s.rows };
  soft_delete_row =
      λ now id s. write_over (λ row. record row { deleted_at = some now }) (find_in id s.rows) s;
  restore_row = λ id s. write_over (λ row. record row { deleted_at = none }) (find_in id s.rows) s;
  save_outbox = λ row s. record s { outbox = s.outbox ++ row ∷ [] };
  destination_exists = λ id s. id == "hue";
  publish = λ es s. record s { events = s.events ++ es };
}

find_in-id :
    (id : String) (rows : List PlaceRow) (row : PlaceRow) → find_in id rows ≡ some row → row.id ≡ id
find_in-id id [] row h = cc
find_in-id id (x ∷ rows) row h = elim (Bool-cases (x.id == id)) [
  | inl e ↦
      let q : some x ≡ some row = rw e at h in
      let same : x ≡ row = cc in subst (λ (y : PlaceRow). y.id ≡ id) same ((eq_iff x.id id).0 e)
  | inr e ↦ find_in-id id rows row (rw e at h)
]

-- A change of the deletion time of the row that is found, as the laws have it.
written :
    (f : PlaceRow → PlaceRow) (mark : Option PlaceRow → Option PlaceRow)
    → mark none ≡ none
    → ((row : PlaceRow) → mark (some row) ≡ some (f row))
    → ((row : PlaceRow) → (f row).id ≡ row.id)
    → (i : String) (s : Memory) (id : String) (o : Option PlaceRow) → find_in i s.rows ≡ o
    → find_in id (write_over f o s).rows
      ≡ (if i == id then mark (find_in id s.rows) else find_in id s.rows)
written f mark mn ms fid i s id none h = elim (Bool-cases (i == id)) [
  | inl e ↦
      let there : find_in id s.rows ≡ none =
        ap (λ k. find_in k s.rows) (sym ((eq_iff i id).0 e)) ∙ h in
      rw e (rw there (sym mn))
  | inr e ↦ rw e
]
written f mark mn ms fid i s id (some row) h =
    let same : (f row).id ≡ i = fid row ∙ find_in-id i s.rows row h in
    elim (Bool-cases (i == id)) [
      | inl e ↦
          let there : find_in id s.rows ≡ some row =
            ap (λ k. find_in k s.rows) (sym ((eq_iff i id).0 e)) ∙ h in
          let hit : ((f row).id == id) ≡ true = ap (λ k. k == id) same ∙ e in
          rw hit (rw e (rw there (sym (ms row))))
      | inr e ↦ let miss : ((f row).id == id) ≡ false = ap (λ k. k == id) same ∙ e in rw miss (rw e)
    ]

write_over-outbox :
    (f : PlaceRow → PlaceRow) (o : Option PlaceRow) (s : Memory)
    → (write_over f o s).outbox ≡ s.outbox
write_over-outbox f none s = refl
write_over-outbox f (some row) s = refl

write_over-events :
    (f : PlaceRow → PlaceRow) (o : Option PlaceRow) (s : Memory)
    → (write_over f o s).events ≡ s.events
write_over-events f none s = refl
write_over-events f (some row) s = refl

pub memory_laws : PlaceWorldLaws memory
memory_laws = record {
  outbox = λ s. s.outbox;
  events = λ s. s.events;
  found_id = λ id s row h. find_in-id id s.rows row h;
  find_save = λ row s id. refl;
  find_soft_delete = λ now i s id.
      written (λ row. record row { deleted_at = some now }) (mark_row now) refl (λ row. refl)
        (λ row. refl) i s id (find_in i s.rows) refl;
  find_restore = λ i s id.
      written (λ row. record row { deleted_at = none }) unmark_row refl (λ row. refl) (λ row. refl)
        i s id (find_in i s.rows) refl;
  find_outbox = λ row s id. refl;
  find_publish = λ es s id. refl;
  outbox_save = λ row s. refl;
  outbox_soft_delete = λ now id s.
      write_over-outbox (λ row. record row { deleted_at = some now }) (find_in id s.rows) s;
  outbox_restore =
      λ id s. write_over-outbox (λ row. record row { deleted_at = none }) (find_in id s.rows) s;
  outbox_insert = λ row s. refl;
  outbox_publish = λ es s. refl;
  events_save = λ row s. refl;
  events_soft_delete = λ now id s.
      write_over-events (λ row. record row { deleted_at = some now }) (find_in id s.rows) s;
  events_restore =
      λ id s. write_over-events (λ row. record row { deleted_at = none }) (find_in id s.rows) s;
  events_insert = λ row s. refl;
  events_publish = λ es s. refl;
}

abbrev request_in : String → List RegistrationRequest → Option RegistrationRequest
request_in id [] = none
request_in id (r ∷ rs) = if r.id == id then some r else request_in id rs

request_in-id :
    (id : String) (rs : List RegistrationRequest) (r : RegistrationRequest)
    → request_in id rs ≡ some r
    → r.id ≡ id
request_in-id id [] r h = cc
request_in-id id (x ∷ rs) r h = elim (Bool-cases (x.id == id)) [
  | inl e ↦
      let q : some x ≡ some r = rw e at h in
      let same : x ≡ r = cc in
      subst (λ (y : RegistrationRequest). y.id ≡ id) same ((eq_iff x.id id).0 e)
  | inr e ↦ request_in-id id rs r (rw e at h)
]

-- Every partner exists, and the notifications go nowhere.
abbrev pub registrations : RegistrationWorld Memory
registrations = record {
  find_request = λ id s. request_in id s.requests;
  partner_exists = λ id s. true;
  save_request = λ r s. record s { requests = r ∷ s.requests };
  notify_place_approved = λ user place s. s;
  notify_place_rejected = λ user place reason s. s;
}

pub registration_laws : RegistrationLaws memory memory_laws registrations
unfolding memory_laws
registration_laws = record {
  request_id = λ id s r h. request_in-id id s.requests r h;
  find_saved = λ r s id. refl;
  request_place = λ row s id. refl;
  request_notified = λ user place s id. refl;
  request_published = λ s id. refl;
  place_request = λ r s id. refl;
  place_approved = λ user place s id. refl;
  place_rejected = λ user place reason s id. refl;
  outbox_request = λ r s. refl;
  outbox_approved = λ user place s. refl;
}
