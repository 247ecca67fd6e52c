-- ===== src/Place/Reviews/Tests.antt =====
-- The service of the reviews over a table in memory, which meets the laws of the database: the log of
-- the rows that were written, the last one first.
use recommendation_trip_plat.Base.{
  if◌then◌else◌, Bool-cases, All, after, String, ◌≡◌, refl, sym, ap, subst, ◌∙◌, ◌≢◌, inl, inr,
  Bool, true, false, ◌&&◌, Option, none, some, List, [], ◌∷◌, ◌++◌, arith, ◌==◌, eq_iff,
}
use recommendation_trip_plat.Place.Management.Entities.{approved, partner_created}
use recommendation_trip_plat.Place.Reviews.{Review, ReviewEvent, ReviewWorld}
use recommendation_trip_plat.Place.Reviews.Laws.{
  marked, unmarked, ReviewWorldLaws, Request, forget, account, Concerns, published, Change,
  Change-trans, save-Change, soft_delete-Change, restore-Change, publish-Change, upsert, update_own,
  delete_own, delete_by_admin, restore_by_admin,
}
use recommendation_trip_plat.Place.Management.Storage.{PlaceRow}
use recommendation_trip_plat.Place.Reviews.Refinement.{handle-Settles}
use recommendation_trip_plat.Place.Reviews.Settling.{handle, Settles}
use recommendation_trip_plat.Place.Reviews.Unique.{AllUnique, handle-AllUnique}
use recommendation_trip_plat.Place.Reviews.Laws

record Memory : Type 0 where
  rows : List Review
  events : List ReviewEvent

abbrev find_in : String → List Review → Option Review
find_in id [] = none
find_in id (row ∷ rows) = if row.id == id then some row else find_in id rows

abbrev matches : String → String → Option Review → Bool
matches user_id place_id none = false
matches user_id place_id (some r) = (r.user_id == user_id) && (r.place_id == place_id)

-- The first review of the log that still is of the user and the place.
abbrev pick : String → String → List Review → List Review → Option Review
pick user_id place_id all [] = none
pick user_id place_id all (x ∷ xs) =
    if matches user_id place_id (find_in x.id all)
    then find_in x.id all
    else pick user_id place_id all xs

abbrev write_over : (Review → Review) → Option Review → Memory → Memory
write_over f none s = s
write_over f (some row) s = record s { rows = f row ∷ s.rows }

-- An approved place.
abbrev cafe : PlaceRow
cafe = record {
  id = "p1";
  name = "Cafe";
  description = none;
  address = "1 Le Loi";
  lat = "16.46";
  lng = "107.59";
  opening_hours = none;
  image_urls = none;
  thumbnail_url = none;
  status = approved;
  rejection_reason = none;
  average_rating = none;
  review_count = 0;
  google_place_id = none;
  tag_scores = none;
  destination_id = some "hue";
  data_source = partner_created;
  import_batch_id = none;
  deleted_reason = none;
  deleted_by_user_id = none;
  deleted_by_role = none;
  partner_id = "ann";
  category_id = "food";
  deleted_at = none;
}

abbrev memory : ReviewWorld Memory
memory = record {
  find_place = λ id s. if id == "p1" then some cafe else none;
  find_row = λ id s. find_in id s.rows;
  find_pair = λ user_id place_id s. pick user_id place_id s.rows s.rows;
  save_row = λ row s. record s { rows = row ∷ s.rows };
  soft_delete_row =
      λ now id s. write_over (λ row. record row { deleted_at = some now }) (find_in id s.rows) s;
  restore_row = λ id s. write_over (λ row. record row { deleted_at = none }) (find_in id s.rows) s;
  publish = λ e s. record s { events = s.events ++ e ∷ [] };
}

find_in-id :
    (id : String) (rows : List Review) (row : Review) → find_in id rows ≡ some row → row.id ≡ id
find_in-id id [] row h = cc
find_in-id id (x ∷ rows) row h = elim (Bool-cases (x.id == id)) [
  | inl e ↦
      let q : some x ≡ some row = rw e at h in
      let same : x ≡ row = cc in subst (λ (y : Review). y.id ≡ id) same ((eq_iff x.id id).0 e)
  | inr e ↦ find_in-id id rows row (rw e at h)
]

find_in-All :
    (P : Review → Type 0) (id : String) (rows : List Review) (row : Review)
    → All P rows
    → find_in id rows ≡ some row
    → P row
find_in-All P id [] row k h = cc
find_in-All P id (x ∷ rows) row (k, ks) h = elim (Bool-cases (x.id == id)) [
  | inl e ↦ let q : some x ≡ some row = rw e at h in let same : x ≡ row = cc in subst P same k
  | inr e ↦ find_in-All P id rows row ks (rw e at h)
]

written :
    (f : Review → Review) (mark : Option Review → Option Review)
    → mark none ≡ none
    → ((row : Review) → mark (some row) ≡ some (f row))
    → ((row : Review) → (f row).id ≡ row.id)
    → (i : String) (s : Memory) (id : String) (o : Option Review) → find_in i s.rows ≡ o
    → find_in id (write_over f o s).rows
      ≡ (if i == id then mark (find_in id s.rows) else find_in id s.rows)
written f mark mn ms fid i s id none h = elim (Bool-cases (i == id)) [
  | inl e ↦
      let there : find_in id s.rows ≡ none =
        ap (λ k. find_in k s.rows) (sym ((eq_iff i id).0 e)) ∙ h in
      rw e (rw there (sym mn))
  | inr e ↦ rw e
]
written f mark mn ms fid i s id (some row) h =
    let same : (f row).id ≡ i = fid row ∙ find_in-id i s.rows row h in
    elim (Bool-cases (i == id)) [
      | inl e ↦
          let there : find_in id s.rows ≡ some row =
            ap (λ k. find_in k s.rows) (sym ((eq_iff i id).0 e)) ∙ h in
          let hit : ((f row).id == id) ≡ true = ap (λ k. k == id) same ∙ e in
          rw hit (rw e (rw there (sym (ms row))))
      | inr e ↦ let miss : ((f row).id == id) ≡ false = ap (λ k. k == id) same ∙ e in rw miss (rw e)
    ]

write_over-events :
    (f : Review → Review) (o : Option Review) (s : Memory) → (write_over f o s).events ≡ s.events
write_over-events f none s = refl
write_over-events f (some row) s = refl

pick-found :
    (user_id place_id : String) (all xs : List Review) (r : Review)
    → pick user_id place_id all xs ≡ some r
    → (find_in r.id all ≡ some r) × (r.user_id ≡ user_id) × (r.place_id ≡ place_id)
pick-found user_id place_id all [] r h = cc
pick-found user_id place_id all (x ∷ xs) r h =
    elim (Bool-cases (matches user_id place_id (find_in x.id all))) [
      | inl e ↦
          let got : find_in x.id all ≡ some r = rw e at h in
          let m : matches user_id place_id (some r) ≡ true = rw got at e in
          (
            ap (λ i. find_in i all) (find_in-id x.id all r got) ∙ got,
            (eq_iff r.user_id user_id).0 (ground arith),
            (eq_iff r.place_id place_id).0 (ground arith),
          )
      | inr e ↦ pick-found user_id place_id all xs r (rw e at h)
    ]

pick-none :
    (user_id place_id : String) (all xs : List Review)
    → pick user_id place_id all xs ≡ none
    → All (λ (x : Review). matches user_id place_id (find_in x.id all) ≡ false) xs
pick-none user_id place_id all [] h = tt
pick-none user_id place_id all (x ∷ xs) h =
    elim (Bool-cases (matches user_id place_id (find_in x.id all))) [
      | inl e ↦
          let got : find_in x.id all ≡ none = rw e at h in
          let m : matches user_id place_id none ≡ true = rw got at e in cc
      | inr e ↦ (e, pick-none user_id place_id all xs (rw e at h))
    ]

pair_missing :
    (user_id place_id : String) (s : Memory)
    → pick user_id place_id s.rows s.rows ≡ none
    → (id : String) (r : Review) → find_in id s.rows ≡ some r
    → r.user_id ≡ user_id
    → r.place_id ≢ place_id
pair_missing user_id place_id s h id r e u p =
    let unmatched =
      find_in-All (λ (x : Review). matches user_id place_id (find_in x.id s.rows) ≡ false) id s.rows
        r (pick-none user_id place_id s.rows s.rows h) e in
    let here : find_in r.id s.rows ≡ some r =
      ap (λ i. find_in i s.rows) (find_in-id id s.rows r e) ∙ e in
    let not_it : matches user_id place_id (some r) ≡ false = rw here at unmatched in
    let user : (r.user_id == user_id) ≡ true = (eq_iff r.user_id user_id).1 u in
    let place : (r.place_id == place_id) ≡ true = (eq_iff r.place_id place_id).1 p in ground arith

abbrev memory_laws : ReviewWorldLaws memory
memory_laws = record {
  events = λ s. s.events;
  found_id = λ id s row h. find_in-id id s.rows row h;
  pair_found = λ user_id place_id s r h. pick-found user_id place_id s.rows s.rows r h;
  pair_missing = pair_missing;
  find_save = λ row s id. refl;
  find_soft_delete = λ now i s id.
      written (λ row. record row { deleted_at = some now }) (marked now) refl (λ row. refl)
        (λ row. refl) i s id (find_in i s.rows) refl;
  find_restore = λ i s id.
      written (λ row. record row { deleted_at = none }) unmarked refl (λ row. refl) (λ row. refl) i
        s id (find_in i s.rows) refl;
  find_publish = λ es s id. refl;
  events_save = λ row s. refl;
  events_soft_delete = λ now id s.
      write_over-events (λ row. record row { deleted_at = some now }) (find_in id s.rows) s;
  events_restore =
      λ id s. write_over-events (λ row. record row { deleted_at = none }) (find_in id s.rows) s;
  events_publish = λ e s. refl;
}

-- A review that its author has deleted.
abbrev gone : Review
gone = record {
  id = "r1";
  place_id = "p1";
  user_id = "ann";
  rating = 2;
  comment = none;
  image_urls = none;
  created_at = 10;
  updated_at = 20;
  deleted_at = some 30;
}

abbrev one_review : Memory
one_review = record { rows = gone ∷ []; events = [] }

abbrev again : Request
again = Laws.upsert "r2" "p1" "ann" (record { rating = 5; comment = none; image_urls = none })

handle-Settles_example :
    Settles memory memory_laws again one_review (handle memory again 40 one_review)
handle-Settles_example = handle-Settles memory memory_laws again 40 one_review refl

one_review-AllUnique : AllUnique memory memory_laws one_review
unfolding AllUnique
one_review-AllUnique i j a b ha hb u p = sym (only i a ha) ∙ only j b hb
  where
    only : (k : String) (x : Review) → find_in k (gone ∷ []) ≡ some x → "r1" ≡ k
    only k x h = elim (Bool-cases ("r1" == k)) [
      | inl e ↦ (eq_iff "r1" k).0 e
      | inr e ↦ let q : none ≡ some x = rw e at h in cc
    ]

handle-AllUnique_example : AllUnique memory memory_laws (after (handle memory again 40 one_review))
handle-AllUnique_example =
    handle-AllUnique memory memory_laws again 40 one_review refl one_review-AllUnique
