-- ===== src/Place/Relay/Stuck.antt =====
-- What becomes of the rows of the outbox where the result of the claim is a pair.
use recommendation_trip_plat.Place.Relay.{
  max_publish_attempts, claim_rows, revert_to_pending, mark_publish_failure, settle_row,
  publish_rows, claim_batch, reset_stale_processing, Broker, Query, tick, update_where,
}
use recommendation_trip_plat.Base.{
  if◌then◌else◌, some, String, ◌+◌, leb, any, inr, ap, inl, Bool-cases, false, ◌∙◌, ◌⊎◌, List, [],
  ◌∷◌, ◌≡◌, refl, ℕ,
}
use recommendation_trip_plat.Place.Management.Storage.{
  OutboxRow, pending, processing, published, failed,
}
use recommendation_trip_plat.Place.Relay.Claim.{claim_rows-first, take_pending}
use recommendation_trip_plat.Place.Relay.Driver.{GivesPair}

-- Ticks one after another, each at its time and with what the broker does then.
abbrev pub ticks : Query → ℕ → List (ℕ × Broker) → List OutboxRow → List OutboxRow
ticks query batch [] table = table
ticks query batch ((now, broker) ∷ rest) table =
    ticks query batch rest (tick query now batch broker table)

-- A relation between the rows of two tables, row by row.
abbrev pub Along : (OutboxRow → OutboxRow → Type 0) → List OutboxRow → List OutboxRow → Type 0
Along R [] [] = Unit
Along R (x ∷ xs) (y ∷ ys) = R x y × Along R xs ys
Along R [] (y ∷ ys) = ⊥
Along R (x ∷ xs) [] = ⊥

-- A row that is waiting, as pending or in processing.
abbrev pub IsWaiting : OutboxRow → Type 0
IsWaiting row = (row.status ≡ pending) ⊎ (row.status ≡ processing)

-- A row before and after: nothing but the status and the last error has changed, no attempt is
-- counted, a published or failed row is as it was, and a row that was waiting still waits.
abbrev pub Stays : OutboxRow → OutboxRow → Type 0
Stays a b =
    (b.id ≡ a.id)
    × (b.event_id ≡ a.event_id)
    × (b.created_at ≡ a.created_at)
    × (b.routing_key ≡ a.routing_key)
    × (b.payload ≡ a.payload)
    × (b.published_at ≡ a.published_at)
    × (b.attempt_count ≡ a.attempt_count)
    × ((a.status ≡ published) ⊎ (a.status ≡ failed) → b ≡ a)
    × (IsWaiting a → IsWaiting b)

update_nowhere :
    (f : OutboxRow → OutboxRow) (rows : List OutboxRow) → update_where (λ row. false) f rows ≡ rows
update_nowhere f [] = refl
update_nowhere f (row ∷ rows) = ap (λ xs. row ∷ xs) (update_nowhere f rows)

-- A row after a publication that failed with a message.
abbrev refused : String → OutboxRow → OutboxRow
refused message row = record row {
  attempt_count = row.attempt_count + 1;
  status = if leb max_publish_attempts (row.attempt_count + 1) then failed else pending;
  last_error = some message;
}

-- Where the result is the pair, a tick resets and claims, and does nothing more.
pub tick_claims :
    (query : Query) (now batch : ℕ) (broker : Broker) (table : List OutboxRow)
    → GivesPair query
    → tick query now batch broker table ≡ take_pending batch (reset_stale_processing now table)
unfolding tick claim_batch publish_rows settle_row mark_publish_failure revert_to_pending any
tick_claims query now batch broker table pair =
    let fresh = reset_stale_processing now table in
    let rest = (claim_rows batch fresh).1 in
    rw (pair (claim_rows batch fresh).0) (elim (Bool-cases broker.has_channel) [
      | inl c ↦ rw c (
          ap (update_where (λ row. false) (refused broker.no_body))
            (update_nowhere (refused broker.no_body) rest)
          ∙ (update_nowhere (refused broker.no_body) rest ∙ (claim_rows-first batch fresh).1))
      | inr c ↦ rw c (
          update_nowhere
            (λ row. record row { status = pending; last_error = some "broker_unavailable" }) rest
          ∙ (claim_rows-first batch fresh).1)
    ])
