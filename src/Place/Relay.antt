-- ===== src/Place/Relay.antt =====
-- modules/place/messaging/place-ml-outbox-relay.service.ts: the relay that publishes the rows of the
-- outbox to the broker. The table is a list of its rows in the order of their creation, and each
-- SQL statement is a change of that list. What the broker answers is an argument, and so is what
-- `dataSource.query` gives for the rows that an UPDATE returns: the code takes it for a list of rows
-- without a check, so an element of it may lack what the code reads of a row.
pub mod Claim
pub mod Driver
pub mod Stuck
mod Tests
use recommendation_trip_plat.Base.{
  ltb, leb, if◌then◌else◌, any, ℕ, ◌+◌, ◌-◌, ◌*◌, String, Bool, true, false, ◌&&◌, none, some,
  Option, List, [], ◌∷◌, map, ◌==◌,
}
use recommendation_trip_plat.Place.Management.Storage.{
  ProjectionPayload, OutboxStatus, OutboxRow, pending, processing, published, failed,
}

abbrev pub max_publish_attempts : ℕ
max_publish_attempts = 15

abbrev pub stuck_processing_minutes : ℕ
stuck_processing_minutes = 15

abbrev pub is_status : OutboxStatus → OutboxStatus → Bool
is_status pending pending = true
is_status processing processing = true
is_status published published = true
is_status failed failed = true
is_status _ _ = false

-- `UPDATE ... SET f WHERE p`
abbrev pub update_where :
    (OutboxRow → Bool) → (OutboxRow → OutboxRow) → List OutboxRow → List OutboxRow
update_where p f rows = map (λ row. if p row then f row else row) rows

-- `"createdAt" < NOW() - minutes`, in milliseconds
abbrev pub is_stale : ℕ → OutboxRow → Bool
is_stale now row =
    is_status row.status processing && ltb (row.created_at + stuck_processing_minutes * 60000) now

unfoldable pub reset_stale_processing : ℕ → List OutboxRow → List OutboxRow
reset_stale_processing now =
    update_where (is_stale now)
      λ row. record row { status = pending; last_error = some "stale_processing_reset" }

-- The rows that the statement of `claimBatch` returns, as they then are, and the table after it: the
-- first `limit` that are pending.
unfoldable pub claim_rows : ℕ → List OutboxRow → List OutboxRow × List OutboxRow
claim_rows limit [] = ([], [])
claim_rows limit (row ∷ rows) =
    let claims = is_status row.status pending && ltb 0 limit in
    let (claimed, rest) = claim_rows (if claims then limit - 1 else limit) rows in
    let taken : OutboxRow = record row { status = processing } in
    if claims then (taken ∷ claimed, taken ∷ rest) else (claimed, row ∷ rest)

-- What the code reads of an element of the result; none stands for undefined.
pub record ClaimedOutboxRow : Type 0 where
  pub id : Option String
  pub routing_key : Option String
  pub payload : Option ProjectionPayload

-- What `dataSource.query` gives for an UPDATE that returns these rows.
abbrev pub Query : Type 0
Query = List OutboxRow → List ClaimedOutboxRow

-- `raw as ClaimedOutboxRow[]`, and the table after the claim.
unfoldable pub claim_batch : Query → ℕ → List OutboxRow → List ClaimedOutboxRow × List OutboxRow
unfolding claim_rows
claim_batch query limit table =
    let (claimed, rest) = claim_rows limit table in (query claimed, rest)

-- `"id" = $1`: a parameter that is undefined is sent as NULL, which equals nothing.
abbrev pub has_id : Option String → OutboxRow → Bool
has_id none row = false
has_id (some id) row = row.id == id

unfoldable pub mark_published : ℕ → Option String → List OutboxRow → List OutboxRow
mark_published now id =
    update_where (has_id id)
      λ row. record row { status = published; published_at = some now; last_error = none }

unfoldable pub mark_publish_failure : Option String → String → List OutboxRow → List OutboxRow
mark_publish_failure id error_message = update_where (has_id id) λ row. record row {
  attempt_count = row.attempt_count + 1;
  status = if leb max_publish_attempts (row.attempt_count + 1) then failed else pending;
  last_error = some error_message;
}

unfoldable pub revert_to_pending : List (Option String) → List OutboxRow → List OutboxRow
revert_to_pending ids =
    update_where (λ row. any (λ id. has_id id row) ids && is_status row.status processing)
      λ row. record row { status = pending; last_error = some "broker_unavailable" }

-- What comes of a call of `channel.publish`: it returns, or throws a message.
pub data Publication : Type 0 where
  returned : Bool → Publication
  thrown : String → Publication

-- What the broker does during a tick: whether there is a channel, and the answer for each row.
pub record Broker : Type 0 where
  pub has_channel : Bool
  pub answer : ClaimedOutboxRow → Publication
  -- The message of the error that `Buffer.from(undefined)` throws.
  pub no_body : String

unfoldable pub settle_row : ℕ → Option String → Publication → List OutboxRow → List OutboxRow
unfolding mark_published mark_publish_failure
settle_row now id (returned true) = mark_published now id
settle_row now id (returned false) = mark_publish_failure id "channel_write_buffer_full_retry"
settle_row now id (thrown message) = mark_publish_failure id message

-- A row without a payload has no body: `JSON.stringify(undefined)` is undefined.
abbrev pub publish : Broker → ClaimedOutboxRow → Option ProjectionPayload → Publication
publish broker row none = thrown broker.no_body
publish broker row (some payload) = broker.answer row

unfoldable pub publish_rows : ℕ → Broker → List ClaimedOutboxRow → List OutboxRow → List OutboxRow
unfolding settle_row
publish_rows now broker [] table = table
publish_rows now broker (row ∷ claimed) table =
    publish_rows now broker claimed (settle_row now row.id (publish broker row row.payload) table)

-- `claimed.length === 0`
abbrev pub none_claimed : List ClaimedOutboxRow → Bool
none_claimed [] = true
none_claimed (row ∷ claimed) = false

-- The table after a tick, at the time `now`, with the size of the batch.
unfoldable pub tick : Query → ℕ → ℕ → Broker → List OutboxRow → List OutboxRow
unfolding reset_stale_processing claim_batch revert_to_pending publish_rows
tick query now batch broker table =
    let (claimed, rest) = claim_batch query batch (reset_stale_processing now table) in
    let settled =
      if broker.has_channel
      then publish_rows now broker claimed rest
      else revert_to_pending (map (λ row. row.id) claimed) rest in
    if none_claimed claimed then rest else settled
