-- ===== src/Place/Relay/Driver.antt =====
-- What TypeORM gives for an UPDATE on PostgreSQL: the pair of the rows and their number. Neither of
-- the two has an identifier, a routing key or a payload.
use recommendation_trip_plat.Base.{List, [], ◌∷◌, none, ◌≡◌}
use recommendation_trip_plat.Place.Management.Storage.{OutboxRow}
use recommendation_trip_plat.Place.Relay.{ClaimedOutboxRow, Query}

abbrev pub no_row : ClaimedOutboxRow
no_row = record { id = none; routing_key = none; payload = none }

-- `[rows, count]`, whatever the rows are.
abbrev pub GivesPair : Query → Type 0
GivesPair query = (rows : List OutboxRow) → query rows ≡ no_row ∷ no_row ∷ []
