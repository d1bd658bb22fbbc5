-- ===== src/Storage/Warm.antt =====
-- `WarmStorage`: the statements go to the first of the clients.
use streaming_lab.Prelude.{
  ℕ, String, Bool, true, false, Option, none, List, [], ◌∷◌, map, or_else, string_eq,
}
use streaming_lab.Dict.{lookup}
use streaming_lab.Gateway.Value.{Value, no_fields, null, text, object, Event}
use streaming_lab.Storage.Services.{
  Attempt, other_error, on_any, attempt_map, Json, Statement, query, insert_rows, ClickHouse,
}

abbrev pub columns : List String
columns =
    "event_id" ∷ "user_id" ∷ "session_id" ∷ "event_type" ∷ "event_name" ∷ "properties" ∷ "url"
    ∷ "country" ∷ "city" ∷ "timestamp" ∷ "date_partition" ∷ []

-- `event.get(key, default)`
abbrev pub get_or : String → Value → Event → Value
get_or key default event = or_else (lookup key event) default

module _ (json : Json) (clickhouse : ClickHouse) where
  -- The row of an event, where `now` and `today` stand for a time and a date that are missing.
  unfoldable pub row : Value → Value → Event → List Value
  row now today event =
      get_or "event_id" (text "") event
      ∷ get_or "user_id" null event
      ∷ get_or "session_id" (text "") event
      ∷ get_or "event_type" (text "") event
      ∷ get_or "event_name" (text "") event
      ∷ text (json.stringify (get_or "properties" (object no_fields) event))
      ∷ get_or "url" (text "") event
      ∷ get_or "country" (text "") event
      ∷ get_or "city" (text "") event
      ∷ get_or "timestamp" now event
      ∷ get_or "date_partition" today event
      ∷ []

  -- `self.clients[0].execute(...)`: without a client the index raises.
  abbrev pub execute_first :
      Statement → List clickhouse.Server → Attempt (List clickhouse.Answer) × List clickhouse.Server
  execute_first statement [] = (other_error, [])
  execute_first statement (server ∷ servers) =
      let (answer, server') = clickhouse.execute statement server in (answer, server' ∷ servers)

  unfoldable pub execute_query :
      String
      → List (String × Value)
      → List clickhouse.Server
      → List clickhouse.Answer × List clickhouse.Server
  execute_query q params clients =
      let (answer, clients') = execute_first (query q params) clients in
      (on_any [] answer, clients')

  unfoldable pub insert_events :
      Value → Value → List Event → List clickhouse.Server → Bool × List clickhouse.Server
  insert_events now today events clients =
      let (answer, clients') =
        execute_first (insert_rows "events" columns (map (row now today) events)) clients in
      (on_any false (attempt_map (λ rows. true) answer), clients')

  -- the methods of the interface that ClickHouse does not serve
  abbrev pub warm_get : String → Option Value
  warm_get key = none

  abbrev pub warm_put : String → Value → Bool
  warm_put key value = false

  abbrev pub warm_delete : String → Bool
  warm_delete key = false

  abbrev pub warm_batch_get : List String → List (String × Value)
  warm_batch_get keys = []

  abbrev pub warm_batch_put : List (String × Value) → ℕ
  warm_batch_put items = 0
