-- ===== src/Storage/Search.antt =====
-- `SearchStorage`: events are put into the index of a month, and counted by the status of each.
use streaming_lab.Prelude.{
  ℕ, ◌+◌, String, ◌||◌, Option, none, some, List, [], ◌∷◌, map, ◌==◌, if◌then◌else◌, or_else,
  string_eq, str_eq,
}
use streaming_lab.Dict.{lookup}
use streaming_lab.Results.{Result}
use streaming_lab.Gateway.Value.{Value, null, object, Event, fields_of, ◌<>◌}
use streaming_lab.Storage.Services.{on_service, attempt_map, Elastic}

-- `index_suffix or datetime.utcnow().strftime('%Y-%m')`
abbrev pub index_name : String → Option String → String → String
index_name prefix none month = prefix <> "-" <> month
index_name prefix (some s) month = prefix <> "-" <> (if str_eq s "" then month else s)

-- The item of an event: its id, and what is to be indexed.
unfoldable pub operation : Event → Value × Value
operation e = (or_else (lookup "event_id" e) null, object (fields_of e))

-- `'index' in item and item['index'].get('status') in [200, 201]`
unfoldable pub indexed : List (Option ℕ) → ℕ
indexed [] = 0
indexed (none ∷ items) = indexed items
indexed (some status ∷ items) =
    let rest = indexed items in if status == 200 || status == 201 then rest + 1 else rest

module _ (elastic : Elastic) where
  unfoldable pub index_events :
      String → String → List Event → elastic.Index → Result ℕ × elastic.Index
  index_events prefix month events c =
      let (answer, c') = elastic.bulk (index_name prefix none month) (map operation events) c in
      (on_service 0 (attempt_map indexed answer), c')

  -- `index_pattern or f"{prefix}-*"`; `none` is the empty answer
  unfoldable pub search_index :
      String → Value → elastic.Index → Result (Option elastic.Found) × elastic.Index
  search_index prefix search_query c =
      let (answer, c') = elastic.search (prefix <> "-*") search_query c in
      (on_service none (attempt_map some answer), c')
