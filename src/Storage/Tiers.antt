-- ===== src/Storage/Tiers.antt =====
-- `MultiTierStorage`: a tier that is not configured is `none`. The clock gives a time in seconds and
-- its texts.
use streaming_lab.Prelude.{
  ℕ, String, Bool, true, false, Option, none, some, List, [], ◌∷◌, if◌then◌else◌, or_else,
  string_eq, str_eq,
}
use streaming_lab.Dict.{lookup}
use streaming_lab.Results.{Result, ok, raise}
use streaming_lab.Gateway.Value.{Value, null, number, text, object, Event, fields_of, ◌<>◌}
use streaming_lab.Storage.Services.{Json, str, Redis, ClickHouse, S3, Elastic}
use streaming_lab.Storage.Hot.{hot_get, hot_put, increment_counter}
use streaming_lab.Storage.Warm.{insert_events, execute_query}
use streaming_lab.Storage.Cold.{is_truthy}
use streaming_lab.Storage.Search.{index_events, search_index}

pub record Clock : Type 0 where
  pub now : ℕ
  pub isoformat : String
  -- `'%Y-%m-%d-%H-%M'`, `'%Y-%m-%d'`, `'%Y-%m'` and `'%H'`
  pub minute : String
  pub today : String
  pub month : String
  pub hour : String

module _ (json : Json) (redis : Redis json.Bytes) (clickhouse : ClickHouse) (s3 : S3 json.Bytes)
    (elastic : Elastic) where
  pub record Tiers : Type 0 where
    pub hot : Option redis.Cluster
    pub warm : Option (List clickhouse.Server)
    pub cold : Option s3.Store
    pub searched : Option elastic.Index

  -- `get` of the event, as Python's `None` where it is missing
  abbrev pub got : String → Event → Value
  got key event = or_else (lookup key event) null

  abbrev pub event_key : Event → String
  event_key event = "event:" <> str json (got "event_id" event)

  abbrev pub count_key : Clock → String
  count_key clock = "events:count:" <> clock.minute

  abbrev pub user_key : Clock → Event → String
  user_key clock event = "events:user:" <> str json (got "user_id" event) <> ":" <> clock.minute

  -- `if user_id: await increment_counter(...)`
  abbrev pub count_user :
      Clock → Event → Result ℕ × redis.Cluster → Result (Unit {0}) × redis.Cluster
  count_user clock event (raise x, c) = (raise x, c)
  count_user clock event (ok n, c) =
      if is_truthy (got "user_id" event)
      then (let (counted, c') =
            increment_counter json redis clock.now (user_key clock event) 1 (some 3600) c in
          (elim counted [ ok m ↦ ok tt | raise x ↦ raise x ], c'))
      else (ok tt, c)

  unfoldable pub store_hot :
      Clock → Event → Option redis.Cluster → Result (Unit {0}) × Option redis.Cluster
  store_hot clock event none = (ok tt, none)
  store_hot clock event (some c) =
      let (put, c1) =
        hot_put json redis clock.now (event_key event) (object (fields_of event)) (some 3600) c in
      let (counted, c2) =
        count_user clock event
          (increment_counter json redis clock.now (count_key clock) 1 (some 3600) c1) in
      (counted, some c2)

  unfoldable pub store_warm :
      Clock → Event → Option (List clickhouse.Server) → Option (List clickhouse.Server)
  store_warm clock event none = none
  store_warm clock event (some servers) =
      some
        (insert_events json clickhouse (text clock.isoformat) (text clock.today) (event ∷ [])
          servers).1

  abbrev pub answer_of {ℓ} : {A : Type ℓ} → Result A → Bool
  answer_of (ok a) = true
  answer_of (raise x) = false

  unfoldable pub store_search : Clock → Event → Option elastic.Index → Bool × Option elastic.Index
  store_search clock event none = (true, none)
  store_search clock event (some index) =
      let (count, index') = index_events elastic "events" clock.month (event ∷ []) index in
      (answer_of count, some index')

  -- what follows the hot tier, where that has not raised
  abbrev pub after_hot :
      Clock → Event → Tiers → Result (Unit {0}) × Option redis.Cluster → Bool × Tiers
  after_hot clock event tiers (raise x, hot) = (false, record tiers { hot = hot })
  after_hot clock event tiers (ok u, hot) =
      let (stored, searched) = store_search clock event tiers.searched in
      (
        stored,
        record tiers { hot = hot; warm = store_warm clock event tiers.warm; searched = searched },
      )

  unfoldable pub store_event : Clock → Event → Tiers → Bool × Tiers
  store_event clock event tiers = after_hot clock event tiers (store_hot clock event tiers.hot)

  pub record Realtime : Type 0 where
    pub time_window : String
    pub events_count : Value
    pub timestamp : String

  -- `count or 0`
  abbrev or_number : Option Value → Value
  or_number none = number 0
  or_number (some v) = if is_truthy v then v else number 0

  abbrev read_window :
      Clock → String → Option redis.Cluster → Option Realtime × Option redis.Cluster
  read_window clock window none = (none, none)
  read_window clock window (some c) =
      let (count, c') = hot_get json redis clock.now (count_key clock) c in
      (
        some (record {
          time_window = window;
          events_count = or_number count;
          timestamp = clock.isoformat;
        }),
        some c',
      )

  -- `none` is the empty dictionary: no hot tier, or another window than a minute.
  unfoldable pub get_realtime_metrics : Clock → String → Tiers → Option Realtime × Tiers
  get_realtime_metrics clock window tiers =
      let (metrics, hot) = read_window clock window tiers.hot in
      if str_eq window "1m" then (metrics, record tiers { hot = hot }) else (none, tiers)

  abbrev query_warm :
      String
      → List (String × Value)
      → Option (List clickhouse.Server)
      → List clickhouse.Answer × Option (List clickhouse.Server)
  query_warm q params none = ([], none)
  query_warm q params (some servers) =
      let (rows, servers') = execute_query json clickhouse q params servers in (rows, some servers')

  unfoldable pub query_analytics :
      String → List (String × Value) → Tiers → List clickhouse.Answer × Tiers
  query_analytics q params tiers =
      let (rows, warm) = query_warm q params tiers.warm in (rows, record tiers { warm = warm })

  abbrev search_tier :
      Value → Option elastic.Index → Result (Option elastic.Found) × Option elastic.Index
  search_tier search_query none = (ok none, none)
  search_tier search_query (some index) =
      let (found, index') = search_index elastic "events" search_query index in (found, some index')

  unfoldable pub search_events : Value → Tiers → Result (Option elastic.Found) × Tiers
  search_events search_query tiers =
      let (found, searched) = search_tier search_query tiers.searched in
      (found, record tiers { searched = searched })
