-- ===== src/Storage/Ingested.antt =====
-- The gateway and the storage together: what becomes of an event that the API has accepted.
use streaming_lab.Prelude.{
  ℕ, ◌+◌, ◌<◌, ◌≡◌, ◌⊎◌, inl, inr, String, true, Option, some, List, [], ◌∷◌, string_eq,
}
use streaming_lab.Dict.{lookup}
use streaming_lab.Gateway.Value.{text, object, Event, fields_of, ◌<>◌}
use streaming_lab.Gateway.Producer.{Pool, SendOutcome, begin_send}
use streaming_lab.Gateway.Api.{EventCreate, Moment, enriched_event, key_of, ingest_single}
use streaming_lab.Gateway.Ingest.{Reached, ingest_single_once}
use streaming_lab.Storage.Services.{done, Json, Redis, ClickHouse, S3, Elastic}
use streaming_lab.Storage.Hot.{hot_get, hot_put}
use streaming_lab.Storage.Tiers.{Clock, Tiers, store_event}
use streaming_lab.Storage.Stored.{store_event-hot_get}

module _ (json : Json) (redis : Redis json.Bytes) (clickhouse : ClickHouse) (s3 : S3 json.Bytes)
    (elastic : Elastic) where
  -- the background tasks of a request, one after the other: `storage.store_event(event)` for each
  unfoldable pub run_tasks :
      Clock
      → List Event
      → Tiers json redis clickhouse s3 elastic
      → Tiers json redis clickhouse s3 elastic
  run_tasks clock [] tiers = tiers
  run_tasks clock (event ∷ events) tiers =
      run_tasks clock events (store_event json redis clickhouse s3 elastic clock event tiers).1

  -- An event that the API accepts is acknowledged by Kafka, and then no background task stores it too,
  -- or it is not acknowledged, and then, once the background tasks of its request have run on a hot
  -- tier that acknowledges it, it can be read back: under its id, as it was enriched, by any read that
  -- Redis answers within the hour.
  pub ingested_is_kept :
      (event_id : String) (at : Moment) (now later : ℕ) (outcome : SendOutcome)
      (event : EventCreate) (pool : Pool) (clock : Clock)
      (tiers : Tiers json redis clickhouse s3 elastic) (c c' : redis.Cluster) (t : ℕ)
      (o : Option json.Bytes)
      → let enriched = enriched_event event_id at event in
        let value = object (fields_of enriched) in
        let key = "event:" <> event_id in
        let accepted = ingest_single event_id at now later outcome event pool in
        tiers.hot ≡ some c
        → (hot_put json redis clock.now key value (some 3600) c).0 ≡ true
        → (run_tasks clock accepted.tasks tiers).hot ≡ some c'
        → t < clock.now + 3600
        → (redis.get t key c').0 ≡ done o
        → (Reached (begin_send now (key_of event.user_id (text event_id)) enriched pool) outcome
            × (accepted.tasks ≡ []))
          ⊎ ((¬ Reached
                (begin_send now (key_of event.user_id (text event_id)) enriched pool)
                outcome)
              × ((hot_get json redis t key c').0 ≡ some value))
  unfolding run_tasks enriched_event lookup
  ingested_is_kept event_id at now later outcome event pool clock tiers c c' t o configured stored
        after alive answered =
      elim (ingest_single_once event_id at now later outcome event pool) [
        | inl (reached, no_task) ↦ inl (reached, no_task)
        | inr (failed, one_task) ↦ inr (
          failed,
          store_event-hot_get json redis clickhouse s3 elastic clock
              (enriched_event event_id at event) tiers c c' t o configured stored
              (rw one_task at after) alive answered,
        )
      ]
