-- ===== src/Storage/Durable.antt =====
-- `store_event_with_durability` of naive_mode/hybrid_source_of_truth.py. The storage may have a Kafka
-- producer, as the code asks with `hasattr`, which is then the gateway's pool.
use Prim.Native.Char.{Char, code}
use streaming_lab.Prelude.{
  ℕ, ◌≡◌, refl, String, Bool, false, Option, none, some, List, [], ◌∷◌, ◌==◌, if◌then◌else◌,
  string_eq,
}
use streaming_lab.Dict.{lookup, insert}
use streaming_lab.Results.{Result, ok, raise}
use streaming_lab.Gateway.Value.{
  Value, field, no_fields, null, number, text, object, Event, fields_of, ◌<>◌,
}
use streaming_lab.Gateway.Producer.{Pool, SendOutcome, send_event}
use streaming_lab.Storage.Services.{other_error, Json, str, Redis, ClickHouse, Request, S3, Elastic}
use streaming_lab.Storage.Warm.{get_or}
use streaming_lab.Storage.Cold.{put_object}
use streaming_lab.Storage.Tiers.{Clock, Tiers}
use streaming_lab.Storage.Retention.{RetentionPolicy}

-- When a send begins, when it is answered, and how.
pub record Sending : Type 0 where
  pub begun : ℕ
  pub answered : ℕ
  pub outcome : SendOutcome

abbrev replaced : Char → Char
replaced c = if code c == 45 then "/" else c

-- `replace('-', '/')`
unfoldable pub slashed : String → String
slashed String.[] = String.[]
slashed (String.◌∷◌ c s) = String.◌∷◌ (replaced c) (slashed s)

module _ (json : Json) (redis : Redis json.Bytes) (clickhouse : ClickHouse) (s3 : S3 json.Bytes)
    (elastic : Elastic) where
  pub record HybridSourceOfTruth : Type 0 where
    pub storage : Tiers json redis clickhouse s3 elastic
    pub kafka_producer : Option Pool
    pub policy : RetentionPolicy

  pub record Durability : Type 0 where
    pub kafka : Bool
    pub cold_storage : Bool
    pub stream_processing : Bool

  -- `str(event.get('user_id', event.get('event_id')))`
  abbrev pub user_or_event : Event → Value
  user_or_event event = text (str json (get_or "user_id" (get_or "event_id" null event) event))

  unfoldable pub store_to_kafka : Sending → Event → Option Pool → Bool × Option Pool
  store_to_kafka sending event none = (false, none)
  store_to_kafka sending event (some pool) =
      let (success, pool') =
        send_event sending.begun sending.answered sending.outcome (user_or_event event) event
          pool in
      (success, some pool')

  unfoldable pub archive_event : Clock → RetentionPolicy → Event → Event
  archive_event clock policy event =
      insert "retention_policy"
        (object (
          field "tier" (text "cold")
            (field "retention_years" (number policy.cold_storage_years) no_fields)))
        (insert "archive_version" (text "1.0") (insert "archived_at" (text clock.isoformat) event))

  -- A partition that is no text, and an event without an id, raise.
  unfoldable pub object_key : Clock → Event → Option String
  object_key clock event = elim (get_or "date_partition" (text clock.today) event) [
    | null ↦ none
    | number n ↦ none
    | object f ↦ none
    | text date ↦ elim (lookup "event_id" event) [
      | none ↦ none
      | some id ↦
          some ("events/" <> slashed date <> "/" <> clock.hour <> "/" <> str json id <> ".json")
    ]
  ]

  unfoldable pub object_metadata : Clock → Event → List (String × Value)
  object_metadata clock event =
      ("event_type", get_or "event_type" (text "") event)
      ∷ ("date_partition", get_or "date_partition" (text clock.today) event)
      ∷ ("user_id", text (str json (get_or "user_id" (text "") event)))
      ∷ ("content_type", text "application/json")
      ∷ []

  -- `except Exception: return False`
  abbrev pub or_false : Result Bool → Bool
  or_false (ok b) = b
  or_false (raise x) = false

  abbrev pub archive :
      Option String → Option json.Bytes → List (String × Value) → s3.Store → Bool × s3.Store
  archive none bytes metadata c = (false, c)
  archive (some key) none metadata c = (false, c)
  archive (some key) (some bytes) metadata c =
      let (success, c') = put_object json s3 key bytes metadata c in (or_false success, c')

  unfoldable pub store_to_cold_storage :
      Clock → RetentionPolicy → Event → Option s3.Store → Bool × Option s3.Store
  store_to_cold_storage clock policy event none = (false, none)
  store_to_cold_storage clock policy event (some c) =
      let (success, c') =
        archive (object_key clock event)
          (json.dumps (object (fields_of (archive_event clock policy event))))
          (object_metadata clock event) c in
      (success, some c')

  unfoldable pub store_event_with_durability :
      Clock → Sending → Event → HybridSourceOfTruth → Durability × HybridSourceOfTruth
  store_event_with_durability clock sending event source =
      let (kafka_success, producer) = store_to_kafka sending event source.kafka_producer in
      let (cold_success, cold) =
        store_to_cold_storage clock source.policy event source.storage.cold in
      (
        record {
          kafka = kafka_success;
          cold_storage = cold_success;
          stream_processing = kafka_success;
        },
        record source {
          storage = record source.storage { cold = cold };
          kafka_producer = producer;
        },
      )

  archive-refused :
      (key : Option String) (bytes : Option json.Bytes) (metadata : List (String × Value))
      (c : s3.Store)
      → ((request : Request json.Bytes) (c : s3.Store) → s3.positional request c ≡ (other_error, c))
      → archive key bytes metadata c ≡ (false, c)
  unfolding put_object
  archive-refused none bytes metadata c refuses = refl
  archive-refused (some key) none metadata c refuses = refl
  archive-refused (some key) (some bytes) metadata c refuses = rw refuses refl

  store_to_cold_storage-refused :
      (clock : Clock) (policy : RetentionPolicy) (event : Event) (cold : Option s3.Store)
      → ((request : Request json.Bytes) (c : s3.Store) → s3.positional request c ≡ (other_error, c))
      → store_to_cold_storage clock policy event cold ≡ (false, cold)
  unfolding store_to_cold_storage
  store_to_cold_storage-refused clock policy event none refuses = refl
  store_to_cold_storage-refused clock policy event (some c) refuses =
      rw
        (archive-refused (object_key clock event)
          (json.dumps (object (fields_of (archive_event clock policy event))))
          (object_metadata clock event) c refuses)
        refl

  -- With an S3 client that takes no positional argument, an event of any form is not archived: what
  -- `store_event_with_durability` does and answers is what the send to Kafka does, which without a
  -- Kafka producer is nothing.
  pub durable_only_in_kafka :
      (clock : Clock) (sending : Sending) (event : Event) (source : HybridSourceOfTruth)
      → ((request : Request json.Bytes) (c : s3.Store) → s3.positional request c ≡ (other_error, c))
      → let (success, producer) = store_to_kafka sending event source.kafka_producer in
        let stored : Durability = record {
          kafka = success;
          cold_storage = false;
          stream_processing = success;
        } in
        store_event_with_durability clock sending event source
        ≡ (stored, record source { kafka_producer = producer })
  unfolding store_event_with_durability
  durable_only_in_kafka clock sending event source refuses =
      rw (store_to_cold_storage-refused clock source.policy event source.storage.cold refuses) refl
