-- ===== src/Gateway/Api.antt =====
-- `ingest_single_event` and `ingest_batch_events` of gateway/events_api_original.py. The ids that
-- `uuid` gives, the time and its texts are inputs, and so is what the sends come to. A task that is
-- added to the background tasks is an event that will be stored directly.
use streaming_lab.Prelude.{
  ℕ, zero, suc, ◌+◌, ◌-◌, String, Bool, true, false, Option, none, some, List, [], ◌∷◌, length,
  drop, ltb, str_eq, if◌then◌else◌, string_eq,
}
use streaming_lab.Dict.{lookup}
use streaming_lab.Gateway.Value.{
  Value, Fields, null, number, text, numbered, numbered_pair, object, Event,
}
use streaming_lab.Gateway.Producer.{Pool, SendOutcome, ItemResult, send_event, send_batch}

-- `EventCreate`
pub record EventCreate : Type 0 where
  pub user_id : Option ℕ
  pub session_id : Option String
  pub event_type : String
  pub event_name : Option String
  pub properties : Fields
  pub url : Option String
  pub referrer : Option String
  pub user_agent : Option String
  pub ip_address : Option String
  pub country : Option String
  pub city : Option String

-- the clock: `timestamp.isoformat()`, its date, and its whole seconds
pub record Moment : Type 0 where
  pub isoformat : String
  pub date_partition : String
  pub seconds : ℕ

abbrev pub optional : Option String → Value
optional none = null
optional (some s) = text s

abbrev pub optional_number : Option ℕ → Value
optional_number none = null
optional_number (some n) = number n

-- `s or d`: an empty text counts as none.
abbrev pub text_or : Option String → Value → Value
text_or none d = d
text_or (some s) d = if str_eq s "" then d else text s

-- `str(e['user_id']) if e['user_id'] else e['event_id']`: the number 0 counts as none.
abbrev pub key_of : Option ℕ → Value → Value
key_of none id = id
key_of (some zero) id = id
key_of (some (suc n)) id = numbered "" (suc n)

unfoldable pub enriched_event : String → Moment → EventCreate → Event
enriched_event event_id at event =
    ("event_id", text event_id)
    ∷ ("user_id", optional_number event.user_id)
    ∷ ("session_id", text_or event.session_id (numbered "session_" at.seconds))
    ∷ ("event_type", text event.event_type)
    ∷ ("event_name", text_or event.event_name (text event.event_type))
    ∷ ("properties", object event.properties)
    ∷ ("url", optional event.url)
    ∷ ("referrer", optional event.referrer)
    ∷ ("user_agent", optional event.user_agent)
    ∷ ("ip_address", optional event.ip_address)
    ∷ ("country", optional event.country)
    ∷ ("city", optional event.city)
    ∷ ("timestamp", text at.isoformat)
    ∷ ("date_partition", text at.date_partition)
    ∷ ("ingestion_timestamp", text at.isoformat)
    ∷ ("source", text "api")
    ∷ []

pub record Accepted : Type 0 where
  pub event_id : String
  -- what the handler left to be stored directly
  pub tasks : List Event
  pub pool : Pool

-- `ingest_single_event`, at `now` with the send answered at `later`
unfoldable pub ingest_single : String → Moment → ℕ → ℕ → SendOutcome → EventCreate → Pool → Accepted
ingest_single event_id at now later outcome event pool =
    let enriched = enriched_event event_id at event in
    let (kafka_success, pool') =
      send_event now later outcome (key_of event.user_id (text event_id)) enriched pool in
    record {
      event_id = event_id;
      tasks = if kafka_success then [] else enriched ∷ [];
      pool = pool';
    }

unfoldable pub enriched_batch_event : Value → Moment → ℕ → String → EventCreate → Event
enriched_batch_event batch_id at i event_id event =
    ("event_id", text event_id)
    ∷ ("batch_id", batch_id)
    ∷ ("batch_index", number i)
    ∷ ("user_id", optional_number event.user_id)
    ∷ (
      "session_id",
      text_or event.session_id
          (numbered_pair "session_" at.seconds (optional_number event.user_id)),
    )
    ∷ ("event_type", text event.event_type)
    ∷ ("event_name", text_or event.event_name (text event.event_type))
    ∷ ("properties", object event.properties)
    ∷ ("url", optional event.url)
    ∷ ("referrer", optional event.referrer)
    ∷ ("user_agent", optional event.user_agent)
    ∷ ("ip_address", optional event.ip_address)
    ∷ ("country", optional event.country)
    ∷ ("city", optional event.city)
    ∷ ("timestamp", text at.isoformat)
    ∷ ("date_partition", text at.date_partition)
    ∷ ("ingestion_timestamp", text at.isoformat)
    ∷ ("source", text "batch_api")
    ∷ []

-- `for i, event in enumerate(batch.events)`; `ids` are what `uuid` gives, one after the other
unfoldable pub enrich_all : Value → Moment → (ℕ → String) → ℕ → List EventCreate → List Event
enrich_all batch_id at ids i [] = []
enrich_all batch_id at ids i (event ∷ events) =
    enriched_batch_event batch_id at i (ids i) event ∷ enrich_all batch_id at ids (i + 1) events

abbrev pub value_or_null : Option Value → Value
value_or_null none = null
value_or_null (some v) = v

-- the key extractor of the batch
abbrev pub is_truthy_number : Value → Bool
is_truthy_number (number zero) = false
is_truthy_number (number (suc n)) = true
is_truthy_number v = false

abbrev pub str_of : Value → Value
str_of (number n) = numbered "" n
str_of v = v

unfoldable pub batch_key : Event → Value
batch_key e =
    let user_id = value_or_null (lookup "user_id" e) in
    if is_truthy_number user_id then str_of user_id else value_or_null (lookup "event_id" e)

pub record BatchAccepted : Type 0 where
  pub batch_id : Value
  pub processed_count : ℕ
  pub failed_count : ℕ
  pub tasks : List Event
  -- what was handed to the Kafka client
  pub messages : List (Value × Event)
  pub pool : Pool

-- `ingest_batch_events`: `failed_count` is not negative, since no more sends succeed than there are
-- results, one for each event.
unfoldable pub ingest_batch :
    Option String
    → String
    → Moment
    → (ℕ → String)
    → ℕ
    → List EventCreate
    → List ItemResult
    → Pool
    → BatchAccepted
ingest_batch batch_id fresh_id at ids now events results pool =
    let id = text_or batch_id (text fresh_id) in
    let enriched = enrich_all id at ids 0 events in
    let sent = send_batch now batch_key enriched results pool in
    let failed_count = length enriched - sent.successful_sends in
    record {
      batch_id = id;
      processed_count = sent.successful_sends;
      failed_count = failed_count;
      tasks = if ltb 0 failed_count then drop sent.successful_sends enriched else [];
      messages = sent.messages;
      pool = sent.pool;
    }
