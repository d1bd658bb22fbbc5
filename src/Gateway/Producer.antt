-- ===== src/Gateway/Producer.antt =====
-- `AsyncKafkaProducerPool` of gateway/async_kafka_producer.py. The Kafka clients are not code of this
-- repository: a client is the number it was started under, and what a send comes to is an input.
-- Times are in milliseconds. A send is two steps, since other calls run while it waits for the
-- broker: `begin_send` up to the wait, and `complete_send` from there. The topic, and the partition and
-- the timestamp that a caller may give, are only passed on.
use streaming_lab.Prelude.{
  ℕ, zero, suc, ◌+◌, ◌/◌, ◌%◌, String, Bool, true, false, Option, none, some, List, [], ◌∷◌, ◌++◌,
  map, length, get_elem?, ltb, leb, ◌==◌, if◌then◌else◌, string_eq,
}
use streaming_lab.Dict.{insert}
use streaming_lab.Results.{Result, ok, raise, zero_division}
use streaming_lab.Gateway.Value.{Value, number, numbered, Event}

-- An entry of the batch queue.
pub record Item : Type 0 where
  pub topic : String
  pub event : Event
  pub timestamp : ℕ

pub record Pool : Type 0 where
  pub pool_size : ℕ
  pub batch_size : ℕ
  pub linger_ms : ℕ
  pub producers : List ℕ
  pub producer_index : ℕ
  pub batch_queue : List Item
  pub worker_running : Bool
  pub failure_count : ℕ
  pub failure_threshold : ℕ
  pub circuit_open : Bool
  pub last_failure_time : ℕ
  pub circuit_timeout : ℕ

abbrev pub queue_max : ℕ
queue_max = 10000

-- `__init__`
unfoldable pub created : ℕ → ℕ → ℕ → Pool
created pool_size batch_size linger_ms = record {
  pool_size = pool_size;
  batch_size = batch_size;
  linger_ms = linger_ms;
  producers = [];
  producer_index = 0;
  batch_queue = [];
  worker_running = false;
  failure_count = 0;
  failure_threshold = 10;
  circuit_open = false;
  last_failure_time = 0;
  circuit_timeout = 60000;
}

unfoldable pub stop : Pool → Pool
stop pool = record pool { producers = []; worker_running = false }

-- `for i in range(pool_size)`: `left` clients are still to be started, from number `i` on. The
-- second component tells whether `start` has returned and not raised.
unfoldable pub start_producers : (ℕ → Bool) → ℕ → ℕ → Pool → Pool × Bool
start_producers starts i zero pool = (record pool { worker_running = true }, true)
start_producers starts i (suc left) pool =
    let rest =
      start_producers starts (i + 1) left (record pool { producers = pool.producers ++ i ∷ [] }) in
    if starts i then rest else (stop pool, false)

-- `start`, where `starts` tells which clients come up
unfoldable pub start_pool : (ℕ → Bool) → Pool → Pool × Bool
start_pool starts pool = start_producers starts 0 pool.pool_size pool

unfoldable pub is_circuit_open : ℕ → Pool → Bool × Pool
is_circuit_open now pool =
    if pool.circuit_open
    then (if ltb (pool.last_failure_time + pool.circuit_timeout) now
        then (false, record pool { circuit_open = false; failure_count = 0 })
        else (true, pool))
    else (false, pool)

unfoldable pub handle_kafka_error : ℕ → Pool → Pool
handle_kafka_error now pool =
    let count = pool.failure_count + 1 in
    record pool {
      failure_count = count;
      last_failure_time = now;
      circuit_open = if leb pool.failure_threshold count then true else pool.circuit_open;
    }

-- `_get_producer`: the remainder by the length of an empty pool raises.
unfoldable pub get_producer : Pool → Result (ℕ × Pool)
get_producer pool = elim (get_elem? pool.producers (pool.producer_index % length pool.producers)) [
  | none ↦ raise zero_division
  | some p ↦ ok (p, record pool { producer_index = pool.producer_index + 1 })
]

-- A send that was refused by the circuit breaker, that raised before it reached a client, or that
-- waits for the broker.
pub data Begun : Type 0 where
  refused : Begun
  broken : Begun
  sending : ℕ → Value → Event → Begun

unfoldable pub enriched_single : ℕ → Event → Pool → Event
enriched_single now event pool =
    insert "producer_id" (numbered "producer_" (pool.producer_index % pool.pool_size))
      (insert "producer_timestamp" (number now) event)

abbrev pub taken : Value → Event → Pool → Result (ℕ × Pool) → Begun × Pool
taken key event pool (raise x) = (broken, pool)
taken key event pool (ok (p, pool')) = (sending p key event, pool')

-- the body of `send_event` before it waits, once the circuit breaker lets it through
unfoldable pub take_producer : ℕ → Value → Event → Pool → Begun × Pool
take_producer now key event pool =
    if pool.pool_size == 0
    then (broken, pool)
    else taken key (enriched_single now event pool) pool (get_producer pool)

unfoldable pub begin_send : ℕ → Value → Event → Pool → Begun × Pool
begin_send now key event pool =
    let (blocked, pool') = is_circuit_open now pool in
    if blocked then (refused, pool') else take_producer now key event pool'

pub data SendOutcome : Type 0 where
  acked : SendOutcome
  kafka_error : SendOutcome
  other_error : SendOutcome

unfoldable pub complete_send : ℕ → SendOutcome → Pool → Bool × Pool
complete_send now acked pool = (true, record pool { failure_count = 0; circuit_open = false })
complete_send now kafka_error pool = (false, handle_kafka_error now pool)
complete_send now other_error pool = (false, pool)

abbrev pub finish : ℕ → SendOutcome → Begun × Pool → Bool × Pool
finish later outcome (refused, pool) = (false, pool)
finish later outcome (broken, pool) = (false, pool)
finish later outcome (sending p key event, pool) = complete_send later outcome pool

-- `send_event`, begun at `now` and answered at `later`, where no other call runs between
unfoldable pub send_event : ℕ → ℕ → SendOutcome → Value → Event → Pool → Bool × Pool
send_event now later outcome key event pool = finish later outcome (begin_send now key event pool)

-- What `asyncio.gather` gives for one event of a batch: a future, which is what awaiting the `send` of
-- aiokafka gives, or an exception. A client that answered with the metadata of the record would give
-- the first.
pub data ItemResult : Type 0 where
  metadata : ItemResult
  future : ItemResult
  item_error : ItemResult

-- The count of the successful sends. A future has no topic, so that `result.topic` raises, which ends
-- the batch.
unfoldable pub count_results : ℕ → List ItemResult → Option ℕ
count_results n [] = some n
count_results n (metadata ∷ results) = count_results (n + 1) results
count_results n (future ∷ results) = none
count_results n (item_error ∷ results) = count_results n results

unfoldable pub enriched_in_batch : ℕ → Event → Event
enriched_in_batch now event =
    insert "batch_id" (numbered "batch_" (now / 1000))
      (insert "producer_timestamp" (number now) event)

-- The messages of a batch, each with its key.
unfoldable pub batch_messages : ℕ → (Event → Value) → List Event → List (Value × Event)
batch_messages now key_extractor = map (λ e. (key_extractor e, enriched_in_batch now e))

pub record BatchSent : Type 0 where
  pub successful_sends : ℕ
  pub messages : List (Value × Event)
  pub pool : Pool

abbrev pub or_zero_sends : Option ℕ → ℕ
or_zero_sends none = 0
or_zero_sends (some n) = n

abbrev pub batch_taken :
    ℕ → (Event → Value) → List Event → List ItemResult → Pool → Result (ℕ × Pool) → BatchSent
batch_taken now key_extractor events results pool (raise x) = record {
  successful_sends = 0;
  messages = [];
  pool = pool;
}
batch_taken now key_extractor events results pool (ok (p, pool')) = record {
  successful_sends = or_zero_sends (count_results 0 results);
  messages = batch_messages now key_extractor events;
  pool = pool';
}

-- `send_batch`; without an extractor every key is `None`
unfoldable pub send_batch : ℕ → (Event → Value) → List Event → List ItemResult → Pool → BatchSent
send_batch now key_extractor events results pool =
    let (blocked, pool') = is_circuit_open now pool in
    if blocked
    then record { successful_sends = 0; messages = []; pool = pool' }
    else batch_taken now key_extractor events results pool' (get_producer pool')

-- `send_async_batch`: `put` waits while the queue is full, which is `none`.
unfoldable pub send_async_batch : ℕ → String → Event → Pool → Option Pool
send_async_batch now topic event pool =
    if ltb (length pool.batch_queue) queue_max
    then some (record pool {
      batch_queue =
          pool.batch_queue ++ record { topic = topic; event = event; timestamp = now } ∷ [];
    })
    else none

pub record Health : Type 0 where
  pub active_producers : ℕ
  pub health_circuit_open : Bool
  pub health_failure_count : ℕ
  pub queue_size : ℕ
  pub health_last_failure_time : ℕ

unfoldable pub get_health_status : Pool → Health
get_health_status pool = record {
  active_producers = length pool.producers;
  health_circuit_open = pool.circuit_open;
  health_failure_count = pool.failure_count;
  queue_size = length pool.batch_queue;
  health_last_failure_time = pool.last_failure_time;
}
