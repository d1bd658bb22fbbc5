-- ===== src/Gateway/Breaker.antt =====
-- The circuit breaker of the pool, over all interleavings of its calls.
pub mod Trips
use streaming_lab.Prelude.{
  ℕ, zero, suc, ◌+◌, ◌≡◌, refl, sym, ap, ◌∙◌, inl, inr, Bool, true, false, none, some, List, [],
  ◌∷◌, length, leb, ltb, arith, if◌then◌else◌, Bool-cases, Option-cases, ◌==◌, get_elem?, ◌%◌,
  some-eq, String,
}
use mathlib.Core.Path.{subst}
use streaming_lab.Gateway.Value.{Value, Event}
use streaming_lab.Gateway.Producer.{
  Pool, created, stop, start_producers, start_pool, is_circuit_open, handle_kafka_error,
  get_producer, refused, take_producer, begin_send, SendOutcome, acked, kafka_error, other_error,
  complete_send, ItemResult, send_batch, send_async_batch, queue_max, enriched_single, taken,
  batch_taken,
}

-- A step of the pool: what one of its calls does between two waits.
pub data Step : Pool → Pool → Type 0 where
  starting : (starts : ℕ → Bool) (pool : Pool) → Step pool (start_pool starts pool).0
  stopping : (pool : Pool) → Step pool (stop pool)
  beginning :
      (now : ℕ) (key : Value) (event : Event) (pool : Pool)
      → Step pool (begin_send now key event pool).1
  completing :
      (now : ℕ) (outcome : SendOutcome) (pool : Pool) → Step pool (complete_send now outcome pool).1
  batching :
      (now : ℕ) (key : Event → Value) (events : List Event) (results : List ItemResult)
      (pool : Pool)
      → Step pool (send_batch now key events results pool).pool
  queueing :
      (now : ℕ) (topic : String) (event : Event) (pool pool' : Pool)
      → send_async_batch now topic event pool ≡ some pool'
      → Step pool pool'

-- The pools that any interleaving of calls leads to.
pub data Reachable (pool_size batch_size linger_ms : ℕ) : Pool → Type 0 where
  fresh : Reachable pool_size batch_size linger_ms (created pool_size batch_size linger_ms)
  stepped :
      (pool pool' : Pool)
      → Reachable pool_size batch_size linger_ms pool
      → Step pool pool'
      → Reachable pool_size batch_size linger_ms pool'

-- The breaker is open exactly when the failures have reached the threshold, and the settings stay.
pub record IsSound (pool : Pool) : Type 0 where
  pub threshold : pool.failure_threshold ≡ 10
  pub timeout : pool.circuit_timeout ≡ 60000
  pub opens : pool.circuit_open ≡ leb 10 pool.failure_count

-- a step that leaves the breaker alone
keeps-IsSound :
    (pool pool' : Pool)
    → pool'.failure_threshold ≡ pool.failure_threshold
    → pool'.circuit_timeout ≡ pool.circuit_timeout
    → pool'.circuit_open ≡ pool.circuit_open
    → pool'.failure_count ≡ pool.failure_count
    → IsSound pool
    → IsSound pool'
keeps-IsSound pool pool' threshold timeout open_same count h = record {
  threshold = threshold ∙ h.threshold;
  timeout = timeout ∙ h.timeout;
  opens = open_same ∙ h.opens ∙ ap (leb 10) (sym count);
}

-- what the breaker becomes when its time has passed
abbrev pub closed : Pool → Pool
closed pool = record pool { circuit_open = false; failure_count = 0 }

closed-IsSound : (pool : Pool) → IsSound pool → IsSound (closed pool)
closed-IsSound pool h = record {
  threshold = h.threshold;
  timeout = h.timeout;
  opens = ground arith;
}

is_circuit_open-IsSound :
    (now : ℕ) (pool : Pool) → IsSound pool → IsSound (is_circuit_open now pool).1
unfolding is_circuit_open
is_circuit_open-IsSound now pool h = ground (arith, h, closed-IsSound pool h)

pub handle_kafka_error-IsSound :
    (now : ℕ) (pool : Pool) → IsSound pool → IsSound (handle_kafka_error now pool)
unfolding handle_kafka_error
handle_kafka_error-IsSound now pool h = record {
  threshold = h.threshold;
  timeout = h.timeout;
  opens = ground (arith, h.threshold, h.opens);
}

pub complete_send-IsSound :
    (now : ℕ) (outcome : SendOutcome) (pool : Pool)
    → IsSound pool
    → IsSound (complete_send now outcome pool).1
unfolding complete_send
complete_send-IsSound now acked pool h = closed-IsSound pool h
complete_send-IsSound now kafka_error pool h = handle_kafka_error-IsSound now pool h
complete_send-IsSound now other_error pool h = h

get_producer-IsSound :
    (key : Value) (event : Event) (pool : Pool)
    → IsSound pool
    → IsSound (taken key event pool (get_producer pool)).1
unfolding get_producer
get_producer-IsSound key event pool h =
    elim (Option-cases (get_elem? pool.producers (pool.producer_index % length pool.producers))) [
      | inl nobody ↦ rw (taken, nobody) h
      | inr (p, found) ↦ rw (taken, found) (keeps-IsSound pool _ refl refl refl refl h)
    ]

pub batch_taken-IsSound :
    (now : ℕ) (key : Event → Value) (events : List Event) (results : List ItemResult) (pool : Pool)
    → IsSound pool
    → IsSound (batch_taken now key events results pool (get_producer pool)).pool
unfolding get_producer
batch_taken-IsSound now key events results pool h =
    elim (Option-cases (get_elem? pool.producers (pool.producer_index % length pool.producers))) [
      | inl nobody ↦ rw (batch_taken, nobody) h
      | inr (p, found) ↦ rw (batch_taken, found) (keeps-IsSound pool _ refl refl refl refl h)
    ]

take_producer-IsSound :
    (now : ℕ) (key : Value) (event : Event) (pool : Pool)
    → IsSound pool
    → IsSound (take_producer now key event pool).1
unfolding take_producer
take_producer-IsSound now key event pool h = elim (Bool-cases (pool.pool_size == 0)) [
  | inl none_asked ↦ rw none_asked h
  | inr some_asked ↦
      rw some_asked (get_producer-IsSound key (enriched_single now event pool) pool h)
]

begin_send-IsSound :
    (now : ℕ) (key : Value) (event : Event) (pool : Pool)
    → IsSound pool
    → IsSound (begin_send now key event pool).1
unfolding begin_send
begin_send-IsSound now key event pool h = elim (Bool-cases (is_circuit_open now pool).0) [
  | inl blocked ↦ rw blocked (is_circuit_open-IsSound now pool h)
  | inr free ↦ rw free (take_producer-IsSound now key event _ (is_circuit_open-IsSound now pool h))
]

send_batch-IsSound :
    (now : ℕ) (key : Event → Value) (events : List Event) (results : List ItemResult) (pool : Pool)
    → IsSound pool
    → IsSound (send_batch now key events results pool).pool
unfolding send_batch
send_batch-IsSound now key events results pool h = elim (Bool-cases (is_circuit_open now pool).0) [
  | inl blocked ↦ rw blocked (is_circuit_open-IsSound now pool h)
  | inr free ↦
      rw free (batch_taken-IsSound now key events results _ (is_circuit_open-IsSound now pool h))
]

start_producers-IsSound :
    (starts : ℕ → Bool) (i left : ℕ) (pool : Pool)
    → IsSound pool
    → IsSound (start_producers starts i left pool).0
unfolding start_producers stop
start_producers-IsSound starts i zero pool h = keeps-IsSound pool _ refl refl refl refl h
start_producers-IsSound starts i (suc left) pool h = elim (Bool-cases (starts i)) [
  | inl up ↦
      rw up
        (start_producers-IsSound starts (i + 1) left _ (keeps-IsSound pool _ refl refl refl refl h))
  | inr down ↦ rw down (keeps-IsSound pool _ refl refl refl refl h)
]

if_some : (b : Bool) (x y : Pool) → (if b then some x else none) ≡ some y → x ≡ y
if_some true x y h = some-eq x y h
if_some false x y h = cc

queued-IsSound :
    (now : ℕ) (topic : String) (event : Event) (pool pool' : Pool)
    → send_async_batch now topic event pool ≡ some pool'
    → IsSound pool
    → IsSound pool'
unfolding send_async_batch
queued-IsSound now topic event pool pool' e h =
    subst IsSound (if_some (ltb (length pool.batch_queue) queue_max) _ _ e)
      (keeps-IsSound pool _ refl refl refl refl h)

Step-IsSound : {pool pool' : Pool} → Step pool pool' → IsSound pool → IsSound pool'
unfolding start_pool stop
Step-IsSound (starting starts pool) h = start_producers-IsSound starts 0 pool.pool_size pool h
Step-IsSound (stopping pool) h = keeps-IsSound pool _ refl refl refl refl h
Step-IsSound (beginning now key event pool) h = begin_send-IsSound now key event pool h
Step-IsSound (completing now outcome pool) h = complete_send-IsSound now outcome pool h
Step-IsSound (batching now key events results pool) h =
    send_batch-IsSound now key events results pool h
Step-IsSound (queueing now topic event pool pool' e) h =
    queued-IsSound now topic event pool pool' e h

pub Reachable-IsSound :
    {pool_size batch_size linger_ms : ℕ} {pool : Pool}
    → Reachable pool_size batch_size linger_ms pool
    → IsSound pool
unfolding created
Reachable-IsSound fresh = record { threshold = refl; timeout = refl; opens = ground arith }
Reachable-IsSound (stepped pool pool' r step) = Step-IsSound step (Reachable-IsSound r)
