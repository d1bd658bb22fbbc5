-- ===== src/Gateway/Breaker/Trips.antt =====
-- When the circuit breaker opens, and what it lets through.
use streaming_lab.Prelude.{
  ℕ, ◌+◌, ◌≡◌, refl, ◌∙◌, inl, inr, false, List, [], ◌∷◌, length, leb, arith, if◌then◌else◌,
  Option-cases, get_elem?, ◌%◌,
}
use streaming_lab.Gateway.Value.{Value, Event}
use streaming_lab.Gateway.Producer.{
  Pool, is_circuit_open, handle_kafka_error, get_producer, refused, take_producer, begin_send,
  acked, kafka_error, complete_send, ItemResult, send_batch, batch_taken,
}
use streaming_lab.Gateway.Breaker.{
  Reachable, Reachable-IsSound, IsSound, complete_send-IsSound, closed,
}

-- What the pool becomes when the sends that wait fail one after the other, at these times.
abbrev pub fail_all : List ℕ → Pool → Pool
fail_all [] pool = pool
fail_all (t ∷ ts) pool = fail_all ts (complete_send t kafka_error pool).1

fail_all-IsSound : (ts : List ℕ) (pool : Pool) → IsSound pool → IsSound (fail_all ts pool)
fail_all-IsSound [] pool h = h
fail_all-IsSound (t ∷ ts) pool h =
    fail_all-IsSound ts (complete_send t kafka_error pool).1
      (complete_send-IsSound t kafka_error pool h)

failure_count-fail_all :
    (ts : List ℕ) (pool : Pool) → (fail_all ts pool).failure_count ≡ pool.failure_count + length ts
unfolding complete_send handle_kafka_error
failure_count-fail_all [] pool = omega arith
failure_count-fail_all (t ∷ ts) pool =
    omega (arith, failure_count-fail_all ts (handle_kafka_error t pool))

begin_send_lem :
    (now count last : ℕ) (key : Value) (event : Event) (pool : Pool)
    → IsSound pool
    → pool.failure_count ≡ count
    → pool.last_failure_time ≡ last
    → begin_send now key event pool ≡ (
        if leb 10 count
        then (if leb now (last + 60000)
            then (refused, pool)
            else take_producer now key event (closed pool))
        else take_producer now key event pool)
unfolding begin_send is_circuit_open
begin_send_lem now count last key event pool h counted at =
    ground (arith, h.opens, h.timeout, counted, at)

-- the last of a run of failures after a success
last_failure :
    (last : ℕ) (ts : List ℕ) (pool : Pool) (success : ℕ)
    → let failed =
        (complete_send last kafka_error (fail_all ts (complete_send success acked pool).1)).1 in
      (failed.failure_count ≡ length ts + 1) × (failed.last_failure_time ≡ last)
unfolding complete_send handle_kafka_error
last_failure last ts pool success = (omega (arith, failure_count-fail_all ts (closed pool)), refl)

-- Ten failures in a row open the breaker, and no fewer do: after a success and any run of failures,
-- a send is refused, and changes nothing, exactly when the failures are ten or more and the last is
-- at most a minute old. A later one is let through to the choice of a client, with the breaker closed
-- and the count at 0, and with fewer failures every send is let through.
pub breaker_trips :
    {pool_size batch_size linger_ms : ℕ} {pool : Pool} (success last now : ℕ) (ts : List ℕ)
    (key : Value) (event : Event)
    → Reachable pool_size batch_size linger_ms pool
    → let failed =
        (complete_send last kafka_error (fail_all ts (complete_send success acked pool).1)).1 in
      begin_send now key event failed ≡ (
        if leb 10 (length ts + 1)
        then (if leb now (last + 60000)
            then (refused, failed)
            else take_producer now key event (closed failed))
        else take_producer now key event failed)
breaker_trips {pool = pool} success last now ts key event reachable =
    let (count, time) = last_failure last ts pool success in
    begin_send_lem now (length ts + 1) last key event _
      (complete_send-IsSound last kafka_error _ (
        fail_all-IsSound ts _
          (complete_send-IsSound success acked pool (Reachable-IsSound reachable))))
      count time

pub is_circuit_open-closed :
    (now : ℕ) (pool : Pool) → pool.circuit_open ≡ false → is_circuit_open now pool ≡ (false, pool)
unfolding is_circuit_open
is_circuit_open-closed now pool h = rw h refl

batch_taken-keeps :
    (now : ℕ) (key : Event → Value) (events : List Event) (results : List ItemResult) (pool : Pool)
    → ((batch_taken now key events results pool (get_producer pool)).pool.circuit_open
        ≡ pool.circuit_open)
      × ((batch_taken now key events results pool (get_producer pool)).pool.failure_count
          ≡ pool.failure_count)
unfolding get_producer
batch_taken-keeps now key events results pool =
    elim (Option-cases (get_elem? pool.producers (pool.producer_index % length pool.producers))) [
      | inl nobody ↦ rw (batch_taken, nobody) (refl, refl)
      | inr (p, found) ↦ rw (batch_taken, found) (refl, refl)
    ]

-- A batch never opens the breaker: whatever becomes of its events, a closed breaker stays closed and
-- the failures that are counted stay the same.
pub send_batch-closed :
    (now : ℕ) (key : Event → Value) (events : List Event) (results : List ItemResult) (pool : Pool)
    → pool.circuit_open ≡ false
    → ((send_batch now key events results pool).pool.circuit_open ≡ false)
      × ((send_batch now key events results pool).pool.failure_count ≡ pool.failure_count)
unfolding send_batch
send_batch-closed now key events results pool h =
    let (stays, counts) = batch_taken-keeps now key events results pool in
    rw (is_circuit_open-closed now pool h) (stays ∙ h, counts)

-- Whatever calls interleave, the breaker is open exactly while ten failures or more are counted.
pub circuit_open-Reachable :
    {pool_size batch_size linger_ms : ℕ} {pool : Pool}
    → Reachable pool_size batch_size linger_ms pool
    → pool.circuit_open ≡ leb 10 pool.failure_count
circuit_open-Reachable reachable = (Reachable-IsSound reachable).opens
