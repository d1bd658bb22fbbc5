-- ===== src/Gateway/Ingest.antt =====
-- What becomes of an event that is ingested.
use streaming_lab.Prelude.{
  ℕ, zero, suc, ◌+◌, ◌-◌, ◌/◌, ◌≤◌, ◌≡◌, refl, sym, ap, ◌∙◌, ◌⊎◌, inl, inr, String, false, Option,
  some, List, [], ◌∷◌, length, drop, length-drop, All, ltb, arith, if◌then◌else◌, string_eq,
  Bool-cases,
}
use streaming_lab.Results.{Result, ok, raise}
use streaming_lab.Dict.{lookup}
use streaming_lab.Dict.Laws.{lookup-insert}
use streaming_lab.Gateway.Value.{Value, text, numbered, Event}
use streaming_lab.Gateway.Producer.{
  Pool, SendOutcome, acked, kafka_error, other_error, ItemResult, metadata, future, item_error,
  Begun, refused, broken, sending, begin_send, complete_send, finish, send_event, count_results,
  enriched_in_batch, batch_messages, or_zero_sends, batch_taken, is_circuit_open, get_producer,
  send_batch,
}
use streaming_lab.Gateway.Breaker.Trips.{is_circuit_open-closed}
use streaming_lab.Gateway.Api.{
  EventCreate, Moment, enriched_event, key_of, ingest_single, enrich_all, batch_key, ingest_batch,
  text_or,
}

-- The send reached a client, and the broker acknowledged it.
abbrev pub Reached : Begun × Pool → SendOutcome → Type 0
Reached (refused, pool) outcome = ⊥
Reached (broken, pool) outcome = ⊥
Reached (sending p key event, pool) outcome = outcome ≡ acked

finish-cases :
    (later : ℕ) (outcome : SendOutcome) (begun : Begun × Pool) (e : Event)
    → (Reached begun outcome × ((if (finish later outcome begun).0 then [] else e ∷ []) ≡ []))
      ⊎ ((¬ Reached begun outcome)
          × ((if (finish later outcome begun).0 then [] else e ∷ []) ≡ e ∷ []))
unfolding complete_send
finish-cases later outcome (refused, pool) e = inr (λ h. h, refl)
finish-cases later outcome (broken, pool) e = inr (λ h. h, refl)
finish-cases later acked (sending p key event, pool) e = inl (refl, refl)
finish-cases later kafka_error (sending p key event, pool) e = inr (λ h. cc, refl)
finish-cases later other_error (sending p key event, pool) e = inr (λ h. cc, refl)

-- An event that is ingested alone is acknowledged by Kafka or stored directly, and never both:
-- whatever the circuit breaker, the clients and the broker do.
pub ingest_single_once :
    (event_id : String) (at : Moment) (now later : ℕ) (outcome : SendOutcome) (event : EventCreate)
    (pool : Pool)
    → let enriched = enriched_event event_id at event in
      let begun = begin_send now (key_of event.user_id (text event_id)) enriched pool in
      let accepted = ingest_single event_id at now later outcome event pool in
      (Reached begun outcome × (accepted.tasks ≡ []))
      ⊎ ((¬ Reached begun outcome) × (accepted.tasks ≡ enriched ∷ []))
unfolding ingest_single send_event
ingest_single_once event_id at now later outcome event pool =
    finish-cases later outcome
      (begin_send now (key_of event.user_id (text event_id)) (enriched_event event_id at event)
        pool)
      (enriched_event event_id at event)

count_results-le :
    (n : ℕ) (results : List ItemResult)
    → or_zero_sends (count_results n results) ≤ n + length results
unfolding count_results
count_results-le n [] = omega arith
count_results-le n (metadata ∷ results) = omega (arith, count_results-le (n + 1) results)
count_results-le n (future ∷ results) = omega arith
count_results-le n (item_error ∷ results) = omega (arith, count_results-le n results)

-- What `send_batch` comes to: nothing is sent, or all is, and the results are counted.
send_batch-cases :
    (now : ℕ) (key : Event → Value) (events : List Event) (results : List ItemResult) (pool : Pool)
    → let sent = send_batch now key events results pool in
      ((sent.successful_sends ≡ 0) × (sent.messages ≡ []))
      ⊎ ((sent.successful_sends ≡ or_zero_sends (count_results 0 results))
          × (sent.messages ≡ batch_messages now key events))
unfolding send_batch
send_batch-cases now key events results pool = elim (Bool-cases (is_circuit_open now pool).0) [
  | inl blocked ↦ rw blocked (inl (refl, refl))
  | inr free ↦ rw free (taken-cases (get_producer (is_circuit_open now pool).1))
]
  where
    taken-cases :
        (got : Result (ℕ × Pool))
        → let sent = batch_taken now key events results (is_circuit_open now pool).1 got in
          ((sent.successful_sends ≡ 0) × (sent.messages ≡ []))
          ⊎ ((sent.successful_sends ≡ or_zero_sends (count_results 0 results))
              × (sent.messages ≡ batch_messages now key events))
    taken-cases (raise x) = inl (refl, refl)
    taken-cases (ok (p, q)) = inr (refl, refl)

length-enrich_all :
    (id : Value) (at : Moment) (ids : ℕ → String) (i : ℕ) (events : List EventCreate)
    → length (enrich_all id at ids i events) ≡ length events
unfolding enrich_all
length-enrich_all id at ids i [] = refl
length-enrich_all id at ids i (e ∷ events) = ap suc (length-enrich_all id at ids (i + 1) events)

sends-le :
    (now : ℕ) (key : Event → Value) (events : List Event) (results : List ItemResult) (pool : Pool)
    → (send_batch now key events results pool).successful_sends ≤ length results
sends-le now key events results pool = elim (send_batch-cases now key events results pool) [
  | inl (none_sent, m) ↦ omega (arith, none_sent)
  | inr (counted, m) ↦ omega (arith, counted, count_results-le 0 results)
]

tasks_lem :
    (sends : ℕ) (es : List Event)
    → (if ltb 0 (length es - sends) then drop sends es else []) ≡ drop sends es
tasks_lem sends es = elim (Bool-cases (ltb 0 (length es - sends))) [
  | inl some_failed ↦ rw some_failed refl
  | inr none_failed ↦ rw none_failed (sym (drop-all sends es (ground (arith, none_failed))))
]
  where
    drop-all : (n : ℕ) (xs : List Event) → length xs ≤ n → drop n xs ≡ []
    drop-all zero [] h = refl
    drop-all (suc n) [] h = refl
    drop-all zero (x ∷ xs) h = absurd (omega arith)
    drop-all (suc n) (x ∷ xs) h = drop-all n xs (omega arith)

-- The answer to a batch accounts for every event: those processed and those failed are all events
-- of the batch, and as many as failed are stored directly.
pub ingest_batch_counts :
    (batch_id : Option String) (fresh_id : String) (at : Moment) (ids : ℕ → String) (now : ℕ)
    (events : List EventCreate) (results : List ItemResult) (pool : Pool)
    → length results ≡ length events
    → let r = ingest_batch batch_id fresh_id at ids now events results pool in
      (r.processed_count + r.failed_count ≡ length events) × (length r.tasks ≡ r.failed_count)
unfolding ingest_batch
ingest_batch_counts batch_id fresh_id at ids now events results pool h =
    let id = text_or batch_id (text fresh_id) in
    let es = enrich_all id at ids 0 events in
    let sends = (send_batch now batch_key es results pool).successful_sends in
    (
      omega (arith, sends-le now batch_key es results pool, length-enrich_all id at ids 0 events),
      ap length (tasks_lem sends es) ∙ length-drop sends es,
    )

-- Every message of a batch carries the producer's own batch id, whatever id the API gave its events.
pub batch_messages-batch_id :
    (now : ℕ) (key : Event → Value) (events : List Event)
    → All
        (λ (m : Value × Event). lookup "batch_id" m.1 ≡ some (numbered "batch_" (now / 1000)))
        (batch_messages now key events)
unfolding batch_messages enriched_in_batch
batch_messages-batch_id now key [] = tt
batch_messages-batch_id now key (e ∷ events) = (
  lookup-insert "batch_id" "batch_id" (numbered "batch_" (now / 1000)) _,
  batch_messages-batch_id now key events,
)

-- What a send of aiokafka gives: a future, or an exception.
abbrev pub FromAiokafka : ItemResult → Type 0
FromAiokafka metadata = ⊥
FromAiokafka future = Unit
FromAiokafka item_error = Unit

count_results-FromAiokafka :
    (results : List ItemResult)
    → All FromAiokafka results
    → or_zero_sends (count_results 0 results) ≡ 0
unfolding count_results
count_results-FromAiokafka [] h = refl
count_results-FromAiokafka (metadata ∷ results) h = absurd h.0
count_results-FromAiokafka (future ∷ results) h = refl
count_results-FromAiokafka (item_error ∷ results) h = count_results-FromAiokafka results h.1

sends_lem :
    (now p : ℕ) (es : List Event) (results : List ItemResult) (pool pool' : Pool)
    → All FromAiokafka results
    → pool.circuit_open ≡ false
    → get_producer pool ≡ ok (p, pool')
    → let sent = send_batch now batch_key es results pool in
      (sent.messages ≡ batch_messages now batch_key es) × (sent.successful_sends ≡ 0)
unfolding send_batch
sends_lem now p es results pool pool' h closed got =
    rw (is_circuit_open-closed now pool closed, got) (refl, count_results-FromAiokafka results h)

-- With the clients of aiokafka, whose sends give futures or exceptions, every event of a batch is
-- handed to a client, with the breaker closed and a client at hand, and every event of it is stored
-- directly too: the answer counts none as processed and all as failed, whatever becomes of the sends.
pub batch_is_stored_too :
    (batch_id : Option String) (fresh_id : String) (at : Moment) (ids : ℕ → String) (now p : ℕ)
    (events : List EventCreate) (results : List ItemResult) (pool pool' : Pool)
    → All FromAiokafka results
    → pool.circuit_open ≡ false
    → get_producer pool ≡ ok (p, pool')
    → let r = ingest_batch batch_id fresh_id at ids now events results pool in
      let enriched = enrich_all r.batch_id at ids 0 events in
      ((send_batch now batch_key enriched results pool).messages
        ≡ batch_messages now batch_key enriched)
      × ((r.processed_count ≡ 0) × ((r.failed_count ≡ length events) × (r.tasks ≡ enriched)))
unfolding ingest_batch
batch_is_stored_too batch_id fresh_id at ids now p events results pool pool' h closed got =
    let id = text_or batch_id (text fresh_id) in
    let es = enrich_all id at ids 0 events in
    let (messages, sends) = sends_lem now p es results pool pool' h closed got in
    (
      messages,
      (
        sends,
        (
          rw sends (omega (arith, length-enrich_all id at ids 0 events)),
          ap (λ (n : ℕ). if ltb 0 (length es - n) then drop n es else []) sends ∙ tasks_lem 0 es,
        ),
      ),
    )
