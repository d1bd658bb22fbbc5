-- ===== src/Gateway/Worker.antt =====
-- `_batch_worker` of gateway/async_kafka_producer.py: one iteration of its loop is given the entry
-- that the queue handed over, or none where the wait timed out, and the time. What it hands to
-- `send_batch`, which does not raise, is its output.
use streaming_lab.Prelude.{
  ℕ, ◌+◌, ◌≡◌, refl, sym, ap, ◌∙◌, String, Bool, not, ◌&&◌, ◌||◌, Option, none, some, List, [], ◌∷◌,
  ◌++◌, map, filter, length, is_empty, leb, ltb, str_eq, or_else, arith, if◌then◌else◌, string_eq,
  Bool-cases, inl, inr, eq_iff,
}
use mathlib.Core.List.{append-nil, append_assoc}
use streaming_lab.Dict.{Dict, lookup, insert}
use streaming_lab.Dict.Laws.{lookup-insert}
use streaming_lab.Gateway.Value.{Event}
use streaming_lab.Gateway.Producer.{Item, Pool}

pub record Worker : Type 0 where
  pub batch : List Item
  pub last_send : ℕ

-- `topic_batches[topic].append(event)`, where a new topic begins with no event
unfoldable pub add_to_topic : Item → Dict String (List Event) → Dict String (List Event)
add_to_topic item d = insert item.topic (or_else (lookup item.topic d) [] ++ item.event ∷ []) d

unfoldable pub group_by_topic : Dict String (List Event) → List Item → Dict String (List Event)
group_by_topic d [] = d
group_by_topic d (item ∷ items) = group_by_topic (add_to_topic item d) items

abbrev pub received : Option Item → List Item → List Item
received none batch = batch
received (some item) batch = batch ++ item ∷ []

unfoldable pub should_send : Pool → ℕ → List Item → ℕ → Bool
should_send pool now batch last_send =
    leb pool.batch_size (length batch)
    || (not (is_empty batch) && ltb (last_send + pool.linger_ms) now)

unfoldable pub work : Pool → ℕ → Option Item → Worker → Dict String (List Event) × Worker
work pool now arrived w =
    let batch = received arrived w.batch in
    if should_send pool now batch w.last_send && not (is_empty batch)
    then (group_by_topic [] batch, record { batch = []; last_send = now })
    else ([], record w { batch = batch })

-- The events of one topic, in order.
abbrev pub of_topic : String → List Item → List Event
of_topic t items = map (λ (i : Item). i.event) (filter (λ (i : Item). str_eq i.topic t) items)

-- what `topic_batches` holds for a topic
abbrev pub batch_for : String → Dict String (List Event) → List Event
batch_for t d = or_else (lookup t d) []

of_topic-append :
    (t : String) (xs ys : List Item) → of_topic t (xs ++ ys) ≡ of_topic t xs ++ of_topic t ys
of_topic-append t [] ys = refl
of_topic-append t (x ∷ xs) ys = ground (arith, of_topic-append t xs ys)

batch_for-same :
    (t u : String) (e : Event) (d : Dict String (List Event))
    → u ≡ t
    → or_else (lookup u d) [] ++ e ∷ [] ≡ batch_for t d ++ e ∷ []
batch_for-same t u e d h = rw h refl

batch_for-add_to_topic :
    (t : String) (item : Item) (d : Dict String (List Event))
    → batch_for t (add_to_topic item d) ≡ batch_for t d ++ of_topic t (item ∷ [])
unfolding add_to_topic
batch_for-add_to_topic t item d = elim (Bool-cases (str_eq item.topic t)) [
  | inl same ↦
      rw (lookup-insert item.topic t (or_else (lookup item.topic d) [] ++ item.event ∷ []) d, same)
        (batch_for-same t item.topic item.event d ((eq_iff item.topic t).0 same))
  | inr other ↦
      rw (lookup-insert item.topic t (or_else (lookup item.topic d) [] ++ item.event ∷ []) d, other)
        (sym (append-nil (batch_for t d)))
]

batch_for-group_by_topic :
    (t : String) (d : Dict String (List Event)) (items : List Item)
    → batch_for t (group_by_topic d items) ≡ batch_for t d ++ of_topic t items
unfolding group_by_topic
batch_for-group_by_topic t d [] = sym (append-nil (batch_for t d))
batch_for-group_by_topic t d (item ∷ items) =
    batch_for-group_by_topic t (add_to_topic item d) items
    ∙ ap (λ (es : List Event). es ++ of_topic t items) (batch_for-add_to_topic t item d)
    ∙ append_assoc (batch_for t d) (of_topic t (item ∷ [])) (of_topic t items)
    ∙ ap (λ (es : List Event). batch_for t d ++ es) (sym (of_topic-append t (item ∷ []) items))

-- What one iteration hands over, and what it keeps, is what it had and received.
work-of_topic :
    (t : String) (pool : Pool) (now : ℕ) (arrived : Option Item) (w : Worker)
    → batch_for t (work pool now arrived w).0 ++ of_topic t (work pool now arrived w).1.batch
      ≡ of_topic t (received arrived w.batch)
unfolding work lookup
work-of_topic t pool now arrived w =
    let batch = received arrived w.batch in
    elim (Bool-cases (should_send pool now batch w.last_send && not (is_empty batch))) [
      | inl sends ↦ rw sends (append-nil _ ∙ batch_for-group_by_topic t [] batch)
      | inr holds ↦ rw holds refl
    ]

-- The iterations of the worker, and what they hand over.
unfoldable pub serve :
    Pool → List (ℕ × Option Item) → Worker → List (Dict String (List Event)) × Worker
serve pool [] w = ([], w)
serve pool ((now, arrived) ∷ ticks) w =
    let (sent, w') = work pool now arrived w in
    let (later, last) = serve pool ticks w' in (sent ∷ later, last)

abbrev pub arrivals : List (ℕ × Option Item) → List Item
arrivals [] = []
arrivals ((now, none) ∷ ticks) = arrivals ticks
arrivals ((now, some item) ∷ ticks) = item ∷ arrivals ticks

abbrev pub handed : String → List (Dict String (List Event)) → List Event
handed t [] = []
handed t (d ∷ ds) = batch_for t d ++ handed t ds

received-arrivals :
    (t : String) (now : ℕ) (arrived : Option Item) (batch : List Item)
    (ticks : List (ℕ × Option Item))
    → of_topic t (received arrived batch) ++ of_topic t (arrivals ticks)
      ≡ of_topic t (batch ++ arrivals ((now, arrived) ∷ ticks))
received-arrivals t now none batch ticks = sym (of_topic-append t batch (arrivals ticks))
received-arrivals t now (some item) batch ticks =
    sym (of_topic-append t (batch ++ item ∷ []) (arrivals ticks))
    ∙ ap (of_topic t) (append_assoc batch (item ∷ []) (arrivals ticks))

-- The worker hands each topic's events to `send_batch` in the order in which the queue gave them,
-- each exactly once: what it has handed over and what it still holds is all that it was given.
pub worker_delivers :
    (t : String) (pool : Pool) (ticks : List (ℕ × Option Item)) (w : Worker)
    → handed t (serve pool ticks w).0 ++ of_topic t (serve pool ticks w).1.batch
      ≡ of_topic t (w.batch ++ arrivals ticks)
unfolding serve
worker_delivers t pool [] w = ap (of_topic t) (sym (append-nil w.batch))
worker_delivers t pool ((now, arrived) ∷ ticks) w =
    let w' = (work pool now arrived w).1 in
    append_assoc (batch_for t (work pool now arrived w).0) (handed t (serve pool ticks w').0) _
    ∙ ap (λ (es : List Event). batch_for t (work pool now arrived w).0 ++ es)
        (worker_delivers t pool ticks w' ∙ of_topic-append t w'.batch (arrivals ticks))
    ∙ sym (
        append_assoc (batch_for t (work pool now arrived w).0) (of_topic t w'.batch)
          (of_topic t (arrivals ticks)))
    ∙ ap (λ (es : List Event). es ++ of_topic t (arrivals ticks))
        (work-of_topic t pool now arrived w)
    ∙ received-arrivals t now arrived w.batch ticks
