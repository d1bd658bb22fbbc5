-- ===== src/Events/Generator.antt =====
-- src/streaming_lab/events/generator.py. `random.Random` and `uuid` are an interface: a state, the
-- draws that the generator makes of it, and the ranges that the documentation of `random` gives.
pub mod Invariant
pub mod Stream
use streaming_lab.Prelude.{
  ℕ, zero, suc, ◌+◌, ◌-◌, ◌*◌, ◌≤◌, ◌<◌, String, Bool, true, false, not, ◌&&◌, Option, none, some,
  List, [], ◌∷◌, ◌++◌, length, filter, is_empty, ltb, ◌==◌, str_eq, if◌then◌else◌,
}
use streaming_lab.Prelude.Int.{ℤ, pos}
use streaming_lab.Config.{Config}
use streaming_lab.Results.{Result, ok, raise, value_error, key_error, ◌>>=◌}
use streaming_lab.Events.Schema.{OrderEvent, order_created, order_cancelled}
use streaming_lab.Events.GroundTruth.{sum_deltas}

pub record Rng : Type 1 where
  pub State : Type 0
  pub seeded : ℕ → State
  pub randint : ℕ → ℕ → State → ℕ × State
  pub randrange : ℕ → State → ℕ × State
  -- `rng.random() < cancel_ratio`
  pub cancels : State → Bool × State
  -- `str(uuid.UUID(int=rng.getrandbits(128)))`
  pub uuid : State → String × State
  pub randint_bounds :
      (lo hi : ℕ) (s : State) → lo ≤ hi → (lo ≤ (randint lo hi s).0) × ((randint lo hi s).0 ≤ hi)
  pub randrange_lt : (n : ℕ) (s : State) → 0 < n → (randrange n s).0 < n

abbrev pub step_ms : ℕ
step_ms = 1

-- An order of the pool: created, and not cancelled so far.
pub record Created : Type 0 where
  pub order_id : String
  pub amount : ℤ
  pub user_id : ℕ

-- `created_pool.pop(idx)`
unfoldable pub pop : ℕ → List Created → Option (Created × List Created)
pop i [] = none
pop zero (c ∷ pool) = some (c, pool)
pop (suc i) (c ∷ pool) = elim (pop i pool) [ none ↦ none | some (d, rest) ↦ some (d, c ∷ rest) ]

module _ (rng : Rng) where
  pub record Gen : Type 0 where
    pub events : List OrderEvent
    pub created_pool : List Created
    pub i : ℕ
    pub state : rng.State

  -- the iteration that cancels an order of the pool
  unfoldable pub emit_cancelled : ℕ → rng.State → Gen → Result Gen
  emit_cancelled time s g =
      let (idx, s1) = rng.randrange (length g.created_pool) s in
      let (event_id, s2) = rng.uuid s1 in
      elim (pop idx g.created_pool) [
        | none ↦ raise key_error
        | some (c, pool) ↦ ok (record {
          events =
              g.events
              ++ record {
                event_id = event_id;
                order_id = c.order_id;
                event_type = order_cancelled;
                amount = c.amount;
                user_id = c.user_id;
                event_time_ms = time;
              }
                ∷ [];
          created_pool = pool;
          i = g.i + 1;
          state = s2;
        })
      ]

  -- the iteration that creates an order; the amount is drawn in cents
  unfoldable pub add_created : ℕ → ℕ → rng.State → Gen → Gen
  add_created max_amount time s g =
      let (order_id, s1) = rng.uuid s in
      let (cents, s2) = rng.randint 1 (max_amount * 100) s1 in
      let (user_id, s3) = rng.randint 1 1000 s2 in
      let (event_id, s4) = rng.uuid s3 in
      record {
        events =
            g.events
            ++ record {
              event_id = event_id;
              order_id = order_id;
              event_type = order_created;
              amount = pos cents;
              user_id = user_id;
              event_time_ms = time;
            }
              ∷ [];
        created_pool =
            g.created_pool
            ++ record { order_id = order_id; amount = pos cents; user_id = user_id } ∷ [];
        i = g.i + 1;
        state = s4;
      }

  -- `randint(1, max_amount * 100)` raises on an empty range.
  unfoldable pub emit_created : ℕ → ℕ → rng.State → Gen → Result Gen
  emit_created max_amount time s g =
      if max_amount * 100 == 0 then raise value_error else ok (add_created max_amount time s g)

  -- `created_pool and rng.random() < cancel_ratio`: nothing is drawn for an empty pool.
  abbrev pub choose : List Created → rng.State → Bool × rng.State
  choose [] s = (false, s)
  choose (c ∷ pool) s = rng.cancels s

  module _ (cfg : Config) (start_ms max_amount : ℕ) where
    unfoldable pub iteration : Gen → Result Gen
    iteration g =
        if cfg.lateness_window_ms == 0
        then raise value_error
        else (let (jitter, s1) = rng.randint 0 (cfg.lateness_window_ms - 1) g.state in
            let time = start_ms + g.i * step_ms + jitter in
            let (cancel, s2) = choose g.created_pool s1 in
            if cancel then emit_cancelled time s2 g else emit_created max_amount time s2 g)

    abbrev pub after_iteration :
        Result Gen → (Gen → Option (Result (List OrderEvent))) → Option (Result (List OrderEvent))
    after_iteration (ok g) next = next g
    after_iteration (raise x) next = some (raise x)

    -- `while len(events) < n`; `none` means that the fuel ran out.
    unfoldable pub loop : ℕ → ℕ → Gen → Option (Result (List OrderEvent))
    loop zero n g = none
    loop (suc fuel) n g =
        let next = after_iteration (iteration g) (loop fuel n) in
        if ltb (length g.events) n then next else some (ok g.events)

    unfoldable pub build_events : ℕ → ℕ → Option (Result (List OrderEvent))
    build_events n seed =
        loop (suc n) n (record { events = []; created_pool = []; i = 0; state = rng.seeded seed })

pub record GenSummary : Type 0 where
  pub total : ℕ
  pub created : ℕ
  pub cancelled : ℕ
  pub gmv : ℤ

-- The summary of `generate_and_produce`; the file's path is left out.
unfoldable pub summarize : List OrderEvent → Result GenSummary
summarize events =
    let created = length (filter (λ (e : OrderEvent). str_eq e.event_type order_created) events) in
    do
      gmv ← sum_deltas (pos 0) events
      ok (record {
        total = length events;
        created = created;
        cancelled = length events - created;
        gmv = gmv;
      })

-- `produce` sends each event with its order's id as the key: the broker's partitioner gives each key
-- its partition, and keeps the order of what it is sent.
unfoldable pub produced : (String → ℕ) → List OrderEvent → ℕ → List OrderEvent
produced partition_of events p = filter (λ (e : OrderEvent). partition_of e.order_id == p) events
