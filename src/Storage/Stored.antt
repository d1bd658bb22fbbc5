-- ===== src/Storage/Stored.antt =====
-- What `store_event` leaves behind, and what it answers.
use mathlib.Core.Logic.{◌≢◌}
use mathlib.Core.Path.{subst}
use package.text.Mathlib.TextLemmas.{append_assoc}
use streaming_lab.Prelude.{
  ℕ, zero, suc, ◌+◌, ◌<◌, ◌≡◌, refl, sym, ◌∙◌, ap, String, true, Option, none, some, List, [], ◌∷◌,
  some-eq, Bool-cases, inl, inr,
}
use streaming_lab.Results.{Result, ok, raise}
use streaming_lab.Gateway.Value.{Value, text, object, Event, fields_of}
use streaming_lab.Storage.Services.{
  Attempt, done, service_error, other_error, Json, Command, setex, Redis, ClickHouse, Statement, S3,
  Elastic,
}
use streaming_lab.Storage.Hot.{
  hot_get, hot_put, increment_counter, expire_after, then_expire, put_bytes,
}
use streaming_lab.Storage.Warm.{insert_events}
use streaming_lab.Storage.Cold.{is_truthy}
use streaming_lab.Storage.Search.{index_events}
use streaming_lab.Storage.Tiers.{
  Clock, Tiers, got, event_key, count_key, user_key, count_user, store_hot, store_warm,
  store_search, after_hot, store_event,
}
use streaming_lab.Storage.Expiry.{value_at-hot_put, hot_get-value_at, event≢events}

module _ (json : Json) (redis : Redis json.Bytes) (t : ℕ) (k : String) where
  expire_after-frame :
      (now : ℕ) (j : String) (ttl : Option ℕ) (c : redis.Cluster)
      → j ≢ k
      → redis.value_at t k (expire_after json redis now j ttl c).1 ≡ redis.value_at t k c
  expire_after-frame now j none c apart = refl
  expire_after-frame now j (some zero) c apart = refl
  expire_after-frame now j (some (suc ttl)) c apart = redis.expire-frame now t j k (suc ttl) c apart

  then_expire-frame {ℓ} :
      {A : Type ℓ} (now : ℕ) (j : String) (ttl : Option ℕ) (default : A)
      (p : Attempt A × redis.Cluster)
      → j ≢ k
      → redis.value_at t k (then_expire json redis now j ttl default p).1 ≡ redis.value_at t k p.1
  then_expire-frame now j ttl default (done a, c) apart = expire_after-frame now j ttl c apart
  then_expire-frame now j ttl default (service_error, c) apart = refl
  then_expire-frame now j ttl default (other_error, c) apart = refl

  increment_counter-frame :
      (now : ℕ) (j : String) (amount : ℕ) (ttl : Option ℕ) (c : redis.Cluster)
      → j ≢ k
      → redis.value_at t k (increment_counter json redis now j amount ttl c).1
        ≡ redis.value_at t k c
  unfolding increment_counter
  increment_counter-frame now j amount ttl c apart =
      then_expire-frame now j ttl 0 (redis.incr now j amount c) apart
      ∙ redis.incr-frame now t j k amount c apart

module _ (json : Json) (redis : Redis json.Bytes) (clickhouse : ClickHouse) (s3 : S3 json.Bytes)
    (elastic : Elastic) where
  count_key-apart :
      (clock : Clock) (event : Event)
      → count_key json redis clickhouse s3 elastic clock
        ≢ event_key json redis clickhouse s3 elastic event
  count_key-apart clock event h =
      event≢events _ _ (sym h ∙ append_assoc "events:" "count:" clock.minute)

  user_key-apart :
      (clock : Clock) (event : Event)
      → user_key json redis clickhouse s3 elastic clock event
        ≢ event_key json redis clickhouse s3 elastic event
  user_key-apart clock event h = event≢events _ _ (sym h ∙ append_assoc "events:" "user:" _)

  count_user-frame :
      (t : ℕ) (clock : Clock) (event : Event) (p : Result ℕ × redis.Cluster)
      → redis.value_at t
          (event_key json redis clickhouse s3 elastic event)
          (count_user json redis clickhouse s3 elastic clock event p).1
        ≡ redis.value_at t (event_key json redis clickhouse s3 elastic event) p.1
  count_user-frame t clock event (raise x, c) = refl
  count_user-frame t clock event (ok n, c) =
      elim (Bool-cases (is_truthy (got json redis clickhouse s3 elastic "user_id" event))) [
        | inl has_user ↦ rw has_user (
            increment_counter-frame json redis t _ clock.now _ 1 (some 3600) c
              (user_key-apart clock event))
        | inr no_user ↦ rw no_user refl
      ]

  hot-after_hot :
      (clock : Clock) (event : Event) (tiers : Tiers json redis clickhouse s3 elastic)
      (p : Result (Unit {0}) × Option redis.Cluster)
      → (after_hot json redis clickhouse s3 elastic clock event tiers p).1.hot ≡ p.1
  hot-after_hot clock event tiers (raise x, hot) = refl
  hot-after_hot clock event tiers (ok u, hot) = refl

  -- the hot tier after an event: the event's own command, and then the counters
  abbrev hot_end : Clock → Event → redis.Cluster → redis.Cluster
  hot_end clock event c =
      (count_user json redis clickhouse s3 elastic clock event (
        increment_counter json redis clock.now (count_key json redis clickhouse s3 elastic clock) 1
          (some 3600)
          (hot_put json redis clock.now (event_key json redis clickhouse s3 elastic event)
            (object (fields_of event)) (some 3600) c).1)).1

  hot-store_event :
      (clock : Clock) (event : Event) (tiers : Tiers json redis clickhouse s3 elastic)
      (c : redis.Cluster)
      → tiers.hot ≡ some c
      → (store_event json redis clickhouse s3 elastic clock event tiers).1.hot
        ≡ some (hot_end clock event c)
  unfolding store_event store_hot
  hot-store_event clock event tiers c configured =
      hot-after_hot clock event tiers
        (store_hot json redis clickhouse s3 elastic clock event tiers.hot)
      ∙ ap
          (λ (h : Option redis.Cluster).
            (store_hot json redis clickhouse s3 elastic clock event h).1)
          configured

  value_at-hot_end :
      (t : ℕ) (clock : Clock) (event : Event) (c : redis.Cluster)
      → let key = event_key json redis clickhouse s3 elastic event in
        redis.value_at t key (hot_end clock event c)
        ≡ redis.value_at t key
            (hot_put json redis clock.now key (object (fields_of event)) (some 3600) c).1
  value_at-hot_end t clock event c =
      count_user-frame t clock event _
      ∙ increment_counter-frame json redis t _ clock.now _ 1 (some 3600) _
          (count_key-apart clock event)

  -- When the hot tier has acknowledged an event, whatever becomes of the counters and of the other
  -- tiers, a read of its key that Redis answers within the hour gives the event.
  pub store_event-hot_get :
      (clock : Clock) (event : Event) (tiers : Tiers json redis clickhouse s3 elastic)
      (c c' : redis.Cluster) (t : ℕ) (o : Option json.Bytes)
      → let key = event_key json redis clickhouse s3 elastic event in
        let value = object (fields_of event) in
        tiers.hot ≡ some c
        → (hot_put json redis clock.now key value (some 3600) c).0 ≡ true
        → (store_event json redis clickhouse s3 elastic clock event tiers).1.hot ≡ some c'
        → t < clock.now + 3600
        → (redis.get t key c').0 ≡ done o
        → (hot_get json redis t key c').0 ≡ some value
  store_event-hot_get clock event tiers c c' t o configured stored after alive answered =
      let key = event_key json redis clickhouse s3 elastic event in
      let value = object (fields_of event) in
      let (b, dumped, there) =
        value_at-hot_put json redis clock.now t 3599 key value c stored alive in
      let same : hot_end clock event c ≡ c' =
        some-eq _ _ (sym (hot-store_event clock event tiers c configured) ∙ after) in
      hot_get-value_at json redis t key value b c' o dumped
        (subst (λ (x : redis.Cluster). redis.value_at t key x ≡ some b) same
          (value_at-hot_end t clock event c ∙ there))
        answered

-- Services that refuse every call with an error of their own, and change nothing.
pub record IsDown (json : Json) (redis : Redis json.Bytes) (clickhouse : ClickHouse)
    (elastic : Elastic) : Type 0 where
  pub commands :
      (now : ℕ) (command : Command json.Bytes) (c : redis.Cluster)
      → redis.command now command c ≡ (service_error, c)
  pub counters :
      (now : ℕ) (k : String) (n : ℕ) (c : redis.Cluster) → redis.incr now k n c ≡ (service_error, c)
  pub statements :
      (s : Statement) (c : clickhouse.Server) → clickhouse.execute s c ≡ (service_error, c)
  pub bulks :
      (name : String) (items : List (Value × Value)) (c : elastic.Index)
      → elastic.bulk name items c ≡ (service_error, c)

module _ (json : Json) (redis : Redis json.Bytes) (clickhouse : ClickHouse) (s3 : S3 json.Bytes)
    (elastic : Elastic) (down : IsDown json redis clickhouse elastic) where
  put_bytes-down :
      (now : ℕ) (key : String) (o : Option json.Bytes) (ttl : ℕ) (c : redis.Cluster)
      → (put_bytes json redis now key o (some (suc ttl)) c).1 ≡ c
  put_bytes-down now key none ttl c = refl
  put_bytes-down now key (some b) ttl c =
      ap (λ (p : Attempt (Unit {0}) × redis.Cluster). p.1)
        (down.commands now (setex key (suc ttl) b) c)

  increment_counter-down :
      (now : ℕ) (key : String) (ttl : Option ℕ) (c : redis.Cluster)
      → increment_counter json redis now key 1 ttl c ≡ (ok 0, c)
  unfolding increment_counter
  increment_counter-down now key ttl c =
      ap (then_expire json redis now key ttl 0) (down.counters now key 1 c)

  count_user-down :
      (clock : Clock) (event : Event) (c : redis.Cluster)
      → count_user json redis clickhouse s3 elastic clock event (ok 0, c) ≡ (ok tt, c)
  count_user-down clock event c =
      elim (Bool-cases (is_truthy (got json redis clickhouse s3 elastic "user_id" event))) [
        | inl has_user ↦
            rw
              (
                has_user,
                increment_counter-down clock.now
                    (user_key json redis clickhouse s3 elastic clock event) (some 3600) c,
              )
              refl
        | inr no_user ↦ rw no_user refl
      ]

  store_hot-down :
      (clock : Clock) (event : Event) (h : Option redis.Cluster)
      → store_hot json redis clickhouse s3 elastic clock event h ≡ (ok tt, h)
  unfolding store_hot hot_put
  store_hot-down clock event none = refl
  store_hot-down clock event (some c) =
      let key = event_key json redis clickhouse s3 elastic event in
      let dumped = json.dumps (object (fields_of event)) in
      rw
        (
          put_bytes-down clock.now key dumped 3599 c,
          increment_counter-down clock.now (count_key json redis clickhouse s3 elastic clock)
              (some 3600) c,
          count_user-down clock event c,
        )
        refl

  store_warm-down :
      (clock : Clock) (event : Event) (w : Option (List clickhouse.Server))
      → store_warm json redis clickhouse s3 elastic clock event w ≡ w
  unfolding store_warm insert_events
  store_warm-down clock event none = refl
  store_warm-down clock event (some []) = refl
  store_warm-down clock event (some (server ∷ servers)) = rw down.statements refl

  store_search-down :
      (clock : Clock) (event : Event) (i : Option elastic.Index)
      → store_search json redis clickhouse s3 elastic clock event i ≡ (true, i)
  unfolding store_search index_events
  store_search-down clock event none = refl
  store_search-down clock event (some index) = rw down.bulks refl

  -- When every service refuses every call with an error of its own, `store_event` answers that the
  -- event is stored, and nothing has changed.
  pub store_event_all_down :
      (clock : Clock) (event : Event) (tiers : Tiers json redis clickhouse s3 elastic)
      → store_event json redis clickhouse s3 elastic clock event tiers ≡ (true, tiers)
  unfolding store_event
  store_event_all_down clock event tiers =
      rw
        (
          store_hot-down clock event tiers.hot,
          store_warm-down clock event tiers.warm,
          store_search-down clock event tiers.searched,
        )
        refl
