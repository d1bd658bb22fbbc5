-- ===== src/Storage/Hot.antt =====
-- `HotStorage` of naive_mode/multi_tier_storage.py, at a time `now`.
use streaming_lab.Prelude.{
  ℕ, zero, suc, String, Bool, true, false, Option, none, some, List, [], ◌∷◌, filter, length, ltb,
  if◌then◌else◌, string_eq,
}
use streaming_lab.Dict.{Dict, insert}
use streaming_lab.Results.{Result, ok, raise, uncaught}
use streaming_lab.Gateway.Value.{Value, text}
use streaming_lab.Storage.Services.{
  Attempt, done, service_error, other_error, on_service, on_any, attempt_map, Json, Command, set,
  setex, Redis,
}

module _ (json : Json) (redis : Redis json.Bytes) where
  -- `if value: return orjson.loads(value)`; a text that is no JSON raises, and is caught
  abbrev pub read_value : Option json.Bytes → Option Value
  read_value none = none
  read_value (some b) = if json.is_truthy b then json.loads b else none

  unfoldable pub hot_get : ℕ → String → redis.Cluster → Option Value × redis.Cluster
  hot_get now key c =
      let (answer, c') = redis.get now key c in (on_any none (attempt_map read_value answer), c')

  -- `if ttl`: a time to live of 0 counts as none.
  abbrev pub write_command : String → json.Bytes → Option ℕ → Command json.Bytes
  write_command key b none = set key b
  write_command key b (some zero) = set key b
  write_command key b (some (suc ttl)) = setex key (suc ttl) b

  abbrev pub put_bytes :
      ℕ → String → Option json.Bytes → Option ℕ → redis.Cluster → Bool × redis.Cluster
  put_bytes now key none ttl c = (false, c)
  put_bytes now key (some b) ttl c =
      let (answer, c') = redis.command now (write_command key b ttl) c in
      (on_any false (attempt_map (λ u. true) answer), c')

  unfoldable pub hot_put : ℕ → String → Value → Option ℕ → redis.Cluster → Bool × redis.Cluster
  hot_put now key value ttl c = put_bytes now key (json.dumps value) ttl c

  unfoldable pub hot_delete : ℕ → String → redis.Cluster → Result Bool × redis.Cluster
  hot_delete now key c =
      let (answer, c') = redis.delete now key c in
      (on_service false (attempt_map (λ n. ltb 0 n) answer), c')

  -- the value of one key: a text that is no JSON is kept as text
  abbrev pub loaded_or_text : json.Bytes → Option Value → Value
  loaded_or_text b none = text (json.decoded b)
  loaded_or_text b (some v) = v

  abbrev pub add_value : String → Option json.Bytes → Dict String Value → Dict String Value
  add_value key none d = d
  add_value key (some b) d =
      if json.is_truthy b then insert key (loaded_or_text b (json.loads b)) d else d

  -- `for key, value in zip(keys, values)`
  unfoldable pub collect :
      List String → List (Option json.Bytes) → Dict String Value → Dict String Value
  collect [] values d = d
  collect (key ∷ keys) [] d = d
  collect (key ∷ keys) (value ∷ values) d = collect keys values (add_value key value d)

  unfoldable pub hot_batch_get :
      ℕ → List String → redis.Cluster → Result (Dict String Value) × redis.Cluster
  hot_batch_get now keys c =
      let (answer, c') = redis.mget now keys c in
      (on_service [] (attempt_map (λ values. collect keys values []) answer), c')

  -- the commands of the pipeline; a value that cannot be serialized raises
  unfoldable pub pipeline : List (String × Value) → Option ℕ → Option (List (Command json.Bytes))
  pipeline [] ttl = some []
  pipeline ((key, value) ∷ items) ttl = elim (json.dumps value) [
    | none ↦ none
    | some b ↦ elim (pipeline items ttl) [
      | none ↦ none
      | some commands ↦ some (write_command key b ttl ∷ commands)
    ]
  ]

  abbrev is_true : Bool → Bool
  is_true b = b

  unfoldable pub hot_batch_put :
      ℕ → List (String × Value) → Option ℕ → redis.Cluster → Result ℕ × redis.Cluster
  hot_batch_put now items ttl c = elim (pipeline items ttl) [
    | none ↦ (raise uncaught, c)
    | some commands ↦
        let (answer, c') = redis.execute now commands c in
        (on_service 0 (attempt_map (λ results. length (filter is_true results)) answer), c')
  ]

  -- `if ttl: await expire(key, ttl)`
  abbrev pub expire_after :
      ℕ → String → Option ℕ → redis.Cluster → Attempt (Unit {0}) × redis.Cluster
  expire_after now key none c = (done tt, c)
  expire_after now key (some zero) c = (done tt, c)
  expire_after now key (some (suc ttl)) c = redis.expire now key (suc ttl) c

  -- what follows the counter's own command
  abbrev pub then_expire {ℓ} :
      {A : Type ℓ}
      → ℕ
      → String
      → Option ℕ
      → A
      → Attempt A × redis.Cluster
      → Result A × redis.Cluster
  then_expire now key ttl default (done a, c) =
      let (answer, c') = expire_after now key ttl c in
      (on_service default (attempt_map (λ u. a) answer), c')
  then_expire now key ttl default (service_error, c) = (ok default, c)
  then_expire now key ttl default (other_error, c) = (raise uncaught, c)

  unfoldable pub increment_counter :
      ℕ → String → ℕ → Option ℕ → redis.Cluster → Result ℕ × redis.Cluster
  increment_counter now key amount ttl c = then_expire now key ttl 0 (redis.incr now key amount c)

  abbrev grown : Attempt ℕ × redis.Cluster → Attempt Bool × redis.Cluster
  grown (answer, c) = (attempt_map (λ n. ltb 0 n) answer, c)

  unfoldable pub add_to_sorted_set :
      ℕ → String → ℕ → String → Option ℕ → redis.Cluster → Result Bool × redis.Cluster
  add_to_sorted_set now key score member ttl c =
      then_expire now key ttl false (grown (redis.zadd now key member score c))
