-- ===== src/Storage/Expiry.antt =====
-- What is read back from the hot tier, and until when.
use mathlib.Core.Logic.{◌≢◌}
use Prim.Native.Char.{code}
use text.Mathlib.TextLemmas.{cons-append, append_assoc, append_cancel_left, head-eq_of_cons-eq}
use streaming_lab.Prelude.{
  ℕ, suc, ◌+◌, ◌<◌, ◌≡◌, refl, sym, ◌∙◌, ap, String, Bool, true, false, Option, none, some, List,
  [], ◌∷◌, map, str_eq, arith, Bool-cases, inl, inr, if◌then◌else◌, string_eq, eq_iff,
}
use streaming_lab.Dict.{Dict, lookup}
use streaming_lab.Dict.Laws.{lookup-insert}
use streaming_lab.Results.{ok}
use streaming_lab.Gateway.Value.{Value, ◌<>◌}
use streaming_lab.Storage.Services.{
  Attempt, done, service_error, other_error, on_any, attempt_map, Json, setex, Redis,
}
use streaming_lab.Storage.Hot.{
  read_value, hot_get, put_bytes, hot_put, loaded_or_text, add_value, collect, hot_batch_get,
}

module _ (json : Json) (redis : Redis json.Bytes) where
  put_bytes-done :
      (now ttl : ℕ) (key : String) (b : json.Bytes) (c : redis.Cluster)
      → (put_bytes json redis now key (some b) (some (suc ttl)) c).0 ≡ true
      → (redis.command now (setex key (suc ttl) b) c).0 ≡ done tt
  put_bytes-done now ttl key b c h = answered (redis.command now (setex key (suc ttl) b) c).0 h
    where
      answered :
          (a : Attempt (Unit {0})) → on_any false (attempt_map (λ u. true) a) ≡ true → a ≡ done tt
      answered (done u) h = refl
      answered service_error h = cc
      answered other_error h = cc

  put_bytes-value_at :
      (now t ttl : ℕ) (key : String) (o : Option json.Bytes) (c : redis.Cluster)
      → (put_bytes json redis now key o (some (suc ttl)) c).0 ≡ true
      → t < now + suc ttl
      → (b : json.Bytes) × (o ≡ some b)
        × (redis.value_at t key (put_bytes json redis now key o (some (suc ttl)) c).1 ≡ some b)
  put_bytes-value_at now t ttl key none c stored alive = cc
  put_bytes-value_at now t ttl key (some b) c stored alive = (
    b,
    refl,
    redis.setex-done now t key (suc ttl) b c (put_bytes-done now ttl key b c stored) alive,
  )

  -- after an acknowledged put, the bytes are there until they expire
  pub value_at-hot_put :
      (now t ttl : ℕ) (key : String) (v : Value) (c : redis.Cluster)
      → (hot_put json redis now key v (some (suc ttl)) c).0 ≡ true
      → t < now + suc ttl
      → (b : json.Bytes) × (json.dumps v ≡ some b)
        × (redis.value_at t key (hot_put json redis now key v (some (suc ttl)) c).1 ≡ some b)
  unfolding hot_put
  value_at-hot_put now t ttl key v c stored alive =
      put_bytes-value_at now t ttl key (json.dumps v) c stored alive

  -- what the client finds, `hot_get` decodes
  pub hot_get-value_at :
      (now : ℕ) (key : String) (v : Value) (b : json.Bytes) (c : redis.Cluster)
      (o : Option json.Bytes)
      → json.dumps v ≡ some b
      → redis.value_at now key c ≡ some b
      → (redis.get now key c).0 ≡ done o
      → (hot_get json redis now key c).0 ≡ some v
  unfolding hot_get
  hot_get-value_at now key v b c o dumped there answered =
      let found : o ≡ some b = redis.get-done now key c o answered ∙ there in
      rw (answered, found, json.is_truthy-dumps v b dumped) (json.loads-dumps v b dumped)

  abbrev pub listed : String → List String → Bool
  listed k [] = false
  listed k (j ∷ ks) = if str_eq j k then true else listed k ks

  -- what `add_value` makes of the entry of its own key
  abbrev over : Option json.Bytes → Option Value → Option Value
  over none old = old
  over (some b) old =
      if json.is_truthy b then some (loaded_or_text json redis b (json.loads b)) else old

  lookup-add_value :
      (j k : String) (o : Option json.Bytes) (d : Dict String Value)
      → lookup k (add_value json redis j o d)
        ≡ (if str_eq j k then over o (lookup k d) else lookup k d)
  lookup-add_value j k none d = ground arith
  lookup-add_value j k (some b) d =
      ground (arith, lookup-insert j k (loaded_or_text json redis b (json.loads b)) d)

  over-over : (o : Option json.Bytes) (old : Option Value) → over o (over o old) ≡ over o old
  over-over none old = refl
  over-over (some b) old = ground arith

  over_once :
      (b : Bool) (o : Option json.Bytes) (old : Option Value)
      → (if b then over o (over o old) else over o old) ≡ over o old
  over_once true o old = over-over o old
  over_once false o old = refl

  same_value :
      (o : Option json.Bytes)
      → ((b : json.Bytes) → o ≡ some b → (v : Value) × (json.loads b ≡ some v))
      → over o none ≡ read_value json redis o
  same_value none is_json = refl
  same_value (some b) is_json = let (v, e) = is_json b refl in ground (arith, e)

  lookup-collect :
      (f : String → Option json.Bytes) (k : String) (keys : List String) (d : Dict String Value)
      → lookup k (collect json redis keys (map f keys) d)
        ≡ (if listed k keys then over (f k) (lookup k d) else lookup k d)
  unfolding collect
  lookup-collect f k [] d = refl
  lookup-collect f k (j ∷ keys) d =
      lookup-collect f k keys (add_value json redis j (f j) d) ∙ elim (Bool-cases (str_eq j k)) [
        | inl same ↦
            rw (lookup-add_value j k (f j) d, same)
              (ap
                  (λ (o : Option json.Bytes).
                    if listed k keys then over (f k) (over o (lookup k d)) else over o (lookup k d))
                  (ap f ((eq_iff j k).0 same))
                ∙ over_once (listed k keys) (f k) (lookup k d))
        | inr other ↦ rw (lookup-add_value j k (f j) d, other) refl
      ]

  -- the keys and the values of a call that Redis answered
  pub hot_batch_get-done :
      (now : ℕ) (keys : List String) (c : redis.Cluster) (os : List (Option json.Bytes))
      (k : String)
      → (redis.mget now keys c).0 ≡ done os
      → (d : Dict String Value) × ((hot_batch_get json redis now keys c).0 ≡ ok d)
        × (lookup k d ≡ (if listed k keys then over (redis.value_at now k c) none else none))
  unfolding hot_batch_get lookup
  hot_batch_get-done now keys c os k answered = (
    collect json redis keys os [],
    rw answered refl,
    ap (λ (xs : List (Option json.Bytes)). lookup k (collect json redis keys xs []))
          (redis.mget-done now keys c os answered)
        ∙ lookup-collect (λ j. redis.value_at now j c) k keys [],
  )

  -- Reading many keys at once is reading each: for every key of a batch that Redis answers, the entry
  -- is what a single read gives, where what is stored under the key is JSON.
  pub hot_batch_get-hot_get :
      (now : ℕ) (keys : List String) (c : redis.Cluster) (os : List (Option json.Bytes))
      (o : Option json.Bytes) (k : String)
      → (redis.mget now keys c).0 ≡ done os
      → (redis.get now k c).0 ≡ done o
      → listed k keys ≡ true
      → ((b : json.Bytes) → redis.value_at now k c ≡ some b → (v : Value) × (json.loads b ≡ some v))
      → (d : Dict String Value) × ((hot_batch_get json redis now keys c).0 ≡ ok d)
        × (lookup k d ≡ (hot_get json redis now k c).0)
  unfolding hot_get
  hot_batch_get-hot_get now keys c os o k all one there is_json =
      let (d, answered, entry) = hot_batch_get-done now keys c os k all in
      (
        d,
        answered,
        entry
            ∙ rw (there, one, redis.get-done now k c o one)
                (same_value (redis.value_at now k c) is_json),
      )

module _ where
  -- Keys with these prefixes are different, whatever follows.
  pub event≢events : (x y : String) → "event:" <> x ≢ "events:" <> y
  event≢events x y h =
      let tails : ":" <> x ≡ "s:" <> y =
        append_cancel_left "event" _ _
          (sym (append_assoc "event" ":" x) ∙ h ∙ append_assoc "event" "s:" y) in
      let heads = head-eq_of_cons-eq (sym (cons-append _ _ x) ∙ tails ∙ cons-append _ _ y) in
      let codes = ap code heads in absurd (omega (arith, codes))
