-- ===== src/Storage/Services.antt =====
-- The services behind the tiers, which are not code of this repository: each client is an interface,
-- whose calls change the state of the service and may fail. Times are whole seconds.
use streaming_lab.Prelude.{ℕ, ◌+◌, ◌<◌, ◌≡◌, ◌≢◌, String, Bool, true, Option, some, List, map}
use streaming_lab.Results.{Result, ok, raise, uncaught}
use streaming_lab.Gateway.Value.{Value, Fields, null, number, text, object, str_number}

-- How a call of a client ends: with its result, with an error of the service's own class, or with
-- any other exception.
pub data Attempt {ℓ} (A : Type ℓ) : Type ℓ where
  done : A → Attempt A
  service_error : Attempt A
  other_error : Attempt A

-- `try: ... except ServiceError: return default`
abbrev pub on_service {ℓ} : {A : Type ℓ} → A → Attempt A → Result A
on_service default (done a) = ok a
on_service default service_error = ok default
on_service default other_error = raise uncaught

-- `try: ... except Exception: return default`
abbrev pub on_any {ℓ} : {A : Type ℓ} → A → Attempt A → A
on_any default (done a) = a
on_any default service_error = default
on_any default other_error = default

abbrev pub attempt_map {ℓ κ} : {A : Type ℓ} {B : Type κ} → (A → B) → Attempt A → Attempt B
attempt_map f (done a) = done (f a)
attempt_map f service_error = service_error
attempt_map f other_error = other_error

-- `orjson`, and `json.dumps` of the standard library. What `dumps` writes is read back, and is no
-- empty text.
pub record Json : Type 1 where
  pub Bytes : Type 0
  pub dumps : Value → Option Bytes
  pub loads : Bytes → Option Value
  pub is_truthy : Bytes → Bool
  -- `value.decode('utf-8')`, where texts are UTF-8
  pub decoded : Bytes → String
  pub stringify : Value → String
  -- `text.encode('utf-8')`
  pub encoded : String → Bytes
  -- `str` of a dictionary
  pub repr : Fields → String
  pub loads-dumps : (v : Value) (b : Bytes) → dumps v ≡ some b → loads b ≡ some v
  pub is_truthy-dumps : (v : Value) (b : Bytes) → dumps v ≡ some b → is_truthy b ≡ true

abbrev pub str : Json → Value → String
str json null = "None"
str json (number n) = str_number n
str json (text s) = s
str json (object f) = json.repr f

-- A command of a Redis pipeline.
pub data Command (Bytes : Type 0) : Type 0 where
  set : String → Bytes → Command Bytes
  setex : String → ℕ → Bytes → Command Bytes

-- A Redis cluster at a time: reads leave it as it is, what was set is there until it expires, and a
-- counter or an expiry leaves the other keys alone. Nothing is said of a call that fails.
pub record Redis (Bytes : Type 0) : Type 1 where
  pub Cluster : Type 0
  pub value_at : ℕ → String → Cluster → Option Bytes
  pub get : ℕ → String → Cluster → Attempt (Option Bytes) × Cluster
  pub mget : ℕ → List String → Cluster → Attempt (List (Option Bytes)) × Cluster
  pub command : ℕ → Command Bytes → Cluster → Attempt (Unit {0}) × Cluster
  pub execute : ℕ → List (Command Bytes) → Cluster → Attempt (List Bool) × Cluster
  pub delete : ℕ → String → Cluster → Attempt ℕ × Cluster
  pub incr : ℕ → String → ℕ → Cluster → Attempt ℕ × Cluster
  pub expire : ℕ → String → ℕ → Cluster → Attempt (Unit {0}) × Cluster
  pub zadd : ℕ → String → String → ℕ → Cluster → Attempt ℕ × Cluster
  pub get-done :
      (now : ℕ) (k : String) (c : Cluster) (o : Option Bytes)
      → (get now k c).0 ≡ done o
      → o ≡ value_at now k c
  pub mget-done :
      (now : ℕ) (ks : List String) (c : Cluster) (os : List (Option Bytes))
      → (mget now ks c).0 ≡ done os
      → os ≡ map (λ k. value_at now k c) ks
  pub setex-done :
      (now t : ℕ) (k : String) (ttl : ℕ) (b : Bytes) (c : Cluster)
      → (command now (setex k ttl b) c).0 ≡ done tt
      → t < now + ttl
      → value_at t k (command now (setex k ttl b) c).1 ≡ some b
  pub incr-frame :
      (now t : ℕ) (j k : String) (n : ℕ) (c : Cluster)
      → j ≢ k
      → value_at t k (incr now j n c).1 ≡ value_at t k c
  pub expire-frame :
      (now t : ℕ) (j k : String) (ttl : ℕ) (c : Cluster)
      → j ≢ k
      → value_at t k (expire now j ttl c).1 ≡ value_at t k c

-- A statement for ClickHouse: a text with its parameters, or rows for a table.
pub data Statement : Type 0 where
  query : String → List (String × Value) → Statement
  insert_rows : String → List String → List (List Value) → Statement

pub record ClickHouse : Type 1 where
  pub Server : Type 0
  pub Answer : Type 0
  pub execute : Statement → Server → Attempt (List Answer) × Server

pub data Request (Bytes : Type 0) : Type 0 where
  put_object_request : String → Bytes → List (String × Value) → Request Bytes
  get_object_request : String → Request Bytes
  delete_object_request : String → Request Bytes

-- A method of the S3 client, called with the request as its one positional argument; the body is
-- that of a `get_object`.
pub record S3 (Bytes : Type 0) : Type 1 where
  pub Store : Type 0
  pub positional : Request Bytes → Store → Attempt (Option Bytes) × Store

pub record Elastic : Type 1 where
  pub Index : Type 0
  pub Found : Type 0
  -- `bulk`: for each event its id, to be put into the named index; the status of each, where the
  -- answer has one
  pub bulk : String → List (Value × Value) → Index → Attempt (List (Option ℕ)) × Index
  pub search : String → Value → Index → Attempt Found × Index
