-- ===== src/Storage/Memory.antt =====
-- Services in memory: a Redis that answers every call, and services that refuse every call.
use streaming_lab.Prelude.{
  ℕ, ◌+◌, ◌<◌, ◌≡◌, refl, sym, String, true, Option, none, some, List, [], ◌∷◌, map, ltb, lt→ltb,
  str_eq, eq_iff, if◌then◌else◌,
}
use streaming_lab.Gateway.Value.{Value, text}
use streaming_lab.Storage.Services.{
  done, service_error, other_error, Json, Command, set, setex, Redis, ClickHouse, S3, Elastic,
}

-- Values are their own bytes.
abbrev pub plain : Json
plain = record {
  Bytes = Value;
  dumps = λ v. some v;
  loads = λ b. some b;
  is_truthy = λ b. true;
  decoded = λ b. "";
  stringify = λ v. "";
  encoded = λ s. text s;
  repr = λ f. "";
  loads-dumps = λ v b h. sym h;
  is_truthy-dumps = λ v b h. refl;
}

abbrev pub Contents : Type 0
Contents = ℕ → String → Option Value

abbrev pub put_until : ℕ → String → Value → Contents → Contents
put_until end k v c t q = if str_eq k q then (if ltb t end then some v else none) else c t q

abbrev pub command_on : ℕ → Command Value → Contents → Contents
command_on now (set k v) c t q = if str_eq k q then some v else c t q
command_on now (setex k ttl v) c t q = put_until (now + ttl) k v c t q

abbrev pub commands_on : ℕ → List (Command Value) → Contents → Contents
commands_on now [] c = c
commands_on now (command ∷ commands) c = commands_on now commands (command_on now command c)

pub done-eq {ℓ} : {A : Type ℓ} (a b : A) → done a ≡ done b → a ≡ b
done-eq a b h = cc

str_eq_refl : (s : String) → str_eq s s ≡ true
str_eq_refl s = (eq_iff s s).1 refl

pub setex_lem :
    (now t : ℕ) (k : String) (ttl : ℕ) (b : Value) (c : Contents)
    → t < now + ttl
    → command_on now (setex k ttl b) c t k ≡ some b
setex_lem now t k ttl b c h = rw (str_eq_refl k, lt→ltb t (now + ttl) h) refl

-- Counters are not kept, and nothing else fails.
abbrev pub memory_redis : Redis Value
memory_redis = record {
  Cluster = Contents;
  value_at = λ t k c. c t k;
  get = λ now k c. (done (c now k), c);
  mget = λ now ks c. (done (map (λ k. c now k) ks), c);
  command = λ now command c. (done tt, command_on now command c);
  execute = λ now commands c. (done (map (λ command. true) commands), commands_on now commands c);
  delete = λ now k c. (done 1, λ t q. if str_eq k q then none else c t q);
  incr = λ now k n c. (done n, c);
  expire = λ now k ttl c. (done tt, c);
  zadd = λ now k member score c. (done 1, c);
  get-done = λ now k c o h. sym (done-eq (c now k) o h);
  mget-done = λ now ks c os h. sym (done-eq (map (λ k. c now k) ks) os h);
  setex-done = λ now t k ttl b c h lt. setex_lem now t k ttl b c lt;
  incr-frame = λ now t j k n c h. refl;
  expire-frame = λ now t j k ttl c h. refl;
}

pub no_answer {ℓ κ} : {A : Type ℓ} {P : Type κ} (a : A) → service_error ≡ done a → P
no_answer a h = cc

-- A Redis that refuses every call.
abbrev pub down_redis : Redis Value
down_redis = record {
  Cluster = Contents;
  value_at = λ t k c. c t k;
  get = λ now k c. (service_error, c);
  mget = λ now ks c. (service_error, c);
  command = λ now command c. (service_error, c);
  execute = λ now commands c. (service_error, c);
  delete = λ now k c. (service_error, c);
  incr = λ now k n c. (service_error, c);
  expire = λ now k ttl c. (service_error, c);
  zadd = λ now k member score c. (service_error, c);
  get-done = λ now k c o h. no_answer o h;
  mget-done = λ now ks c os h. no_answer os h;
  setex-done = λ now t k ttl b c h lt. no_answer tt h;
  incr-frame = λ now t j k n c h. refl;
  expire-frame = λ now t j k ttl c h. refl;
}

abbrev pub down_clickhouse : ClickHouse
down_clickhouse = record { Server = Unit {0}; Answer = ℕ; execute = λ s c. (service_error, c) }

-- A ClickHouse that answers every statement with the same rows.
abbrev pub two_rows : ClickHouse
two_rows = record { Server = Unit {0}; Answer = ℕ; execute = λ s c. (done (1 ∷ 2 ∷ []), c) }

-- An S3 client that takes no positional argument.
abbrev pub strict_s3 : S3 Value
strict_s3 = record { Store = List Value; positional = λ request c. (other_error, c) }

abbrev pub down_elastic : Elastic
down_elastic = record {
  Index = Unit {0};
  Found = Unit {0};
  bulk = λ name items c. (service_error, c);
  search = λ name query c. (service_error, c);
}
