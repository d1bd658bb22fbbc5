-- ===== src/Storage/Opening.antt =====
-- `MultiTierStorage.initialize` and the `initialize` of the tiers. Making a client and testing it are
-- calls of the services, which may raise; every handler logs the exception and raises it again. What a
-- storage that has raised still holds open is not modelled.
use Prim.Native.Char.{code}
use streaming_lab.Prelude.{
  ℕ, String, Bool, Option, none, some, List, [], ◌∷◌, str_eq, or_else, if◌then◌else◌,
}
use streaming_lab.Text.{Text, int_of}
use streaming_lab.Results.{Result, ok, raise, uncaught, value_error, ◌>>=◌}
use streaming_lab.Storage.Services.{
  Attempt, done, service_error, other_error, Json, Redis, ClickHouse, query, S3, Elastic,
}
use streaming_lab.Storage.Tiers.{Tiers}

-- the text before the first colon, and the one after it
unfoldable pub split_colon : String → String × Option String
split_colon String.[] = ("", none)
split_colon (String.◌∷◌ c s) =
    let (before, after) = split_colon s in
    if str_eq (String.◌∷◌ c "") ":" then ("", some s) else (String.◌∷◌ c before, after)

unfoldable pub codes : String → Text
codes String.[] = []
codes (String.◌∷◌ c s) = code c ∷ codes s

abbrev pub port_of : Option String → Result ℕ
port_of none = raise uncaught
port_of (some rest) = elim (int_of (codes (split_colon rest).0)) [
  | none ↦ raise value_error
  | some n ↦ ok n
]

-- `node.split(':')[0]` and `int(node.split(':')[1])` of the first node
unfoldable pub first_node : List String → Result (String × ℕ)
first_node [] = raise uncaught
first_node (node ∷ nodes) =
    let (host, rest) = split_colon node in port_of rest >>= (λ port. ok (host, port))

pub record ColdConfig : Type 0 where
  pub endpoint : String
  pub access_key : String
  pub secret_key : String
  pub bucket : String

-- `config`, with the tiers that it names
pub record StorageConfig : Type 0 where
  pub hot_storage : Option (List String)
  pub warm_storage : Option (List String × Option String)
  pub cold_storage : Option ColdConfig
  pub search_storage : Option (List String)

-- The clients that are made, and the calls that test them. Elasticsearch's `ping` answers whether the
-- cluster is up.
pub record Connect (Bytes : Type 0) (redis : Redis Bytes) (clickhouse : ClickHouse) (s3 : S3 Bytes)
    (elastic : Elastic) : Type 0 where
  pub redis_cluster : String → ℕ → Attempt redis.Cluster
  pub redis_ping : redis.Cluster → Attempt (Unit {0}) × redis.Cluster
  pub clickhouse_client : String → String → Attempt clickhouse.Server
  pub s3_client : String → String → String → Attempt s3.Store
  pub head_bucket : String → s3.Store → Attempt (Unit {0}) × s3.Store
  pub create_bucket : String → s3.Store → Attempt (Unit {0}) × s3.Store
  pub elastic_client : List String → Attempt elastic.Index
  pub elastic_ping : elastic.Index → Attempt Bool × elastic.Index

-- a call whose exceptions are raised again
abbrev pub raised {ℓ} : {A : Type ℓ} → Attempt A → Result A
raised (done a) = ok a
raised service_error = raise uncaught
raised other_error = raise uncaught

-- the client after a test that has not raised
abbrev pub tested {ℓ κ} : {A : Type ℓ} {C : Type κ} → Attempt A × C → Result C
tested (answer, client) = raised answer >>= (λ a. ok client)

-- `if 'tier' in config`
abbrev pub configured {ℓ κ} :
    {A : Type ℓ} {C : Type κ} → (A → Result C) → Option A → Result (Option C)
configured start none = ok none
configured start (some a) = start a >>= (λ c. ok (some c))

module _ (json : Json) (redis : Redis json.Bytes) (clickhouse : ClickHouse) (s3 : S3 json.Bytes)
    (elastic : Elastic) (connect : Connect json.Bytes redis clickhouse s3 elastic) where
  unfoldable pub open_hot : List String → Result redis.Cluster
  open_hot nodes = first_node nodes >>= (λ node.
      raised (connect.redis_cluster node.0 node.1) >>= (λ c. tested (connect.redis_ping c)))

  unfoldable pub open_clients : String → List String → Result (List clickhouse.Server)
  open_clients database [] = ok []
  open_clients database (host ∷ hosts) = raised (connect.clickhouse_client host database) >>= (λ c.
      tested (clickhouse.execute (query "SELECT 1" []) c)
      >>= (λ client. open_clients database hosts >>= (λ clients. ok (client ∷ clients))))

  unfoldable pub open_warm : List String × Option String → Result (List clickhouse.Server)
  open_warm (hosts, database) = open_clients (or_else database "analytics") hosts

  -- `except ClientError: create_bucket`
  abbrev pub ensured : String → Attempt (Unit {0}) × s3.Store → Result s3.Store
  ensured bucket (done u, store) = ok store
  ensured bucket (service_error, store) = tested (connect.create_bucket bucket store)
  ensured bucket (other_error, store) = raise uncaught

  unfoldable pub open_cold : ColdConfig → Result s3.Store
  open_cold cfg =
      raised (connect.s3_client cfg.endpoint cfg.access_key cfg.secret_key)
      >>= (λ store. ensured cfg.bucket (connect.head_bucket cfg.bucket store))

  -- The answer of `ping` is not looked at.
  unfoldable pub open_search : List String → Result elastic.Index
  open_search hosts =
      raised (connect.elastic_client hosts) >>= (λ index. tested (connect.elastic_ping index))

  unfoldable pub initialize : StorageConfig → Result (Tiers json redis clickhouse s3 elastic)
  initialize config = configured open_hot config.hot_storage >>= (λ hot.
      configured open_warm config.warm_storage >>= (λ warm.
        configured open_cold config.cold_storage >>= (λ cold.
          configured open_search config.search_storage >>= (λ searched.
            ok (record { hot = hot; warm = warm; cold = cold; searched = searched })))))
