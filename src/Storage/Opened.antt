-- ===== src/Storage/Opened.antt =====
-- A storage that has been opened has the tiers that its configuration names, and no other.
use streaming_lab.Prelude.{
  suc, ◌≡◌, refl, ap, ◌⊎◌, inl, inr, String, Option, none, some, List, [], ◌∷◌, length, is_some,
  or_else,
}
use streaming_lab.Results.{Result, ok, raise, Fault, ◌>>=◌}
use streaming_lab.Storage.Services.{Json, Redis, ClickHouse, query, S3, Elastic}
use streaming_lab.Storage.Tiers.{Tiers}
use streaming_lab.Storage.Opening.{
  StorageConfig, Connect, raised, tested, configured, open_hot, open_clients, open_warm, open_cold,
  open_search, initialize,
}

-- A call raises, or its result is as `P` says.
abbrev pub Ends {ℓ κ} : {A : Type ℓ} → (A → Type κ) → Result A → Type (ℓ ⊔ κ)
Ends {A = A} P r = ((x : Fault) × (r ≡ raise x)) ⊎ ((a : A) × ((r ≡ ok a) × P a))

-- One call after the other.
chain {ℓ κ μ ν} :
    {A : Type ℓ} {B : Type κ} {P : A → Type μ} {Q : B → Type ν} (r : Result A) (f : A → Result B)
    → Ends P r
    → ((a : A) → P a → Ends Q (f a))
    → Ends Q (r >>= f)
chain r f (inl (x, failed)) h = inl (x, rw failed refl)
chain r f (inr (a, (made, holds))) h = rw made (h a holds)

anything {ℓ} : {A : Type ℓ} (r : Result A) → Ends (λ a. Unit {0}) r
anything (ok a) = inr (a, (refl, tt))
anything (raise x) = inl (x, refl)

-- A tier is there exactly when the configuration names it.
configured-Ends {ℓ κ} :
    {A : Type ℓ} {C : Type κ} (start : A → Result C) (named : Option A)
    → Ends (λ o. is_some o ≡ is_some named) (configured start named)
configured-Ends start none = inr (none, (refl, refl))
configured-Ends start (some a) =
    chain (start a) (λ c. ok (some c)) (anything (start a)) (λ c h. inr (some c, (refl, refl)))

module _ (json : Json) (redis : Redis json.Bytes) (clickhouse : ClickHouse) (s3 : S3 json.Bytes)
    (elastic : Elastic) (connect : Connect json.Bytes redis clickhouse s3 elastic) where
  open_clients-Ends :
      (database : String) (hosts : List String)
      → Ends
          (λ cs. length cs ≡ length hosts)
          (open_clients json redis clickhouse s3 elastic connect database hosts)
  unfolding open_clients
  open_clients-Ends database [] = inr ([], (refl, refl))
  open_clients-Ends database (host ∷ hosts) =
      chain (raised (connect.clickhouse_client host database)) _ (anything _) (λ c h.
        chain (tested (clickhouse.execute (query "SELECT 1" []) c)) _ (anything _) (λ client g.
          chain (open_clients json redis clickhouse s3 elastic connect database hosts) _
            (open_clients-Ends database hosts)
            (λ clients long. inr (client ∷ clients, (refl, ap suc long)))))

  -- one client for every host, and none where the tier is not named
  abbrev pub Fits : Option (List String × Option String) → Option (List clickhouse.Server) → Type 0
  Fits none none = Unit
  Fits (some (hosts, database)) (some clients) = length clients ≡ length hosts
  Fits none (some clients) = ⊥
  Fits (some named) none = ⊥

  warm_cases :
      (named : Option (List String × Option String))
      → Ends (Fits named) (configured (open_warm json redis clickhouse s3 elastic connect) named)
  unfolding open_warm
  warm_cases none = inr (none, (refl, tt))
  warm_cases (some (hosts, database)) =
      chain (open_warm json redis clickhouse s3 elastic connect (hosts, database)) _
        (open_clients-Ends (or_else database "analytics") hosts)
        (λ clients long. inr (some clients, (refl, long)))

  -- The tiers of a storage that has been opened with a configuration.
  abbrev pub Opened : StorageConfig → Tiers json redis clickhouse s3 elastic → Type 0
  Opened config tiers =
      (is_some tiers.hot ≡ is_some config.hot_storage)
      × (Fits config.warm_storage tiers.warm
          × ((is_some tiers.cold ≡ is_some config.cold_storage)
              × (is_some tiers.searched ≡ is_some config.search_storage)))

  pub initialize-Opened :
      (config : StorageConfig)
      → Ends (Opened config) (initialize json redis clickhouse s3 elastic connect config)
  unfolding initialize
  initialize-Opened config =
      let start =
        configured (open_hot json redis clickhouse s3 elastic connect) config.hot_storage in
      chain start _
        (configured-Ends (open_hot json redis clickhouse s3 elastic connect) config.hot_storage)
        (λ hot h.
          chain
            (configured (open_warm json redis clickhouse s3 elastic connect) config.warm_storage) _
            (warm_cases config.warm_storage)
            (λ warm w.
              chain
                (configured (open_cold json redis clickhouse s3 elastic connect)
                  config.cold_storage)
                _
                (configured-Ends (open_cold json redis clickhouse s3 elastic connect)
                  config.cold_storage)
                (λ cold c.
                  chain
                    (configured (open_search json redis clickhouse s3 elastic connect)
                      config.search_storage)
                    _
                    (configured-Ends (open_search json redis clickhouse s3 elastic connect)
                      config.search_storage)
                    (λ searched s. inr (
                      record { hot = hot; warm = warm; cold = cold; searched = searched },
                      (refl, (h, (w, (c, s)))),
                    )))))
