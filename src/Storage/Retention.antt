-- ===== src/Storage/Retention.antt =====
-- The retention of naive_mode/hybrid_source_of_truth.py, and the plan of a replay. Times are seconds
-- since the least time that `datetime` has; a difference below it raises.
use streaming_lab.Prelude.{
  ℕ, ◌+◌, ◌-◌, ◌*◌, ◌≤◌, ◌≡◌, min, max, ◌&&◌, Option, none, some, ltb, leb, arith, if◌then◌else◌,
}

pub record RetentionPolicy : Type 0 where
  pub kafka_days : ℕ
  pub clickhouse_months : ℕ
  pub cold_storage_years : ℕ

abbrev pub default_policy : RetentionPolicy
default_policy = record { kafka_days = 7; clickhouse_months = 12; cold_storage_years = 7 }

abbrev pub day_seconds : ℕ
day_seconds = 86400

-- `current - timedelta(days=days)`
unfoldable pub days_before : ℕ → ℕ → Option ℕ
days_before days current =
    if ltb current (days * day_seconds) then none else some (current - days * day_seconds)

abbrev pub kafka_cutoff : RetentionPolicy → ℕ → Option ℕ
kafka_cutoff policy current = days_before policy.kafka_days current

abbrev pub clickhouse_cutoff : RetentionPolicy → ℕ → Option ℕ
clickhouse_cutoff policy current = days_before (policy.clickhouse_months * 30) current

-- What each source is asked for: the events from the first time on, before the second.
abbrev pub Window : Type 0
Window = ℕ × ℕ

unfoldable pub kafka_window : ℕ → ℕ → ℕ → Option Window
kafka_window start end_ recent = if ltb recent end_ then some (max start recent, end_) else none

unfoldable pub clickhouse_window : ℕ → ℕ → ℕ → ℕ → Option Window
clickhouse_window start end_ recent medium =
    if ltb start recent && ltb medium end_ then some (max start medium, min end_ recent) else none

unfoldable pub cold_window : ℕ → ℕ → ℕ → Option Window
cold_window start end_ medium = if ltb start medium then some (start, min end_ medium) else none

abbrev pub covers : Option Window → ℕ → ℕ
covers none t = 0
covers (some (a, b)) t = if leb a t && ltb t b then 1 else 0

-- For cutoffs in their order, every time of a replay is asked of exactly one source, and no other
-- time of any: recent times of Kafka, times between the cutoffs of ClickHouse, and older times of the
-- cold storage.
pub plan_exact :
    (start end_ recent medium t : ℕ)
    → medium ≤ recent
    → (covers (kafka_window start end_ recent) t
          + covers (clickhouse_window start end_ recent medium) t
          + covers (cold_window start end_ medium) t
        ≡ (if leb start t && ltb t end_ then 1 else 0))
      × (covers (kafka_window start end_ recent) t
          ≡ (if leb start t && ltb t end_ && leb recent t then 1 else 0))
      × (covers (cold_window start end_ medium) t
          ≡ (if leb start t && ltb t end_ && ltb t medium then 1 else 0))
unfolding kafka_window clickhouse_window cold_window
plan_exact start end_ recent medium t order = (ground arith, ground arith, ground arith)

pub record Status : Type 0 where
  pub policy : RetentionPolicy
  pub kafka_cutoff_date : ℕ
  pub clickhouse_cutoff_date : ℕ

-- `get_retention_status`; the texts of its coverage only repeat the policy
unfoldable pub get_retention_status : RetentionPolicy → ℕ → Option Status
get_retention_status policy current = elim (kafka_cutoff policy current) [
  | none ↦ none
  | some recent ↦ elim (clickhouse_cutoff policy current) [
    | none ↦ none
    | some medium ↦
        some
          (record { policy = policy; kafka_cutoff_date = recent; clickhouse_cutoff_date = medium })
  ]
]

-- What `cleanup_expired_data` deletes from ClickHouse at a time: the events older than the result.
abbrev pub deleted_before : RetentionPolicy → ℕ → Option ℕ
deleted_before = clickhouse_cutoff
