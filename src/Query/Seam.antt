-- ===== src/Query/Seam.antt =====
-- src/streaming_lab/query/seam.py, query/service.py and realtime/clickhouse.py. The two SQL
-- statements of the seam are functions on the rows of their table. Times are exact in both stores:
-- `t_ms / 1000` seconds is a number of milliseconds in ClickHouse's `DateTime64(3)`, and one of
-- microseconds in Iceberg's timestamp.
use mathlib.Core.Option
use streaming_lab.Prelude.{
  ℕ, ◌+◌, ◌*◌, String, Option, none, some, List, [], ◌∷◌, length, filter, ltb, leb, str_eq,
  if◌then◌else◌,
}
use streaming_lab.Prelude.Int.{ℤ, pos, ◌+ℤ◌, neg_ℤ}
use streaming_lab.Prelude.Perms.{sum_by}
use streaming_lab.Events.Schema.{OrderEvent, order_created}
use streaming_lab.Lake.{Row, OrdersTable}
use streaming_lab.Landing.State.{read_watermark_t}

-- A row of the target table of `create_pipeline`.
pub record ChRow : Type 0 where
  pub event_id : String
  pub order_id : String
  pub event_type : String
  pub amount : ℤ
  pub user_id : ℕ
  pub event_time : ℕ

-- The `SELECT` of the materialized view.
unfoldable pub materialize : OrderEvent → ChRow
materialize e = record {
  event_id = e.event_id;
  order_id = e.order_id;
  event_type = e.event_type;
  amount = e.amount;
  user_id = e.user_id;
  event_time = e.event_time_ms;
}

-- `CASE WHEN event_type='order_created' THEN amount ELSE -amount END`
unfoldable pub signed_amount : String → ℤ → ℤ
signed_amount event_type amount = if str_eq event_type order_created then amount else neg_ℤ amount

-- SQL's `sum` is NULL on no rows.
abbrev pub sql_sum {ℓ} : {A : Type ℓ} → (A → ℤ) → List A → Option ℤ
sql_sum f [] = none
sql_sum f (x ∷ xs) = some (sum_by f (x ∷ xs))

-- `Decimal(str(v)) if v is not None else Decimal(0)`
abbrev pub or_zero : Option ℤ → ℤ
or_zero none = pos 0
or_zero (some v) = v

unfoldable pub lake_side : (lake : OrdersTable) → lake.Table → ℕ → ℕ × ℤ
lake_side lake t t_ms =
    let rows = filter (λ (r : Row). ltb r.event_time_us (t_ms * 1000)) (lake.rows t) in
    (length rows, or_zero (sql_sum (λ (r : Row). signed_amount r.event_type r.amount) rows))

-- `seam_side` of realtime/clickhouse.py
unfoldable pub seam_side : List ChRow → ℕ → ℕ × ℤ
seam_side table t_ms =
    let rows = filter (λ (r : ChRow). leb t_ms r.event_time) table in
    (length rows, or_zero (sql_sum (λ (r : ChRow). signed_amount r.event_type r.amount) rows))

pub record SeamResult : Type 0 where
  pub watermark_t_ms : ℕ
  pub count : ℕ
  pub gmv : ℤ
  pub lake_count : ℕ
  pub ch_count : ℕ
  pub lake_gmv : ℤ
  pub ch_gmv : ℤ

-- The two sides at one watermark.
unfoldable pub compose : (lake : OrdersTable) → lake.Table → List ChRow → ℕ → SeamResult
compose lake t table t_ms =
    let (lake_count, lake_gmv) = lake_side lake t t_ms in
    let (ch_count, ch_gmv) = seam_side table t_ms in
    record {
      watermark_t_ms = t_ms;
      count = lake_count + ch_count;
      gmv = lake_gmv +ℤ ch_gmv;
      lake_count = lake_count;
      ch_count = ch_count;
      lake_gmv = lake_gmv;
      ch_gmv = ch_gmv;
    }

-- `none` stands for the exception of a watermark that cannot be read. The table is loaded twice:
-- the watermark is read from `t`, and the rows from `u`, which commits may have made of `t` since.
unfoldable pub seam_query :
    (lake : OrdersTable) → (t u : lake.Table) → List ChRow → Option SeamResult
seam_query lake t u table = Option.map (compose lake u table) (read_watermark_t lake t)
