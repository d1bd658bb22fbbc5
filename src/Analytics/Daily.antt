-- ===== src/Analytics/Daily.antt =====
-- `execute_daily_aggregations`, its user metrics: what every user did on every day. A window is
-- numbered by its day.
use streaming_lab.Prelude.{
  ℕ, suc, ◌*◌, ◌≡◌, ◌∙◌, refl, Bool, ◌&&◌, Option, some, List, map, filter, length, is_some, ◌==◌,
  arith, nat_eq, string_eq, pair_eq, maybe_eq, list_eq, Option-cases, inl, inr,
}
use streaming_lab.Dict.{Dict, lookup}
use streaming_lab.Dict.Laws.{Distinct}
use streaming_lab.Analytics.Sql.{
  KafkaEvent, group_by, select, same, count_distinct, count_where, sql_min, sql_max, has_type,
  day_of, ms_per_day,
}
use streaming_lab.Analytics.Grouping.{existing, aggregated, lookup-grouped, grouped-Distinct}
use streaming_lab.Analytics.Sums.{sum_over, sum_over-group_by, sum_over-select}

abbrev pub UserDay : Type 0
UserDay = ℕ × Option ℕ

pub record UserMetric : Type 0 where
  pub total_events : ℕ
  pub page_views : ℕ
  pub purchases : ℕ
  pub sessions : ℕ
  pub unique_pages_visited : ℕ
  pub first_event_time : Option ℕ
  pub last_event_time : Option ℕ
  pub window_end : ℕ

abbrev pub has_user : KafkaEvent → Bool
has_user r = is_some r.user_id

unfoldable pub user_day : KafkaEvent → UserDay
user_day r = (day_of r, r.user_id)

unfoldable pub user_metric : UserDay → List KafkaEvent → UserMetric
user_metric k rows = record {
  total_events = length rows;
  page_views = count_where (has_type "page_view") rows;
  purchases = count_where (has_type "purchase") rows;
  sessions = count_distinct (λ (r : KafkaEvent). r.session_id) rows;
  unique_pages_visited = count_distinct (λ (r : KafkaEvent). r.url) rows;
  first_event_time = sql_min (map (λ (r : KafkaEvent). r.event_time) rows);
  last_event_time = sql_max (map (λ (r : KafkaEvent). r.event_time) rows);
  window_end = suc k.0 * ms_per_day;
}

unfoldable pub daily_user_metrics : List KafkaEvent → Dict UserDay UserMetric
daily_user_metrics rows = select user_metric (group_by user_day (filter has_user rows))

-- the events of a user on a day
abbrev pub on_day : ℕ → ℕ → KafkaEvent → Bool
on_day d u r = same r.user_id (some u) && (day_of r == d)

user_day_test :
    (d u : ℕ) (r : KafkaEvent) → (has_user r && same (user_day r) (d, some u)) ≡ on_day d u r
unfolding user_day
user_day_test d u r = elim (Option-cases r.user_id) [
  | inl null ↦ rw null refl
  | inr (v, at) ↦ rw at (ground arith)
]

-- The metrics of a user and a day aggregate the events of that user on that day, all of them and no
-- other, and are absent when there is none. No user has two rows for a day, and the event totals of all
-- rows add up to the number of events that have a user.
pub daily_exact :
    (d u : ℕ) (rows : List KafkaEvent)
    → (lookup (d, some u) (daily_user_metrics rows)
        ≡ aggregated user_metric (d, some u) (existing (filter (on_day d u) rows)))
      × Distinct (daily_user_metrics rows)
      × (sum_over (λ k v. v.total_events) (daily_user_metrics rows) ≡ length (filter has_user rows))
unfolding daily_user_metrics user_metric
daily_exact d u rows =
    let chosen = filter has_user rows in
    (
      lookup-grouped user_metric user_day has_user (d, some u) (on_day d u) (user_day_test d u)
          rows,
      grouped-Distinct user_metric user_day has_user rows,
      sum_over-select user_metric (λ k v. v.total_events) (group_by user_day chosen)
          ∙ sum_over-group_by user_day chosen,
    )
