-- ===== src/Analytics/Cohorts.antt =====
-- `execute_daily_aggregations`, its cohort query: the users and events of every day, country and
-- event type, and the average over seven rows of the cohort. The average of counts, which are
-- `BIGINT`, is one too: the sum of the counts over their number, with no fraction. A row stands in
-- the frame of a later one when fewer than seven rows of its cohort, the later one among them, are
-- after it.
pub mod Week
pub mod Average
use streaming_lab.Prelude.{
  ℕ, suc, ◌+◌, ◌*◌, ◌/◌, String, Bool, ◌&&◌, Option, none, some, List, [], ◌∷◌, filter, length,
  is_some, leb, ltb, nat_eq, string_eq, pair_eq, maybe_eq, Eq,
}
use streaming_lab.Dict.{Dict}
use streaming_lab.Analytics.Sql.{
  KafkaEvent, group_by, select, same, count_distinct, day_of, ms_per_day,
}

abbrev pub Cohort : Type 0
Cohort = Option String × Option String

instance abbrev pub cohort_eq : Eq Cohort
cohort_eq = pair_eq

abbrev pub CohortKey : Type 0
CohortKey = ℕ × Cohort

instance abbrev pub cohort_key_eq : Eq CohortKey
cohort_key_eq = pair_eq

pub record CohortStat : Type 0 where
  pub unique_users : ℕ
  pub total_events : ℕ
  pub seven_day_avg_events : ℕ
  pub window_end : ℕ

abbrev pub has_cohort : KafkaEvent → Bool
has_cohort r = is_some r.country && is_some r.event_type

abbrev pub cohort_of : KafkaEvent → Cohort
cohort_of r = (r.country, r.event_type)

unfoldable pub cohort_key : KafkaEvent → CohortKey
cohort_key r = (day_of r, cohort_of r)

abbrev pub CohortRow : Type 0
CohortRow = CohortKey × List KafkaEvent

-- `PARTITION BY country, event_type ORDER BY TUMBLE_START(...)`: the rows of a cohort after day `e` and
-- not after day `d`
abbrev pub between_days : Cohort → ℕ → ℕ → CohortRow → Bool
between_days p e d r = same r.0.1 p && (ltb e r.0.0 && leb r.0.0 d)

-- `ROWS BETWEEN 6 PRECEDING AND CURRENT ROW`
unfoldable pub in_frame : List CohortRow → CohortKey → CohortRow → Bool
in_frame rows k r =
    same r.0.1 k.1 && (leb r.0.0 k.0 && ltb (length (filter (between_days k.1 r.0.0 k.0) rows)) 7)

unfoldable pub count_events : List CohortRow → ℕ
count_events [] = 0
count_events ((k, g) ∷ rows) = length g + count_events rows

unfoldable pub cohort_stat : List CohortRow → CohortKey → List KafkaEvent → CohortStat
cohort_stat rows k g =
    let frame = filter (in_frame rows k) rows in
    record {
      unique_users = count_distinct (λ (r : KafkaEvent). r.user_id) g;
      total_events = length g;
      seven_day_avg_events = count_events frame / length frame;
      window_end = suc k.0 * ms_per_day;
    }

unfoldable pub daily_cohorts : List KafkaEvent → Dict CohortKey CohortStat
daily_cohorts rows =
    let groups = group_by cohort_key (filter has_cohort rows) in select (cohort_stat groups) groups
