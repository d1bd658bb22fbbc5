-- ===== src/Analytics/Tests.antt =====
-- Two users of one day, one of whom sees a product twice, and an event of nobody; a week of page views,
-- and two page views that are a month apart.
use streaming_lab.Prelude.{
  ℕ, ◌*◌, ◌/◌, nat_eq, pair_eq, maybe_eq, ◌≡◌, refl, String, true, Option, none, some, List, [],
  ◌∷◌, filter, length, leb, ◌==◌, if◌then◌else◌,
}
use streaming_lab.Dict.{lookup, insert}
use streaming_lab.Analytics.Sql.{
  group_by, select, KafkaEvent, count_distinct, distinct_values, not_null, has_type, day_of,
  ms_per_hour,
}
use streaming_lab.Sessions.Model.{mentions}
use streaming_lab.Analytics.Hourly.{hour_key_eq}
use streaming_lab.Analytics.Cohorts.{
  CohortStat, cohort_key_eq, daily_cohorts, cohort_stat, cohort_key, in_frame, count_events,
}
use streaming_lab.Analytics.Cohorts.Average.{cohort_on, cohort_in, seven_day_avg_exact}
use streaming_lab.Analytics.Funnel.{product_path, views_product, funnel_row, conversion_funnel}
use streaming_lab.Analytics.Funnel.Users.{users_on, funnel_on, funnel_exact}
use streaming_lab.Analytics.Geographic.{geo_analysis, geo_row, in_place, geographic_exact}

abbrev event : Option ℕ → String → ℕ → KafkaEvent
event user type hour = record {
  user_id = user;
  session_id = some "s1";
  event_type = some type;
  url = some product_path;
  country = some "TW";
  city = none;
  event_time = hour * ms_per_hour;
}

abbrev day : List KafkaEvent
day =
    event (some 1) "page_view" 3
    ∷ event (some 1) "page_view" 5
    ∷ event (some 2) "add_to_cart" 5
    ∷ event none "page_view" 5
    ∷ event (some 1) "purchase" 30
    ∷ []

two_users_one_view : funnel_on 0 day ≡ funnel_row 2 1 1 0 0
unfolding funnel_row count_distinct distinct_values not_null has_type day_of views_product mentions
two_users_one_view = refl

funnel_exact_example :
    lookup 0 (conversion_funnel day)
    ≡ (if users_on 0 (λ r. true) day == 0 then none else some (funnel_on 0 day))
funnel_exact_example = funnel_exact 0 day

geographic_exact_example : lookup (24, (some "TW", none)) (geo_analysis day) ≡ (
    if leb 100 (length (filter (in_place 24 "TW" none) day))
    then some (geo_row 24 (filter (in_place 24 "TW" none) day))
    else none)
geographic_exact_example = geographic_exact 24 "TW" none day

abbrev week : List KafkaEvent
week =
    event (some 1) "page_view" 0
    ∷ event (some 1) "page_view" 24
    ∷ event (some 2) "page_view" 48
    ∷ event (some 1) "page_view" 72
    ∷ event (some 1) "page_view" 96
    ∷ event (some 3) "page_view" 120
    ∷ event (some 1) "page_view" 144
    ∷ event (some 1) "page_view" 145
    ∷ []

seven_day_avg_exact_example :
    (v : CohortStat) × ((lookup (6, (some "TW", some "page_view")) (daily_cohorts week) ≡ some v)
      × ((v.total_events ≡ length (filter (cohort_on "TW" "page_view" 6) week))
          × (v.seven_day_avg_events ≡ length (filter (cohort_in "TW" "page_view" 0 7) week) / 7)))
unfolding day_of cohort_key
seven_day_avg_exact_example =
    seven_day_avg_exact "TW" "page_view" 0 week
      (refl, (refl, (refl, (refl, (refl, (refl, (refl, tt)))))))

-- Two rows that are thirty days apart make one average: the frame counts rows and not days.
abbrev sparse : List KafkaEvent
sparse = event (some 1) "page_view" 0 ∷ event (some 1) "page_view" 720 ∷ []

abbrev average_at : ℕ → List KafkaEvent → Option ℕ
average_at d rows = elim (lookup (d, (some "TW", some "page_view")) (daily_cohorts rows)) [
  | none ↦ none
  | some v ↦ some v.seven_day_avg_events
]

spans_thirty_days : average_at 30 sparse ≡ some 1
unfolding daily_cohorts cohort_stat cohort_key in_frame count_events group_by select insert lookup
    day_of
spans_thirty_days = refl
