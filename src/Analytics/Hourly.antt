-- ===== src/Analytics/Hourly.antt =====
-- `execute_hourly_aggregations`: the counts of every hour, event type and country, and the page views
-- of every hour and URL. A window is numbered by its hour, which its start and its end follow from.
use streaming_lab.Prelude.{
  ℕ, suc, ◌*◌, ◌≡◌, ap, ◌∙◌, String, Bool, ◌&&◌, Option, none, some, List, [], ◌∷◌, filter, length,
  is_some, leb, ◌==◌, arith, Eq, pair_eq, nat_eq, string_eq, maybe_eq, list_eq, Option-cases, inl,
  inr, if◌then◌else◌, refl,
}
use streaming_lab.Text.{Text}
use streaming_lab.Dict.{Dict, lookup}
use streaming_lab.Dict.Laws.{Distinct}
use streaming_lab.Analytics.Sql.{
  KafkaEvent, group_by, select, having, same, count_distinct, has_type, hour_of, ms_per_hour,
}
use streaming_lab.Analytics.Grouping.{
  existing, aggregated, kept, lookup-having, lookup-grouped, grouped-Distinct,
}
use streaming_lab.Analytics.Sums.{sum_over, sum_over-group_by, sum_over-select}

abbrev pub HourKey : Type 0
HourKey = ℕ × (Option String × Option String)

instance abbrev pub hour_key_eq : Eq HourKey
hour_key_eq = pair_eq

pub record HourlyStat : Type 0 where
  pub event_count : ℕ
  pub unique_users : ℕ
  pub unique_sessions : ℕ
  pub window_end : ℕ

abbrev pub has_country : KafkaEvent → Bool
has_country r = is_some r.country

unfoldable pub hour_key : KafkaEvent → HourKey
hour_key r = (hour_of r, (r.event_type, r.country))

unfoldable pub hourly_stat : HourKey → List KafkaEvent → HourlyStat
hourly_stat k rows = record {
  event_count = length rows;
  unique_users = count_distinct (λ (r : KafkaEvent). r.user_id) rows;
  unique_sessions = count_distinct (λ (r : KafkaEvent). r.session_id) rows;
  window_end = suc k.0 * ms_per_hour;
}

unfoldable pub hourly_stats : List KafkaEvent → Dict HourKey HourlyStat
hourly_stats rows = select hourly_stat (group_by hour_key (filter has_country rows))

pub record PageviewStat : Type 0 where
  pub page_views : ℕ
  pub unique_visitors : ℕ
  pub window_end : ℕ

abbrev pub is_url_view : KafkaEvent → Bool
is_url_view r = has_type "page_view" r && is_some r.url

unfoldable pub page_key : KafkaEvent → ℕ × Option Text
page_key r = (hour_of r, r.url)

unfoldable pub pageview_stat : ℕ × Option Text → List KafkaEvent → PageviewStat
pageview_stat k rows = record {
  page_views = length rows;
  unique_visitors = count_distinct (λ (r : KafkaEvent). r.user_id) rows;
  window_end = suc k.0 * ms_per_hour;
}

abbrev pub ten_views : PageviewStat → Bool
ten_views v = leb 10 v.page_views

unfoldable pub hourly_pageviews : List KafkaEvent → Dict (ℕ × Option Text) PageviewStat
hourly_pageviews rows =
    having ten_views (select pageview_stat (group_by page_key (filter is_url_view rows)))

-- the events that a row of the result is about, as tests on events alone
abbrev pub of_hour : ℕ → Option String → String → KafkaEvent → Bool
of_hour h t c r = same r.country (some c) && ((hour_of r == h) && same r.event_type t)

abbrev pub viewed_in : ℕ → Text → KafkaEvent → Bool
viewed_in h u r = has_type "page_view" r && ((hour_of r == h) && same r.url (some u))

hour_key_test :
    (h : ℕ) (t : Option String) (c : String) (r : KafkaEvent)
    → (has_country r && same (hour_key r) (h, (t, some c))) ≡ of_hour h t c r
unfolding hour_key
hour_key_test h t c r = elim (Option-cases r.country) [
  | inl null ↦ rw null refl
  | inr (d, at) ↦ rw at (ground arith)
]

page_key_test :
    (h : ℕ) (u : Text) (r : KafkaEvent)
    → (is_url_view r && same (page_key r) (h, some u)) ≡ viewed_in h u r
unfolding page_key
page_key_test h u r = elim (Option-cases r.url) [
  | inl null ↦ rw null (ground arith)
  | inr (d, at) ↦ rw at (ground arith)
]

-- The row of an hour, a type and a country aggregates the events of that hour, type and country, all of
-- them and no other, and it is absent when there is none. No two rows have the same hour, type and
-- country, and the event counts of all rows add up to the number of events that have a country.
pub hourly_exact :
    (h : ℕ) (t : Option String) (c : String) (rows : List KafkaEvent)
    → (lookup (h, (t, some c)) (hourly_stats rows)
        ≡ aggregated hourly_stat (h, (t, some c)) (existing (filter (of_hour h t c) rows)))
      × Distinct (hourly_stats rows)
      × (sum_over (λ k v. v.event_count) (hourly_stats rows) ≡ length (filter has_country rows))
unfolding hourly_stats hourly_stat
hourly_exact h t c rows =
    let chosen = filter has_country rows in
    (
      lookup-grouped hourly_stat hour_key has_country (h, (t, some c)) (of_hour h t c)
          (hour_key_test h t c) rows,
      grouped-Distinct hourly_stat hour_key has_country rows,
      sum_over-select hourly_stat (λ k v. v.event_count) (group_by hour_key chosen)
          ∙ sum_over-group_by hour_key chosen,
    )

kept_rows :
    (h : ℕ) (u : Text) (rows : List KafkaEvent)
    → kept ten_views (aggregated pageview_stat (h, some u) (existing rows))
      ≡ (if leb 10 (length rows) then some (pageview_stat (h, some u) rows) else none)
unfolding pageview_stat
kept_rows h u [] = refl
kept_rows h u (r ∷ rows) = refl

-- An hour's page views of a URL are reported, for the views of that URL in that hour and no other,
-- exactly when there are ten or more.
pub pageviews_exact :
    (h : ℕ) (u : Text) (rows : List KafkaEvent)
    → lookup (h, some u) (hourly_pageviews rows) ≡ (
        if leb 10 (length (filter (viewed_in h u) rows))
        then some (pageview_stat (h, some u) (filter (viewed_in h u) rows))
        else none)
unfolding hourly_pageviews
pageviews_exact h u rows =
    lookup-having ten_views (h, some u)
      (select pageview_stat (group_by page_key (filter is_url_view rows)))
      (grouped-Distinct pageview_stat page_key is_url_view rows)
    ∙ ap (kept ten_views) (
        lookup-grouped pageview_stat page_key is_url_view (h, some u) (viewed_in h u)
          (page_key_test h u) rows)
    ∙ kept_rows h u (filter (viewed_in h u) rows)
