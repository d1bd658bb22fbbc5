-- ===== src/Sessions/Daily.antt =====
-- `DailySessionMetricsProcessor` of jobs/session_processing_job.py. An average is given as the two
-- numbers that are divided.
use native.Mathlib.Nat.{le_trans}
use streaming_lab.Prelude.{
  ℕ, ◌+◌, ◌≤◌, ◌≡◌, refl, String, Option, none, some, List, [], ◌∷◌, ◌++◌, filter, length,
  length-filter_le, All, leb, ltb, arith, if◌then◌else◌, Bool-cases, inl, inr, ◌*◌, ◌⊎◌, Bool, true,
  false, ◌&&◌,
}
use streaming_lab.Results.{Result, ok, raise, uncaught}
use streaming_lab.Sessions.Aggregate.{same_kind}
use streaming_lab.Sessions.Model.{UserSession, distinct}

-- `sum(f(s) for s in sessions)`
unfoldable pub total : (UserSession → ℕ) → List UserSession → ℕ
total f [] = 0
total f (s ∷ ss) = f s + total f ss

abbrev sooner : UserSession → UserSession → UserSession
sooner x s = if ltb x.start_time s.start_time then x else s

abbrev later : UserSession → UserSession → UserSession
later x s = if ltb s.end_time x.end_time then x else s

-- `min(sessions, key=lambda s: s.start_time)`, the first of those with the least
unfoldable pub earliest : UserSession → List UserSession → UserSession
earliest s [] = s
earliest s (x ∷ xs) = earliest (sooner x s) xs

-- `max(sessions, key=lambda s: s.end_time)`, the first of those with the greatest
unfoldable pub latest : UserSession → List UserSession → UserSession
latest s [] = s
latest s (x ∷ xs) = latest (later x s) xs

unfoldable pub all_countries : List UserSession → List String
all_countries [] = []
all_countries (s ∷ ss) = s.countries ++ all_countries ss

pub record DailyMetric : Type 0 where
  pub metric_date_partition : ℕ
  pub metric_user_id : ℕ
  pub total_sessions : ℕ
  pub total_duration_seconds : ℕ
  pub total_page_views : ℕ
  pub bounce_sessions : ℕ
  pub avg_session_duration : ℕ × ℕ
  pub avg_page_views_per_session : ℕ × ℕ
  pub bounce_rate : ℕ × ℕ
  pub first_session_time : ℕ
  pub last_session_time : ℕ
  pub unique_countries : ℕ

-- the metric of sessions whose times compare
unfoldable pub metric_of : ℕ → UserSession → List UserSession → DailyMetric
metric_of key s ss =
    let sessions = s ∷ ss in
    let n = length sessions in
    let duration = total (λ x. x.duration_seconds) sessions in
    let page_views = total (λ x. x.page_view_count) sessions in
    let bounces = length (filter (λ (x : UserSession). x.is_bounce) sessions) in
    record {
      metric_date_partition = (earliest s ss).date_partition;
      metric_user_id = key;
      total_sessions = n;
      total_duration_seconds = duration;
      total_page_views = page_views;
      bounce_sessions = bounces;
      avg_session_duration = (duration, n);
      avg_page_views_per_session = (page_views, n);
      bounce_rate = (bounces, n);
      first_session_time = (earliest s ss).start_time;
      last_session_time = (latest s ss).end_time;
      unique_countries = length (distinct (all_countries sessions));
    }

-- whether all times carry an offset like those of the first session, or none does
abbrev pub alike : Bool → List UserSession → Bool
alike b [] = true
alike b (s ∷ ss) = same_kind b s.times_aware && alike b ss

-- `min` and `max` compare every session with one before it, and a time with an offset does not compare
-- with one without.
unfoldable pub process_day : ℕ → List UserSession → Result (Option DailyMetric)
process_day key [] = ok none
process_day key (s ∷ ss) =
    if alike s.times_aware ss then ok (some (metric_of key s ss)) else raise uncaught

sooner-le :
    (x s : UserSession)
    → ((sooner x s).start_time ≤ s.start_time) × ((sooner x s).start_time ≤ x.start_time)
sooner-le x s = elim (Bool-cases (ltb x.start_time s.start_time)) [
  | inl swapped ↦ rw swapped (ground arith, omega arith)
  | inr kept ↦ rw kept (omega arith, ground arith)
]

later-ge :
    (x s : UserSession) → (s.end_time ≤ (later x s).end_time) × (x.end_time ≤ (later x s).end_time)
later-ge x s = elim (Bool-cases (ltb s.end_time x.end_time)) [
  | inl swapped ↦ rw swapped (ground arith, omega arith)
  | inr kept ↦ rw kept (omega arith, ground arith)
]

earliest-le :
    (s : UserSession) (ss : List UserSession)
    → ((earliest s ss).start_time ≤ s.start_time)
      × All (λ x. (earliest s ss).start_time ≤ x.start_time) ss
unfolding earliest
earliest-le s [] = (omega arith, tt)
earliest-le s (x ∷ xs) =
    let (a, b) = earliest-le (sooner x s) xs in
    let (c, d) = sooner-le x s in (le_trans a c, (le_trans a d, b))

latest-ge :
    (s : UserSession) (ss : List UserSession)
    → (s.end_time ≤ (latest s ss).end_time) × All (λ x. x.end_time ≤ (latest s ss).end_time) ss
unfolding latest
latest-ge s [] = (omega arith, tt)
latest-ge s (x ∷ xs) =
    let (a, b) = latest-ge (later x s) xs in
    let (c, d) = later-ge x s in (le_trans c a, (le_trans d a, b))

-- each session that is no bounce has at least two page views
views-bounces :
    (ss : List UserSession)
    → All (λ (s : UserSession). s.is_bounce ≡ leb s.page_view_count 1) ss
    → 2 * length ss
      ≤ total (λ x. x.page_view_count) ss
        + 2 * length (filter (λ (x : UserSession). x.is_bounce) ss)
unfolding total
views-bounces [] h = omega arith
views-bounces (s ∷ ss) h = ground (arith, views-bounces ss h.1, h.0)

-- For sessions that count as bounces exactly for at most one page view, a day with a session gives a
-- metric, which lies around all sessions, has no more bounces than sessions, and at least two page
-- views for each session that is no bounce. Only a day in which the times of some sessions carry an
-- offset and those of others do not raises.
pub process_day-bounds :
    (key : ℕ) (s : UserSession) (ss : List UserSession)
    → All (λ (x : UserSession). x.is_bounce ≡ leb x.page_view_count 1) (s ∷ ss)
    → ((alike s.times_aware ss ≡ false) × (process_day key (s ∷ ss) ≡ raise uncaught))
      ⊎ ((m : DailyMetric) × (process_day key (s ∷ ss) ≡ ok (some m))
          × (m.total_sessions ≡ length (s ∷ ss))
          × (m.bounce_sessions ≤ m.total_sessions)
          × (2 * m.total_sessions ≤ m.total_page_views + 2 * m.bounce_sessions)
          × All (λ x. m.first_session_time ≤ x.start_time) (s ∷ ss)
          × All (λ x. x.end_time ≤ m.last_session_time) (s ∷ ss))
unfolding process_day metric_of
process_day-bounds key s ss h = elim (Bool-cases (alike s.times_aware ss)) [
  | inl same ↦ inr (
    metric_of key s ss,
    rw same refl,
    refl,
    length-filter_le (λ (x : UserSession). x.is_bounce) (s ∷ ss),
    views-bounces (s ∷ ss) h,
    earliest-le s ss,
    latest-ge s ss,
  )
  | inr mixed ↦ inl (mixed, rw mixed refl)
]
