-- ===== src/Analytics/Cohorts/Average.antt =====
-- What the average of a cohort says of its events.
use streaming_lab.Prelude.{
  ℕ, zero, suc, ◌+◌, ◌/◌, ◌≡◌, refl, ap, sym, ◌∙◌, String, Bool, true, false, ◌&&◌, Option, none,
  some, List, [], ◌∷◌, filter, length, is_some, is_empty, some-eq, or_else, ◌==◌, nat_eq, string_eq,
  pair_eq, maybe_eq, arith, Option-cases, inl, inr, if◌then◌else◌,
}
use streaming_lab.Dict.{Dict, lookup, insert}
use streaming_lab.Analytics.Sql.{KafkaEvent, group_by, same, day_of}
use streaming_lab.Analytics.Grouping.{
  lookup-select, lookup-group_by, group_by-Distinct, aggregated, existing, filter-filter, filter-eq,
}
use streaming_lab.Analytics.Sums.{sum_over, sum_over-insert, weight_at}
use streaming_lab.Analytics.Cohorts.{
  CohortKey, CohortRow, CohortStat, cohort_eq, cohort_key_eq, has_cohort, cohort_key, cohort_of,
  in_frame, count_events, cohort_stat, daily_cohorts,
}
use streaming_lab.Analytics.Cohorts.Week.{
  in_days, AllPresent, length_sum, days_counted, present_all, present_at, frame_lem,
}

size_step :
    (b : Bool) (after before n : ℕ) (x : KafkaEvent) (xs : List KafkaEvent)
    → after + (if b then n else 0) ≡ before + (if b then suc n else 0)
    → before ≡ length xs
    → after ≡ length (if b then x ∷ xs else xs)
size_step true after before n x xs h same_size = omega (arith, h, same_size)
size_step false after before n x xs h same_size = omega (arith, h, same_size)

module _ (q : CohortKey → Bool) where
  abbrev weight : CohortKey → List KafkaEvent → ℕ
  weight k g = if q k then length g else 0

  weight_lem :
      (k : CohortKey) (o : Option (List KafkaEvent))
      → weight_at weight k o ≡ (if q k then length (or_else o []) else 0)
  weight_lem k none = ground arith
  weight_lem k (some g) = refl

  -- The groups under chosen keys have the rows under chosen keys.
  chosen_sizes :
      (xs : List KafkaEvent)
      → sum_over weight (group_by cohort_key xs) ≡ length (filter (λ x. q (cohort_key x)) xs)
  unfolding group_by
  chosen_sizes [] = refl
  chosen_sizes (x ∷ xs) =
      let groups = group_by cohort_key xs in
      let old = lookup (cohort_key x) groups in
      let now = sum_over weight (insert (cohort_key x) (x ∷ or_else old []) groups) in
      size_step (q (cohort_key x)) now (sum_over weight groups) (length (or_else old [])) x
        (filter (λ y. q (cohort_key y)) xs)
        (ap (λ m. now + m) (sym (weight_lem (cohort_key x) old))
          ∙ sum_over-insert weight (cohort_key x) (x ∷ or_else old []) groups)
        (chosen_sizes xs)

  count_frame :
      (d : Dict CohortKey (List KafkaEvent))
      → count_events (filter (λ (r : CohortRow). q r.0) d) ≡ sum_over weight d
  unfolding count_events
  count_frame [] = refl
  count_frame ((k, g) ∷ d) = ground (arith, count_frame d)

-- the events of a country and a type on the `n` days from `a` on
abbrev pub cohort_in : String → String → ℕ → ℕ → KafkaEvent → Bool
cohort_in c t a n r = in_days (some c, some t) a n (cohort_key r)

abbrev pub cohort_on : String → String → ℕ → KafkaEvent → Bool
cohort_on c t a r = same (cohort_key r) (a, (some c, some t))

-- whether each of the `n` days from `a` on has an event of the country and the type
abbrev pub Busy : String → String → ℕ → ℕ → List KafkaEvent → Type 0
Busy c t a zero rows = Unit
Busy c t a (suc n) rows =
    (is_empty (filter (cohort_on c t a) rows) ≡ false) × Busy c t (suc a) n rows

has_cohort-lem :
    (c t : String) (r : KafkaEvent)
    → same (cohort_of r) (some c, some t) ≡ true
    → has_cohort r ≡ true
has_cohort-lem c t r h = elim (Option-cases r.country) [
  | inl null ↦ ground (arith, null, h)
  | inr (d, at) ↦ elim (Option-cases r.event_type) [
    | inl null ↦ ground (arith, at, null, h)
    | inr (u, of) ↦ rw (at, of) refl
  ]
]

false_apart : false ≡ true → ⊥
false_apart h = cc

implied : (has s rest : Bool) → (s ≡ true → has ≡ true) → (has && (s && rest)) ≡ (s && rest)
implied true s rest h = refl
implied false true rest h = absurd (false_apart (h refl))
implied false false rest h = refl

implied_if :
    (has s b : Bool)
    → (s ≡ true → has ≡ true)
    → (has && (if b then s else false)) ≡ (if b then s else false)
implied_if true s b h = refl
implied_if false true true h = absurd (false_apart (h refl))
implied_if false true false h = refl
implied_if false false true h = refl
implied_if false false false h = refl

existing_some : (xs : List KafkaEvent) → is_empty xs ≡ false → is_some (existing xs) ≡ true
existing_some [] h = sym h
existing_some (x ∷ xs) h = refl

pub week_sum :
    (c t : String) (a n : ℕ) (rows : List KafkaEvent)
    → length (filter (λ r. in_days (some c, some t) a n (cohort_key r)) (filter has_cohort rows))
      ≡ length (filter (cohort_in c t a n) rows)
unfolding cohort_key
week_sum c t a n rows = ap length (
    filter-filter (cohort_in c t a n) has_cohort rows
    ∙ filter-eq (λ r. has_cohort r && cohort_in c t a n r) (cohort_in c t a n)
        (λ r. implied (has_cohort r) (same (cohort_of r) (some c, some t)) _ (has_cohort-lem c t r))
        rows)

abbrev cohort_groups : List KafkaEvent → Dict CohortKey (List KafkaEvent)
cohort_groups rows = group_by cohort_key (filter has_cohort rows)

day_found :
    (c t : String) (a : ℕ) (rows : List KafkaEvent)
    → lookup (a, (some c, some t)) (cohort_groups rows) ≡ existing (filter (cohort_on c t a) rows)
unfolding cohort_key
day_found c t a rows =
    lookup-group_by cohort_key (a, (some c, some t)) (filter has_cohort rows)
    ∙ ap existing (
        filter-filter (cohort_on c t a) has_cohort rows
        ∙ filter-eq (λ r. has_cohort r && cohort_on c t a r) (cohort_on c t a)
            (λ r.
              implied_if (has_cohort r) (same (cohort_of r) (some c, some t)) (day_of r == a)
                (has_cohort-lem c t r))
            rows)

all_present :
    (c t : String) (a n : ℕ) (rows : List KafkaEvent)
    → Busy c t a n rows
    → AllPresent (some c, some t) a n (cohort_groups rows)
all_present c t a zero rows h = tt
all_present c t a (suc n) rows h = (
  ap is_some (day_found c t a rows) ∙ existing_some (filter (cohort_on c t a) rows) h.0,
  all_present c t (suc a) n rows h.1,
)

frame_is_week :
    (c t : String) (a : ℕ) (rows : List KafkaEvent)
    → Busy c t a 7 rows
    → filter (in_frame (cohort_groups rows) (a + 6, (some c, some t))) (cohort_groups rows)
      ≡ filter (λ (r : CohortRow). in_days (some c, some t) a 7 r.0) (cohort_groups rows)
unfolding in_frame
frame_is_week c t a rows busy =
    filter-eq (in_frame (cohort_groups rows) (a + 6, (some c, some t)))
      (λ (r : CohortRow). in_days (some c, some t) a 7 r.0)
      (λ r.
        frame_lem (some c, some t) a r.0.0 (same r.0.1 (some c, some t)) (cohort_groups rows)
          (group_by-Distinct cohort_key (filter has_cohort rows)) (all_present c t a 7 rows busy))
      (cohort_groups rows)

none_apart : {o : Option (List KafkaEvent)} → o ≡ none → is_some o ≡ true → ⊥
none_apart h g = false_apart (ap is_some (sym h) ∙ g)

existing_size : (xs g : List KafkaEvent) → existing xs ≡ some g → length g ≡ length xs
existing_size [] g h = cc
existing_size (x ∷ xs) g h = ap length (sym (some-eq (x ∷ xs) g h))

week_events :
    (c t : String) (a : ℕ) (rows : List KafkaEvent)
    → count_events
        (filter (λ (r : CohortRow). in_days (some c, some t) a 7 r.0) (cohort_groups rows))
      ≡ length (filter (cohort_in c t a 7) rows)
week_events c t a rows =
    count_frame (in_days (some c, some t) a 7) (cohort_groups rows)
    ∙ chosen_sizes (in_days (some c, some t) a 7) (filter has_cohort rows)
    ∙ week_sum c t a 7 rows

week_rows :
    (c t : String) (a : ℕ) (rows : List KafkaEvent)
    → Busy c t a 7 rows
    → length (filter (λ (r : CohortRow). in_days (some c, some t) a 7 r.0) (cohort_groups rows)) ≡ 7
week_rows c t a rows busy =
    length_sum (λ (r : CohortRow). in_days (some c, some t) a 7 r.0) (cohort_groups rows)
    ∙ days_counted (some c, some t) a 7 (cohort_groups rows)
        (group_by-Distinct cohort_key (filter has_cohort rows))
    ∙ present_all (some c, some t) a 7 (cohort_groups rows) (all_present c t a 7 rows busy)

-- When a country and a type have an event on each of seven days in a row, the last of those days has a
-- row, which counts the events of that day, and its average is the number of the events of these seven
-- days over seven, without the fraction.
pub seven_day_avg_exact :
    (c t : String) (a : ℕ) (rows : List KafkaEvent)
    → Busy c t a 7 rows
    → (v : CohortStat) × ((lookup (a + 6, (some c, some t)) (daily_cohorts rows) ≡ some v)
        × ((v.total_events ≡ length (filter (cohort_on c t (a + 6)) rows))
            × (v.seven_day_avg_events ≡ length (filter (cohort_in c t a 7) rows) / 7)))
unfolding daily_cohorts cohort_stat
seven_day_avg_exact c t a rows busy =
    let groups = cohort_groups rows in
    let k : CohortKey = (a + 6, (some c, some t)) in
    elim (Option-cases (lookup k groups)) [
      | inl absent ↦ absurd (
          none_apart absent (
            present_at (some c, some t) a 7 6 (a + 6) groups (all_present c t a 7 rows busy)
              (omega arith) refl))
      | inr (g, there) ↦ (
        cohort_stat groups k g,
        (
          lookup-select (cohort_stat groups) k groups
              ∙ ap (aggregated (cohort_stat groups) k) there,
          (
            existing_size (filter (cohort_on c t (a + 6)) rows) g
                (sym (day_found c t (a + 6) rows) ∙ there),
            rw (frame_is_week c t a rows busy, week_events c t a rows, week_rows c t a rows busy)
                refl,
          ),
        ),
      )
    ]
