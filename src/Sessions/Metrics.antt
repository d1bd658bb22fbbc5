-- ===== src/Sessions/Metrics.antt =====
-- The window processors of jobs/realtime_metrics_job.py. The bounds of the window and the time of
-- processing, which they only pass on, are left out.
use streaming_lab.Prelude.{
  ℕ, suc, ◌+◌, ◌≤◌, ◌≡◌, refl, sym, ap, ◌∙◌, String, Bool, true, false, Option, none, some, List,
  [], ◌∷◌, filter, take, length, ltb, leb, ◌==◌, str_eq, or_else, arith, if◌then◌else◌, string_eq,
  Bool-cases, inl, inr, eq_iff,
}
use streaming_lab.Dict.{Dict, lookup, insert}
use streaming_lab.Dict.Laws.{lookup-insert}
use streaming_lab.Sessions.Model.{UserEvent, is_page_view, truthy}

unfoldable pub is_error : UserEvent → Bool
is_error e = str_eq e.event_type "error"

unfoldable pub is_purchase : UserEvent → Bool
is_purchase e = str_eq e.event_type "purchase"

-- `counts[k] = counts.get(k, 0) + 1`
unfoldable pub count_one : String → Dict String ℕ → Dict String ℕ
count_one k d = insert k (or_else (lookup k d) 0 + 1) d

abbrev pub count_some : Option String → Dict String ℕ → Dict String ℕ
count_some none d = d
count_some (some k) d = count_one k d

abbrev member : ℕ → List ℕ → Bool
member x [] = false
member x (y ∷ ys) = if y == x then true else member x ys

abbrev add_user : Option ℕ → List ℕ → List ℕ
add_user none us = us
add_user (some u) us = if member u us then us else u ∷ us

-- the set of the users of the events, as the list of its elements
unfoldable pub users : List UserEvent → List ℕ
users [] = []
users (e ∷ es) = add_user e.user_id (users es)

pub record GlobalMetric : Type 0 where
  pub global_event_count : ℕ
  pub global_error_count : ℕ
  pub global_page_view_count : ℕ
  pub global_purchase_count : ℕ
  -- the count and the count of the window before, where the rate of change is taken of them
  pub rate_change : Option (ℕ × ℕ)

-- `GlobalMetricsProcessor.process`, with the count of the last window, which it stores anew
unfoldable pub process_global : ℕ → List UserEvent → GlobalMetric × ℕ
process_global last_window_count events =
    let count = length events in
    (
      record {
        global_event_count = count;
        global_error_count = length (filter is_error events);
        global_page_view_count = length (filter is_page_view events);
        global_purchase_count = length (filter is_purchase events);
        rate_change = if ltb 0 last_window_count then some (count, last_window_count) else none;
      },
      count,
    )

pub record PageViewMetric : Type 0 where
  pub page_views_total : ℕ
  pub unique_viewers : ℕ
  pub top_urls : Dict String ℕ

unfoldable pub url_counts : List UserEvent → Dict String ℕ → Dict String ℕ
url_counts [] d = d
url_counts (e ∷ es) d = url_counts es (count_some (truthy e.url) d)

-- `sorted(items, key=lambda x: x[1], reverse=True)` keeps the order of those that are equal.
unfoldable pub insert_count : String × ℕ → Dict String ℕ → Dict String ℕ
insert_count (k, n) [] = (k, n) ∷ []
insert_count (k, n) ((j, m) ∷ d) =
    let rest = insert_count (k, n) d in if leb m n then (k, n) ∷ (j, m) ∷ d else (j, m) ∷ rest

unfoldable pub sort_counts : Dict String ℕ → Dict String ℕ
sort_counts [] = []
sort_counts ((k, n) ∷ d) = insert_count (k, n) (sort_counts d)

-- `PageViewMetricsProcessor.process`
unfoldable pub process_page_views : List UserEvent → PageViewMetric
process_page_views events = record {
  page_views_total = length events;
  unique_viewers = length (users events);
  top_urls = take 10 (sort_counts (url_counts events []));
}

pub record ErrorMetric : Type 0 where
  pub error_count : ℕ
  pub affected_users : ℕ
  pub error_types : Dict String ℕ

-- `event.event_name or 'unknown'`
abbrev pub error_name : UserEvent → String
error_name e = or_else (truthy e.event_name) "unknown"

unfoldable pub error_counts : List UserEvent → Dict String ℕ → Dict String ℕ
error_counts [] d = d
error_counts (e ∷ es) d = error_counts es (count_one (error_name e) d)

-- `ErrorRateProcessor.process`
unfoldable pub process_errors : List UserEvent → ErrorMetric
process_errors events = record {
  error_count = length events;
  affected_users = length (users events);
  error_types = error_counts events [];
}

length-add_user : (u : Option ℕ) (us : List ℕ) → length (add_user u us) ≤ suc (length us)
length-add_user none us = omega arith
length-add_user (some u) us = ground arith

length-users : (es : List UserEvent) → length (users es) ≤ length es
unfolding users
length-users [] = omega arith
length-users (e ∷ es) = omega (arith, length-add_user e.user_id (users es), length-users es)

-- how often a name occurs
abbrev pub named : String → List UserEvent → ℕ
named k es = length (filter (λ (e : UserEvent). str_eq (error_name e) k) es)

count_same :
    (j k : String) (d : Dict String ℕ)
    → j ≡ k
    → or_else (lookup j d) 0 + 1 ≡ or_else (lookup k d) 0 + 1
count_same j k d h = rw h refl

pub count_one-lookup :
    (j k : String) (d : Dict String ℕ)
    → or_else (lookup k (count_one j d)) 0 ≡ or_else (lookup k d) 0 + (if str_eq j k then 1 else 0)
unfolding count_one
count_one-lookup j k d = elim (Bool-cases (str_eq j k)) [
  | inl same ↦
      rw (lookup-insert j k (or_else (lookup j d) 0 + 1) d, same)
        (count_same j k d ((eq_iff j k).0 same))
  | inr other ↦ rw (lookup-insert j k (or_else (lookup j d) 0 + 1) d, other) (omega arith)
]

named-cons :
    (k : String) (e : UserEvent) (es : List UserEvent)
    → named k (e ∷ es) ≡ (if str_eq (error_name e) k then 1 else 0) + named k es
named-cons k e es = elim (Bool-cases (str_eq (error_name e) k)) [
  | inl same ↦ rw same (omega arith)
  | inr other ↦ rw other (omega arith)
]

error_counts-named :
    (k : String) (es : List UserEvent) (d : Dict String ℕ)
    → or_else (lookup k (error_counts es d)) 0 ≡ or_else (lookup k d) 0 + named k es
unfolding error_counts
error_counts-named k [] d = omega arith
error_counts-named k (e ∷ es) d =
    error_counts-named k es (count_one (error_name e) d)
    ∙ ap (λ (n : ℕ). n + named k es) (count_one-lookup (error_name e) k d)
    ∙ omega arith
    ∙ ap (λ (n : ℕ). or_else (lookup k d) 0 + n) (sym (named-cons k e es))

-- For every window, each error name is counted as often as it occurs, events without a name under
-- "unknown", and no more users are affected than there are errors.
pub process_errors_counts :
    (k : String) (events : List UserEvent)
    → (or_else (lookup k (process_errors events).error_types) 0 ≡ named k events)
      × ((process_errors events).affected_users ≤ (process_errors events).error_count)
unfolding process_errors lookup
process_errors_counts k events = (error_counts-named k events [] ∙ omega arith, length-users events)

type_apart : (t a b : String) → str_eq t a ≡ true → str_eq a b ≡ false → str_eq t b ≡ false
type_apart t a b h apart = ap (λ s. str_eq s b) ((eq_iff t a).0 h) ∙ apart

disjoint_types :
    (es : List UserEvent)
    → length (filter is_error es) + length (filter is_page_view es) + length (filter is_purchase es)
      ≤ length es
unfolding is_error is_page_view is_purchase
disjoint_types [] = omega arith
disjoint_types (e ∷ es) = elim (Bool-cases (str_eq e.event_type "error")) [
  | inl h ↦
      rw
        (
          h,
          type_apart e.event_type "error" "page_view" h refl,
          type_apart e.event_type "error" "purchase" h refl,
        )
        (omega (arith, disjoint_types es))
  | inr h ↦ elim (Bool-cases (str_eq e.event_type "page_view")) [
    | inl v ↦
        rw (h, v, type_apart e.event_type "page_view" "purchase" v refl)
          (omega (arith, disjoint_types es))
    | inr v ↦ elim (Bool-cases (str_eq e.event_type "purchase")) [
      | inl p ↦ rw (h, v, p) (omega (arith, disjoint_types es))
      | inr p ↦ rw (h, v, p) (omega (arith, disjoint_types es))
    ]
  ]
]

-- In every window the errors, page views and purchases together are no more than the events, and
-- the processor stores the count of this window for the next.
pub process_global_counts :
    (last : ℕ) (events : List UserEvent)
    → let m = (process_global last events).0 in
      (m.global_error_count + m.global_page_view_count + m.global_purchase_count
        ≤ m.global_event_count)
      × ((process_global last events).1 ≡ m.global_event_count)
unfolding process_global
process_global_counts last events = (disjoint_types events, refl)
