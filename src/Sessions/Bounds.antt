-- ===== src/Sessions/Bounds.antt =====
-- What a session says of the events in its window.
use streaming_lab.Prelude.{
  ℕ, ◌+◌, ◌*◌, ◌≤◌, ◌<◌, ◌≡◌, refl, ◌∙◌, String, Option, none, some, List, [], ◌∷◌, map, filter,
  length, length-filter_le, All, leb, arith, Bool-cases, Option-cases, inl, inr, ap, ◌⊎◌, false,
  string_eq,
}
use streaming_lab.Prelude.Perms.{length-perm, length-map}
use streaming_lab.Sessions.Model.{
  UserEvent, truthy, is_page_view, present, distinct, UserSession, extract_device_info,
  extract_device_dict, device_of, browser_of,
}
use mathlib.Core.Option
use streaming_lab.Dict.{lookup}
use streaming_lab.Results.{ok, raise, uncaught}
use streaming_lab.Sessions.Aggregate.{
  second, insert_event, in_order, last_from, new_session, aggregate, sort_events, comparable,
  device, process_window, from_events,
}
use streaming_lab.Sessions.Order.{IsOrdered, in_order-perm, in_order-IsOrdered, last_from-latest}

module _ (P : UserEvent → Type 0) where
  All-of-insert_event :
      (e : UserEvent) (es : List UserEvent) → All P (insert_event e es) → P e × All P es
  unfolding insert_event
  All-of-insert_event e [] h = h
  All-of-insert_event e (x ∷ xs) h = elim (Bool-cases (leb e.timestamp x.timestamp)) [
    | inl here ↦ rw here at h
    | inr later ↦
        let (at, rest) = All-of-insert_event e xs (rw later at h).1 in
        (at, ((rw later at h).0, rest))
  ]

  -- what holds of all sorted events holds of all
  All-unsorted : (es : List UserEvent) → All P (in_order es) → All P es
  unfolding in_order
  All-unsorted [] h = tt
  All-unsorted (e ∷ es) h =
      let (at, rest) = All-of-insert_event e (in_order es) h in (at, All-unsorted es rest)

length-present : (xs : List (Option String)) → length (present xs) ≤ length xs
unfolding present
length-present [] = omega arith
length-present (none ∷ xs) = omega (arith, length-present xs)
length-present (some x ∷ xs) = ground (arith, length-present xs)

length-distinct : (xs : List String) → length (distinct xs) ≤ length xs
unfolding distinct
length-distinct [] = omega arith
length-distinct (x ∷ xs) = ground (arith, length-distinct xs)

-- What a session promises of the events it was made of.
pub record Covers (events : List UserEvent) (s : UserSession) : Type 0 where
  pub within : All (λ e. (s.start_time ≤ e.timestamp) × (e.timestamp ≤ s.end_time)) events
  pub counted : s.event_count ≡ length events
  pub views_le : s.page_view_count ≤ s.event_count
  pub pages_le : length s.page_view_sequence ≤ s.page_view_count
  pub unique_le : s.unique_urls_count ≤ length s.page_view_sequence
  pub bounces : s.is_bounce ≡ leb s.page_view_count 1
  -- the duration is that between the first and the last event, in whole seconds
  pub lasts : s.start_time + s.duration_seconds * second ≤ s.end_time
  pub lasts_lt : s.end_time < s.start_time + (s.duration_seconds + 1) * second

both_bounds :
    (lo hi : ℕ) (es : List UserEvent)
    → All (λ e. lo ≤ e.timestamp) es
    → All (λ e. e.timestamp ≤ hi) es
    → All (λ e. (lo ≤ e.timestamp) × (e.timestamp ≤ hi)) es
both_bounds lo hi [] a b = tt
both_bounds lo hi (e ∷ es) a b = ((a.0, b.0), both_bounds lo hi es a.1 b.1)

aggregate-Covers :
    (user_id : ℕ) (e : UserEvent) (es : List UserEvent)
    → IsOrdered (e ∷ es)
    → (s : UserSession) × (aggregate user_id (e ∷ es) ≡ some s) × Covers (e ∷ es) s
unfolding aggregate new_session
aggregate-Covers user_id e es h =
    let events = e ∷ es in
    let views = filter is_page_view events in
    let urls = map (λ (v : UserEvent). v.url) views in
    let latest = last_from-latest e es h in
    (
      _,
      refl,
      record {
        within =
            both_bounds e.timestamp (last_from e es).timestamp events (omega arith, h.0) latest;
        counted = refl;
        views_le = length-filter_le is_page_view events;
        pages_le = omega (arith, length-present urls, length-map (λ (v : UserEvent). v.url) views);
        unique_le = length-distinct (present urls);
        bounces = refl;
        lasts = omega (arith, latest.0);
        lasts_lt = omega (arith, latest.0);
      },
    )

-- The events may come in any order: the session is about the window's elements.
Covers-unsorted : (es : List UserEvent) (s : UserSession) → Covers (in_order es) s → Covers es s
Covers-unsorted es s h = record {
  within = All-unsorted _ es h.within;
  counted = h.counted ∙ length-perm (in_order-perm es);
  views_le = h.views_le;
  pages_le = h.pages_le;
  unique_le = h.unique_le;
  bounces = h.bounces;
  lasts = h.lasts;
  lasts_lt = h.lasts_lt;
}

aggregate-some :
    (user_id : ℕ) (es : List UserEvent)
    → 0 < length es
    → IsOrdered es
    → (s : UserSession) × (aggregate user_id es ≡ some s) × Covers es s
aggregate-some user_id [] some_event h = absurd (omega arith)
aggregate-some user_id (e ∷ es) some_event h = aggregate-Covers user_id e es h

-- A window with an event gives a session, whatever the order in which its events came: it lies around
-- all of them, counts them, has no more page views than events, no more pages than page views and no
-- more different ones than pages, is a bounce exactly for at most one page view, and its duration is
-- that from the first to the last event in whole seconds. Only a window in which some times carry an
-- offset and others do not raises.
pub process_window-Covers :
    (key : ℕ) (elements : List UserEvent)
    → 0 < length elements
    → ((comparable elements ≡ false) × (process_window key elements ≡ raise uncaught))
      ⊎ ((s : UserSession) × (process_window key elements ≡ ok (some s)) × Covers elements s)
unfolding process_window sort_events
process_window-Covers key elements some_event = elim (Bool-cases (comparable elements)) [
  | inl alike ↦
      let (s, made, covers) =
        aggregate-some key (in_order elements)
          (omega (arith, length-perm (in_order-perm elements), some_event))
          (in_order-IsOrdered elements) in
      inr (s, rw alike (ap ok made), Covers-unsorted elements s covers)
  | inr mixed ↦ inl (mixed, rw mixed refl)
]

-- The two copies of the device detection find the same.
device_same :
    (es : List UserEvent)
    → (device "device_type" (extract_device_dict es)
        ≡ Option.map (λ d. d.0) (extract_device_info es))
      × (device "browser" (extract_device_dict es) ≡ Option.map (λ d. d.1) (extract_device_info es))
unfolding extract_device_dict extract_device_info device_of browser_of lookup
device_same [] = (refl, refl)
device_same (e ∷ es) = elim (Option-cases e.user_agent) [
  | inl hidden ↦ rw hidden (device_same es)
  | inr (ua, shown) ↦ rw shown (refl, refl)
]

-- The aggregator and the model's own `from_events`, each with its own copy of the device detection,
-- make the same session, where the first event in order carries the session id that `from_events` is
-- given.
pub process_window-from_events :
    (key : ℕ) (elements : List UserEvent) (e : UserEvent) (es : List UserEvent) (id : String)
    → sort_events elements ≡ ok (e ∷ es)
    → truthy e.session_id ≡ some id
    → process_window key elements ≡ from_events id key elements
unfolding process_window from_events aggregate
process_window-from_events key elements e es id sorted carried =
    let (types, browsers) = device_same (e ∷ es) in rw (sorted, carried, types, browsers) refl
