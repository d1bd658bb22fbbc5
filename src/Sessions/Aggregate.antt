-- ===== src/Sessions/Aggregate.antt =====
-- `SessionAggregator` of jobs/session_processing_job.py, and `UserSession.from_events`, which makes
-- a session of the same events.
use mathlib.Core.Option
use streaming_lab.Prelude.{
  ℕ, ◌-◌, ◌/◌, String, string_eq, Bool, true, false, not, ◌&&◌, or_else, Option, none, some, List,
  [], ◌∷◌, map, filter, length, leb, if◌then◌else◌,
}
use streaming_lab.Sessions.Model.{
  UserEvent, truthy, is_page_view, present, distinct, SessionId, given, generated, UserSession,
  extract_device_info, extract_device_dict,
}
use streaming_lab.Dict.{Dict, lookup}
use streaming_lab.Results.{Result, ok, raise, uncaught, ◌>>=◌}

abbrev pub second : ℕ
second = 1000000

abbrev pub day : ℕ
day = 86400000000

unfoldable pub insert_event : UserEvent → List UserEvent → List UserEvent
insert_event e [] = e ∷ []
insert_event e (x ∷ xs) =
    let rest = insert_event e xs in if leb e.timestamp x.timestamp then e ∷ x ∷ xs else x ∷ rest

-- the stable order by time
unfoldable pub in_order : List UserEvent → List UserEvent
in_order [] = []
in_order (e ∷ es) = insert_event e (in_order es)

abbrev pub same_kind : Bool → Bool → Bool
same_kind true b = b
same_kind false b = not b

-- whether all times carry an offset, or none does
abbrev pub as_aware : Bool → List UserEvent → Bool
as_aware b [] = true
as_aware b (e ∷ es) = same_kind b e.aware && as_aware b es

abbrev pub comparable : List UserEvent → Bool
comparable [] = true
comparable (e ∷ es) = as_aware e.aware es

-- `events.sort(key=lambda e: e.timestamp)`, which is stable. Sorting compares, directly or through
-- others, every two events, and a time with an offset does not compare with one without.
unfoldable pub sort_events : List UserEvent → Result (List UserEvent)
sort_events es = if comparable es then ok (in_order es) else raise uncaught

-- `xs[0]` and `xs[-1]`, where there are any
abbrev pub first_of {ℓ} : {A : Type ℓ} → List A → Option A
first_of [] = none
first_of (x ∷ xs) = some x

abbrev pub last_from {ℓ} : {A : Type ℓ} → A → List A → A
last_from x [] = x
last_from x (y ∷ ys) = last_from y ys

abbrev pub last_of {ℓ} : {A : Type ℓ} → List A → Option A
last_of [] = none
last_of (x ∷ xs) = some (last_from x xs)

-- `UserSession(...)` with what `__post_init__` derives
unfoldable pub new_session :
    SessionId
    → ℕ
    → ℕ
    → ℕ
    → ℕ
    → ℕ
    → ℕ
    → List String
    → Option String
    → Option String
    → List String
    → Option String
    → Option String
    → Bool
    → UserSession
new_session session_id user_id start_time end_time event_count page_view_count unique_urls_count
      countries landing_page exit_page page_view_sequence device_type browser times_aware =
    record {
      session_id = session_id;
      user_id = user_id;
      start_time = start_time;
      end_time = end_time;
      duration_seconds = (end_time - start_time) / second;
      event_count = event_count;
      page_view_count = page_view_count;
      unique_urls_count = unique_urls_count;
      countries = countries;
      landing_page = landing_page;
      exit_page = exit_page;
      page_view_sequence = page_view_sequence;
      is_bounce = leb page_view_count 1;
      device_type = device_type;
      browser = browser;
      date_partition = start_time / day;
      times_aware = times_aware;
    }

abbrev pub id_or : Option String → SessionId → SessionId
id_or none other = other
id_or (some s) other = given s

-- `_aggregate_events_to_session`, of events in order
unfoldable pub aggregate : ℕ → List UserEvent → Option UserSession
aggregate user_id [] = none
aggregate user_id (e ∷ es) =
    let events = e ∷ es in
    let page_views = filter is_page_view events in
    let page_sequence = present (map (λ (v : UserEvent). v.url) page_views) in
    let end_time = (last_from e es).timestamp in
    let device = extract_device_info events in
    some (
      new_session (id_or (truthy e.session_id) (generated user_id (e.timestamp / second))) user_id
        e.timestamp end_time (length events) (length page_views) (length (distinct page_sequence))
        (distinct (present (map (λ (v : UserEvent). v.country) events))) (first_of page_sequence)
        (last_of page_sequence) page_sequence (Option.map (λ d. d.0) device)
        (Option.map (λ d. d.1) device) e.aware)

-- `process`: what it collects, if anything
unfoldable pub process_window : ℕ → List UserEvent → Result (Option UserSession)
process_window key elements = sort_events elements >>= (λ events. ok (aggregate key events))

-- `device_info.get(k)`
abbrev pub device : String → Dict String (Option String) → Option String
device k d = or_else (lookup k d) none

abbrev from_sorted : String → ℕ → List UserEvent → Option UserSession
from_sorted session_id user_id [] = none
from_sorted session_id user_id (e ∷ es) =
    let events = e ∷ es in
    let page_views = filter is_page_view events in
    let page_sequence = present (map (λ (v : UserEvent). v.url) page_views) in
    let device_info = extract_device_dict events in
    some (
      new_session (given session_id) user_id e.timestamp (last_from e es).timestamp (length events)
        (length page_views) (length (distinct page_sequence))
        (distinct (present (map (λ (v : UserEvent). v.country) events))) (first_of page_sequence)
        (last_of page_sequence) page_sequence (device "device_type" device_info)
        (device "browser" device_info) e.aware)

-- `UserSession.from_events`
unfoldable pub from_events : String → ℕ → List UserEvent → Result (Option UserSession)
from_events session_id user_id events =
    sort_events events >>= (λ sorted. ok (from_sorted session_id user_id sorted))
