-- ===== src/Sessions/Journey.antt =====
-- `UserJourneyTracker` of jobs/session_processing_job.py. As in `ActiveSessionTracker`, `import json`
-- stands in the branch for a journey that is there, so without one the method raises when it comes to
-- store. The time of the last update is left out.
use streaming_lab.Prelude.{
  ℕ, ◌-◌, ◌≡◌, refl, String, Option, none, some, List, [], ◌∷◌, ◌++◌, length, drop, ltb,
  if◌then◌else◌, Option-cases, inl, inr,
}
use streaming_lab.Results.{Result, ok, raise, unbound_local}
use streaming_lab.Sessions.Model.{UserEvent, truthy, is_page_view}

pub record Page : Type 0 where
  pub page_url : String
  pub page_timestamp : ℕ
  pub page_country : Option String

pub record Journey : Type 0 where
  pub journey_user_id : Option ℕ
  pub journey_session_id : Option String
  pub pages : List Page
  pub page_count : ℕ
  pub started_at : ℕ

-- The state of a user: none, a text that is no journey, or a journey.
pub data JourneyState : Type 0 where
  no_journey : JourneyState
  unreadable : JourneyState
  journey : Journey → JourneyState

abbrev pub max_journey_length : ℕ
max_journey_length = 50

-- `xs[-n:]`, for an `n` above 0
abbrev pub last {ℓ} : {A : Type ℓ} → ℕ → List A → List A
last n xs = drop (length xs - n) xs

abbrev pub page_of : String → UserEvent → Page
page_of url e = record { page_url = url; page_timestamp = e.timestamp; page_country = e.country }

abbrev pub new_journey : String → UserEvent → Journey
new_journey url e = record {
  journey_user_id = e.user_id;
  journey_session_id = e.session_id;
  pages = page_of url e ∷ [];
  page_count = 1;
  started_at = e.timestamp;
}

-- the pages with one more, and no more than the limit
unfoldable pub limited : List Page → List Page
limited pages =
    if ltb max_journey_length (length pages) then last max_journey_length pages else pages

abbrev pub extended : Page → Journey → Journey
extended page j =
    let pages = limited (j.pages ++ page ∷ []) in
    record j { pages = pages; page_count = length pages }

-- what a view of a page stores and collects
unfoldable pub view_page : String → UserEvent → JourneyState → Result Journey
view_page url e no_journey = raise unbound_local
view_page url e unreadable = ok (new_journey url e)
view_page url e (journey j) = ok (extended (page_of url e) j)

-- `not value.is_page_view() or not value.url` returns before anything else.
abbrev pub viewed_url : UserEvent → Option String
viewed_url e = if is_page_view e then truthy e.url else none

abbrev stored : JourneyState → Result Journey → JourneyState
stored s (raise x) = s
stored s (ok j) = journey j

-- `process_element`, and the state after it
unfoldable pub process_view : UserEvent → JourneyState → JourneyState
process_view e s = elim (viewed_url e) [ none ↦ s | some url ↦ stored s (view_page url e s) ]

unfoldable pub process_views : List UserEvent → JourneyState → JourneyState
process_views [] s = s
process_views (e ∷ es) s = process_views es (process_view e s)

process_view-never : (e : UserEvent) → process_view e no_journey ≡ no_journey
unfolding process_view view_page
process_view-never e = elim (Option-cases (viewed_url e)) [
  | inl h ↦ rw (process_view, h) refl
  | inr (url, h) ↦ rw (process_view, h) refl
]

-- From the empty state that it begins with, no sequence of events makes the journey tracker store a
-- journey: the first page view of every user raises before it is stored.
pub process_views-never : (es : List UserEvent) → process_views es no_journey ≡ no_journey
unfolding process_views
process_views-never [] = refl
process_views-never (e ∷ es) = rw (process_view-never e) (process_views-never es)
