-- ===== src/Sessions/Tracker.antt =====
-- `ActiveSessionTracker` of jobs/session_processing_job.py. `import json` in the branch for a session
-- that is there makes `json` a local name of the whole method: where there is none, the name is not
-- bound when the method comes to store the new state, and the call raises before it changes
-- anything. `json.loads` reads back what `json.dumps` wrote, so the state is the record itself.
use streaming_lab.Prelude.{
  ℕ, ◌+◌, ◌≡◌, refl, String, Bool, true, false, Option, none, some, List, [], ◌∷◌, ◌++◌, str_eq,
  if◌then◌else◌,
}
use streaming_lab.Results.{Result, ok, raise, unbound_local}
use streaming_lab.Sessions.Model.{UserEvent, truthy, elem, device_of, lower}
use streaming_lab.Text.{Text}

pub record SessionInfo : Type 0 where
  pub info_user_id : Option ℕ
  pub info_session_id : Option String
  pub last_activity : ℕ
  pub info_event_count : ℕ
  pub info_countries : List String
  pub info_device_type : String

abbrev option_eq : Option String → Option String → Bool
option_eq none none = true
option_eq (some a) (some b) = str_eq a b
option_eq none (some b) = false
option_eq (some a) none = false

-- `_extract_device_type`
unfoldable pub extract_device_type : Option Text → String
extract_device_type none = "desktop"
extract_device_type (some ua) = device_of (lower ua)

abbrev pub listed : Option String → List String
listed none = []
listed (some c) = c ∷ []

-- `existing['countries']` with the country of the event, where it is new
abbrev pub with_country : Option String → List String → List String
with_country none cs = cs
with_country (some c) cs = if elem c cs then cs else cs ++ c ∷ []

unfoldable pub new_info : UserEvent → SessionInfo
new_info e = record {
  info_user_id = e.user_id;
  info_session_id = e.session_id;
  last_activity = e.timestamp;
  info_event_count = 1;
  info_countries = listed (truthy e.country);
  info_device_type = extract_device_type e.user_agent;
}

unfoldable pub merged_info : UserEvent → SessionInfo → SessionInfo
merged_info e existing =
    if option_eq existing.info_session_id e.session_id
    then record (new_info e) {
      info_event_count = existing.info_event_count + 1;
      info_countries = with_country (truthy e.country) existing.info_countries;
    }
    else new_info e

-- `process_element`: what it stores and collects
unfoldable pub process_element : UserEvent → Option SessionInfo → Result SessionInfo
process_element e none = raise unbound_local
process_element e (some existing) = ok (merged_info e existing)

-- The tracker of a user: its state and what it has collected. A call that raises leaves both.
pub record Tracker : Type 0 where
  pub session_state : Option SessionInfo
  pub collected : List SessionInfo

abbrev keep : Tracker → Result SessionInfo → Tracker
keep t (raise x) = t
keep t (ok info) = record { session_state = some info; collected = t.collected ++ info ∷ [] }

pub data Signal : Type 0 where
  element : UserEvent → Signal
  timer : Signal

-- `on_timer`: the session that is there is collected and cleared.
unfoldable pub on_timer : Tracker → Tracker
on_timer t = elim t.session_state [
  | none ↦ t
  | some info ↦ record { session_state = none; collected = t.collected ++ info ∷ [] }
]

unfoldable pub track : List Signal → Tracker → Tracker
track [] t = t
track (element e ∷ signals) t = track signals (keep t (process_element e t.session_state))
track (timer ∷ signals) t = track signals (on_timer t)

-- The tracker never tracks: from the empty state that it begins with, no sequence of events and
-- timers stores a session or collects anything.
pub track-never :
    (signals : List Signal)
    → track signals (record { session_state = none; collected = [] })
      ≡ record { session_state = none; collected = [] }
unfolding track process_element on_timer
track-never [] = refl
track-never (element e ∷ signals) = track-never signals
track-never (timer ∷ signals) = track-never signals
