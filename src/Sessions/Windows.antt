-- ===== src/Sessions/Windows.antt =====
-- The processors of event types, countries and active users of jobs/realtime_metrics_job.py. What they
-- only pass on is left out.
use Prim.Native.Char.{code}
use streaming_lab.Prelude.{
  ℕ, String, Bool, true, ◌||◌, ◌&&◌, none, some, List, [], ◌∷◌, map, length, leb, ◌==◌,
  if◌then◌else◌,
}
use streaming_lab.Results.{Result, raise, unbound_local}
use streaming_lab.Sessions.Model.{UserEvent, present, distinct}
use streaming_lab.Sessions.Metrics.{users}

pub record EventTypeMetric : Type 0 where
  pub type_event_count : ℕ
  pub type_unique_users : ℕ
  pub type_unique_countries : ℕ

-- `EventTypeMetricsProcessor.process`
unfoldable pub process_event_type : List UserEvent → EventTypeMetric
process_event_type events = record {
  type_event_count = length events;
  type_unique_users = length (users events);
  type_unique_countries = length (distinct (present (map (λ (e : UserEvent). e.country) events)));
}

-- `CountryMetricsProcessor.process` begins with `events = list(events)`: the local name is not bound.
unfoldable pub process_country : List UserEvent → Result EventTypeMetric
process_country elements = raise unbound_local

-- the code points that `str.strip` removes
unfoldable pub is_space : ℕ → Bool
is_space c =
    leb 9 c && leb c 13
    || leb 28 c && leb c 32
    || c == 133
    || c == 160
    || c == 5760
    || leb 8192 c && leb c 8202
    || c == 8232
    || c == 8233
    || c == 8239
    || c == 8287
    || c == 12288

unfoldable pub is_blank : String → Bool
is_blank String.[] = true
is_blank (String.◌∷◌ c s) = is_space (code c) && is_blank s

-- the sessions of the events, those that `has_session` finds
unfoldable pub sessions : List UserEvent → List String
sessions [] = []
sessions (e ∷ es) =
    let rest = sessions es in
    elim e.session_id [ none ↦ rest | some s ↦ if is_blank s then rest else s ∷ rest ]

pub record ActiveUsersMetric : Type 0 where
  pub active_users : ℕ
  pub active_sessions : ℕ

-- `ActiveUsersProcessor.process`
unfoldable pub process_active_users : List UserEvent → ActiveUsersMetric
process_active_users events = record {
  active_users = length (users events);
  active_sessions = length (distinct (sessions events));
}
