-- ===== src/Sessions/Tests.antt =====
-- A window of two page views, of which the later came first.
use streaming_lab.Prelude.{string_eq}
use streaming_lab.Dict.{lookup}
use streaming_lab.Prelude.{◌≡◌, refl, none, some, [], ◌∷◌, arith}
use streaming_lab.Results.{ok, raise, uncaught}
use streaming_lab.Dict.Laws.{Distinct}
use streaming_lab.Prelude.{true, ◌⊎◌, ◌==◌, if◌then◌else◌, false, All, ◌+◌, ◌*◌, ◌≤◌}
use streaming_lab.Sessions.Model.{UserEvent, UserSession, given}
use streaming_lab.Sessions.Daily.{alike, DailyMetric, process_day, process_day-bounds}
use streaming_lab.Sessions.Aggregate.{
  comparable, process_window, from_events, sort_events, in_order, insert_event,
}
use streaming_lab.Sessions.Bounds.{Covers, process_window-Covers, process_window-from_events}
use mathlib.Core.List.{Perm}
use streaming_lab.Prelude.{take}
use streaming_lab.Sessions.Metrics.{process_page_views, url_counts, sort_counts}
use streaming_lab.Sessions.Ranking.{views_of, IsRanked, top_urls-IsRanked}
use streaming_lab.Sessions.Journey.{no_journey, process_views, process_views-never}
use streaming_lab.Sessions.Tracker.{element, timer, track, track-never}

abbrev home : UserEvent
home = record {
  user_id = some 7;
  session_id = some "s";
  event_type = "page_view";
  event_name = none;
  user_agent = none;
  url = some "/";
  country = some "DE";
  timestamp = 1000000;
  aware = true;
}

abbrev cart : UserEvent
cart = record home { url = some "/cart"; timestamp = 4500000 }

process_window-Covers_example :
    ((comparable (cart ∷ home ∷ []) ≡ false)
      × (process_window 7 (cart ∷ home ∷ []) ≡ raise uncaught))
    ⊎ ((s : UserSession) × (process_window 7 (cart ∷ home ∷ []) ≡ ok (some s))
        × Covers (cart ∷ home ∷ []) s)
process_window-Covers_example = process_window-Covers 7 (cart ∷ home ∷ []) (omega arith)

-- A page view of a client that sends its offset, and one of a client that does not.
mixed_window_raises : process_window 7 (cart ∷ record home { aware = false } ∷ []) ≡ raise uncaught
unfolding process_window sort_events
mixed_window_raises = refl

process_window-from_events_example :
    process_window 7 (cart ∷ home ∷ []) ≡ from_events "s" 7 (cart ∷ home ∷ [])
unfolding sort_events in_order insert_event
process_window-from_events_example =
    process_window-from_events 7 (cart ∷ home ∷ []) home (cart ∷ []) "s" refl refl

track-never_example :
    track
      (element home ∷ timer ∷ element cart ∷ [])
      (record { session_state = none; collected = [] })
    ≡ record { session_state = none; collected = [] }
track-never_example = track-never (element home ∷ timer ∷ element cart ∷ [])

abbrev session : UserSession
session = record {
  session_id = given "s";
  user_id = 7;
  start_time = 1000000;
  end_time = 4500000;
  duration_seconds = 3;
  event_count = 2;
  page_view_count = 2;
  unique_urls_count = 2;
  countries = "DE" ∷ [];
  landing_page = some "/";
  exit_page = some "/cart";
  page_view_sequence = "/" ∷ "/cart" ∷ [];
  is_bounce = false;
  device_type = none;
  browser = none;
  date_partition = 0;
  times_aware = true;
}

process_day-bounds_example :
    ((alike true [] ≡ false) × (process_day 7 (session ∷ []) ≡ raise uncaught))
    ⊎ ((m : DailyMetric) × (process_day 7 (session ∷ []) ≡ ok (some m))
        × (m.total_sessions ≡ 1)
        × (m.bounce_sessions ≤ m.total_sessions)
        × (2 * m.total_sessions ≤ m.total_page_views + 2 * m.bounce_sessions)
        × All (λ x. m.first_session_time ≤ x.start_time) (session ∷ [])
        × All (λ x. x.end_time ≤ m.last_session_time) (session ∷ []))
process_day-bounds_example = process_day-bounds 7 session [] (refl, tt)

top_urls-IsRanked_example :
    let events = home ∷ cart ∷ cart ∷ [] in
    let counts = url_counts events [] in
    let ranked = sort_counts counts in
    (lookup "/cart" counts
      ≡ (if views_of "/cart" events == 0 then none else some (views_of "/cart" events)))
    × Distinct counts
    × Perm ranked counts
    × IsRanked ranked
    × ((process_page_views events).top_urls ≡ take 10 ranked)
top_urls-IsRanked_example = top_urls-IsRanked "/cart" (home ∷ cart ∷ cart ∷ [])

process_views-never_example : process_views (home ∷ cart ∷ []) no_journey ≡ no_journey
process_views-never_example = process_views-never (home ∷ cart ∷ [])
