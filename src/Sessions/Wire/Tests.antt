-- ===== src/Sessions/Wire/Tests.antt =====
-- An event that arrives without an id and without a day, on a calendar of two days.
use streaming_lab.Prelude.{
  ◌≡◌, refl, String, Bool, true, false, none, some, [], ◌∷◌, ◌⊎◌, str_eq, if◌then◌else◌, string_eq,
}
use streaming_lab.Dict.{Dict, lookup}
use streaming_lab.Results.{ok}
use streaming_lab.Gateway.Value.{Value, null, number, text, object, fields_of}
use streaming_lab.Storage.Memory.{plain}
use streaming_lab.Sessions.Wire.{
  moment, has_user_id, get_event_key, utc_offset, Dates, Instant, StreamEvent, from_dict, to_dict,
  to_json, from_json,
}
use streaming_lab.Sessions.Wire.RoundTrip.{from_json-to_json}

abbrev first_iso : String
first_iso = "2025-01-15T12:00:00+00:00"

abbrev second_iso : String
second_iso = "2025-01-16T08:30:00+00:00"

abbrev iso : Bool → String
iso true = first_iso
iso false = second_iso

abbrev day : Bool → String
day true = "2025-01-15"
day false = "2025-01-16"

iso_reads :
    (t : Bool)
    → (if str_eq (iso t) first_iso
        then some true
        else if str_eq (iso t) second_iso
        then some false
        else none)
      ≡ some t
iso_reads true = refl
iso_reads false = refl

iso_kept : (t : Bool) → utc_offset (iso t) ≡ iso t
unfolding utc_offset
iso_kept true = refl
iso_kept false = refl

day_some : (t : Bool) → str_eq (day t) "" ≡ false
day_some true = refl
day_some false = refl

abbrev two_days : Dates
two_days = record {
  Time = Bool;
  fromisoformat = λ s.
      if str_eq s first_iso then some true else if str_eq s second_iso then some false else none;
  isoformat = iso;
  strftime = day;
  fromisoformat-isoformat = iso_reads;
  utc_offset-isoformat = iso_kept;
  strftime_some = day_some;
}

abbrev now : Instant Bool
now = record { utcnow = true; now_millis = 7; hex = "ab12cd34" }

abbrev tomorrow : Instant Bool
tomorrow = record { utcnow = false; now_millis = 8; hex = "ef56ab78" }

abbrev arrived : Dict String Value
arrived = ("user_id", number 5) ∷ ("timestamp", text "2025-01-15T12:00:00Z") ∷ []

from_json-to_json_example :
    (e : StreamEvent two_days) × ((from_dict two_days now arrived ≡ ok e)
      × ((sent : Dict String Value) × ((to_dict two_days e ≡ ok sent)
            × ((plain.dumps (object (fields_of sent)) ≡ none)
                ⊎ ((b : plain.Bytes) × ((to_json two_days plain e ≡ ok b)
                      × (from_json two_days plain tomorrow b ≡ ok e)))))))
unfolding lookup
from_json-to_json_example = from_json-to_json two_days plain now tomorrow arrived tt

-- User 0 is a user to `has_user`, and none to the partitioning key.
abbrev user_zero : StreamEvent two_days
user_zero = record {
  user_id = number 0;
  event_id = text "e1";
  session_id = null;
  event_type = text "click";
  event_name = null;
  properties = null;
  url = null;
  country = null;
  city = null;
  timestamp = moment true;
  date_partition = text "2025-01-15";
}

user_zero_keyed_by_event :
    (has_user_id two_days user_zero ≡ true)
    × (get_event_key two_days (λ v. "0") user_zero ≡ text "e1")
unfolding get_event_key
user_zero_keyed_by_event = (refl, refl)
