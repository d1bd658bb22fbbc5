-- ===== src/Sessions/Wire.antt =====
-- `Event` of event_model_original.py between dictionaries, JSON texts and objects. A field holds any
-- JSON value, since nothing checks what a dictionary brings. `datetime` is an interface, of which the
-- round trip asks what Python documents: `fromisoformat` reads what `isoformat` prints, a printed time
-- has no `Z`, and a printed day is not empty.
pub mod RoundTrip
pub mod Tests
use Prim.Native.String
use streaming_lab.Prelude.{
  ℕ, ◌≡◌, String, Bool, true, false, not, Option, none, some, [], ◌∷◌, ◌==◌, str_eq, or_else,
  if◌then◌else◌, string_eq,
}
use streaming_lab.Dict.{Dict, lookup}
use streaming_lab.Results.{Result, ok, raise, uncaught, ◌>>=◌}
use streaming_lab.Gateway.Value.{
  Value, null, number, text, object, Fields, no_fields, field, fields_of, str_number, ◌<>◌,
}
use streaming_lab.Storage.Services.{Json}

-- `s.replace('Z', '+00:00')`
unfoldable pub utc_offset : String → String
utc_offset String.[] = ""
utc_offset (String.◌∷◌ c s) =
    let rest = utc_offset s in
    if str_eq (String.◌∷◌ c "") "Z" then "+00:00" <> rest else String.◌∷◌ c rest

pub record Dates : Type 1 where
  pub Time : Type 0
  pub fromisoformat : String → Option Time
  pub isoformat : Time → String
  -- `strftime('%Y-%m-%d')`
  pub strftime : Time → String
  pub fromisoformat-isoformat : (t : Time) → fromisoformat (isoformat t) ≡ some t
  pub utc_offset-isoformat : (t : Time) → utc_offset (isoformat t) ≡ isoformat t
  pub strftime_some : (t : Time) → str_eq (strftime t) "" ≡ false

-- `not v`
abbrev pub falsy : Value → Bool
falsy null = true
falsy (number n) = n == 0
falsy (text s) = str_eq s ""
falsy (object no_fields) = true
falsy (object (field k v f)) = false

-- what the clock and `uuid` give to one call
pub record Instant (Time : Type 0) : Type 0 where
  pub utcnow : Time
  pub now_millis : ℕ
  pub hex : String

module _ (dates : Dates) where
  -- `timestamp` after the conversion: a text or nothing has become a time
  pub data Stamp : Type 0 where
    moment : dates.Time → Stamp
    other : Value → Stamp

  pub record StreamEvent : Type 0 where
    pub user_id : Value
    pub event_id : Value
    pub session_id : Value
    pub event_type : Value
    pub event_name : Value
    pub properties : Value
    pub url : Value
    pub country : Value
    pub city : Value
    pub timestamp : Stamp
    pub date_partition : Value

  unfoldable pub fresh_id : Instant dates.Time → Value
  fresh_id at = text ("evt_" <> str_number at.now_millis <> "_" <> at.hex)

  abbrev pub stamp_of : Instant dates.Time → Value → Stamp
  stamp_of at null = moment at.utcnow
  stamp_of at (text s) = moment (or_else (dates.fromisoformat (utc_offset s)) at.utcnow)
  stamp_of at v = other v

  -- `strftime` is a method of times alone.
  abbrev pub day_of_stamp : Value → Stamp → Result Value
  day_of_stamp day (moment t) = ok (if falsy day then text (dates.strftime t) else day)
  day_of_stamp day (other v) = if falsy day then raise uncaught else ok day

  -- `data.get(k)` and `data.get(k, default)`
  abbrev pub get : String → Value → Dict String Value → Value
  get k default fields = or_else (lookup k fields) default

  -- the constructor, with `__post_init__`
  unfoldable pub from_dict : Instant dates.Time → Dict String Value → Result StreamEvent
  from_dict at fields =
      let id = get "event_id" null fields in
      let stamp = stamp_of at (get "timestamp" null fields) in
      day_of_stamp (get "date_partition" null fields) stamp >>= (λ day. ok (record {
        user_id = get "user_id" null fields;
        event_id = if falsy id then fresh_id at else id;
        session_id = get "session_id" null fields;
        event_type = get "event_type" (text "unknown") fields;
        event_name = get "event_name" null fields;
        properties = get "properties" (object no_fields) fields;
        url = get "url" null fields;
        country = get "country" null fields;
        city = get "city" null fields;
        timestamp = stamp;
        date_partition = day;
      }))

  -- `self.timestamp.isoformat() if self.timestamp else None`
  abbrev pub stamp_text : Stamp → Result Value
  stamp_text (moment t) = ok (text (dates.isoformat t))
  stamp_text (other v) = if falsy v then ok null else raise uncaught

  unfoldable pub to_dict : StreamEvent → Result (Dict String Value)
  to_dict e = stamp_text e.timestamp >>= (λ stamp. ok (
      ("event_id", e.event_id)
      ∷ ("user_id", e.user_id)
      ∷ ("session_id", e.session_id)
      ∷ ("event_type", e.event_type)
      ∷ ("event_name", e.event_name)
      ∷ ("properties", e.properties)
      ∷ ("url", e.url)
      ∷ ("country", e.country)
      ∷ ("city", e.city)
      ∷ ("timestamp", stamp)
      ∷ ("date_partition", e.date_partition)
      ∷ []))

  -- `str(self.user_id) if self.user_id else self.event_id`
  unfoldable pub get_event_key : (Value → String) → StreamEvent → Value
  get_event_key str e = if falsy e.user_id then e.event_id else text (str e.user_id)

  abbrev pub is_null : Value → Bool
  is_null null = true
  is_null (number n) = false
  is_null (text s) = false
  is_null (object f) = false

  -- `has_user`
  abbrev pub has_user_id : StreamEvent → Bool
  has_user_id e = not (is_null e.user_id)

  abbrev pub field_or : String → Value → Fields → Value
  field_or k default no_fields = default
  field_or k default (field j v f) = if str_eq j k then v else field_or k default f

  -- Properties that are no dictionary have no `get`, unless they are as good as none.
  unfoldable pub get_property : String → Value → StreamEvent → Result Value
  get_property k default e = elim e.properties [
    | object f ↦ ok (field_or k default f)
    | null ↦ ok default
    | number n ↦ if n == 0 then ok default else raise uncaught
    | text s ↦ if str_eq s "" then ok default else raise uncaught
  ]

  unfoldable pub with_session_id : Value → StreamEvent → StreamEvent
  with_session_id session e = record e { session_id = session }

  unfoldable pub with_timestamp : dates.Time → StreamEvent → StreamEvent
  with_timestamp t e = record e { timestamp = moment t; date_partition = text (dates.strftime t) }

  abbrev pub dict_of : Fields → Dict String Value
  dict_of no_fields = []
  dict_of (field k v f) = (k, v) ∷ dict_of f

  module _ (json : Json) where
    abbrev pub or_raise : Option json.Bytes → Result json.Bytes
    or_raise none = raise uncaught
    or_raise (some b) = ok b

    unfoldable pub to_json : StreamEvent → Result json.Bytes
    to_json e = to_dict e >>= (λ d. or_raise (json.dumps (object (fields_of d))))

    -- A text that is no dictionary has no `get`.
    abbrev pub from_loaded : Instant dates.Time → Option Value → Result StreamEvent
    from_loaded at (some (object f)) = from_dict at (dict_of f)
    from_loaded at v = raise uncaught

    unfoldable pub from_json : Instant dates.Time → json.Bytes → Result StreamEvent
    from_json at b = from_loaded at (json.loads b)
