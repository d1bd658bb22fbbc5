-- ===== src/Sessions/Wire/RoundTrip.antt =====
-- What an event was sent as is read back as that event.
use Prim.Native.Char.{Char}
use Prim.Native.String.append
use streaming_lab.Prelude.{
  ◌≡◌, ◌≢◌, eq_iff, refl, ap, sym, ◌∙◌, ◌⊎◌, inl, inr, String, false, none, [], ◌∷◌, str_eq,
  or_else, if◌then◌else◌, string_eq, Bool-cases, Option-cases,
}
use streaming_lab.Dict.{Dict, lookup}
use streaming_lab.Results.{ok}
use streaming_lab.Gateway.Value.{Value, null, number, text, object, fields_of, str_number, ◌<>◌}
use streaming_lab.Storage.Services.{Json}
use streaming_lab.Sessions.Wire.{
  get_event_key, with_timestamp, utc_offset, Dates, falsy, Instant, moment, StreamEvent, fresh_id,
  stamp_of, get, from_dict, to_dict, dict_of, to_json, from_json,
}

-- A timestamp that is a text or nothing, as the declaration of the field has it.
abbrev pub IsStampText : Value → Type 0
IsStampText (text s) = Unit
IsStampText null = Unit
IsStampText v = ⊥

dict_of-fields_of : (dates : Dates) (d : Dict String Value) → dict_of dates (fields_of d) ≡ d
dict_of-fields_of dates [] = refl
dict_of-fields_of dates ((k, v) ∷ d) = ap (λ r. (k, v) ∷ r) (dict_of-fields_of dates d)

not_empty : (c : Char) (s : String) → String.◌∷◌ c s ≢ ""
not_empty c s h = cc

longer_apart : (c : Char) (r s : String) → str_eq (String.◌∷◌ c r <> s) "" ≡ false
longer_apart c r s = elim (Bool-cases (str_eq (String.◌∷◌ c r <> s) "")) [
  | inl same ↦
      absurd
        (not_empty c (r <> s) (sym (append.cons c r s) ∙ (eq_iff (String.◌∷◌ c r <> s) "").0 same))
  | inr apart ↦ apart
]

module _ (dates : Dates) where
  fresh_id_truthy : (at : Instant dates.Time) → falsy (fresh_id dates at) ≡ false
  unfolding fresh_id
  fresh_id_truthy at = longer_apart "e" "vt_" (str_number at.now_millis <> "_" <> at.hex)

  stamp_moment :
      (at : Instant dates.Time) (v : Value)
      → IsStampText v
      → (t : dates.Time) × (stamp_of dates at v ≡ moment t)
  stamp_moment at null h = (at.utcnow, refl)
  stamp_moment at (text s) h = (or_else (dates.fromisoformat (utc_offset s)) at.utcnow, refl)
  stamp_moment at (number n) h = absurd h
  stamp_moment at (object f) h = absurd h

  -- an event as it leaves the constructor
  abbrev Settled : StreamEvent dates → dates.Time → Type 0
  Settled e t =
      (e.timestamp ≡ moment t) × (falsy e.event_id ≡ false) × (falsy e.date_partition ≡ false)

  truthy_id :
      (at : Instant dates.Time) (v : Value)
      → falsy (if falsy v then fresh_id dates at else v) ≡ false
  truthy_id at v = elim (Bool-cases (falsy v)) [
    | inl empty ↦ rw empty (fresh_id_truthy at)
    | inr set ↦ rw set set
  ]

  truthy_day :
      (t : dates.Time) (v : Value) → falsy (if falsy v then text (dates.strftime t) else v) ≡ false
  truthy_day t v = elim (Bool-cases (falsy v)) [
    | inl empty ↦ rw empty (dates.strftime_some t)
    | inr set ↦ rw set set
  ]

  from_dict-Settled :
      (at : Instant dates.Time) (d : Dict String Value)
      → IsStampText (get dates "timestamp" null d)
      → (e : StreamEvent dates) × ((t : dates.Time) × ((from_dict dates at d ≡ ok e) × Settled e t))
  unfolding from_dict
  from_dict-Settled at d h =
      let (t, made) = stamp_moment at (get dates "timestamp" null d) h in
      rw made (
        _,
        (
          t,
          (
            refl,
            (
              refl,
              truthy_id at (get dates "event_id" null d),
              truthy_day t (get dates "date_partition" null d),
            ),
          ),
        ),
      )

  -- What a settled event is sent as reads back as that event, whatever the time then.
  from_dict-to_dict :
      (at : Instant dates.Time) (e : StreamEvent dates) (t : dates.Time)
      → Settled e t
      → (d : Dict String Value) × ((to_dict dates e ≡ ok d) × (from_dict dates at d ≡ ok e))
  unfolding to_dict from_dict lookup
  from_dict-to_dict at e t (stamp, id, day) =
      rw stamp (
        _,
        (refl, rw (dates.utc_offset-isoformat t, dates.fromisoformat-isoformat t, id, day) refl),
      )

  -- The copy with another time is settled again, and is sent with the day of that time.
  pub with_timestamp-Settled :
      (e : StreamEvent dates) (before t : dates.Time)
      → Settled e before
      → Settled (with_timestamp dates t e) t
  unfolding with_timestamp
  with_timestamp-Settled e before t (stamp, id, day) = (refl, id, dates.strftime_some t)

  -- A settled event always has a key, if the text of a user is not empty.
  pub get_event_key_truthy :
      (str : Value → String) (e : StreamEvent dates) (t : dates.Time)
      → ((v : Value) → str_eq (str v) "" ≡ false)
      → Settled e t
      → falsy (get_event_key dates str e) ≡ false
  unfolding get_event_key
  get_event_key_truthy str e t named (stamp, id, day) = elim (Bool-cases (falsy e.user_id)) [
    | inl nobody ↦ rw nobody id
    | inr user ↦ rw user (named e.user_id)
  ]

  module _ (json : Json) where
    json_round_trip :
        (at : Instant dates.Time) (e : StreamEvent dates) (d : Dict String Value)
        → to_dict dates e ≡ ok d
        → from_dict dates at d ≡ ok e
        → (json.dumps (object (fields_of d)) ≡ none)
          ⊎ ((b : json.Bytes) × ((to_json dates json e ≡ ok b)
                × (from_json dates json at b ≡ ok e)))
    unfolding to_json from_json
    json_round_trip at e d sent back = elim (Option-cases (json.dumps (object (fields_of d)))) [
      | inl refused ↦ inl refused
      | inr (b, made) ↦ inr (
        b,
        (
          rw sent (rw made refl),
          rw (json.loads-dumps (object (fields_of d)) b made)
              (ap (from_dict dates at) (dict_of-fields_of dates d) ∙ back),
        ),
      )
    ]

    -- A dictionary whose timestamp is a text or missing always gives an event, whatever the text says.
    -- Unless the JSON encoder refuses its properties, the event is then sent as a JSON text, which
    -- reads back, at any later time, as the very same event: its generated id, its day and its time of
    -- arrival are not made anew.
    pub from_json-to_json :
        (at later : Instant dates.Time) (d : Dict String Value)
        → IsStampText (get dates "timestamp" null d)
        → (e : StreamEvent dates) × ((from_dict dates at d ≡ ok e)
            × ((sent : Dict String Value) × ((to_dict dates e ≡ ok sent)
                  × ((json.dumps (object (fields_of sent)) ≡ none)
                      ⊎ ((b : json.Bytes) × ((to_json dates json e ≡ ok b)
                            × (from_json dates json later b ≡ ok e)))))))
    from_json-to_json at later d h =
        let (e, (t, (made, settled))) = from_dict-Settled at d h in
        let (sent, (printed, back)) = from_dict-to_dict later e t settled in
        (e, (made, (sent, (printed, json_round_trip later e sent printed back))))
