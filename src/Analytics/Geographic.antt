-- ===== src/Analytics/Geographic.antt =====
-- `execute_geographic_analysis`: windows of a day that start every hour. A window is numbered by the
-- hour that it ends with, so that an event of hour `h` is in the windows `h + 1` to `h + 24`. A rate is
-- given as the two numbers that are divided.
use streaming_lab.Prelude.{
  ℕ, zero, suc, ◌+◌, ◌*◌, ◌≡◌, refl, ap, ◌∙◌, String, Bool, ◌&&◌, Option, none, some, List, [], ◌∷◌,
  ◌++◌, map, filter, filter-append, length, leb, ltb, ◌==◌, arith, nat_eq, string_eq, pair_eq,
  maybe_eq, Option-cases, inl, inr, if◌then◌else◌, Eq,
}
use streaming_lab.Dict.{Dict, lookup}
use streaming_lab.Analytics.Sql.{
  KafkaEvent, group_by, select, having, same, count_distinct, count_where, has_type, hour_of, rate,
  ms_per_hour,
}
use streaming_lab.Analytics.Grouping.{
  existing, aggregated, kept, lookup-having, lookup-grouped, grouped-Distinct,
}
use streaming_lab.Analytics.Hourly.{has_country}

-- an event in a window
abbrev pub Seen : Type 0
Seen = ℕ × KafkaEvent

unfoldable pub hops_from : ℕ → ℕ → KafkaEvent → List Seen
hops_from end zero r = []
hops_from end (suc n) r = (end, r) ∷ hops_from (suc end) n r

-- `HOP(event_time, INTERVAL '1' HOUR, INTERVAL '24' HOUR)`
unfoldable pub hops : List KafkaEvent → List Seen
hops [] = []
hops (r ∷ rows) = hops_from (suc (hour_of r)) 24 r ++ hops rows

abbrev pub GeoKey : Type 0
GeoKey = ℕ × (Option String × Option String)

instance abbrev geo_key_eq : Eq GeoKey
geo_key_eq = pair_eq

pub record GeoStat : Type 0 where
  pub total_events : ℕ
  pub unique_users : ℕ
  pub purchase_rate : ℕ × ℕ
  pub error_count : ℕ
  pub error_rate : Option (ℕ × ℕ)
  pub window_end : ℕ

unfoldable pub geo_key : Seen → GeoKey
geo_key s = (s.0, (s.1.country, s.1.city))

abbrev pub event_of : Seen → KafkaEvent
event_of s = s.1

unfoldable pub geo_row : ℕ → List KafkaEvent → GeoStat
geo_row end rows = record {
  total_events = length rows;
  unique_users = count_distinct (λ (r : KafkaEvent). r.user_id) rows;
  purchase_rate = (count_where (has_type "purchase") rows, length rows);
  error_count = count_where (has_type "error") rows;
  error_rate = rate (count_where (has_type "error") rows) (length rows);
  window_end = end * ms_per_hour;
}

unfoldable pub geo_stat : GeoKey → List Seen → GeoStat
geo_stat k seen = geo_row k.0 (map event_of seen)

abbrev pub hundred_events : GeoStat → Bool
hundred_events v = leb 100 v.total_events

abbrev pub seen_country : Seen → Bool
seen_country s = has_country s.1

unfoldable pub geo_analysis : List KafkaEvent → Dict GeoKey GeoStat
geo_analysis rows =
    having hundred_events (select geo_stat (group_by geo_key (filter seen_country (hops rows))))

-- the events of a place in the day that ends with hour `w`
abbrev pub in_place : ℕ → String → Option String → KafkaEvent → Bool
in_place w c t r =
    (ltb (hour_of r) w && leb w (hour_of r + 24)) && (same r.country (some c) && same r.city t)

abbrev at_place : ℕ → String → Option String → Seen → Bool
at_place w c t s = (s.0 == w) && (same s.1.country (some c) && same s.1.city t)

geo_key_test :
    (w : ℕ) (c : String) (t : Option String) (s : Seen)
    → (seen_country s && same (geo_key s) (w, (some c, t))) ≡ at_place w c t s
unfolding geo_key
geo_key_test w c t s = elim (Option-cases s.1.country) [
  | inl null ↦ ground (arith, null)
  | inr (d, at) ↦ ground (arith, at)
]

-- An event is in a window once, when the window is one of its own.
hops_from-filter :
    (q : KafkaEvent → Bool) (w n a : ℕ) (r : KafkaEvent)
    → map event_of (filter (λ (s : Seen). (s.0 == w) && q s.1) (hops_from a n r))
      ≡ (if (leb a w && ltb w (a + n)) && q r then r ∷ [] else [])
unfolding hops_from
hops_from-filter q w zero a r = ground arith
hops_from-filter q w (suc n) a r = ground (arith, hops_from-filter q w n (suc a) r)

map-append :
    {A : Type 0} {B : Type 0} (f : A → B) (xs ys : List A) → map f (xs ++ ys) ≡ map f xs ++ map f ys
map-append f [] ys = refl
map-append f (x ∷ xs) ys = ap (λ zs. f x ∷ zs) (map-append f xs ys)

hops-filter :
    (q : KafkaEvent → Bool) (w : ℕ) (rows : List KafkaEvent)
    → map event_of (filter (λ (s : Seen). (s.0 == w) && q s.1) (hops rows))
      ≡ filter (λ r. (ltb (hour_of r) w && leb w (hour_of r + 24)) && q r) rows
unfolding hops
hops-filter q w [] = refl
hops-filter q w (r ∷ rows) =
    let here = λ (s : Seen). (s.0 == w) && q s.1 in
    ap (map event_of) (filter-append here (hops_from (suc (hour_of r)) 24 r) (hops rows))
    ∙ map-append event_of (filter here (hops_from (suc (hour_of r)) 24 r)) (filter here (hops rows))
    ∙ rw (hops_from-filter q w 24 (suc (hour_of r)) r, hops-filter q w rows) (ground arith)

hundred_rows :
    (w : ℕ) (c t : Option String) (seen : List Seen)
    → kept hundred_events (aggregated geo_stat (w, (c, t)) (existing seen)) ≡ (
        if leb 100 (length (map event_of seen)) then some (geo_row w (map event_of seen)) else none)
unfolding geo_stat geo_row
hundred_rows w c t [] = refl
hundred_rows w c t (s ∷ seen) = refl

-- A place and a window are reported exactly when a hundred or more events of that place fall into the 24
-- hours of the window, and the report aggregates those events, each of them once.
pub geographic_exact :
    (w : ℕ) (c : String) (t : Option String) (rows : List KafkaEvent)
    → lookup (w, (some c, t)) (geo_analysis rows) ≡ (
        if leb 100 (length (filter (in_place w c t) rows))
        then some (geo_row w (filter (in_place w c t) rows))
        else none)
unfolding geo_analysis
geographic_exact w c t rows =
    lookup-having hundred_events (w, (some c, t))
      (select geo_stat (group_by geo_key (filter seen_country (hops rows))))
      (grouped-Distinct geo_stat geo_key seen_country (hops rows))
    ∙ ap (kept hundred_events) (
        lookup-grouped geo_stat geo_key seen_country (w, (some c, t)) (at_place w c t)
          (geo_key_test w c t) (hops rows))
    ∙ hundred_rows w (some c) t (filter (at_place w c t) (hops rows))
    ∙ ap (λ (es : List KafkaEvent). if leb 100 (length es) then some (geo_row w es) else none)
        (hops-filter (λ r. same r.country (some c) && same r.city t) w rows)
