-- ===== src/Sessions/Model.antt =====
-- `Event` and `UserSession` of event_model_original.py. Times are in microseconds, since those of
-- `datetime` are. Of the properties the sessions read the user agent, which is ASCII text.
use streaming_lab.Prelude.{
  ℕ, ◌+◌, String, Bool, true, false, ◌&&◌, ◌||◌, Option, none, some, List, [], ◌∷◌, leb, ◌==◌,
  str_eq, if◌then◌else◌,
}
use streaming_lab.Dict.{Dict}
use streaming_lab.Text.{Text}
use streaming_lab.Sessions.Word

pub record UserEvent : Type 0 where
  pub user_id : Option ℕ
  pub session_id : Option String
  pub event_type : String
  pub event_name : Option String
  pub user_agent : Option Text
  pub url : Option String
  pub country : Option String
  pub timestamp : ℕ
  -- whether the time carries an offset from UTC: such times do not compare with those that do not
  pub aware : Bool

-- An empty text counts as none.
abbrev pub truthy : Option String → Option String
truthy none = none
truthy (some s) = if str_eq s "" then none else some s

unfoldable pub is_page_view : UserEvent → Bool
is_page_view e = str_eq e.event_type "page_view"

-- `[x for x in xs if x]`
unfoldable pub present : List (Option String) → List String
present [] = []
present (none ∷ xs) = present xs
present (some x ∷ xs) = if str_eq x "" then present xs else x ∷ present xs

abbrev pub elem : String → List String → Bool
elem x [] = false
elem x (y ∷ ys) = if str_eq y x then true else elem x ys

-- `set(xs)`, as the list of its elements
unfoldable pub distinct : List String → List String
distinct [] = []
distinct (x ∷ xs) = if elem x xs then distinct xs else x ∷ distinct xs

-- The id of a session: one that the events carry, or `f"session_{user_id}_{seconds}"`.
pub data SessionId : Type 0 where
  given : String → SessionId
  generated : ℕ → ℕ → SessionId

pub record UserSession : Type 0 where
  pub session_id : SessionId
  pub user_id : ℕ
  pub start_time : ℕ
  pub end_time : ℕ
  pub duration_seconds : ℕ
  pub event_count : ℕ
  pub page_view_count : ℕ
  pub unique_urls_count : ℕ
  pub countries : List String
  pub landing_page : Option String
  pub exit_page : Option String
  pub page_view_sequence : List String
  pub is_bounce : Bool
  pub device_type : Option String
  pub browser : Option String
  -- the day of the start
  pub date_partition : ℕ
  -- of the start and the end
  pub times_aware : Bool

-- `ua.lower()`
unfoldable pub lower : Text → Text
lower [] = []
lower (c ∷ s) = (if leb 65 c && leb c 90 then c + 32 else c) ∷ lower s

abbrev starts_with : Text → Text → Bool
starts_with [] s = true
starts_with (c ∷ w) [] = false
starts_with (c ∷ w) (d ∷ s) = (c == d) && starts_with w s

-- `w in s`
unfoldable pub mentions : Text → Text → Bool
mentions w [] = starts_with w []
mentions w (c ∷ s) = starts_with w (c ∷ s) || mentions w s

unfoldable pub device_of : Text → String
device_of ua =
    if mentions Word.mobile ua || (mentions Word.android ua || mentions Word.iphone ua)
    then "mobile"
    else if mentions Word.tablet ua || mentions Word.ipad ua
    then "tablet"
    else "desktop"

unfoldable pub browser_of : Text → String
browser_of ua =
    if mentions Word.chrome ua
    then "chrome"
    else if mentions Word.firefox ua
    then "firefox"
    else if mentions Word.safari ua
    then "safari"
    else if mentions Word.edge ua
    then "edge"
    else "other"

-- `_extract_device_info`: the first event that has a user agent
unfoldable pub extract_device_info : List UserEvent → Option (String × String)
extract_device_info [] = none
extract_device_info (e ∷ es) = elim e.user_agent [
  | none ↦ extract_device_info es
  | some ua ↦ some (device_of (lower ua), browser_of (lower ua))
]

-- `_extract_device_info` of the event model, which gives a dictionary of the two
unfoldable pub extract_device_dict : List UserEvent → Dict String (Option String)
extract_device_dict [] = ("device_type", none) ∷ ("browser", none) ∷ []
extract_device_dict (e ∷ es) = elim e.user_agent [
  | none ↦ extract_device_dict es
  | some ua ↦
      let low = lower ua in
      let device =
        if mentions Word.mobile low || (mentions Word.android low || mentions Word.iphone low)
        then "mobile"
        else if mentions Word.tablet low || mentions Word.ipad low
        then "tablet"
        else "desktop" in
      let browser =
        if mentions Word.chrome low
        then "chrome"
        else if mentions Word.firefox low
        then "firefox"
        else if mentions Word.safari low
        then "safari"
        else if mentions Word.edge low
        then "edge"
        else "other" in
      ("device_type", some device) ∷ ("browser", some browser) ∷ []
]
