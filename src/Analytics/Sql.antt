-- ===== src/Analytics/Sql.antt =====
-- What the queries use of SQL: grouping, aggregates that pass over NULL, and the columns of the table
-- `kafka_events` that they read. Event times are in milliseconds. NULL is `none`, and `GROUP BY` counts
-- all NULLs as one value.
use streaming_lab.Prelude.{
  ℕ, ◌*◌, ◌/◌, String, Bool, true, false, ◌||◌, Option, none, some, List, [], ◌∷◌, filter, length,
  ltb, min, max, or_else, str_eq, if◌then◌else◌, Eq,
}
use streaming_lab.Text.{Text}
use streaming_lab.Dict.{Dict, lookup, insert}

pub record KafkaEvent : Type 0 where
  pub user_id : Option ℕ
  pub session_id : Option String
  pub event_type : Option String
  pub url : Option Text
  pub country : Option String
  pub city : Option String
  pub event_time : ℕ

abbrev pub same {ℓ} : {A : Type ℓ} → ⦃e : Eq A⦄ → A → A → Bool
same ⦃e⦄ = e.beq

module _ {ℓ κ} {A : Type ℓ} {K : Type κ} ⦃e : Eq K⦄ where
  -- `GROUP BY`: the rows of every key that occurs
  unfoldable pub group_by : (A → K) → List A → Dict K (List A)
  group_by key [] = []
  group_by key (x ∷ xs) =
      let rest = group_by key xs in insert (key x) (x ∷ or_else (lookup (key x) rest) []) rest

-- the aggregates of every group, under the columns that it is grouped by
module _ {ℓ κ μ} {K : Type ℓ} {V : Type κ} {W : Type μ} where
  unfoldable pub select : (K → V → W) → Dict K V → Dict K W
  select aggregate [] = []
  select aggregate ((k, v) ∷ d) = (k, aggregate k v) ∷ select aggregate d

-- `HAVING`
module _ {ℓ κ} {K : Type ℓ} {V : Type κ} where
  unfoldable pub having : (V → Bool) → Dict K V → Dict K V
  having p [] = []
  having p ((k, v) ∷ d) = let rest = having p d in if p v then (k, v) ∷ rest else rest

module _ {ℓ} {A : Type ℓ} ⦃e : Eq A⦄ where
  abbrev pub member : A → List A → Bool
  member x [] = false
  member x (y ∷ ys) = if e.beq y x then true else member x ys

  unfoldable pub distinct_values : List A → List A
  distinct_values [] = []
  distinct_values (x ∷ xs) = let rest = distinct_values xs in if member x xs then rest else x ∷ rest

-- the values that are not NULL
module _ {ℓ κ} {A : Type ℓ} {B : Type κ} where
  unfoldable pub not_null : (A → Option B) → List A → List B
  not_null column [] = []
  not_null column (x ∷ xs) =
      let rest = not_null column xs in elim (column x) [ none ↦ rest | some b ↦ b ∷ rest ]

  -- `COUNT(DISTINCT column)`
  unfoldable pub count_distinct : ⦃e : Eq B⦄ → (A → Option B) → List A → ℕ
  count_distinct column xs = length (distinct_values (not_null column xs))

-- `SUM(CASE WHEN p THEN 1 ELSE 0 END)`, and whether `MAX` of it is 1
module _ {ℓ} {A : Type ℓ} where
  abbrev pub count_where : (A → Bool) → List A → ℕ
  count_where p xs = length (filter p xs)

  abbrev pub any : (A → Bool) → List A → Bool
  any p [] = false
  any p (x ∷ xs) = p x || any p xs

-- `MIN` and `MAX`, which are NULL of no rows
abbrev pub sql_min : List ℕ → Option ℕ
sql_min [] = none
sql_min (x ∷ []) = some x
sql_min (x ∷ y ∷ xs) = sql_min (min x y ∷ xs)

abbrev pub sql_max : List ℕ → Option ℕ
sql_max [] = none
sql_max (x ∷ []) = some x
sql_max (x ∷ y ∷ xs) = sql_max (max x y ∷ xs)

-- `column = 'text'`, which is not true of NULL
abbrev pub is_text : String → Option String → Bool
is_text t none = false
is_text t (some s) = str_eq s t

unfoldable pub has_type : String → KafkaEvent → Bool
has_type t r = is_text t r.event_type

-- `TUMBLE(event_time, INTERVAL '1' HOUR)` and `INTERVAL '1' DAY`: the windows are numbered
abbrev pub ms_per_hour : ℕ
ms_per_hour = 3600000

abbrev pub ms_per_day : ℕ
ms_per_day = 24 * ms_per_hour

unfoldable pub hour_of : KafkaEvent → ℕ
hour_of r = r.event_time / ms_per_hour

unfoldable pub day_of : KafkaEvent → ℕ
day_of r = r.event_time / ms_per_day

-- `CASE WHEN d > 0 THEN n / d ELSE 0 END`, and `none` for the 0
abbrev pub rate : ℕ → ℕ → Option (ℕ × ℕ)
rate n d = if ltb 0 d then some (n, d) else none
