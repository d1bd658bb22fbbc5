-- ===== src/Analytics/Funnel/Users.antt =====
-- The funnel counts users: a step of a day is counted once for every user who made it on that day.
use streaming_lab.Prelude.{
  ℕ, ◌≡◌, refl, ap, sym, ◌∙◌, Bool, true, false, ◌&&◌, Option, none, some, List, [], ◌∷◌, map,
  filter, length, is_some, ◌==◌, arith, nat_eq, pair_eq, maybe_eq, Bool-cases, Option-cases, inl,
  inr, All, All-map, All-every, if◌then◌else◌, suc,
}
use streaming_lab.Dict.{Dict, lookup}
use streaming_lab.Dict.Laws.{Distinct}
use streaming_lab.Analytics.Sql.{
  KafkaEvent, group_by, select, member, distinct_values, not_null, count_distinct, count_where, any,
  has_type, day_of,
}
use streaming_lab.Analytics.Grouping.{
  existing, aggregated, grouped-Distinct, lookup-select, lookup-group_by,
}
use streaming_lab.Analytics.Sums.{
  sum_over-select, sum_over-eq, chosen-group_by, group_by-Entries, length-filter-sum_over, one_if,
}
use streaming_lab.Analytics.Daily.{has_user}
use streaming_lab.Analytics.Funnel.{
  views_product, UserDate, user_date, UserFunnelSteps, steps_of, user_funnel_steps,
  ConversionFunnel, funnel_row, StepsRow, funnel_of, date_of, conversion_funnel,
}

abbrev pub event_user : KafkaEvent → Option ℕ
event_user r = r.user_id

-- how many users have an event on day `d` that passes a test
abbrev pub users_on : ℕ → (KafkaEvent → Bool) → List KafkaEvent → ℕ
users_on d p rows = count_distinct event_user (filter (λ r. (day_of r == d) && p r) rows)

abbrev dated : ℕ → ℕ → UserDate
dated d n = (some n, d)

member-dated : (d n : ℕ) (ns : List ℕ) → member (dated d n) (map (dated d) ns) ≡ member n ns
member-dated d n [] = refl
member-dated d n (m ∷ ns) = ground (arith, member-dated d n ns)

-- On one day, users and pairs of a user and the day are as many.
length-distinct_values-dated :
    (d : ℕ) (ns : List ℕ)
    → length (distinct_values (map (dated d) ns)) ≡ length (distinct_values ns)
unfolding distinct_values
length-distinct_values-dated d [] = refl
length-distinct_values-dated d (n ∷ ns) = elim (Bool-cases (member n ns)) [
  | inl old ↦ rw (old, member-dated d n ns ∙ old) (length-distinct_values-dated d ns)
  | inr new ↦ rw (new, member-dated d n ns ∙ new) (ap suc (length-distinct_values-dated d ns))
]

-- Rows of one day, by the pairs of a user and the day, and by their users.
dated_users :
    (d : ℕ) (t : KafkaEvent → Bool)
    → ((r : KafkaEvent) → t r ≡ true → day_of r ≡ d)
    → (rows : List KafkaEvent)
    → map user_date (filter t (filter has_user rows))
      ≡ map (dated d) (not_null event_user (filter t rows))
unfolding user_date not_null
dated_users d t h [] = refl
dated_users d t h (r ∷ rows) = elim (Bool-cases (t r)) [
  | inl passes ↦ elim (Option-cases r.user_id) [
    | inl null ↦ ground (arith, null, passes, dated_users d t h rows)
    | inr (u, at) ↦ ground (arith, at, passes, dated_users d t h rows, h r passes)
  ]
  | inr fails ↦ ground (arith, fails, dated_users d t h rows)
]

-- A step is counted once for every user who made it that day.
step_count :
    (d : ℕ) (sel : UserFunnelSteps → Bool) (p : KafkaEvent → Bool) (rows : List KafkaEvent)
    → All
        (λ (g : UserDate × List KafkaEvent). sel (steps_of g.0 g.1) ≡ any p g.1)
        (group_by user_date (filter has_user rows))
    → count_where
        (λ (s : StepsRow). sel s.1)
        (filter (λ s. date_of s == d) (user_funnel_steps rows))
      ≡ users_on d p rows
unfolding user_funnel_steps user_date count_distinct
step_count d sel p rows same_tests =
    let groups = group_by user_date (filter has_user rows) in
    length-filter-sum_over (λ (s : StepsRow). sel s.1) (λ s. date_of s == d)
      (user_funnel_steps rows)
    ∙ sum_over-select steps_of (λ k v. one_if ((k.1 == d) && sel v)) groups
    ∙ sum_over-eq (λ k g. one_if ((k.1 == d) && sel (steps_of k g)))
        (λ k g. one_if ((k.1 == d) && any p g)) groups
        (All-map (λ g h. ap (λ b. one_if ((g.0.1 == d) && b)) h) groups same_tests)
    ∙ chosen-group_by user_date (λ k. k.1 == d) p (filter has_user rows)
    ∙ ap (λ ks. length (distinct_values ks))
        (dated_users d (λ r. (day_of r == d) && p r) (λ r h. ground arith) rows)
    ∙ length-distinct_values-dated d
        (not_null event_user (filter (λ r. (day_of r == d) && p r) rows))

-- Of a table with one row for every user and day, the rows of a day have as many users as rows.
member-users :
    (d n : ℕ) (rows : Dict UserDate UserFunnelSteps)
    → lookup (some n, d) rows ≡ none
    → member n (not_null (λ (s : StepsRow). s.0.0) (filter (λ s. date_of s == d) rows)) ≡ false
unfolding not_null lookup
member-users d n [] h = refl
member-users d n (((none, j), v) ∷ rows) h = ground (arith, member-users d n rows)
member-users d n (((some u, j), v) ∷ rows) h = ground (arith, member-users d n rows)

users_by_rows :
    (d : ℕ) (rows : Dict UserDate UserFunnelSteps)
    → Distinct rows
    → All (λ (s : StepsRow). is_some s.0.0 ≡ true) rows
    → count_distinct (λ (s : StepsRow). s.0.0) (filter (λ s. date_of s == d) rows)
      ≡ length (filter (λ s. date_of s == d) rows)
unfolding count_distinct not_null distinct_values lookup
users_by_rows d [] h hs = refl
users_by_rows d (((none, j), v) ∷ rows) h hs = absurd (cc)
users_by_rows d (((some u, j), v) ∷ rows) h hs = elim (Bool-cases (j == d)) [
  | inl today ↦ ground (arith, today, member-users d u rows, users_by_rows d rows h.1 hs.1)
  | inr other ↦ ground (arith, other, users_by_rows d rows h.1 hs.1)
]

has_user_key :
    (rows : List KafkaEvent) → All (λ r. is_some (user_date r).0 ≡ true) (filter has_user rows)
unfolding user_date
has_user_key [] = tt
has_user_key (r ∷ rows) = elim (Bool-cases (has_user r)) [
  | inl named ↦ rw named (named, has_user_key rows)
  | inr nobody ↦ rw nobody (has_user_key rows)
]

All-select :
    (P : UserDate → Type 0) (groups : Dict UserDate (List KafkaEvent))
    → All (λ (g : UserDate × List KafkaEvent). P g.0) groups
    → All (λ (s : StepsRow). P s.0) (select steps_of groups)
unfolding select
All-select P [] h = tt
All-select P ((k, g) ∷ groups) h = (h.0, All-select P groups h.1)

count_where-all : {A : Type 0} (xs : List A) → count_where (λ x. true) xs ≡ length xs
count_where-all [] = refl
count_where-all (x ∷ xs) = ap suc (count_where-all xs)

abbrev HasName : UserDate → Type 0
HasName k = is_some k.0 ≡ true

-- The groups of a user and a day have a user and an event.
named_groups :
    (rows : List KafkaEvent)
    → All
        (λ (g : UserDate × List KafkaEvent). HasName g.0 × (any (λ r. true) g.1 ≡ true))
        (group_by user_date (filter has_user rows))
named_groups rows = group_by-Entries user_date HasName (filter has_user rows) (has_user_key rows)

total_users-steps :
    (d : ℕ) (rows : List KafkaEvent)
    → count_distinct
        (λ (s : StepsRow). s.0.0)
        (filter (λ s. date_of s == d) (user_funnel_steps rows))
      ≡ length (filter (λ s. date_of s == d) (user_funnel_steps rows))
unfolding user_funnel_steps
total_users-steps d rows =
    users_by_rows d (user_funnel_steps rows) (grouped-Distinct steps_of user_date has_user rows) (
      All-select HasName (group_by user_date (filter has_user rows))
        (All-map (λ g h. h.0) (group_by user_date (filter has_user rows)) (named_groups rows)))

rows_by_users :
    (d : ℕ) (rows : List KafkaEvent)
    → length (filter (λ s. date_of s == d) (user_funnel_steps rows)) ≡ users_on d (λ r. true) rows
rows_by_users d rows =
    sym (count_where-all (filter (λ s. date_of s == d) (user_funnel_steps rows)))
    ∙ step_count d (λ s. true) (λ r. true) rows
        (All-map (λ g h. sym h.1) (group_by user_date (filter has_user rows)) (named_groups rows))

abbrev pub funnel_on : ℕ → List KafkaEvent → ConversionFunnel
funnel_on d rows =
    funnel_row (users_on d (λ r. true) rows) (users_on d views_product rows)
      (users_on d (has_type "add_to_cart") rows) (users_on d (has_type "checkout") rows)
      (users_on d (has_type "purchase") rows)

funnel_of-day :
    (d : ℕ) (rows : List KafkaEvent)
    → funnel_of d (filter (λ s. date_of s == d) (user_funnel_steps rows)) ≡ funnel_on d rows
unfolding funnel_of steps_of
funnel_of-day d rows =
    let groups = group_by user_date (filter has_user rows) in
    rw
      (
        total_users-steps d rows ∙ rows_by_users d rows,
        step_count d (λ s. s.viewed_product) views_product rows (All-every (λ g. refl) groups),
        step_count d (λ s. s.added_to_cart) (has_type "add_to_cart") rows
            (All-every (λ g. refl) groups),
        step_count d (λ s. s.started_checkout) (has_type "checkout") rows
            (All-every (λ g. refl) groups),
        step_count d (λ s. s.completed_purchase) (has_type "purchase") rows
            (All-every (λ g. refl) groups),
      )
      refl

one_row :
    (d n : ℕ) (f : ConversionFunnel) (rows : List StepsRow)
    → length rows ≡ n
    → funnel_of d rows ≡ f
    → aggregated funnel_of d (existing rows) ≡ (if n == 0 then none else some f)
one_row d n f [] h g = rw (sym h) refl
one_row d n f (s ∷ rows) h g = rw (sym h, sym g) (ground arith)

-- A day's row counts, for the day and for each step, the users that have an event on that day, or one
-- that makes that step: each user once, however many such events there are. The row is absent when no
-- user has an event on that day.
pub funnel_exact :
    (d : ℕ) (rows : List KafkaEvent)
    → lookup d (conversion_funnel rows)
      ≡ (if users_on d (λ r. true) rows == 0 then none else some (funnel_on d rows))
unfolding conversion_funnel
funnel_exact d rows =
    lookup-select funnel_of d (group_by date_of (user_funnel_steps rows))
    ∙ ap (aggregated funnel_of d) (lookup-group_by date_of d (user_funnel_steps rows))
    ∙ one_row d (users_on d (λ r. true) rows) (funnel_on d rows)
        (filter (λ s. date_of s == d) (user_funnel_steps rows)) (rows_by_users d rows)
        (funnel_of-day d rows)
