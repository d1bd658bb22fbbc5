-- ===== src/Analytics/Cohorts/Week.antt =====
-- Over a week without a gap the average is that of the week.
use streaming_lab.Prelude.{
  ℕ, zero, suc, ◌+◌, ◌-◌, ◌≤◌, ◌<◌, ltb→lt, leb→le, ◌≡◌, refl, ap, sym, ◌∙◌, Bool, true, false,
  ◌&&◌, none, List, [], ◌∷◌, filter, length, is_some, leb, ltb, ◌==◌, nat_eq, string_eq, pair_eq,
  maybe_eq, Eq, arith, Bool-cases, inl, inr, if◌then◌else◌, All-every,
}
use streaming_lab.Dict.{Dict, lookup}
use streaming_lab.Dict.Laws.{Distinct}
use streaming_lab.Analytics.Sql.{KafkaEvent, same}
use streaming_lab.Analytics.Sums.{sum_over, one_if, sum_over-eq}
use streaming_lab.Analytics.Cohorts.{Cohort, CohortKey, cohort_eq, cohort_key_eq, between_days}

module _ {ℓ κ} {K : Type ℓ} {V : Type κ} ⦃e : Eq K⦄ where
  absent_zero :
      (k : K) (d : Dict K V) → lookup k d ≡ none → sum_over (λ j v. one_if (e.beq j k)) d ≡ 0
  unfolding lookup
  absent_zero k [] h = refl
  absent_zero k ((j, v) ∷ d) h = ground (arith, absent_zero k d)

  -- A key is there at most once.
  once :
      (k : K) (d : Dict K V)
      → Distinct d
      → sum_over (λ j v. one_if (e.beq j k)) d ≡ one_if (is_some (lookup k d))
  unfolding lookup
  once k [] h = refl
  once k ((j, v) ∷ d) h = elim (Bool-cases (e.beq j k)) [
    | inl found ↦
        let gone : lookup k d ≡ none = ap (λ i. lookup i d) (sym ((e.beq_iff j k).0 found)) ∙ h.0 in
        rw found (omega (arith, absent_zero k d gone))
    | inr other ↦ rw other (omega (arith, once k d h.1))
  ]

  sum_add :
      (u v : K → V → ℕ) (d : Dict K V)
      → sum_over (λ k x. u k x + v k x) d ≡ sum_over u d + sum_over v d
  sum_add u v [] = refl
  sum_add u v ((k, x) ∷ d) = omega (arith, sum_add u v d)

  pub length_sum :
      (p : K × V → Bool) (d : Dict K V)
      → length (filter p d) ≡ sum_over (λ k v. one_if (p (k, v))) d
  length_sum p [] = refl
  length_sum p ((k, v) ∷ d) = ground (arith, length_sum p d)

  sum_zero : (d : Dict K V) → sum_over (λ k v. 0) d ≡ 0
  sum_zero [] = refl
  sum_zero ((k, v) ∷ d) = omega (arith, sum_zero d)

-- the rows of a cohort on the `n` days from `a` on
abbrev pub in_days : Cohort → ℕ → ℕ → CohortKey → Bool
in_days p a n k = same k.1 p && (leb a k.0 && ltb k.0 (a + n))

abbrev pub present : Cohort → ℕ → ℕ → Dict CohortKey (List KafkaEvent) → ℕ
present p a zero d = 0
present p a (suc n) d = one_if (is_some (lookup (a, p) d)) + present p (suc a) n d

first_lem :
    (b : Bool) (a n j : ℕ)
    → one_if (b && (leb a j && ltb j (a + suc n)))
      ≡ one_if (if j == a then b else false) + one_if (b && (leb (suc a) j && ltb j (suc a + n)))
first_lem true a n j = ground arith
first_lem false a n j = ground arith

none_lem : (b : Bool) (a j : ℕ) → one_if (b && (leb a j && ltb j (a + 0))) ≡ 0
none_lem true a j = ground arith
none_lem false a j = refl

first_day :
    (p : Cohort) (a n : ℕ) (k : CohortKey)
    → one_if (in_days p a (suc n) k) ≡ one_if (same k (a, p)) + one_if (in_days p (suc a) n k)
first_day p a n (j, q) = first_lem (same q p) a n j

pub days_counted :
    (p : Cohort) (a n : ℕ) (d : Dict CohortKey (List KafkaEvent))
    → Distinct d
    → sum_over (λ k v. one_if (in_days p a n k)) d ≡ present p a n d
days_counted p a zero d h =
    sum_over-eq (λ k v. one_if (in_days p a 0 k)) (λ k v. 0) d
      (All-every (λ r. none_lem (same r.0.1 p) a r.0.0) d)
    ∙ sum_zero d
days_counted p a (suc n) d h =
    sum_over-eq (λ k v. one_if (in_days p a (suc n) k))
      (λ k v. one_if (same k (a, p)) + one_if (in_days p (suc a) n k)) d
      (All-every (λ r. first_day p a n r.0) d)
    ∙ sum_add (λ k v. one_if (same k (a, p))) (λ k v. one_if (in_days p (suc a) n k)) d
    ∙ ap (λ m. m + sum_over (λ k v. one_if (in_days p (suc a) n k)) d) (once (a, p) d h)
    ∙ ap (λ m. one_if (is_some (lookup (a, p) d)) + m) (days_counted p (suc a) n d h)

present_le : (p : Cohort) (a n : ℕ) (d : Dict CohortKey (List KafkaEvent)) → present p a n d ≤ n
present_le p a zero d = omega arith
present_le p a (suc n) d = ground (arith, present_le p (suc a) n d)

-- whether each of the `n` days from `a` on has a row
abbrev pub AllPresent : Cohort → ℕ → ℕ → Dict CohortKey (List KafkaEvent) → Type 0
AllPresent p a zero d = Unit
AllPresent p a (suc n) d = (is_some (lookup (a, p) d) ≡ true) × AllPresent p (suc a) n d

pub present_all :
    (p : Cohort) (a n : ℕ) (d : Dict CohortKey (List KafkaEvent))
    → AllPresent p a n d
    → present p a n d ≡ n
present_all p a zero d h = refl
present_all p a (suc n) d h = rw h.0 (omega (arith, present_all p (suc a) n d h.1))

pub present_at :
    (p : Cohort) (a n i e : ℕ) (d : Dict CohortKey (List KafkaEvent))
    → AllPresent p a n d
    → i < n
    → e ≡ a + i
    → is_some (lookup (e, p) d) ≡ true
present_at p a zero i e d h lt at = absurd (omega (arith, lt))
present_at p a (suc n) zero e d h lt at =
    ap (λ (j : ℕ). is_some (lookup (j, p) d)) (at ∙ omega arith) ∙ h.0
present_at p a (suc n) (suc i) e d h lt at =
    present_at p (suc a) n i e d h.1 (omega (arith, lt)) (omega (arith, at))

between_lem :
    (b : Bool) (e d n j : ℕ)
    → suc e + n ≡ suc d
    → one_if (b && (ltb e j && leb j d)) ≡ one_if (b && (leb (suc e) j && ltb j (suc e + n)))
between_lem true e d n j h = ground (arith, h)
between_lem false e d n j h = refl

-- How many rows of a cohort are after day `e` and not after day `d`.
rows_after :
    (p : Cohort) (e d n : ℕ) (rows : Dict CohortKey (List KafkaEvent))
    → Distinct rows
    → suc e + n ≡ suc d
    → length (filter (between_days p e d) rows) ≡ present p (suc e) n rows
rows_after p e d n rows h at =
    length_sum (between_days p e d) rows
    ∙ sum_over-eq (λ k v. one_if (between_days p e d (k, v)))
        (λ k v. one_if (in_days p (suc e) n k)) rows
        (All-every (λ r. between_lem (same r.0.1 p) e d n r.0.0 at) rows)
    ∙ days_counted p (suc e) n rows h

sum_le :
    (u v : CohortKey → List KafkaEvent → ℕ) (d : Dict CohortKey (List KafkaEvent))
    → ((k : CohortKey) (g : List KafkaEvent) → u k g ≤ v k g)
    → sum_over u d ≤ sum_over v d
sum_le u v [] h = omega arith
sum_le u v ((k, g) ∷ d) h = omega (arith, h k g, sum_le u v d h)

earlier_lem :
    (b : Bool) (a e j : ℕ)
    → e < a
    → one_if (b && (leb a j && ltb j (a + 7))) ≤ one_if (b && (ltb e j && leb j (a + 6)))
earlier_lem true a e j h = ground (arith, h)
earlier_lem false a e j h = omega arith

-- A row before the week has the seven rows of the week after it.
rows_after_earlier :
    (p : Cohort) (a e : ℕ) (rows : Dict CohortKey (List KafkaEvent))
    → Distinct rows
    → AllPresent p a 7 rows
    → e < a
    → 7 ≤ length (filter (between_days p e (a + 6)) rows)
rows_after_earlier p a e rows h full lt = omega (
  arith,
  length_sum (between_days p e (a + 6)) rows,
  sum_le (λ k v. one_if (in_days p a 7 k)) (λ k v. one_if (between_days p e (a + 6) (k, v))) rows
      (λ k g. earlier_lem (same k.1 p) a e k.0 lt),
  days_counted p a 7 rows h,
  present_all p a 7 rows full,
)

-- The frame of the last day is the week.
pub frame_lem :
    (p : Cohort) (a e : ℕ) (b : Bool) (rows : Dict CohortKey (List KafkaEvent))
    → Distinct rows
    → AllPresent p a 7 rows
    → (b && (leb e (a + 6) && ltb (length (filter (between_days p e (a + 6)) rows)) 7))
      ≡ (b && (leb a e && ltb e (a + 7)))
frame_lem p a e false rows h full = refl
frame_lem p a e true rows h full = elim (Bool-cases (ltb e a)) [
  | inl before ↦ ground (arith, before, rows_after_earlier p a e rows h full (ltb→lt e a before))
  | inr since ↦ elim (Bool-cases (leb e (a + 6))) [
    | inl within ↦ ground (
      arith,
      since,
      within,
      rows_after p e (a + 6) (a + 6 - e) rows h (omega (arith, leb→le e (a + 6) within)),
      present_le p (suc e) (a + 6 - e) rows,
    )
    | inr after ↦ ground (arith, after)
  ]
]
