-- ===== src/Analytics/Grouping.antt =====
-- What grouping keeps: every row stands in the group of its key and in no other.
use streaming_lab.Prelude.{
  ◌≡◌, refl, sym, ap, ◌∙◌, Bool, ◌&&◌, Option, none, some, List, [], ◌∷◌, filter, or_else, arith,
  if◌then◌else◌, Bool-cases, inl, inr, Eq,
}
use streaming_lab.Dict.{Dict, lookup}
use streaming_lab.Dict.Laws.{lookup-insert, Distinct, insert-Distinct}
use streaming_lab.Analytics.Sql.{group_by, select, having}

-- a group that has no row is not there
abbrev pub existing {ℓ} : {A : Type ℓ} → List A → Option (List A)
existing [] = none
existing (x ∷ xs) = some (x ∷ xs)

pub or_else-existing {ℓ} : {A : Type ℓ} (xs : List A) → or_else (existing xs) [] ≡ xs
or_else-existing [] = refl
or_else-existing (x ∷ xs) = refl

module _ {ℓ κ} {A : Type ℓ} {K : Type κ} ⦃e : Eq K⦄ (key : A → K) where
  abbrev pub rows_of : K → List A → List A
  rows_of k xs = filter (λ x. e.beq (key x) k) xs

  pub lookup-group_by : (k : K) (xs : List A) → lookup k (group_by key xs) ≡ existing (rows_of k xs)
  unfolding group_by lookup
  lookup-group_by k [] = refl
  lookup-group_by k (x ∷ xs) = elim (Bool-cases (e.beq (key x) k)) [
    | inl same ↦
        let found : lookup (key x) (group_by key xs) ≡ existing (rows_of k xs) =
          ap (λ j. lookup j (group_by key xs)) ((e.beq_iff (key x) k).0 same)
          ∙ lookup-group_by k xs in
        rw
          (
            lookup-insert (key x) k (x ∷ or_else (lookup (key x) (group_by key xs)) [])
                (group_by key xs),
            same,
          )
          (rw (found, or_else-existing (rows_of k xs)) refl)
    | inr other ↦
        rw
          (
            lookup-insert (key x) k (x ∷ or_else (lookup (key x) (group_by key xs)) [])
                (group_by key xs),
            other,
          )
          (lookup-group_by k xs)
  ]

  pub group_by-Distinct : (xs : List A) → Distinct (group_by key xs)
  unfolding group_by
  group_by-Distinct [] = tt
  group_by-Distinct (x ∷ xs) = insert-Distinct (key x) _ (group_by key xs) (group_by-Distinct xs)

module _ {ℓ κ μ} {K : Type ℓ} {V : Type κ} {W : Type μ} ⦃e : Eq K⦄ (aggregate : K → V → W) where
  -- the aggregates of a group that is there
  abbrev pub aggregated : K → Option V → Option W
  aggregated k none = none
  aggregated k (some v) = some (aggregate k v)

  pub lookup-select :
      (k : K) (d : Dict K V) → lookup k (select aggregate d) ≡ aggregated k (lookup k d)
  unfolding lookup select
  lookup-select k [] = refl
  lookup-select k ((j, v) ∷ d) = elim (Bool-cases (e.beq j k)) [
    | inl same ↦ rw same (ap (λ i. some (aggregate i v)) ((e.beq_iff j k).0 same))
    | inr other ↦ rw other (lookup-select k d)
  ]

  pub select-Distinct : (d : Dict K V) → Distinct d → Distinct (select aggregate d)
  unfolding select
  select-Distinct [] h = tt
  select-Distinct ((k, v) ∷ d) (new, h) =
      (lookup-select k d ∙ ap (aggregated k) new, select-Distinct d h)

-- what `HAVING` leaves of a group
abbrev pub kept {ℓ} : {V : Type ℓ} → (V → Bool) → Option V → Option V
kept p none = none
kept p (some v) = if p v then some v else none

module _ {ℓ κ} {K : Type ℓ} {V : Type κ} ⦃e : Eq K⦄ (p : V → Bool) where
  lookup-having-none : (k : K) (d : Dict K V) → lookup k d ≡ none → lookup k (having p d) ≡ none
  unfolding lookup having
  lookup-having-none k [] h = refl
  lookup-having-none k ((j, v) ∷ d) h = ground (arith, lookup-having-none k d)

  pub lookup-having :
      (k : K) (d : Dict K V) → Distinct d → lookup k (having p d) ≡ kept p (lookup k d)
  unfolding lookup having
  lookup-having k [] h = refl
  lookup-having k ((j, v) ∷ d) (new, h) = elim (Bool-cases (e.beq j k)) [
    | inl same ↦
        let gone : lookup k (having p d) ≡ none =
          lookup-having-none k d (ap (λ i. lookup i d) (sym ((e.beq_iff j k).0 same)) ∙ new) in
        elim (Bool-cases (p v)) [
          | inl passes ↦ rw (passes, same) (rw passes refl)
          | inr fails ↦ rw (fails, same) (rw fails gone)
        ]
    | inr other ↦ elim (Bool-cases (p v)) [
      | inl passes ↦ rw (passes, other) (lookup-having k d h)
      | inr fails ↦ rw (fails, other) (lookup-having k d h)
    ]
  ]

-- Two tests, one after the other, are their conjunction.
module _ {ℓ} {A : Type ℓ} (p q : A → Bool) where
  pub filter-filter : (xs : List A) → filter p (filter q xs) ≡ filter (λ x. q x && p x) xs
  filter-filter [] = refl
  filter-filter (x ∷ xs) = ground (arith, filter-filter xs)

  pub filter-eq : ((x : A) → p x ≡ q x) → (xs : List A) → filter p xs ≡ filter q xs
  filter-eq h [] = refl
  filter-eq h (x ∷ xs) = ground (arith, filter-eq h xs, h x)

-- A query that filters, groups and aggregates, seen at one key: `t` says which rows the key is about.
module _ {ℓ κ μ} {A : Type ℓ} {K : Type κ} {W : Type μ} ⦃e : Eq K⦄ (aggregate : K → List A → W)
    (key : A → K) (p : A → Bool) where
  pub lookup-grouped :
      (k : K) (t : A → Bool)
      → ((x : A) → (p x && e.beq (key x) k) ≡ t x)
      → (xs : List A)
      → lookup k (select aggregate (group_by key (filter p xs)))
        ≡ aggregated aggregate k (existing (filter t xs))
  lookup-grouped k t h xs =
      lookup-select aggregate k (group_by key (filter p xs))
      ∙ ap (aggregated aggregate k) (
          lookup-group_by key k (filter p xs)
          ∙ ap existing (
              filter-filter (λ x. e.beq (key x) k) p xs
              ∙ filter-eq (λ x. p x && e.beq (key x) k) t h xs))

  pub grouped-Distinct : (xs : List A) → Distinct (select aggregate (group_by key (filter p xs)))
  grouped-Distinct xs =
      select-Distinct aggregate (group_by key (filter p xs)) (group_by-Distinct key (filter p xs))
