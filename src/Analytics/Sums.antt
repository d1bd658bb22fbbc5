-- ===== src/Analytics/Sums.antt =====
-- Sums over the groups: every row is counted once, and the groups that a test chooses are counted by
-- their keys.
use streaming_lab.Prelude.{
  ℕ, ◌+◌, ◌≡◌, refl, sym, ap, ◌∙◌, Bool, true, false, ◌&&◌, ◌||◌, not, Option, none, some, List, [],
  ◌∷◌, map, filter, length, or_else, arith, if◌then◌else◌, Bool-cases, inl, inr, Eq, All,
}
use streaming_lab.Dict.{Dict, lookup, insert}
use streaming_lab.Analytics.Sql.{group_by, select, member, distinct_values, any}
use streaming_lab.Analytics.Grouping.{existing, or_else-existing, rows_of, lookup-group_by}

abbrev pub one_if : Bool → ℕ
one_if b = if b then 1 else 0

-- A sum over all entries, before and after an insertion.
module _ {ℓ κ} {K : Type ℓ} {V : Type κ} (weight : K → V → ℕ) where
  abbrev pub sum_over : Dict K V → ℕ
  sum_over [] = 0
  sum_over ((k, v) ∷ d) = weight k v + sum_over d

  abbrev pub weight_at : K → Option V → ℕ
  weight_at k none = 0
  weight_at k (some v) = weight k v

module _ {ℓ κ} {K : Type ℓ} {V : Type κ} ⦃e : Eq K⦄ (weight : K → V → ℕ) where
  pub sum_over-insert :
      (k : K) (v : V) (d : Dict K V)
      → sum_over weight (insert k v d) + weight_at weight k (lookup k d)
        ≡ sum_over weight d + weight k v
  unfolding insert lookup
  sum_over-insert k v [] = omega arith
  sum_over-insert k v ((j, w) ∷ d) = elim (Bool-cases (e.beq j k)) [
    | inl same ↦
        let now : weight j v ≡ weight k v = ap (λ i. weight i v) ((e.beq_iff j k).0 same) in
        let before : weight j w ≡ weight k w = ap (λ i. weight i w) ((e.beq_iff j k).0 same) in
        rw same (omega (arith, now, before))
    | inr other ↦ rw other (omega (arith, sum_over-insert k v d))
  ]

module _ {ℓ κ} {A : Type ℓ} {K : Type κ} ⦃e : Eq K⦄ (key : A → K) where
  size_of : (k : K) (o : Option (List A)) → weight_at (λ j g. length g) k o ≡ length (or_else o [])
  size_of k none = refl
  size_of k (some g) = refl

  -- Every row stands in exactly one group.
  pub sum_over-group_by : (xs : List A) → sum_over (λ k g. length g) (group_by key xs) ≡ length xs
  unfolding group_by
  sum_over-group_by [] = refl
  sum_over-group_by (x ∷ xs) =
      let groups = group_by key xs in
      omega (
        arith,
        sum_over-insert (λ k g. length g) (key x) (x ∷ or_else (lookup (key x) groups) []) groups,
        size_of (key x) (lookup (key x) groups),
        sum_over-group_by xs,
      )

module _ {ℓ κ μ} {K : Type ℓ} {V : Type κ} {W : Type μ} (aggregate : K → V → W)
    (weight : K → W → ℕ) where
  pub sum_over-select :
      (d : Dict K V)
      → sum_over weight (select aggregate d) ≡ sum_over (λ k v. weight k (aggregate k v)) d
  unfolding select
  sum_over-select [] = refl
  sum_over-select ((k, v) ∷ d) = ap (λ n. weight k (aggregate k v) + n) (sum_over-select d)

module _ {ℓ κ} {A : Type ℓ} {K : Type κ} ⦃e : Eq K⦄ (key : A → K) (q : K → Bool)
    (p : A → Bool) where
  -- the rows under keys that pass one test, and that pass the other
  abbrev pub chosen : List A → List A
  chosen xs = filter (λ x. q (key x) && p x) xs

  abbrev pub group_chosen : K → List A → Bool
  group_chosen k g = q k && any p g

  abbrev pub group_weight : K → List A → ℕ
  group_weight k g = one_if (group_chosen k g)

  weight_at-existing :
      (k : K) (g : List A) → weight_at group_weight k (existing g) ≡ one_if (q k && any p g)
  weight_at-existing k [] = ground arith
  weight_at-existing k (x ∷ g) = refl

  member-chosen :
      (k : K) (xs : List A) → member k (map key (chosen xs)) ≡ q k && any p (rows_of key k xs)
  member-chosen k [] = ground arith
  member-chosen k (x ∷ xs) = elim (Bool-cases (e.beq (key x) k)) [
    | inl same ↦
        let tests : q (key x) ≡ q k = ap q ((e.beq_iff (key x) k).0 same) in
        ground (arith, member-chosen k xs, same, tests)
    | inr other ↦ ground (arith, member-chosen k xs, other)
  ]

  length-distinct_values-if :
      (b c : Bool) (x : A) (xs : List A)
      → member (key x) (map key xs) ≡ c
      → length (distinct_values (map key (if b then x ∷ xs else xs)))
        ≡ one_if (b && not c) + length (distinct_values (map key xs))
  unfolding distinct_values
  length-distinct_values-if false c x xs h = omega arith
  length-distinct_values-if true false x xs h = rw h (omega arith)
  length-distinct_values-if true true x xs h = rw h (omega arith)

  -- what one more row changes: `a` and `b` are its tests, and `c` whether its group was chosen
  one_more :
      (a b c : Bool) (after before : ℕ)
      → after + one_if (a && c) ≡ before + one_if (a && (b || c))
      → after ≡ one_if ((a && b) && not (a && c)) + before
  one_more false b c after before h = omega (arith, h)
  one_more true false false after before h = omega (arith, h)
  one_more true false true after before h = omega (arith, h)
  one_more true true false after before h = omega (arith, h)
  one_more true true true after before h = omega (arith, h)

  -- The groups with a row that is chosen are as many as the keys of the rows that are chosen.
  pub chosen-group_by :
      (xs : List A)
      → sum_over group_weight (group_by key xs) ≡ length (distinct_values (map key (chosen xs)))
  unfolding group_by distinct_values
  chosen-group_by [] = refl
  chosen-group_by (x ∷ xs) =
      let groups = group_by key xs in
      let old = rows_of key (key x) xs in
      let found : lookup (key x) groups ≡ existing old = lookup-group_by key (key x) xs in
      let group_now = x ∷ or_else (lookup (key x) groups) [] in
      let more : sum_over group_weight (insert (key x) group_now groups)
            + one_if (q (key x) && any p old)
          ≡ sum_over group_weight groups + one_if (q (key x) && (p x || any p old)) =
        ap (λ n. sum_over group_weight (insert (key x) group_now groups) + n)
          (sym (ap (weight_at group_weight (key x)) found ∙ weight_at-existing (key x) old))
        ∙ sum_over-insert group_weight (key x) group_now groups
        ∙ ap (λ g. sum_over group_weight groups + group_weight (key x) (x ∷ g))
            (ap (λ o. or_else o []) found ∙ or_else-existing old) in
      one_more (q (key x)) (p x) (any p old) _ (sum_over group_weight groups) more
      ∙ ap (λ n. one_if ((q (key x) && p x) && not (q (key x) && any p old)) + n)
          (chosen-group_by xs)
      ∙ sym (
          length-distinct_values-if (q (key x) && p x) (q (key x) && any p old) x (chosen xs)
            (member-chosen (key x) xs))

-- What holds of every key, and of every group that has a row.
module _ {ℓ κ} {A : Type ℓ} {K : Type κ} ⦃e : Eq K⦄ (key : A → K) (P : K → Type κ) where
  abbrev Entry : K × List A → Type κ
  Entry (k, g) = P k × (any (λ x. true) g ≡ true)

  insert-Entries :
      (k : K) (x : A) (g : List A) (d : Dict K (List A))
      → P k
      → All Entry d
      → All Entry (insert k (x ∷ g) d)
  unfolding insert
  insert-Entries k x g [] h hs = ((h, refl), tt)
  insert-Entries k x g ((j, w) ∷ d) h hs = elim (Bool-cases (e.beq j k)) [
    | inl same ↦ rw same ((hs.0.0, refl), hs.1)
    | inr other ↦ rw other (hs.0, insert-Entries k x g d h hs.1)
  ]

  pub group_by-Entries : (xs : List A) → All (λ x. P (key x)) xs → All Entry (group_by key xs)
  unfolding group_by
  group_by-Entries [] h = tt
  group_by-Entries (x ∷ xs) h =
      insert-Entries (key x) x (or_else (lookup (key x) (group_by key xs)) []) (group_by key xs) h.0
        (group_by-Entries xs h.1)

module _ {ℓ κ} {K : Type ℓ} {V : Type κ} where
  pub sum_over-eq :
      (w v : K → V → ℕ) (d : Dict K V)
      → All (λ (e : K × V). w e.0 e.1 ≡ v e.0 e.1) d
      → sum_over w d ≡ sum_over v d
  sum_over-eq w v [] h = refl
  sum_over-eq w v ((k, x) ∷ d) h = omega (arith, h.0, sum_over-eq w v d h.1)

  -- a count over the entries, as a sum
  pub length-filter-sum_over :
      (p q : K × V → Bool) (d : Dict K V)
      → length (filter p (filter q d)) ≡ sum_over (λ k v. one_if (q (k, v) && p (k, v))) d
  length-filter-sum_over p q [] = refl
  length-filter-sum_over p q ((k, x) ∷ d) = ground (arith, length-filter-sum_over p q d)
