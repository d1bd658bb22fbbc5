-- ===== src/Watermark/Bounds.antt =====
-- The watermark never goes back, waits for every partition, and stays the lateness window behind
-- the slowest.
use streaming_lab.Prelude.{
  ℕ, ◌+◌, ◌≤◌, ◌<◌, ◌≡◌, ◌⊎◌, Option, none, some, List, [], ◌∷◌, min, arith, nat_eq, lt→ltb,
  Option-cases, inl, inr,
}
use streaming_lab.Dict.{Dict, lookup, values}
use streaming_lab.Dict.Laws.{Distinct}
use streaming_lab.Watermark.{min_of, advance, compute_watermark}
use streaming_lab.Watermark.Partitions.{KeysBelow, length-lt_missing}

min_of-le : (x : ℕ) (ys : List ℕ) → min_of x ys ≤ x
unfolding min_of
min_of-le x [] = omega arith
min_of-le x (y ∷ ys) = omega (arith, min_of-le (min x y) ys)

min_of-le_lookup : (x p v : ℕ) (d : Dict ℕ ℕ) → lookup p d ≡ some v → min_of x (values d) ≤ v
unfolding min_of lookup
min_of-le_lookup x p v [] h = cc
min_of-le_lookup x p v ((k, w) ∷ d) h =
    ground (arith, min_of-le_lookup (min x w) p v d, min_of-le (min x w) (values d))

advance-ge : (xs : List ℕ) (w previous : ℕ) → previous ≤ advance xs w previous
unfolding advance
advance-ge [] w previous = omega arith
advance-ge (x ∷ xs) w previous = ground arith

-- The watermark never falls below the one before, whatever the partitions report.
pub compute_watermark-ge :
    (d : Dict ℕ ℕ) (w previous : ℕ) (expected : Option ℕ)
    → previous ≤ compute_watermark d w previous expected
unfolding compute_watermark
compute_watermark-ge d w previous expected = ground (arith, advance-ge (values d) w previous)

-- As long as one of the expected partitions has reported nothing, the watermark stands still.
pub compute_watermark_waits :
    (n p : ℕ) (d : Dict ℕ ℕ) (w previous : ℕ)
    → Distinct d
    → KeysBelow n d
    → p < n
    → lookup p d ≡ none
    → compute_watermark d w previous (some n) ≡ previous
unfolding compute_watermark
compute_watermark_waits n p d w previous u h lt absent =
    rw (lt→ltb _ _ (length-lt_missing n p d u h lt absent))

advance-le_lookup :
    (d : Dict ℕ ℕ) (w previous p v : ℕ)
    → lookup p d ≡ some v
    → (advance (values d) w previous ≡ previous) ⊎ (advance (values d) w previous + w ≤ v)
unfolding advance lookup
advance-le_lookup [] w previous p v h = cc
advance-le_lookup ((k, x) ∷ d) w previous p v h =
    ground (arith, min_of-le_lookup x p v d, min_of-le x (values d))

-- A watermark that has moved is at least the lateness window behind the maximum of every partition.
pub compute_watermark-le :
    (n p v : ℕ) (d : Dict ℕ ℕ) (w previous : ℕ)
    → lookup p d ≡ some v
    → (compute_watermark d w previous (some n) ≡ previous)
      ⊎ (compute_watermark d w previous (some n) + w ≤ v)
unfolding compute_watermark
compute_watermark-le n p v d w previous h = ground (arith, advance-le_lookup d w previous p v h)

-- The watermark never goes back, and it stands still unless every expected partition has reported a
-- maximum that it stays at least the lateness window behind.
pub compute_watermark_bounds :
    (n p : ℕ) (d : Dict ℕ ℕ) (w previous : ℕ)
    → Distinct d
    → KeysBelow n d
    → p < n
    → (previous ≤ compute_watermark d w previous (some n))
      × ((compute_watermark d w previous (some n) ≡ previous)
          ⊎ ((v : ℕ) × (lookup p d ≡ some v) × (compute_watermark d w previous (some n) + w ≤ v)))
compute_watermark_bounds n p d w previous u h lt = (
  compute_watermark-ge d w previous (some n),
  elim (Option-cases (lookup p d)) [
    | inl absent ↦ inl (compute_watermark_waits n p d w previous u h lt absent)
    | inr (v, found) ↦ elim (compute_watermark-le n p v d w previous found) [
      | inl still ↦ inl still
      | inr behind ↦ inr (v, found, behind)
    ]
  ],
)
