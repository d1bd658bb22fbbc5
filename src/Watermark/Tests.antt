-- ===== src/Watermark/Tests.antt =====
-- Three partitions, of which one has reported nothing, or all.
use streaming_lab.Prelude.{ℕ, ◌+◌, ◌≤◌, nat_eq, ◌≡◌, refl, ◌⊎◌, some, [], ◌∷◌, arith}
use streaming_lab.Dict.{Dict, lookup}
use streaming_lab.Watermark.{compute_watermark}
use streaming_lab.Watermark.Bounds.{compute_watermark_bounds}

abbrev two_of_three : Dict ℕ ℕ
two_of_three = (0, 500) ∷ (2, 900) ∷ []

abbrev all_three : Dict ℕ ℕ
all_three = (1, 700) ∷ two_of_three

stands_still : compute_watermark two_of_three 100 250 (some 3) ≡ 250
unfolding compute_watermark
stands_still = refl

compute_watermark_bounds_example :
    (250 ≤ compute_watermark all_three 100 250 (some 3))
    × ((compute_watermark all_three 100 250 (some 3) ≡ 250)
        ⊎ ((v : ℕ) × (lookup 1 all_three ≡ some v)
            × (compute_watermark all_three 100 250 (some 3) + 100 ≤ v)))
unfolding lookup
compute_watermark_bounds_example =
    compute_watermark_bounds 3 1 all_three 100 250 (refl, (refl, (refl, tt))) (omega arith)
      (omega arith)
