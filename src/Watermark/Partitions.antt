-- ===== src/Watermark/Partitions.antt =====
-- `len` of a dictionary keyed by partitions: all of them are there exactly when it is the number of
-- partitions.
use streaming_lab.Prelude.{
  ℕ, zero, suc, ◌≤◌, ◌<◌, ◌≡◌, refl, none, [], ◌∷◌, All, length, arith, ◌==◌, if◌then◌else◌, nat_eq,
}
use streaming_lab.Dict.{Dict, lookup, insert, keys}
use streaming_lab.Dict.Laws.{Distinct}

module _ {ℓ} {V : Type ℓ} where
  abbrev pub KeysBelow : ℕ → Dict ℕ V → Type 0
  KeysBelow n d = All (λ k. k < n) (keys d)

  without : ℕ → Dict ℕ V → Dict ℕ V
  without n [] = []
  without n ((k, v) ∷ d) = if k == n then without n d else (k, v) ∷ without n d

  lookup-without : (n k : ℕ) (d : Dict ℕ V) → lookup k d ≡ none → lookup k (without n d) ≡ none
  unfolding lookup without
  lookup-without n k [] h = refl
  lookup-without n k ((i, w) ∷ d) h = ground (arith, lookup-without n k d)

  without-Distinct : (n : ℕ) (d : Dict ℕ V) → Distinct d → Distinct (without n d)
  unfolding without
  without-Distinct n [] h = tt
  without-Distinct n ((i, w) ∷ d) h =
      ground (arith, without-Distinct n d h.1, lookup-without n i d h.0)

  without-KeysBelow : (n : ℕ) (d : Dict ℕ V) → KeysBelow (suc n) d → KeysBelow n (without n d)
  unfolding without
  without-KeysBelow n [] h = tt
  without-KeysBelow n ((i, w) ∷ d) h = ground (arith, without-KeysBelow n d h.1)

  length-without_absent :
      (n : ℕ) (d : Dict ℕ V) → lookup n d ≡ none → length (without n d) ≡ length d
  unfolding without lookup
  length-without_absent n [] h = refl
  length-without_absent n ((i, w) ∷ d) h = ground (arith, length-without_absent n d)

  length-without : (n : ℕ) (d : Dict ℕ V) → Distinct d → length d ≤ suc (length (without n d))
  unfolding without
  length-without n [] h = omega arith
  length-without n ((i, w) ∷ d) h =
      ground (arith, length-without n d h.1, length-without_absent n d)

  pub length-le_KeysBelow : (n : ℕ) (d : Dict ℕ V) → Distinct d → KeysBelow n d → length d ≤ n
  length-le_KeysBelow zero [] u h = omega arith
  length-le_KeysBelow zero (x ∷ d) u h = absurd (omega arith)
  length-le_KeysBelow (suc n) d u h = omega (
    arith,
    length-without n d u,
    length-le_KeysBelow n (without n d) (without-Distinct n d u) (without-KeysBelow n d h),
  )

  -- A dictionary over the partitions that lacks one of them is shorter than their number.
  pub length-lt_missing :
      (n p : ℕ) (d : Dict ℕ V)
      → Distinct d
      → KeysBelow n d
      → p < n
      → lookup p d ≡ none
      → length d < n
  length-lt_missing n p [] u h lt absent = omega arith
  length-lt_missing n p ((k, v) ∷ d) u h lt absent =
      length-le_KeysBelow n ((p, v) ∷ (k, v) ∷ d) (absent, u) (lt, h)

  pub insert-KeysBelow :
      (n p : ℕ) (v : V) (d : Dict ℕ V) → p < n → KeysBelow n d → KeysBelow n (insert p v d)
  unfolding insert
  insert-KeysBelow n p v [] lt h = (lt, tt)
  insert-KeysBelow n p v ((k, w) ∷ d) lt h = ground (arith, insert-KeysBelow n p v d lt h.1)
