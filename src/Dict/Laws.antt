-- ===== src/Dict/Laws.antt =====
-- What a lookup sees after an insertion, and that no key is listed twice.
use streaming_lab.Prelude.{
  ◌≡◌, refl, ◌≢◌, none, some, [], ◌∷◌, Eq, arith, if◌then◌else◌, Bool-cases, inl, inr, length, suc,
  ◌++◌,
}
use streaming_lab.Dict.{Dict, lookup, insert}

module _ {ℓ κ} {K : Type ℓ} {V : Type κ} ⦃e : Eq K⦄ where
  pub lookup-insert :
      (k j : K) (v : V) (d : Dict K V)
      → lookup j (insert k v d) ≡ (if e.beq k j then some v else lookup j d)
  unfolding lookup insert
  lookup-insert k j v [] = refl
  lookup-insert k j v ((i, w) ∷ d) =
      ground (arith, e.beq_iff k j, e.beq_iff i k, e.beq_iff i j, lookup-insert k j v d)

  -- No key is listed twice.
  abbrev pub Distinct : Dict K V → Type κ
  Distinct [] = Unit
  Distinct ((k, v) ∷ d) = (lookup k d ≡ none) × Distinct d

  pub insert-Distinct : (k : K) (v : V) (d : Dict K V) → Distinct d → Distinct (insert k v d)
  unfolding insert
  insert-Distinct k v [] h = (unfold lookup in refl, tt)
  insert-Distinct k v ((i, w) ∷ d) h = elim (Bool-cases (e.beq i k)) [
    | inl same ↦ rw same h
    | inr other ↦
        rw (other, lookup-insert k i v d)
          (ground (arith, e.beq_iff k i, e.beq_iff i k, insert-Distinct k v d h.1))
  ]

  -- A key that is there is overwritten, and a new one makes the dictionary longer by one.
  pub length-insert_new :
      (k : K) (v : V) (d : Dict K V) → lookup k d ≡ none → length (insert k v d) ≡ suc (length d)
  unfolding lookup insert
  length-insert_new k v [] h = refl
  length-insert_new k v ((i, w) ∷ d) h = ground (arith, length-insert_new k v d)

  lookup-append_self : (k : K) (v : V) (c d : Dict K V) → lookup k (c ++ (k, v) ∷ d) ≢ none
  unfolding lookup
  lookup-append_self k v [] d = ground (arith, e.beq_iff k k)
  lookup-append_self k v ((i, w) ∷ c) d = ground (arith, lookup-append_self k v c d)

  pub insert-append :
      (k : K) (v : V) (c d : Dict K V)
      → Distinct (c ++ (k, v) ∷ d)
      → insert k v c ≡ c ++ (k, v) ∷ []
  unfolding insert
  insert-append k v [] d h = refl
  insert-append k v ((i, w) ∷ c) d h =
      ground (arith, e.beq_iff i k, lookup-append_self k v c d, insert-append k v c d h.1)
