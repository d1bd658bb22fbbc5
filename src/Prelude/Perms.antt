-- ===== src/Prelude/Perms.antt =====
-- What lists that are permutations of one another have in common.
use Prim.Native.Nat.{suc}
use mathlib.Core.Path.{◌≡◌, refl, sym, ap, ◌∙◌}
use mathlib.Core.Bool.{Bool, not}
use mathlib.Core.Logic.{∥∥₁_elim, ∥∥₁_map, inl, inr}
use mathlib.Core.List.{List, [], ◌∷◌, ◌++◌, Perm, Permᴰ, map}
use native.Mathlib.Omega.{arith}
use native.Mathlib.Nat.{ℕ_set}
use streaming_lab.Prelude.Tests.{Bool-cases}
use streaming_lab.Prelude.Int.{ℤ, pos, ◌+ℤ◌, +ℤ_assoc, int_laws, +ℤ_join_left, +ℤ_join_right}
use streaming_lab.Prelude.Lists.{length, filter}

ℤ-set : IsSet ℤ
ℤ-set = hlevel

module _ {ℓ} {A : Type ℓ} where
  length-permᴰ : {xs ys : List A} → Permᴰ xs ys → length xs ≡ length ys
  length-permᴰ Permᴰ.nil = refl
  length-permᴰ (Permᴰ.cons e p) = ap suc (length-permᴰ p)
  length-permᴰ (Permᴰ.swap e f) = refl
  length-permᴰ (Permᴰ.trans p q) = omega (arith, length-permᴰ p, length-permᴰ q)

  pub length-perm : {xs ys : List A} → Perm xs ys → length xs ≡ length ys
  length-perm p = ∥∥₁_elim p (ℕ_set _ _) length-permᴰ

  refl_permᴰ : (xs : List A) → Permᴰ xs xs
  refl_permᴰ [] = Permᴰ.nil
  refl_permᴰ (x ∷ xs) = Permᴰ.cons refl (refl_permᴰ xs)

  filter-permᴰ : (p : A → Bool) {xs ys : List A} → Permᴰ xs ys → Permᴰ (filter p xs) (filter p ys)
  filter-permᴰ p Permᴰ.nil = Permᴰ.nil
  filter-permᴰ p (Permᴰ.cons {b = b} e q) = elim (Bool-cases (p b)) [
    | inl kept ↦ rw (e, kept) (Permᴰ.cons refl (filter-permᴰ p q))
    | inr left ↦ rw (e, left) (filter-permᴰ p q)
  ]
  filter-permᴰ p (Permᴰ.swap {a' = a'} {b' = b'} {l = l} e f) = elim (Bool-cases (p a')) [
    | inl one ↦ elim (Bool-cases (p b')) [
      | inl two ↦ rw (e, f, one, two) (Permᴰ.swap refl refl)
      | inr two ↦ rw (e, f, one, two) (refl_permᴰ _)
    ]
    | inr one ↦ elim (Bool-cases (p b')) [
      | inl two ↦ rw (e, f, one, two) (refl_permᴰ _)
      | inr two ↦ rw (e, f, one, two) (refl_permᴰ _)
    ]
  ]
  filter-permᴰ p (Permᴰ.trans q r) = Permᴰ.trans (filter-permᴰ p q) (filter-permᴰ p r)

  pub filter-perm : (p : A → Bool) {xs ys : List A} → Perm xs ys → Perm (filter p xs) (filter p ys)
  filter-perm p q = ∥∥₁_map q (filter-permᴰ p)

  -- The sum of a signed quantity over a list.
  unfoldable pub sum_by : (A → ℤ) → List A → ℤ
  sum_by f [] = pos 0
  sum_by f (x ∷ xs) = f x +ℤ sum_by f xs

  pub sum_by-append :
      (f : A → ℤ) (xs ys : List A) → sum_by f (xs ++ ys) ≡ sum_by f xs +ℤ sum_by f ys
  unfolding sum_by
  sum_by-append f [] ys = omega int_laws
  sum_by-append f (x ∷ xs) ys =
      ap (λ s. f x +ℤ s) (sum_by-append f xs ys) ∙ sym (+ℤ_assoc (f x) _ _)

  sum_by-permᴰ : (f : A → ℤ) {xs ys : List A} → Permᴰ xs ys → sum_by f xs ≡ sum_by f ys
  unfolding sum_by
  sum_by-permᴰ f Permᴰ.nil = refl
  sum_by-permᴰ f (Permᴰ.cons {b = b} e p) = rw e (ap (λ s. f b +ℤ s) (sum_by-permᴰ f p))
  sum_by-permᴰ f (Permᴰ.swap e g) = rw (e, g) (omega int_laws)
  sum_by-permᴰ f (Permᴰ.trans p q) = sum_by-permᴰ f p ∙ sum_by-permᴰ f q

  pub sum_by-perm : (f : A → ℤ) {xs ys : List A} → Perm xs ys → sum_by f xs ≡ sum_by f ys
  sum_by-perm f p = ∥∥₁_elim p (ℤ-set _ _) (sum_by-permᴰ f)

  -- The sum over a list is that over the parts into which a test splits it.
  pub sum_by-filter_split :
      (f : A → ℤ) (p : A → Bool) (xs : List A)
      → sum_by f (filter p xs) +ℤ sum_by f (filter (λ x. not (p x)) xs) ≡ sum_by f xs
  unfolding sum_by
  sum_by-filter_split f p [] = omega int_laws
  sum_by-filter_split f p (x ∷ xs) = elim (Bool-cases (p x)) [
    | inl kept ↦ rw kept (+ℤ_join_left (f x) _ _ _ (sum_by-filter_split f p xs))
    | inr left ↦ rw left (+ℤ_join_right (f x) _ _ _ (sum_by-filter_split f p xs))
  ]

module _ {ℓ κ} {A : Type ℓ} {B : Type κ} (g : A → B) where
  pub filter-map :
      (p : B → Bool) (xs : List A) → filter p (map g xs) ≡ map g (filter (λ x. p (g x)) xs)
  filter-map p [] = refl
  filter-map p (x ∷ xs) = elim (Bool-cases (p (g x))) [
    | inl kept ↦ rw kept (ap (λ t. g x ∷ t) (filter-map p xs))
    | inr left ↦ rw left (filter-map p xs)
  ]

  pub length-map : (xs : List A) → length (map g xs) ≡ length xs
  length-map [] = refl
  length-map (x ∷ xs) = ap suc (length-map xs)

  pub sum_by-map : (f : B → ℤ) (xs : List A) → sum_by f (map g xs) ≡ sum_by (λ x. f (g x)) xs
  unfolding sum_by
  sum_by-map f [] = refl
  sum_by-map f (x ∷ xs) = ap (λ s. f (g x) +ℤ s) (sum_by-map f xs)
