-- ===== src/Prelude/Tests.antt =====
-- Boolean tests on numbers and texts, the conditional, and case lemmas.
use Prim.Native.Nat.{ℕ, ◌≤◌, ◌<◌, compare, Ordering}
use Prim.Native.String.{String}
use mathlib.Core.Path.{◌≡◌, refl, ap, sym, ◌∙◌}
use mathlib.Core.List.{List, [], ◌∷◌}
use mathlib.Core.Logic.{◌≢◌, ◌↔◌, ◌⊎◌, inl, inr}
use mathlib.Core.Bool.{Bool, true, false}
use mathlib.Core.Option.{Option, none, some}
use native.Mathlib.Omega.{arith}
use text.Mathlib.Text.{◌==◌ as text_eq}
use text.Mathlib.TextEquality.{eq_iff}

abbrev pub ltb : ℕ → ℕ → Bool
ltb a b = elim (compare a b) [ Ordering.lt ↦ true | _ ↦ false ]

abbrev pub leb : ℕ → ℕ → Bool
leb a b = elim (compare a b) [ Ordering.gt ↦ false | _ ↦ true ]

infix 50 ◌==◌
abbrev pub ◌==◌ : ℕ → ℕ → Bool
a == b = elim (compare a b) [ Ordering.eq ↦ true | _ ↦ false ]

abbrev pub str_eq : String → String → Bool
str_eq = text_eq

infix 1 if◌then◌else◌
abbrev pub if◌then◌else◌ {ℓ} : {A : Type ℓ} → Bool → A → A → A
if true then x else y = x
if false then x else y = y

-- Python's `x or d` on an optional value that is true whenever it is there.
abbrev pub or_else {ℓ} : {A : Type ℓ} → Option A → A → A
or_else none d = d
or_else (some a) d = a

abbrev pub is_some {ℓ} : {A : Type ℓ} → Option A → Bool
is_some none = false
is_some (some a) = true

pub ltb→lt : (a b : ℕ) → ltb a b ≡ true → a < b
ltb→lt a b h = ground arith

pub lt→ltb : (a b : ℕ) → a < b → ltb a b ≡ true
lt→ltb a b h = ground arith

pub ltb→le : (a b : ℕ) → ltb a b ≡ false → b ≤ a
ltb→le a b h = ground arith

pub leb→le : (a b : ℕ) → leb a b ≡ true → a ≤ b
leb→le a b h = ground arith

pub ==_iff : (a b : ℕ) → ((a == b) ≡ true) ↔ (a ≡ b)
==_iff a b = ground arith

pub Bool-cases : (b : Bool) → (b ≡ true) ⊎ (b ≡ false)
Bool-cases true = inl refl
Bool-cases false = inr refl

pub Option-cases {ℓ} : {A : Type ℓ} (o : Option A) → (o ≡ none) ⊎ ((a : A) × (o ≡ some a))
Option-cases none = inl refl
Option-cases (some a) = inr (a, refl)

pub some-eq {ℓ} : {A : Type ℓ} (a b : A) → some a ≡ some b → a ≡ b
some-eq a b h = cc

-- Equality as an interface, so that one dictionary serves every kind of key.
pub record Eq {ℓ} (A : Type ℓ) : Type ℓ where
  pub beq : A → A → Bool
  pub beq_iff : (a b : A) → (beq a b ≡ true) ↔ (a ≡ b)

instance abbrev pub nat_eq : Eq ℕ
nat_eq = record { beq = ◌==◌; beq_iff = ==_iff }

instance abbrev pub string_eq : Eq String
string_eq = record { beq = str_eq; beq_iff = eq_iff }

bool_clash : {b : Bool} → b ≡ true → b ≡ false → ⊥
bool_clash h k = cc

module _ {ℓ κ} {A : Type ℓ} {B : Type κ} ⦃e : Eq A⦄ ⦃f : Eq B⦄ where
  abbrev both : A × B → A × B → Bool
  both (a, b) (c, d) = if e.beq a c then f.beq b d else false

  both-eq : (a c : A) (b d : B) → both (a, b) (c, d) ≡ true → (a ≡ c) × (b ≡ d)
  both-eq a c b d h = elim (Bool-cases (e.beq a c)) [
    | inl same ↦ ((e.beq_iff a c).0 same, (f.beq_iff b d).0 (rw same at h))
    | inr other ↦ absurd (bool_clash (rw other at h) refl)
  ]

  pub both_iff : (p q : A × B) → (both p q ≡ true) ↔ (p ≡ q)
  both_iff (a, b) (c, d) = (
    (λ h. let (first, second) = both-eq a c b d h in rw (first, second) refl),
    λ h.
        rw ((e.beq_iff a c).1 (ap (λ (x : A × B). x.0) h))
          ((f.beq_iff b d).1 (ap (λ (x : A × B). x.1) h)),
  )

  instance abbrev pub pair_eq : Eq (A × B)
  pair_eq = record { beq = both; beq_iff = both_iff }

module _ {ℓ} {A : Type ℓ} ⦃e : Eq A⦄ where
  abbrev maybe_same : Option A → Option A → Bool
  maybe_same none none = true
  maybe_same none (some b) = false
  maybe_same (some a) none = false
  maybe_same (some a) (some b) = e.beq a b

  pub maybe_same_iff : (p q : Option A) → (maybe_same p q ≡ true) ↔ (p ≡ q)
  maybe_same_iff none none = (λ h. refl, λ h. refl)
  maybe_same_iff none (some b) = (λ h. cc, λ h. cc)
  maybe_same_iff (some a) none = (λ h. cc, λ h. cc)
  maybe_same_iff (some a) (some b) =
      (λ h. ap some ((e.beq_iff a b).0 h), λ h. (e.beq_iff a b).1 (some-eq a b h))

  instance abbrev pub maybe_eq : Eq (Option A)
  maybe_eq = record { beq = maybe_same; beq_iff = maybe_same_iff }

module _ {ℓ} {A : Type ℓ} ⦃e : Eq A⦄ where
  abbrev lists_same : List A → List A → Bool
  lists_same [] [] = true
  lists_same [] (y ∷ ys) = false
  lists_same (x ∷ xs) [] = false
  lists_same (x ∷ xs) (y ∷ ys) = if e.beq x y then lists_same xs ys else false

  lists_same_refl : (xs : List A) → lists_same xs xs ≡ true
  lists_same_refl [] = refl
  lists_same_refl (x ∷ xs) = rw ((e.beq_iff x x).1 refl) (lists_same_refl xs)

  lists_same-eq : (xs ys : List A) → lists_same xs ys ≡ true → xs ≡ ys
  lists_same-eq [] [] h = refl
  lists_same-eq [] (y ∷ ys) h = cc
  lists_same-eq (x ∷ xs) [] h = cc
  lists_same-eq (x ∷ xs) (y ∷ ys) h = elim (Bool-cases (e.beq x y)) [
    | inl same ↦ rw ((e.beq_iff x y).0 same, lists_same-eq xs ys (rw same at h)) refl
    | inr other ↦ absurd (bool_clash (rw other at h) refl)
  ]

  pub lists_same_iff : (xs ys : List A) → (lists_same xs ys ≡ true) ↔ (xs ≡ ys)
  lists_same_iff xs ys =
      (lists_same-eq xs ys, λ h. ap (λ zs. lists_same xs zs) (sym h) ∙ lists_same_refl xs)

  instance abbrev pub list_eq : Eq (List A)
  list_eq = record { beq = lists_same; beq_iff = lists_same_iff }

-- texts that a test tells apart
pub names_apart : (a b : String) → str_eq a b ≡ false → a ≢ b
names_apart a b h same = bool_clash ((eq_iff a b).1 same) h
