-- ===== src/Landing/Disorder.antt =====
-- Bounded disorder of a list of events, and of the partitions of a topic.
use mathlib.Core.Path.{subst}
use streaming_lab.Prelude.{
  some-eq, ℕ, zero, suc, ◌+◌, ◌≤◌, ◌≡◌, Bool, some, List, [], ◌∷◌, All, All-filter, filter,
  get_elem?, arith, Bool-cases, inl, inr,
}
use streaming_lab.Events.Schema.{OrderEvent}
use streaming_lab.Landing.Offsets.{Topic}
use streaming_lab.Landing.Safety.{BoundedDisorder}

-- No event of the list is more than `w` older than one before it.
abbrev pub IsBounded : ℕ → List OrderEvent → Type 0
IsBounded w [] = Unit
IsBounded w (e ∷ es) = All (λ b. e.event_time_ms ≤ b.event_time_ms + w) es × IsBounded w es

pub IsBounded-filter :
    (w : ℕ) (p : OrderEvent → Bool) (es : List OrderEvent)
    → IsBounded w es
    → IsBounded w (filter p es)
IsBounded-filter w p [] h = tt
IsBounded-filter w p (e ∷ es) h = elim (Bool-cases (p e)) [
  | inl kept ↦ rw kept (
    All-filter (λ b. e.event_time_ms ≤ b.event_time_ms + w) p es h.0,
    IsBounded-filter w p es h.1,
  )
  | inr left ↦ rw left (IsBounded-filter w p es h.1)
]

All-get {ℓ κ} :
    {A : Type ℓ} (P : A → Type κ) (xs : List A) (i : ℕ) {x : A}
    → All P xs
    → get_elem? xs i ≡ some x
    → P x
All-get P [] i h e = cc
All-get P (y ∷ xs) zero {x} h e = subst P (some-eq y x e) h.0
All-get P (y ∷ xs) (suc i) h e = All-get P xs i h.1 e

IsBounded-get :
    (w : ℕ) (es : List OrderEvent) (i j : ℕ) {a b : OrderEvent}
    → IsBounded w es
    → i ≤ j
    → get_elem? es i ≡ some a
    → get_elem? es j ≡ some b
    → a.event_time_ms ≤ b.event_time_ms + w
IsBounded-get w [] i j h le x y = cc
IsBounded-get w (e ∷ es) zero zero h le x y = ground arith
IsBounded-get w (e ∷ es) zero (suc j) {a} {b} h le x y =
    subst (λ (c : OrderEvent). c.event_time_ms ≤ b.event_time_ms + w) (some-eq e a x)
      (All-get (λ (c : OrderEvent). e.event_time_ms ≤ c.event_time_ms + w) es j h.0 y)
IsBounded-get w (e ∷ es) (suc i) zero h le x y = absurd (omega arith)
IsBounded-get w (e ∷ es) (suc i) (suc j) h le x y = IsBounded-get w es i j h.1 (omega arith) x y

pub BoundedDisorder-lists :
    (log : Topic) (w : ℕ) → ((p : ℕ) → IsBounded w (log p)) → BoundedDisorder log w
BoundedDisorder-lists log w h p i j a b le x y = IsBounded-get w (log p) i j (h p) le x y
