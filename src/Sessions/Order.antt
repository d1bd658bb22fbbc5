-- ===== src/Sessions/Order.antt =====
-- The order of the events of a session.
use mathlib.Core.List.{Perm}
use mathlib.Core.List.Perm
use streaming_lab.Prelude.{
  ℕ, ◌≤◌, ◌≡◌, false, List, [], ◌∷◌, All, leb, leb→le, arith, Bool-cases, inl, inr,
}
use streaming_lab.Sessions.Model.{UserEvent}
use streaming_lab.Sessions.Aggregate.{insert_event, in_order, last_from}

insert_event-perm : (e : UserEvent) (es : List UserEvent) → Perm (insert_event e es) (e ∷ es)
unfolding insert_event
insert_event-perm e [] = Perm.refl (e ∷ [])
insert_event-perm e (x ∷ xs) = elim (Bool-cases (leb e.timestamp x.timestamp)) [
  | inl here ↦ rw here (Perm.refl (e ∷ x ∷ xs))
  | inr later ↦ rw later (Perm.trans (Perm.cons x (insert_event-perm e xs)) (Perm.swap e x xs))
]

pub in_order-perm : (es : List UserEvent) → Perm (in_order es) es
unfolding in_order
in_order-perm [] = Perm.refl []
in_order-perm (e ∷ es) =
    Perm.trans (insert_event-perm e (in_order es)) (Perm.cons e (in_order-perm es))

-- Each event is no later than those after it.
abbrev pub IsOrdered : List UserEvent → Type 0
IsOrdered [] = Unit
IsOrdered (e ∷ es) = All (λ x. e.timestamp ≤ x.timestamp) es × IsOrdered es

All-later :
    (t u : ℕ) (es : List UserEvent)
    → t ≤ u
    → All (λ x. u ≤ x.timestamp) es
    → All (λ x. t ≤ x.timestamp) es
All-later t u [] h a = tt
All-later t u (e ∷ es) h a = (omega (arith, a.0), All-later t u es h a.1)

All-insert_event :
    (t : ℕ) (e : UserEvent) (es : List UserEvent)
    → t ≤ e.timestamp
    → All (λ x. t ≤ x.timestamp) es
    → All (λ x. t ≤ x.timestamp) (insert_event e es)
unfolding insert_event
All-insert_event t e [] h a = (h, tt)
All-insert_event t e (x ∷ xs) h a = elim (Bool-cases (leb e.timestamp x.timestamp)) [
  | inl here ↦ rw here (h, a)
  | inr later ↦ rw later (a.0, All-insert_event t e xs h a.1)
]

le_of_not_leb : (a b : ℕ) → leb a b ≡ false → b ≤ a
le_of_not_leb a b h = ground arith

insert_event-IsOrdered :
    (e : UserEvent) (es : List UserEvent) → IsOrdered es → IsOrdered (insert_event e es)
unfolding insert_event
insert_event-IsOrdered e [] h = (tt, tt)
insert_event-IsOrdered e (x ∷ xs) h = elim (Bool-cases (leb e.timestamp x.timestamp)) [
  | inl here ↦
      let le = leb→le e.timestamp x.timestamp here in
      rw here ((le, All-later e.timestamp x.timestamp xs le h.0), h)
  | inr later ↦ rw later (
    All-insert_event x.timestamp e xs (le_of_not_leb e.timestamp x.timestamp later) h.0,
    insert_event-IsOrdered e xs h.1,
  )
]

pub in_order-IsOrdered : (es : List UserEvent) → IsOrdered (in_order es)
unfolding in_order
in_order-IsOrdered [] = tt
in_order-IsOrdered (e ∷ es) = insert_event-IsOrdered e (in_order es) (in_order-IsOrdered es)

-- The last of ordered events is the latest.
pub last_from-latest :
    (e : UserEvent) (es : List UserEvent)
    → IsOrdered (e ∷ es)
    → All (λ x. x.timestamp ≤ (last_from e es).timestamp) (e ∷ es)
last_from-latest e [] h = (omega arith, tt)
last_from-latest e (x ∷ xs) h =
    let rest = last_from-latest x xs h.1 in (omega (arith, rest.0, h.0.0), rest)
