-- ===== src/Events/Generator/Stream.antt =====
-- What the generator hands to the pipeline: its events, and the partitions that they are produced to.
use mathlib.Core.List.{Perm, perm_middle}
use mathlib.Core.List.Perm
use streaming_lab.Prelude.{
  ℕ, zero, suc, ◌<◌, ◌≡◌, refl, ap, ◌∙◌, true, false, some, List, [], ◌∷◌, ◌++◌, length, String,
  filter, filter-none, All, arith, ltb, ◌==◌, Bool-cases, inl, inr, lt→ltb,
}
use streaming_lab.Prelude.Int.{ℤ, pos, ◌≤ℤ◌, +ℤ_parts}
use streaming_lab.Prelude.Perms.{sum_by}
use streaming_lab.Config.{Config}
use streaming_lab.Results.{ok}
use streaming_lab.Events.Schema.{OrderEvent}
use streaming_lab.Events.Generator.{Rng, Gen, build_events, produced}
use streaming_lab.Events.Generator.Invariant.{IsGood, loop-IsGood, amount_of}
use streaming_lab.Landing.Disorder.{IsBounded, IsBounded-filter, BoundedDisorder-lists}
use streaming_lab.Landing.Safety.{BoundedDisorder}
use streaming_lab.Query.Sides.{all_events, delta, HasKnownType}
use mathlib.Core.Path.{subst}

sum_nonneg :
    {A : Type 0} (f : A → ℤ) (xs : List A) → All (λ x. pos 0 ≤ℤ f x) xs → pos 0 ≤ℤ sum_by f xs
unfolding sum_by
sum_nonneg f [] h = omega arith
sum_nonneg f (x ∷ xs) h = omega (arith, +ℤ_parts (f x) (sum_by f xs), sum_nonneg f xs h.1)

module _ (rng : Rng) (cfg : Config) (start_ms max_amount n seed : ℕ) where
  begin : Gen rng
  begin = record { events = []; created_pool = []; i = 0; state = rng.seeded seed }

  begin-IsGood : IsGood rng cfg start_ms begin
  unfolding begin sum_by
  begin-IsGood = record {
    counted = refl;
    early = tt;
    bounded = tt;
    known = tt;
    total = refl;
    nonneg = tt;
  }

  -- For a positive lateness window and a positive maximum amount the generator ends with exactly
  -- the events asked for: all of the two known types, none older than one before it by more than
  -- the window, and of a sum that is never negative.
  pub build_events_total :
      0 < cfg.lateness_window_ms
      → 0 < max_amount
      → (events : List OrderEvent) × (build_events rng cfg start_ms max_amount n seed
          ≡ some (ok events))
        × (length events ≡ n)
        × IsBounded cfg.lateness_window_ms events
        × All HasKnownType events
        × (pos 0 ≤ℤ sum_by delta events)
  unfolding build_events begin
  build_events_total w m =
      let (g, ends, good, all) =
        loop-IsGood rng cfg start_ms (suc n) n max_amount begin w m begin-IsGood (omega arith)
          (omega arith) in
      (
        g.events,
        ends,
        good.counted ∙ all,
        good.bounded,
        good.known,
        rw good.total (sum_nonneg amount_of g.created_pool good.nonneg),
      )

not_at : (p k : ℕ) → ltb p k ≡ true → (p == k) ≡ false
not_at p k h = ground arith

still_below : (p k : ℕ) → ltb p k ≡ true → ltb p (suc k) ≡ true
still_below p k h = ground arith

at_below : (p k : ℕ) → (p == k) ≡ true → ltb p (suc k) ≡ true
at_below p k h = ground arith

not_below : (p k : ℕ) → ltb p k ≡ false → (p == k) ≡ false → ltb p (suc k) ≡ false
not_below p k h d = ground arith

all_below :
    (n : ℕ) (f : OrderEvent → ℕ)
    → ((e : OrderEvent) → f e < n)
    → (events : List OrderEvent) → filter (λ e. ltb (f e) n) events ≡ events
all_below n f h [] = refl
all_below n f h (e ∷ events) =
    rw (lt→ltb (f e) n (h e)) (ap (λ es. e ∷ es) (all_below n f h events))

-- The partitions together hold the events, whatever the partitioner.
module _ (partition_of : String → ℕ) where
  abbrev of : OrderEvent → ℕ
  of e = partition_of e.order_id

  join_partition :
      (k : ℕ) (events : List OrderEvent)
      → Perm
          (filter (λ e. ltb (of e) k) events ++ filter (λ e. of e == k) events)
          (filter (λ e. ltb (of e) (suc k)) events)
  join_partition k [] = Perm.refl []
  join_partition k (e ∷ events) = elim (Bool-cases (ltb (of e) k)) [
    | inl below ↦
        rw (below, not_at (of e) k below, still_below (of e) k below)
          (Perm.cons e (join_partition k events))
    | inr above ↦ elim (Bool-cases (of e == k)) [
      | inl here ↦
          rw (above, here, at_below (of e) k here)
            (Perm.trans
              (perm_middle (filter (λ e. ltb (of e) k) events) (filter (λ e. of e == k) events))
              (Perm.cons e (join_partition k events)))
      | inr other ↦ rw (above, other, not_below (of e) k above other) (join_partition k events)
    ]
  ]

  none_below : (events : List OrderEvent) → All (λ e. ltb (of e) 0 ≡ false) events
  none_below [] = tt
  none_below (e ∷ events) = (ground arith, none_below events)

  produced-perm :
      (k : ℕ) (events : List OrderEvent)
      → Perm (all_events (produced partition_of events) k) (filter (λ e. ltb (of e) k) events)
  unfolding produced
  produced-perm zero events =
      rw (filter-none (λ e. ltb (of e) 0) events (none_below events)) (Perm.refl [])
  produced-perm (suc k) events =
      Perm.trans (Perm.append_right _ (produced-perm k events)) (join_partition k events)

pub all_events-produced :
    (partition_of : String → ℕ) (n : ℕ)
    → ((id : String) → partition_of id < n)
    → (events : List OrderEvent) → Perm events (all_events (produced partition_of events) n)
all_events-produced partition_of n placed events = Perm.symm (
    subst (λ (es : List OrderEvent). Perm (all_events (produced partition_of events) n) es)
      (all_below n (of partition_of) (λ e. placed e.order_id) events)
      (produced-perm partition_of n events))

pub produced-BoundedDisorder :
    (partition_of : String → ℕ) (w : ℕ) (events : List OrderEvent)
    → IsBounded w events
    → BoundedDisorder (produced partition_of events) w
unfolding produced
produced-BoundedDisorder partition_of w events h =
    BoundedDisorder-lists (λ p. filter (λ (e : OrderEvent). partition_of e.order_id == p) events) w
      (λ p. IsBounded-filter w (λ (e : OrderEvent). partition_of e.order_id == p) events h)
