-- ===== src/Landing/Safety.antt =====
-- Why the watermark is safe: under bounded disorder in each partition, what has not been consumed
-- is not older than it.
use mathlib.Core.Path.{subst}
use streaming_lab.Prelude.{
  ℕ, ◌+◌, ◌≤◌, ◌<◌, ◌≡◌, sym, ap, ◌∙◌, Option, some, List, [], ◌∷◌, max, get_elem?, arith, ◌==◌,
  leb, nat_eq, or_else, Bool-cases, Option-cases, leb→le, inl, inr, ==_iff,
}
use streaming_lab.Dict.{Dict, lookup}
use streaming_lab.Dict.Laws.{Distinct, lookup-insert}
use streaming_lab.Watermark.{compute_watermark}
use streaming_lab.Watermark.Bounds.{compute_watermark_waits, compute_watermark-le}
use streaming_lab.Watermark.Partitions.{KeysBelow}
use streaming_lab.Events.Schema.{OrderEvent}
use streaming_lab.Landing.Job.{Record, part_max}
use streaming_lab.Landing.Offsets.{
  Topic, Position, update, Follows, IsConsumedTime, IsMaximum, with_time,
}

-- No event of a partition is more than `w` older than one that stands before it.
abbrev pub BoundedDisorder : Topic → ℕ → Type 0
BoundedDisorder log w =
    (p i j : ℕ) (a b : OrderEvent)
    → i ≤ j
    → get_elem? (log p) i ≡ some a
    → get_elem? (log p) j ≡ some b
    → a.event_time_ms ≤ b.event_time_ms + w

-- No event from the offsets on is older than `t`.
abbrev pub IsSafe : Topic → ℕ → Position → ℕ → Type 0
IsSafe log n off t =
    (p j : ℕ) (e : OrderEvent)
    → p < n
    → off p ≤ j
    → get_elem? (log p) j ≡ some e
    → t ≤ e.event_time_ms

module _ (log : Topic) (n : ℕ) where
  Follows-le :
      (off end : Position) (batch : List Record) (q : ℕ)
      → Follows log n off batch end
      → off q ≤ end q
  Follows-le off end [] q h = rw h (omega arith)
  Follows-le off end (r ∷ batch) q h =
      let rest = Follows-le (update off r.partition (r.offset + 1)) end batch q h.3 in
      ground (arith, rest, h.1)

  IsConsumedTime-le :
      (off off' : Position) (p v : ℕ)
      → off p ≤ off' p
      → IsConsumedTime log off p v
      → IsConsumedTime log off' p v
  IsConsumedTime-le off off' p v le (inl never) = inl never
  IsConsumedTime-le off off' p v le (inr (i, e, before, at, time)) =
      inr (i, e, (omega arith), at, time)

  IsConsumedTime-lookup :
      (m : Dict ℕ ℕ) (off : Position) (p v : ℕ)
      → IsMaximum log m off
      → v ≡ or_else (lookup p m) 0
      → IsConsumedTime log off p v
  IsConsumedTime-lookup m off p v h e = elim (Option-cases (lookup p m)) [
    | inl absent ↦ inl (e ∙ ap (λ (o : Option ℕ). or_else o 0) absent)
    | inr (u, there) ↦ h p v (there ∙ ap some (sym (e ∙ ap (λ (o : Option ℕ). or_else o 0) there)))
  ]

  -- the maximum of the partition that `r` is of
  IsConsumedTime-max :
      (m : Dict ℕ ℕ) (r : Record) (off : Position)
      → r.offset ≡ off r.partition
      → get_elem? (log r.partition) r.offset ≡ some r.event
      → IsMaximum log m off
      → IsConsumedTime log
          (update off r.partition (r.offset + 1))
          r.partition
          (max (or_else (lookup r.partition m) 0) r.event.event_time_ms)
  IsConsumedTime-max m r off o e h =
      elim (Bool-cases (leb (or_else (lookup r.partition m) 0) r.event.event_time_ms)) [
        | inl newer ↦ inr (r.offset, r.event, ground arith, e, omega (arith, leb→le _ _ newer))
        | inr older ↦
            IsConsumedTime-le off (update off r.partition (r.offset + 1)) r.partition _
              (ground arith) (IsConsumedTime-lookup m off r.partition _ h (ground arith))
      ]

  with_time-IsMaximum :
      (m : Dict ℕ ℕ) (r : Record) (off : Position)
      → r.offset ≡ off r.partition
      → get_elem? (log r.partition) r.offset ≡ some r.event
      → IsMaximum log m off
      → IsMaximum log (with_time m r) (update off r.partition (r.offset + 1))
  with_time-IsMaximum m r off o e h p v found = elim (Bool-cases (r.partition == p)) [
    | inl same ↦
        let newest : ℕ = max (or_else (lookup r.partition m) 0) r.event.event_time_ms in
        let stored : newest ≡ v = ground (arith, lookup-insert r.partition p newest m) in
        let end = update off r.partition (r.offset + 1) in
        subst (λ (x : ℕ). IsConsumedTime log end p x) stored
          (subst (λ (q : ℕ). IsConsumedTime log end q newest) ((==_iff r.partition p).0 same)
            (IsConsumedTime-max m r off o e h))
    | inr other ↦ IsConsumedTime-le off (update off r.partition (r.offset + 1)) p v (ground arith) (
        h p v (
          ground (
            arith,
            lookup-insert r.partition p
                (max (or_else (lookup r.partition m) 0) r.event.event_time_ms) m,
          )))
  ]

  pub part_max-IsMaximum :
      (m : Dict ℕ ℕ) (off end : Position) (batch : List Record)
      → Follows log n off batch end
      → IsMaximum log m off
      → IsMaximum log (part_max m batch) end
  unfolding part_max
  part_max-IsMaximum m off end [] f h = rw f h
  part_max-IsMaximum m off end (r ∷ batch) f h =
      part_max-IsMaximum (with_time m r) (update off r.partition (r.offset + 1)) end batch f.3
        (with_time-IsMaximum m r off f.1 f.2 h)

  -- The watermark of a batch is safe at the offsets after the batch.
  pub compute_watermark-IsSafe :
      (w t : ℕ) (off end : Position) (batch : List Record) (m : Dict ℕ ℕ)
      → BoundedDisorder log w
      → Follows log n off batch end
      → Distinct m
      → KeysBelow n m
      → IsMaximum log m end
      → IsSafe log n off t
      → IsSafe log n end (compute_watermark m w t (some n))
  compute_watermark-IsSafe w t off end batch m disorder f u b h safe p j e lt le found =
      elim (Option-cases (lookup p m)) [
        | inl absent ↦
            rw (compute_watermark_waits n p m w t u b lt absent)
              (safe p j e lt (omega (arith, Follows-le off end batch p f)) found)
        | inr (v, there) ↦ elim (compute_watermark-le n p v m w t there) [
          | inl stays ↦ rw stays (safe p j e lt (omega (arith, Follows-le off end batch p f)) found)
          | inr moved ↦ elim (h p v there) [
            | inl never ↦ omega arith
            | inr (i, a, before, at, time) ↦
                omega (arith, disorder p i j a e (omega arith) at found)
          ]
        ]
      ]
