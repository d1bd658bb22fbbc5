-- ===== src/Landing/Offsets.antt =====
-- What a batch does to the offsets and the maxima, and the rows that the offsets stand for.
use mathlib.Core.Path.{fun_ext, subst}
use native.Mathlib.Numerals.{add-one}
use mathlib.Core.List.{Perm, append_assoc, append-nil, perm_append_comm}
use mathlib.Core.List.Perm
use streaming_lab.Prelude.{
  ℕ, zero, suc, ◌+◌, ◌≤◌, ◌<◌, ◌≡◌, refl, sym, ap, ◌∙◌, some, List, [], ◌∷◌, ◌++◌, map, max, take,
  get_elem?, take-suc, arith, ◌==◌, if◌then◌else◌, nat_eq, or_else, Bool-cases, ◌⊎◌, inl, inr,
  ==_iff,
}
use streaming_lab.Dict.{Dict, lookup, insert}
use streaming_lab.Dict.Laws.{Distinct, lookup-insert, insert-Distinct}
use streaming_lab.Watermark.Partitions.{KeysBelow, insert-KeysBelow}
use streaming_lab.Events.Schema.{OrderEvent}
use streaming_lab.Landing.Job.{Record, after, next_offsets, part_max}

-- A topic: each partition's events, in offset order.
abbrev pub Topic : Type 0
Topic = ℕ → List OrderEvent

-- The next offset of every partition.
abbrev pub Position : Type 0
Position = ℕ → ℕ

abbrev pub position : Dict ℕ ℕ → Position
position d p = or_else (lookup p d) 0

abbrev pub update : Position → ℕ → ℕ → Position
update f p o q = if p == q then o else f q

-- The events before the given offsets, partition by partition.
abbrev pub consumed : Topic → ℕ → Position → List OrderEvent
consumed log zero off = []
consumed log (suc n) off = consumed log n off ++ take (off n) (log n)

-- `batch` holds the events that follow `off`, in offset order in each partition, up to `end`.
module _ (log : Topic) (n : ℕ) where
  abbrev pub Follows : Position → List Record → Position → Type 0
  Follows off [] end = end ≡ off
  Follows off (r ∷ batch) end =
      (r.partition < n)
      × (r.offset ≡ off r.partition)
      × (get_elem? (log r.partition) r.offset ≡ some r.event)
      × Follows (update off r.partition (r.offset + 1)) batch end

  pub Follows-append :
      (off end : Position) (batch : List Record) (r : Record)
      → Follows off batch end
      → r.partition < n
      → r.offset ≡ end r.partition
      → get_elem? (log r.partition) r.offset ≡ some r.event
      → Follows off (batch ++ r ∷ []) (update end r.partition (r.offset + 1))
  Follows-append off end [] r h lt o e = (
    lt,
    (o ∙ ap (λ (f : Position). f r.partition) h),
    e,
    ap (λ (f : Position). update f r.partition (r.offset + 1)) h,
  )
  Follows-append off end (s ∷ batch) r h lt o e =
      (h.0, h.1, h.2, Follows-append (update off s.partition (s.offset + 1)) end batch r h.3 lt o e)

consumed-update_above :
    (log : Topic) (n p o : ℕ) (off : Position)
    → n ≤ p
    → consumed log n (update off p o) ≡ consumed log n off
consumed-update_above log zero p o off h = refl
consumed-update_above log (suc n) p o off h = ground (arith, consumed-update_above log n p o off)

consumed_next_top :
    (log : Topic) (n : ℕ) (off : Position) (e : OrderEvent)
    → get_elem? (log n) (off n) ≡ some e
    → consumed log n off ++ take (off n) (log n) ++ e ∷ []
      ≡ consumed log n (update off n (off n + 1)) ++ take (off n + 1) (log n)
consumed_next_top log n off e h =
    rw
      (
        consumed-update_above log n n (off n + 1) off (omega arith),
        add-one,
        take-suc (off n) (log n) h,
      )
      (append_assoc (consumed log n off) _ _)

pub consumed_none : (log : Topic) (n : ℕ) → consumed log n (λ p. 0) ≡ []
consumed_none log zero = refl
consumed_none log (suc n) = ap (λ (l : List OrderEvent). l ++ []) (consumed_none log n)

-- One more event of a partition is one more consumed event.
pub consumed_next :
    (log : Topic) (n p : ℕ) (off : Position) (e : OrderEvent)
    → p < n
    → get_elem? (log p) (off p) ≡ some e
    → Perm (consumed log n off ++ e ∷ []) (consumed log n (update off p (off p + 1)))
consumed_next log zero p off e lt h = elim lt [ ]
consumed_next log (suc n) p off e lt h = elim (Bool-cases (p == n)) [
  | inl here ↦
      let same : p ≡ n = (==_iff p n).0 here in
      rw (here, same) (rw (consumed_next_top log n off e (rw same at h)) (Perm.refl _))
  | inr below ↦
      rw (below, append_assoc (consumed log n off) (take (off n) (log n)) (e ∷ []))
        (Perm.trans
          (Perm.append_left (consumed log n off) (perm_append_comm (take (off n) (log n)) (e ∷ [])))
          (rw (← append_assoc (consumed log n off) (e ∷ []) (take (off n) (log n))) (
            Perm.append_right (take (off n) (log n))
              (consumed_next log n p off e (ground (arith, below)) h))))
]

-- The events of a batch are what the offsets move over.
pub consumed-Follows :
    (log : Topic) (n : ℕ) (off end : Position) (batch : List Record)
    → Follows log n off batch end
    → Perm (consumed log n off ++ map (λ r. r.event) batch) (consumed log n end)
consumed-Follows log n off end [] h = rw (h, append-nil) (Perm.refl _)
consumed-Follows log n off end (r ∷ batch) h =
    rw (← append_assoc (consumed log n off) (r.event ∷ []) (map (λ s. s.event) batch)) (
      Perm.trans
        (Perm.append_right _ (consumed_next log n r.partition off r.event h.0 (rw (← h.1) h.2)))
        (consumed-Follows log n (update off r.partition (off r.partition + 1)) end batch
          (subst (λ (o : ℕ). Follows log n (update off r.partition (o + 1)) batch end) h.1 h.3)))

position-insert-after :
    (d : Dict ℕ ℕ) (p o : ℕ)
    → o ≡ position d p
    → update (position d) p (o + 1) ≡ position (insert p (after (lookup p d) o) d)
position-insert-after d p o h =
    fun_ext λ q. ground (arith, lookup-insert p q (after (lookup p d) o) d)

-- `next_offsets` computes the position after the batch.
pub position-next_offsets :
    (log : Topic) (n : ℕ) (d : Dict ℕ ℕ) (end : Position) (batch : List Record)
    → Follows log n (position d) batch end
    → position (next_offsets d batch) ≡ end
unfolding next_offsets
position-next_offsets log n d end [] h = sym h
position-next_offsets log n d end (r ∷ batch) h =
    let d' = insert r.partition (after (lookup r.partition d) r.offset) d in
    position-next_offsets log n d' end batch (
      subst (λ (f : Position). Follows log n f batch end)
        (position-insert-after d r.partition r.offset h.1) h.3)

pub next_offsets-Distinct :
    (d : Dict ℕ ℕ) (batch : List Record) → Distinct d → Distinct (next_offsets d batch)
unfolding next_offsets
next_offsets-Distinct d [] u = u
next_offsets-Distinct d (r ∷ batch) u =
    next_offsets-Distinct (insert r.partition (after (lookup r.partition d) r.offset) d) batch
      (insert-Distinct r.partition (after (lookup r.partition d) r.offset) d u)

module _ (m : Dict ℕ ℕ) (r : Record) where
  abbrev pub with_time : Dict ℕ ℕ
  with_time = insert r.partition (max (or_else (lookup r.partition m) 0) r.event.event_time_ms) m

pub part_max-Distinct :
    (m : Dict ℕ ℕ) (batch : List Record) → Distinct m → Distinct (part_max m batch)
unfolding part_max
part_max-Distinct m [] u = u
part_max-Distinct m (r ∷ batch) u =
    part_max-Distinct (with_time m r) batch (insert-Distinct r.partition _ m u)

pub part_max-KeysBelow :
    (log : Topic) (n : ℕ) (m : Dict ℕ ℕ) (off end : Position) (batch : List Record)
    → Follows log n off batch end
    → KeysBelow n m
    → KeysBelow n (part_max m batch)
unfolding part_max
part_max-KeysBelow log n m off end [] h b = b
part_max-KeysBelow log n m off end (r ∷ batch) h b =
    part_max-KeysBelow log n (with_time m r) (update off r.partition (r.offset + 1)) end batch h.3
      (insert-KeysBelow n r.partition _ m h.0 b)

-- `v` is 0, or the time of an event of partition `p` that has been consumed.
abbrev pub IsConsumedTime : Topic → Position → ℕ → ℕ → Type 0
IsConsumedTime log off p v =
    (v ≡ 0)
    ⊎ ((i : ℕ) × (e : OrderEvent) × (i < off p)
        × (get_elem? (log p) i ≡ some e)
        × (v ≡ e.event_time_ms))

abbrev pub IsMaximum : Topic → Dict ℕ ℕ → Position → Type 0
IsMaximum log m off = (p v : ℕ) → lookup p m ≡ some v → IsConsumedTime log off p v
