-- ===== src/Query/Sides.antt =====
-- Each side of the seam, as a sum over the events that there are.
use mathlib.Core.List.{Perm}
use streaming_lab.Prelude.{
  ℕ, zero, suc, ◌*◌, ◌≤◌, ◌≡◌, refl, sym, ap, ◌∙◌, some, List, [], ◌∷◌, ◌++◌, map, length, filter,
  All, not, Bool, take, drop, take-append-drop, All-drop, filter-append, filter-none, arith, ltb,
  leb, true, false, get_elem?,
}
use mathlib.Core.Path.{fun_ext, ap₂}
use mathlib.Core.List.{append-nil}
use streaming_lab.Prelude.Int.{ℤ, ◌+ℤ◌, +ℤ_assoc, int_laws}
use streaming_lab.Prelude.Perms.{
  length-perm, filter-perm, sum_by, sum_by-perm, filter-map, length-map, sum_by-map,
}
use streaming_lab.Results.{ok}
use streaming_lab.Events.Schema.{OrderEvent, is_event_type, gmv_delta}
use streaming_lab.Events.GroundTruth.{sum_deltas}
use streaming_lab.Lake.{Row, OrdersTable}
use streaming_lab.Landing.Job.{row_of}
use streaming_lab.Landing.Offsets.{Topic, Position, consumed}
use streaming_lab.Landing.Safety.{IsSafe}
use streaming_lab.Query.Seam.{
  ChRow, materialize, signed_amount, sql_sum, or_zero, lake_side, seam_side,
}

-- All events of the topic, partition by partition.
abbrev pub all_events : Topic → ℕ → List OrderEvent
all_events log zero = []
all_events log (suc n) = all_events log n ++ log n

abbrev pub older : ℕ → OrderEvent → Bool
older t e = ltb e.event_time_ms t

abbrev pub newer : ℕ → OrderEvent → Bool
newer t e = not (older t e)

le→older : (t : ℕ) (e : OrderEvent) → t ≤ e.event_time_ms → older t e ≡ false
le→older t e h = ground arith

older-take :
    (t k : ℕ) (es : List OrderEvent)
    → ((j : ℕ) (e : OrderEvent) → k ≤ j → get_elem? es j ≡ some e → t ≤ e.event_time_ms)
    → filter (older t) (take k es) ≡ filter (older t) es
older-take t k es h =
    let newer : All (λ e. older t e ≡ false) (drop k es) =
      All-drop (λ e. older t e ≡ false) k es (λ j e le found. le→older t e (h j e le found)) in
    sym (append-nil _)
    ∙ ap (λ (l : List OrderEvent). filter (older t) (take k es) ++ l)
        (sym (filter-none (older t) (drop k es) newer))
    ∙ sym (filter-append (older t) (take k es) (drop k es))
    ∙ ap (filter (older t)) (take-append-drop k es)

-- Below a safe watermark, what has been consumed is all there is.
pub older-consumed :
    (log : Topic) (n t : ℕ) (off : Position)
    → IsSafe log n off t
    → filter (older t) (consumed log n off) ≡ filter (older t) (all_events log n)
older-consumed log zero t off h = refl
older-consumed log (suc n) t off h =
    filter-append (older t) (consumed log n off) (take (off n) (log n))
    ∙ ap₂ ◌++◌ (older-consumed log n t off (λ p j e lt. h p j e (omega arith)))
        (older-take t (off n) (log n) (λ j e le found. h n j e (omega arith) le found))
    ∙ sym (filter-append (older t) (all_events log n) (log n))

abbrev pub delta : OrderEvent → ℤ
delta e = signed_amount e.event_type e.amount

abbrev row_delta : Row → ℤ
row_delta r = signed_amount r.event_type r.amount

abbrev ch_delta : ChRow → ℤ
ch_delta r = signed_amount r.event_type r.amount

pub sql_sum_lem {ℓ} : {A : Type ℓ} (f : A → ℤ) (xs : List A) → or_zero (sql_sum f xs) ≡ sum_by f xs
unfolding sum_by
sql_sum_lem f [] = refl
sql_sum_lem f (x ∷ xs) = refl

-- On events of the two known types the query adds what `gmv_delta` gives.
pub gmv_delta-delta :
    (e : OrderEvent) → is_event_type e.event_type ≡ true → gmv_delta e ≡ ok (delta e)
unfolding gmv_delta signed_amount
gmv_delta-delta e h = ground arith

abbrev pub HasKnownType : OrderEvent → Type 0
HasKnownType e = is_event_type e.event_type ≡ true

pub sum_deltas_lem :
    (acc : ℤ) (es : List OrderEvent)
    → All HasKnownType es
    → sum_deltas acc es ≡ ok (acc +ℤ sum_by delta es)
unfolding sum_deltas sum_by
sum_deltas_lem acc [] h = ap ok (omega int_laws)
sum_deltas_lem acc (e ∷ es) h =
    rw (gmv_delta-delta e h.0, sum_deltas_lem (acc +ℤ delta e) es h.1) (ap ok (+ℤ_assoc acc _ _))

older-row : (t : ℕ) → (λ (e : OrderEvent). ltb (row_of e).event_time_us (t * 1000)) ≡ older t
unfolding row_of
older-row t = fun_ext λ e. ground arith

row_delta-row_of : (λ (e : OrderEvent). row_delta (row_of e)) ≡ delta
unfolding row_of
row_delta-row_of = refl

ch_delta-materialize : (λ (e : OrderEvent). ch_delta (materialize e)) ≡ delta
unfolding materialize
ch_delta-materialize = refl

newer-materialize : (t : ℕ) → (λ (e : OrderEvent). leb t (materialize e).event_time) ≡ newer t
unfolding materialize
newer-materialize t = fun_ext λ e. ground arith

-- The lake's side of the query, at a safe watermark.
pub lake_side_lem :
    (lake : OrdersTable) (t : lake.Table) (log : Topic) (n t_ms : ℕ) (off : Position)
    → Perm (lake.rows t) (map row_of (consumed log n off))
    → IsSafe log n off t_ms
    → let es = filter (older t_ms) (all_events log n) in
      lake_side lake t t_ms ≡ (length es, sum_by delta es)
unfolding lake_side
lake_side_lem lake t log n t_ms off landed safe =
    let es = filter (older t_ms) (all_events log n) in
    let same : filter (λ (r : Row). ltb r.event_time_us (t_ms * 1000))
          (map row_of (consumed log n off))
        ≡ map row_of es =
      filter-map row_of (λ (r : Row). ltb r.event_time_us (t_ms * 1000)) (consumed log n off)
      ∙ ap (map row_of) (
          ap (λ (p : OrderEvent → Bool). filter p (consumed log n off)) (older-row t_ms)
          ∙ older-consumed log n t_ms off safe) in
    let p = filter-perm (λ (r : Row). ltb r.event_time_us (t_ms * 1000)) landed in
    λ i. (
      (length-perm p ∙ ap length same ∙ length-map row_of es) i,
      (sql_sum_lem row_delta _
            ∙ sum_by-perm row_delta p
            ∙ ap (sum_by row_delta) same
            ∙ sum_by-map row_of row_delta es
            ∙ ap (λ (f : OrderEvent → ℤ). sum_by f es) row_delta-row_of)
          i,
    )

-- ClickHouse's side, once it has consumed the topic.
pub seam_side_lem :
    (table : List ChRow) (events : List OrderEvent) (t_ms : ℕ)
    → Perm table (map materialize events)
    → let es = filter (newer t_ms) events in seam_side table t_ms ≡ (length es, sum_by delta es)
unfolding seam_side
seam_side_lem table events t_ms caught_up =
    let es = filter (newer t_ms) events in
    let kept = λ (r : ChRow). leb t_ms r.event_time in
    let same : filter kept (map materialize events) ≡ map materialize es =
      filter-map materialize kept events
      ∙ ap (map materialize)
          (ap (λ (p : OrderEvent → Bool). filter p events) (newer-materialize t_ms)) in
    let p = filter-perm kept caught_up in
    λ i. (
      (length-perm p ∙ ap length same ∙ length-map materialize es) i,
      (sql_sum_lem ch_delta _
            ∙ sum_by-perm ch_delta p
            ∙ ap (sum_by ch_delta) same
            ∙ sum_by-map materialize ch_delta es
            ∙ ap (λ (f : OrderEvent → ℤ). sum_by f es) ch_delta-materialize)
          i,
    )
