-- ===== src/Lake/Tests.antt =====
-- A catalog in memory, whose namespaces are all there, with a table that holds an order.
use mathlib.Core.Logic.{◌≢◌}
use streaming_lab.Prelude.{
  names_apart, ◌≡◌, refl, ap, sym, ◌∙◌, some-eq, Bool, true, false, Option, none, some, [], ◌∷◌,
  str_eq, eq_iff, Bool-cases, inl, inr, if◌then◌else◌,
}
use streaming_lab.Prelude.Int.{pos}
use streaming_lab.Lake.{Row}
use streaming_lab.Lake.Memory.{Memory, memory}
use streaming_lab.Lake.Catalog.{Identifier, Catalog}

abbrev Tables : Type 0
Tables = Identifier → Option Memory

abbrev same_name : Identifier → Identifier → Bool
same_name i j = if str_eq i.0 j.0 then str_eq i.1 j.1 else false

false_true {ℓ} : {A : Type ℓ} → false ≡ true → A
false_true h = cc

same_name-eq : (i j : Identifier) → same_name i j ≡ true → i ≡ j
same_name-eq (a, b) (c, d) h = elim (Bool-cases (str_eq a c)) [
  | inl first ↦
      let same_first = (eq_iff a c).0 first in
      let same_second = (eq_iff b d).0 (rw first at h) in rw (same_first, same_second) refl
  | inr other ↦ false_true (rw other at h)
]

same_name_refl : (i : Identifier) → same_name i i ≡ true
same_name_refl i = rw ((eq_iff i.0 i.0).1 refl) ((eq_iff i.1 i.1).1 refl)

abbrev with_table : Identifier → Option Memory → Tables → Tables
with_table i o s j = if same_name j i then o else s j

with_table-same : (i : Identifier) (o : Option Memory) (s : Tables) → with_table i o s i ≡ o
with_table-same i o s = rw (same_name_refl i) refl

with_table-other :
    (i j : Identifier) (o : Option Memory) (s : Tables) → j ≢ i → with_table i o s j ≡ s j
with_table-other i j o s apart = elim (Bool-cases (same_name j i)) [
  | inl same ↦ absurd (apart (same_name-eq j i same))
  | inr other ↦ rw other refl
]

abbrev dropped : Identifier → Option Memory → Tables → Option Tables
dropped i none s = none
dropped i (some t) s = some (with_table i none s)

abbrev created : Identifier → Option Memory → Tables → Option (Memory × Tables)
created i none s = some (memory.created, with_table i (some memory.created) s)
created i (some t) s = none

created-some :
    (i : Identifier) (o : Option Memory) (s s' : Tables) (t : Memory)
    → created i o s ≡ some (t, s')
    → (o ≡ none) × (t ≡ memory.created) × (s' ≡ with_table i (some memory.created) s)
created-some i none s s' t h =
    let made = some-eq (memory.created, with_table i (some memory.created) s) (t, s') h in
    (
      refl,
      ap (λ (p : Memory × Tables). p.0) (sym made),
      ap (λ (p : Memory × Tables). p.1) (sym made),
    )
created-some i (some u) s s' t h = cc

pub create_lem :
    (i : Identifier) (s s' : Tables) (t : Memory)
    → created i (s i) s ≡ some (t, s')
    → (t ≡ memory.created)
      × (s i ≡ none)
      × (s' i ≡ some t)
      × ((j : Identifier) → j ≢ i → s' j ≡ s j)
create_lem i s s' t h =
    let (free, new, now) = created-some i (s i) s s' t h in
    (
      new,
      free,
      ap (λ (f : Tables). f i) now ∙ with_table-same i (some memory.created) s ∙ ap some (sym new),
      λ j apart. ap (λ (f : Tables). f j) now ∙ with_table-other i j (some memory.created) s apart,
    )

pub no_namespace {ℓ} : {A : Type ℓ} {s : Tables} → none ≡ some s → A
no_namespace h = cc

abbrev pub catalog : Catalog memory
catalog = record {
  State = Tables;
  table_at = λ i s. s i;
  create_namespace = λ ns s. none;
  drop_table = λ i s. dropped i (s i) s;
  create_table = λ i s. created i (s i) s;
  load_table = λ i s. s i;
  create_namespace-some = λ ns s s' h. no_namespace h;
  create_table-some = λ i s s' t h. create_lem i s s' t h;
  load_table-some = λ i s t h. h;
}

abbrev order : Row
order = record {
  event_id = "e";
  order_id = "o";
  event_type = "order_created";
  amount = pos 100;
  user_id = 1;
  event_time_us = 5000;
}

abbrev pub orders : Memory
orders = record { rows = order ∷ []; snapshot = some [] }

abbrev pub tables : Tables
tables = with_table ("lake", "orders") (some orders) (λ i. none)

abbrev pub users_id : Identifier
users_id = ("lake", "users")

abbrev pub orders_id : Identifier
orders_id = ("lake", "orders")

pub others_apart : users_id ≢ orders_id
others_apart h = names_apart "users" "orders" refl (ap (λ (i : Identifier). i.1) h)
