-- ===== src/Lake/Catalog.antt =====
-- `create_orders_table` of src/streaming_lab/lake/catalog.py. The catalog of pyiceberg is an interface,
-- with what its documentation says of a catalog that answers.
use mathlib.Core.Logic.{◌≢◌}
use streaming_lab.Prelude.{
  ◌≡◌, refl, ap, ◌∙◌, String, Bool, false, Option, none, some, or_else, Option-cases, inl, inr, ◌⊎◌,
  if◌then◌else◌,
}
use streaming_lab.Results.{Result, ok, raise, uncaught}
use streaming_lab.Lake.{OrdersTable}

-- A namespace, and a table in it.
abbrev pub Identifier : Type 0
Identifier = String × String

-- `none` is an exception, after which the catalog is as it was: the change of the pointer is one
-- transaction. Any call may raise one, also when the services are not there. A table is created, empty,
-- under a name that is free, and one that is loaded is the one that is there.
pub record Catalog (lake : OrdersTable) : Type 1 where
  pub State : Type 0
  pub table_at : Identifier → State → Option lake.Table
  pub create_namespace : String → State → Option State
  pub drop_table : Identifier → State → Option State
  pub create_table : Identifier → State → Option (lake.Table × State)
  pub load_table : Identifier → State → Option lake.Table
  pub create_namespace-some :
      (ns : String) (s s' : State)
      → create_namespace ns s ≡ some s'
      → (i : Identifier) → table_at i s' ≡ table_at i s
  pub create_table-some :
      (i : Identifier) (s s' : State) (t : lake.Table)
      → create_table i s ≡ some (t, s')
      → (t ≡ lake.created)
        × (table_at i s ≡ none)
        × (table_at i s' ≡ some t)
        × ((j : Identifier) → j ≢ i → table_at j s' ≡ table_at j s)
  pub load_table-some :
      (i : Identifier) (s : State) (t : lake.Table)
      → load_table i s ≡ some t
      → table_at i s ≡ some t

module _ (lake : OrdersTable) (catalog : Catalog lake) where
  -- `except Exception: return catalog.load_table(...)`
  abbrev loaded : catalog.State → Option lake.Table → Result (lake.Table × catalog.State)
  loaded s none = raise uncaught
  loaded s (some t) = ok (t, s)

  abbrev or_load :
      Identifier
      → catalog.State
      → Option (lake.Table × catalog.State)
      → Result (lake.Table × catalog.State)
  or_load i s none = loaded s (catalog.load_table i s)
  or_load i s (some created) = ok created

  unfoldable pub create_orders_table :
      Identifier → Bool → catalog.State → Result (lake.Table × catalog.State)
  create_orders_table i drop_existing s0 =
      let s1 = or_else (catalog.create_namespace i.0 s0) s0 in
      let s2 = if drop_existing then or_else (catalog.drop_table i s1) s1 else s1 in
      or_load i s2 (catalog.create_table i s2)

  with_namespace :
      (j : Identifier) (ns : String) (s : catalog.State)
      → catalog.table_at j (or_else (catalog.create_namespace ns s) s) ≡ catalog.table_at j s
  with_namespace j ns s = elim (Option-cases (catalog.create_namespace ns s)) [
    | inl there ↦ rw there refl
    | inr (s', made) ↦ rw made (catalog.create_namespace-some ns s s' made j)
  ]

  -- The table can neither be created nor be loaded.
  abbrev pub Unopened : Identifier → catalog.State → Type 0
  Unopened i s =
      let s1 = or_else (catalog.create_namespace i.0 s) s in
      (catalog.create_table i s1 ≡ none) × (catalog.load_table i s1 ≡ none)

  -- The table `t` of the catalog is given, and the other ones are as they were.
  abbrev pub Kept : Identifier → catalog.State → catalog.State → lake.Table → Type 0
  Kept i s s' t =
      (t ≡ or_else (catalog.table_at i s) lake.created)
      × (catalog.table_at i s' ≡ some t)
      × ((j : Identifier) → j ≢ i → catalog.table_at j s' ≡ catalog.table_at j s)

  created_or_loaded :
      (i : Identifier) (s : catalog.State)
      → ((or_load i s (catalog.create_table i s) ≡ raise uncaught)
          × (catalog.create_table i s ≡ none)
          × (catalog.load_table i s ≡ none))
        ⊎ ((t : lake.Table) × (s' : catalog.State) × (or_load i s (catalog.create_table i s)
              ≡ ok (t, s'))
            × Kept i s s' t)
  created_or_loaded i s = elim (Option-cases (catalog.create_table i s)) [
    | inl refused ↦ elim (Option-cases (catalog.load_table i s)) [
      | inl missing ↦ inl (rw (refused, missing) refl, refused, missing)
      | inr (t, found) ↦
          let there = catalog.load_table-some i s t found in
          inr (t, s, rw (refused, found) refl, (rw there refl, there, λ j apart. refl))
    ]
    | inr ((t, s'), made) ↦
        let (new, free, there, others) = catalog.create_table-some i s s' t made in
        inr (t, s', rw made refl, (rw free new, there, others))
  ]

  -- Without the option to drop, `create_orders_table` raises only when the table can neither be created
  -- nor be loaded. Else it gives the table that is there, with its rows and snapshots, or an empty one
  -- where there is none; it is then the one in the catalog, and every other table is as it was.
  pub create_orders_table_keeps :
      (i : Identifier) (s : catalog.State)
      → ((create_orders_table i false s ≡ raise uncaught) × Unopened i s)
        ⊎ ((t : lake.Table) × (s' : catalog.State) × (create_orders_table i false s ≡ ok (t, s'))
            × Kept i s s' t)
  unfolding create_orders_table
  create_orders_table_keeps i s =
      let s1 = or_else (catalog.create_namespace i.0 s) s in
      elim (created_or_loaded i s1) [
        | inl (failed, refused, missing) ↦ inl (failed, (refused, missing))
        | inr (t, s', gives, (same, there, others)) ↦ inr (
          t,
          s',
          gives,
          (
            same ∙ ap (λ (o : Option lake.Table). or_else o lake.created) (with_namespace i i.0 s),
            there,
            λ j apart. others j apart ∙ with_namespace j i.0 s,
          ),
        )
      ]
