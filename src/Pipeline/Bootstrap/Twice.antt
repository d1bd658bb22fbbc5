-- ===== src/Pipeline/Bootstrap/Twice.antt =====
-- The bootstrap may be run again: what is there stays.
use streaming_lab.Prelude.{
  ℕ, ◌≡◌, ◌≢◌, refl, ap, ◌∙◌, ◌⊎◌, inl, inr, String, false, Option, none, some, or_else, Bool-cases,
}
use streaming_lab.Config.{Config}
use streaming_lab.Text.{Text}
use streaming_lab.Results.{ok, raise, uncaught}
use streaming_lab.Lake.{OrdersTable}
use streaming_lab.Lake.Catalog.{Identifier, Catalog, Unopened, create_orders_table_keeps}
use streaming_lab.Pipeline.Bootstrap.{
  Admin, Answer, done, failed, says_exists, create_topic, bootstrap,
}

Answer-cases : (a : Answer) → (a ≡ done) ⊎ ((message : Text) × (a ≡ failed message))
Answer-cases done = inl refl
Answer-cases (failed message) = inr (message, refl)

none≢some {ℓ} : {A : Type ℓ} {a : A} {o : Option A} → o ≡ none → o ≡ some a → ⊥
none≢some h g = cc

module _ (admin : Admin) (cfg : Config) (topic : String) where
  -- The topic cannot be created, and the answer does not say that it is there.
  abbrev pub Refused : admin.Cluster → Type 0
  Refused c =
      (message : Text) × ((admin.create topic cfg.num_partitions c).0 ≡ failed message)
      × (says_exists message ≡ false)

  -- The topic is there in the end, with the partitions that it had or with those of the settings, and
  -- one that was there is left alone.
  create_topic-cases :
      (c : admin.Cluster)
      → ((create_topic admin cfg topic none c ≡ raise uncaught) × Refused c)
        ⊎ ((c' : admin.Cluster) × (create_topic admin cfg topic none c ≡ ok c')
            × (admin.partitions_of topic c'
                ≡ some (or_else (admin.partitions_of topic c) cfg.num_partitions))
            × ((m : ℕ) → admin.partitions_of topic c ≡ some m → c' ≡ c))
  unfolding create_topic
  create_topic-cases c =
      let n = cfg.num_partitions in
      elim (Answer-cases (admin.create topic n c).0) [
        | inl made ↦
            let (absent, there) = admin.create-done topic n c made in
            inr (
              (admin.create topic n c).1,
              rw made refl,
              rw absent there,
              λ m was. absurd (none≢some absent was),
            )
        | inr (message, failure) ↦ elim (Bool-cases (says_exists message)) [
          | inl says ↦
              let (same, m, there) = admin.create-exists topic n c message failure says in
              inr (c, rw (failure, says) (ap ok same), there ∙ rw there refl, λ k was. refl)
          | inr silent ↦ inl (rw (failure, silent) refl, (message, failure, silent))
        ]
      ]

module _ (admin : Admin) (lake : OrdersTable) (catalog : Catalog lake) (cfg : Config)
    (topic : String) (i : Identifier) where
  -- A call failed for which the bootstrap raises: the broker's or, after it, both of the catalog.
  abbrev pub Failed : admin.Cluster → catalog.State → Type 0
  Failed c s = Refused admin cfg topic c ⊎ Unopened lake catalog i s

  -- The bootstrap gives the table that was there, or an empty one, and has left what was there: the
  -- partitions, the rows, and the table `j`.
  abbrev pub Stands :
      Identifier → admin.Cluster → catalog.State → admin.Cluster → catalog.State → Type 0
  Stands j c s c' s' =
      let table = or_else (catalog.table_at i s) lake.created in
      (bootstrap admin lake catalog cfg topic i c s ≡ ok (table, (c', s')))
      × (admin.partitions_of topic c'
          ≡ some (or_else (admin.partitions_of topic c) cfg.num_partitions))
      × (catalog.table_at i s' ≡ some table)
      × (catalog.table_at j s' ≡ catalog.table_at j s)

  bootstrap-cases :
      (j : Identifier) (c : admin.Cluster) (s : catalog.State)
      → j ≢ i
      → ((bootstrap admin lake catalog cfg topic i c s ≡ raise uncaught) × Failed c s)
        ⊎ ((c' : admin.Cluster) × (s' : catalog.State) × Stands j c s c' s'
            × ((m : ℕ) → admin.partitions_of topic c ≡ some m → c' ≡ c))
  unfolding bootstrap
  bootstrap-cases j c s apart = elim (create_topic-cases admin cfg topic c) [
    | inl (raised, refused) ↦ inl (rw raised refl, inl refused)
    | inr (c', made, there, left) ↦ elim (create_orders_table_keeps lake catalog i s) [
      | inl (raised, unopened) ↦ inl (rw (made, raised) refl, inr unopened)
      | inr (t, s', gives, (same, stands, others)) ↦ inr (
        c',
        s',
        (
          rw (made, gives) (ap (λ (u : lake.Table). ok (u, (c', s'))) same),
          there,
          stands ∙ ap some same,
          others j apart,
        ),
        left,
      )
    ]
  ]

  -- The bootstrap raises only when the broker fails to create the topic without saying that it exists,
  -- or the table can neither be created nor be loaded. Else the topic is there, with the partitions
  -- that it had, or with those of the settings when it is new, and so is the table, with the rows that
  -- it had, while any other table is as it was. Then a second bootstrap, unless such a call fails in
  -- it, gives the same table, leaves the broker as it is, and leaves the table in the catalog.
  pub bootstrap_again :
      (j : Identifier) (c : admin.Cluster) (s : catalog.State)
      → j ≢ i
      → ((bootstrap admin lake catalog cfg topic i c s ≡ raise uncaught) × Failed c s)
        ⊎ ((c' : admin.Cluster) × (s' : catalog.State) × Stands j c s c' s'
            × (((bootstrap admin lake catalog cfg topic i c' s' ≡ raise uncaught) × Failed c' s')
                ⊎ (let table = or_else (catalog.table_at i s) lake.created in
                    (s'' : catalog.State) × (bootstrap admin lake catalog cfg topic i c' s'
                      ≡ ok (table, (c', s'')))
                    × (catalog.table_at i s'' ≡ some table))))
  bootstrap_again j c s apart = elim (bootstrap-cases j c s apart) [
    | inl failure ↦ inl failure
    | inr (c', s', stands, left) ↦ inr (c', s', stands, again c' s' stands)
  ]
    where
      again :
          (c' : admin.Cluster) (s' : catalog.State)
          → Stands j c s c' s'
          → ((bootstrap admin lake catalog cfg topic i c' s' ≡ raise uncaught) × Failed c' s')
            ⊎ (let table = or_else (catalog.table_at i s) lake.created in
                (s'' : catalog.State) × (bootstrap admin lake catalog cfg topic i c' s'
                  ≡ ok (table, (c', s'')))
                × (catalog.table_at i s'' ≡ some table))
      again c' s' (gives, there, stands, others) = elim (bootstrap-cases j c' s' apart) [
        | inl failure ↦ inl failure
        | inr (c'', s'', (gives', there', stands', others'), left') ↦
            let same_table = ap (λ (o : Option lake.Table). or_else o lake.created) stands in
            inr (s'', gives' ∙ rw (left' _ there, same_table) refl, stands' ∙ ap some same_table)
      ]
