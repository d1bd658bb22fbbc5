-- ===== src/Lake.antt =====
-- src/streaming_lab/lake/catalog.py. Iceberg and its catalog are not code of this repository: the
-- table of orders is an interface, with what the pyiceberg documentation says of it. `append` writes
-- the data file and swaps the catalog's pointer in one transaction, so a crash leaves the table
-- before it or the table after it, and no third state; a data file without its commit is no part of
-- any table.
pub mod Memory
pub mod Catalog
pub mod Tests
use streaming_lab.Prelude.{ℕ, String, ◌≡◌, ◌*◌, Option, none, some, List, [], ◌++◌, string_eq}
use streaming_lab.Prelude.Int.{ℤ}
use streaming_lab.Text.{Text}
use streaming_lab.Dict.{Dict, lookup}

-- `ORDERS_SCHEMA`: `event_time` is a timestamp in microseconds.
pub record Row : Type 0 where
  pub event_id : String
  pub order_id : String
  pub event_type : String
  pub amount : ℤ
  pub user_id : ℕ
  pub event_time_us : ℕ

-- The custom properties of a snapshot summary.
abbrev pub Props : Type 0
Props = Dict String Text

pub record OrdersTable : Type 1 where
  pub Table : Type 0
  pub current_snapshot : Table → Option Props
  pub rows : Table → List Row
  pub append : List Row → Props → Table → Table
  pub created : Table
  -- A table that has just been created holds no row and has no snapshot.
  pub rows-created : rows created ≡ []
  pub current_snapshot-created : current_snapshot created ≡ none
  -- An append adds its rows, and its snapshot is the current one and carries its properties.
  pub rows-append : (rs : List Row) (ps : Props) (t : Table) → rows (append rs ps t) ≡ rows t ++ rs
  pub current_snapshot-append :
      (rs : List Row) (ps : Props) (t : Table)
      → (summary : Props) × (current_snapshot (append rs ps t) ≡ some summary)
        × ((k : String) (v : Text) → lookup k ps ≡ some v → lookup k summary ≡ some v)
