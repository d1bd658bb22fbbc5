-- ===== src/Lake/Memory.antt =====
-- A table of orders in memory, which meets what is asked of Iceberg.
use streaming_lab.Prelude.{Option, none, some, List, [], ◌++◌, refl}
use streaming_lab.Lake.{Row, Props, OrdersTable}

pub record Memory : Type 0 where
  pub rows : List Row
  pub snapshot : Option Props

abbrev pub memory : OrdersTable
memory = record {
  Table = Memory;
  current_snapshot = λ t. t.snapshot;
  rows = λ t. t.rows;
  append = λ rs ps t. record { rows = t.rows ++ rs; snapshot = some ps };
  created = record { rows = []; snapshot = none };
  rows-created = refl;
  current_snapshot-created = refl;
  rows-append = λ rs ps t. refl;
  current_snapshot-append = λ rs ps t. (ps, refl, λ k v h. h);
}
