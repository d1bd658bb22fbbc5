-- ===== src/Realtime/Tests.antt =====
-- A ClickHouse in memory, in which a pipeline of an earlier run stands, and a table that grows.
use mathlib.Core.Logic.{◌≢◌}
use streaming_lab.Prelude.{
  names_apart, ℕ, zero, suc, ◌+◌, ◌*◌, ◌≡◌, refl, String, Bool, true, false, Option, none, some,
  List, [], ◌∷◌, str_eq, eq_iff, arith, Bool-cases, inl, inr, if◌then◌else◌,
}
use streaming_lab.Prelude.Int.{pos}
use streaming_lab.Results.{ok}
use streaming_lab.Query.Seam.{ChRow}
use streaming_lab.Realtime.Waiting.{wait_for_count, Ends, wait_for_count_total}
use streaming_lab.Realtime.Tables.{
  ChConfig, Object, kafka_queue, orders_table, materialized_view, other_table, other_view, Ddl,
  drop_view, drop_table, create, IsView, IsTable, ClickHouseDdl, create_pipeline,
  create_pipeline_anew, WellNamed, is_plain, all_plain, is_literal,
}

abbrev Objects : Type 0
Objects = String → Option Object

abbrev is_view : Option Object → Bool
is_view none = true
is_view (some (materialized_view queue target)) = true
is_view (some other_view) = true
is_view o = false

abbrev is_table : Option Object → Bool
is_table none = true
is_table (some (kafka_queue brokers topic group)) = true
is_table (some orders_table) = true
is_table (some other_table) = true
is_table o = false

is_view-IsView : (o : Option Object) → IsView o → is_view o ≡ true
is_view-IsView none h = refl
is_view-IsView (some (materialized_view queue target)) h = refl
is_view-IsView (some other_view) h = refl
is_view-IsView (some (kafka_queue brokers topic group)) h = absurd h
is_view-IsView (some orders_table) h = absurd h
is_view-IsView (some other_table) h = absurd h

is_table-IsTable : (o : Option Object) → IsTable o → is_table o ≡ true
is_table-IsTable none h = refl
is_table-IsTable (some (kafka_queue brokers topic group)) h = refl
is_table-IsTable (some orders_table) h = refl
is_table-IsTable (some other_table) h = refl
is_table-IsTable (some (materialized_view queue target)) h = absurd h
is_table-IsTable (some other_view) h = absurd h

abbrev with_object : String → Option Object → Objects → Objects
with_object n o d m = if str_eq m n then o else d m

with_object-same : (n : String) (o : Option Object) (d : Objects) → with_object n o d n ≡ o
with_object-same n o d = rw ((eq_iff n n).1 refl) refl

with_object-other :
    (n m : String) (o : Option Object) (d : Objects) → m ≢ n → with_object n o d m ≡ d m
with_object-other n m o d apart = elim (Bool-cases (str_eq m n)) [
  | inl same ↦ absurd (apart ((eq_iff m n).0 same))
  | inr other ↦ rw other refl
]

abbrev create_new : String → Object → Option Object → Objects → Option Objects
create_new n o none d = some (with_object n (some o) d)
create_new n o (some p) d = none

abbrev command_on : Ddl → Objects → Option Objects
command_on (drop_view n) d = if is_view (d n) then some (with_object n none d) else none
command_on (drop_table n) d = if is_table (d n) then some (with_object n none d) else none
command_on (create n o) d = create_new n o (d n) d

drop_view_lem :
    (n : String) (d : Objects)
    → IsView (d n)
    → command_on (drop_view n) d ≡ some (with_object n none d)
drop_view_lem n d h = rw (is_view-IsView (d n) h) refl

drop_table_lem :
    (n : String) (d : Objects)
    → IsTable (d n)
    → command_on (drop_table n) d ≡ some (with_object n none d)
drop_table_lem n d h = rw (is_table-IsTable (d n) h) refl

create_lem :
    (n : String) (o : Object) (d : Objects)
    → d n ≡ none
    → command_on (create n o) d ≡ some (with_object n (some o) d)
create_lem n o d h = rw h refl

create_taken_lem :
    (n : String) (o p : Object) (d : Objects) → d n ≡ some p → command_on (create n o) d ≡ none
create_taken_lem n o p d h = rw h refl

abbrev memory : ClickHouseDdl
memory = record {
  Database = Objects;
  object_at = λ n d. d n;
  command = command_on;
  drop_view-done = λ n d plain h. (
    with_object n none d,
    drop_view_lem n d h,
    with_object-same n none d,
    λ m apart. with_object-other n m none d apart,
  );
  drop_table-done = λ n d plain h. (
    with_object n none d,
    drop_table_lem n d h,
    with_object-same n none d,
    λ m apart. with_object-other n m none d apart,
  );
  create-done = λ n o d plain made h. (
    with_object n (some o) d,
    create_lem n o d h,
    with_object-same n (some o) d,
    λ m apart. with_object-other n m (some o) d apart,
  );
  create-taken = λ n o p d h. create_taken_lem n o p d h;
}

abbrev cfg : ChConfig
cfg = record {
  ch_orders_table = "orders_ch";
  kafka_bootstrap = "localhost:19092";
  topic = "orders";
}

-- a target table that is left over, and a table of somebody else
abbrev leftover : Objects
leftover =
    with_object "orders_ch" (some orders_table) (with_object "users" (some other_table) (λ m. none))

named : WellNamed cfg
unfolding is_plain all_plain is_literal
named = record {
  target_plain = refl;
  queue_plain = refl;
  mv_plain = refl;
  brokers_literal = refl;
  topic_literal = refl;
  group_literal = refl;
}

create_pipeline_anew_example :
    (d : Objects) × (create_pipeline memory cfg leftover ≡ ok d)
    × (d "orders_ch_queue" ≡ some (kafka_queue "localhost:19092" "orders" "ch_orders_ch_consumer"))
    × (d "orders_ch" ≡ some orders_table)
    × (d "orders_ch_mv" ≡ some (materialized_view "orders_ch_queue" "orders_ch"))
    × (d "users" ≡ some other_table)
create_pipeline_anew_example =
    create_pipeline_anew memory cfg leftover "users" named tt tt tt
      (names_apart "users" "orders_ch_mv" refl) (names_apart "users" "orders_ch_queue" refl)
      (names_apart "users" "orders_ch" refl)

abbrev order : ChRow
order = record {
  event_id = "e";
  order_id = "o";
  event_type = "order_created";
  amount = pos 100;
  user_id = 1;
  event_time = 5;
}

abbrev growing : ℕ → List ChRow
growing zero = []
growing (suc i) = order ∷ growing i

abbrev clock : ℕ → ℕ
clock i = 1000 + 500 * i

wait_for_count_total_example :
    (n : ℕ) × (wait_for_count clock growing 2 1000 90000 90001 ≡ some n)
    × Ends clock growing 2 91000 0 n
wait_for_count_total_example =
    wait_for_count_total clock growing 2 (λ i. omega arith) 1000 90000 (omega arith)
