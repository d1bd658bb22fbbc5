-- ===== src/Realtime/Tables.antt =====
-- `create_pipeline` and `drop_pipeline`. ClickHouse is an interface: its objects by name, and its
-- statements, one of which it may refuse, which raises in the client.
use Prim.Native.Char.{code}
use mathlib.Core.Logic.{◌≢◌}
use mathlib.Core.Path.{subst}
use text.Mathlib.TextLemmas.{append_cancel_left, append-nil}
use streaming_lab.Prelude.{
  names_apart, ◌≡◌, refl, sym, ◌∙◌, ℕ, String, Bool, true, false, not, ◌&&◌, ◌||◌, leb, ◌==◌,
  Option, none, some, str_eq,
}
use streaming_lab.Results.{Result, ok, raise, uncaught, ◌>>=◌}
use streaming_lab.Gateway.Value.{◌<>◌}

-- The settings of the pipeline.
pub record ChConfig : Type 0 where
  pub ch_orders_table : String
  pub kafka_bootstrap : String
  pub topic : String

-- What a name may stand for: the Kafka queue with its brokers, topic and group; the table of orders;
-- the materialized view from a queue to a table; or another table or view.
pub data Object : Type 0 where
  kafka_queue : String → String → String → Object
  orders_table : Object
  materialized_view : String → String → Object
  other_table : Object
  other_view : Object

pub data Ddl : Type 0 where
  drop_view : String → Ddl
  drop_table : String → Ddl
  create : String → Object → Ddl

abbrev pub IsView : Option Object → Type 0
IsView (some (materialized_view queue target)) = Unit
IsView (some other_view) = Unit
IsView none = Unit
IsView o = ⊥

abbrev pub IsTable : Option Object → Type 0
IsTable (some (kafka_queue brokers topic group)) = Unit
IsTable (some orders_table) = Unit
IsTable (some other_table) = Unit
IsTable none = Unit
IsTable o = ⊥

-- an identifier that needs no quotes: a letter or an underscore, and then letters, digits and
-- underscores
abbrev is_letter : ℕ → Bool
is_letter c = (c == 95) || ((leb 65 c && leb c 90) || (leb 97 c && leb c 122))

unfoldable pub all_plain : String → Bool
all_plain String.[] = true
all_plain (String.◌∷◌ c s) =
    (is_letter (code c) || (leb 48 (code c) && leb (code c) 57)) && all_plain s

unfoldable pub is_plain : String → Bool
is_plain String.[] = false
is_plain (String.◌∷◌ c s) = is_letter (code c) && all_plain s

-- a text that stands between single quotes as it is: without a quote and without a backslash
unfoldable pub is_literal : String → Bool
is_literal String.[] = true
is_literal (String.◌∷◌ c s) = not ((code c == 39) || (code c == 92)) && is_literal s

abbrev pub IsQueue : Option Object → Type 0
IsQueue none = ⊥
IsQueue (some (kafka_queue brokers topic group)) = Unit
IsQueue (some orders_table) = ⊥
IsQueue (some (materialized_view queue target)) = ⊥
IsQueue (some other_table) = ⊥
IsQueue (some other_view) = ⊥

abbrev pub IsOrders : Option Object → Type 0
IsOrders none = ⊥
IsOrders (some (kafka_queue brokers topic group)) = ⊥
IsOrders (some orders_table) = Unit
IsOrders (some (materialized_view queue target)) = ⊥
IsOrders (some other_table) = ⊥
IsOrders (some other_view) = ⊥

-- What the statement of an object asks for: settings that are literals, and, of a view, its queue and
-- its target. Nothing is known of the objects that the program does not create.
abbrev pub CanBeMade : (String → Option Object) → Object → Type 0
CanBeMade at (kafka_queue brokers topic group) =
    (is_literal brokers ≡ true) × (is_literal topic ≡ true) × (is_literal group ≡ true)
CanBeMade at orders_table = Unit
CanBeMade at (materialized_view queue target) =
    (is_plain queue ≡ true) × (is_plain target ≡ true) × IsQueue (at queue) × IsOrders (at target)
CanBeMade at other_table = ⊥
CanBeMade at other_view = ⊥

-- What ClickHouse documents, of names that are plain identifiers: `DROP ... IF EXISTS` removes an
-- object of its kind and does nothing where there is none; a `CREATE` of what can be made is done
-- where the name is free, and refused where it is taken; none touches another name. Nothing is said
-- of other names, and of a server that is not up.
pub record ClickHouseDdl : Type 1 where
  pub Database : Type 0
  pub object_at : String → Database → Option Object
  pub command : Ddl → Database → Option Database
  pub drop_view-done :
      (n : String) (d : Database)
      → is_plain n ≡ true
      → IsView (object_at n d)
      → (d' : Database) × (command (drop_view n) d ≡ some d')
        × (object_at n d' ≡ none)
        × ((m : String) → m ≢ n → object_at m d' ≡ object_at m d)
  pub drop_table-done :
      (n : String) (d : Database)
      → is_plain n ≡ true
      → IsTable (object_at n d)
      → (d' : Database) × (command (drop_table n) d ≡ some d')
        × (object_at n d' ≡ none)
        × ((m : String) → m ≢ n → object_at m d' ≡ object_at m d)
  pub create-done :
      (n : String) (o : Object) (d : Database)
      → is_plain n ≡ true
      → CanBeMade (λ m. object_at m d) o
      → object_at n d ≡ none
      → (d' : Database) × (command (create n o) d ≡ some d')
        × (object_at n d' ≡ some o)
        × ((m : String) → m ≢ n → object_at m d' ≡ object_at m d)
  pub create-taken :
      (n : String) (o p : Object) (d : Database)
      → object_at n d ≡ some p
      → command (create n o) d ≡ none

abbrev pub queue_of : ChConfig → String
queue_of cfg = cfg.ch_orders_table <> "_queue"

abbrev pub mv_of : ChConfig → String
mv_of cfg = cfg.ch_orders_table <> "_mv"

abbrev pub group_of : ChConfig → String
group_of cfg = "ch_" <> cfg.ch_orders_table <> "_consumer"

-- settings whose names are plain identifiers, and whose texts are literals
pub record WellNamed (cfg : ChConfig) : Type 0 where
  pub target_plain : is_plain cfg.ch_orders_table ≡ true
  pub queue_plain : is_plain (queue_of cfg) ≡ true
  pub mv_plain : is_plain (mv_of cfg) ≡ true
  pub brokers_literal : is_literal cfg.kafka_bootstrap ≡ true
  pub topic_literal : is_literal cfg.topic ≡ true
  pub group_literal : is_literal (group_of cfg) ≡ true

module _ (ch : ClickHouseDdl) where
  -- `client.command`
  abbrev accepted : Option ch.Database → Result ch.Database
  accepted none = raise uncaught
  accepted (some d) = ok d

  abbrev pub run_command : Ddl → ch.Database → Result ch.Database
  run_command c d = accepted (ch.command c d)

  unfoldable pub drop_pipeline : ChConfig → ch.Database → Result ch.Database
  drop_pipeline cfg d0 = do
    d1 ← run_command (drop_view (mv_of cfg)) d0
    d2 ← run_command (drop_table (queue_of cfg)) d1
    run_command (drop_table cfg.ch_orders_table) d2

  unfoldable pub create_pipeline : ChConfig → ch.Database → Result ch.Database
  create_pipeline cfg d0 = do
    d1 ← run_command (drop_view (mv_of cfg)) d0
    d2 ← run_command (drop_table (queue_of cfg)) d1
    d3 ← run_command (drop_table cfg.ch_orders_table) d2
    d4 ←
        run_command
          (create (queue_of cfg) (kafka_queue cfg.kafka_bootstrap cfg.topic (group_of cfg))) d3
    d5 ← run_command (create cfg.ch_orders_table orders_table) d4
    run_command (create (mv_of cfg) (materialized_view (queue_of cfg) cfg.ch_orders_table)) d5

-- the three names are different
module _ (t : String) where
  suffix-apart : (s : String) → str_eq "" s ≡ false → t ≢ t <> s
  suffix-apart s other h = names_apart "" s other (append_cancel_left t "" s (append-nil t ∙ h))

  suffixes-apart : (r s : String) → str_eq r s ≡ false → t <> r ≢ t <> s
  suffixes-apart r s other h = names_apart r s other (append_cancel_left t r s h)

flip {ℓ} : {A : Type ℓ} {a b : A} → a ≢ b → b ≢ a
flip apart h = apart (sym h)

module _ (ch : ClickHouseDdl) (cfg : ChConfig) where
  -- the three statements that drop
  drops :
      (d : ch.Database) (n : String)
      → WellNamed cfg
      → IsView (ch.object_at (mv_of cfg) d)
      → IsTable (ch.object_at (queue_of cfg) d)
      → IsTable (ch.object_at cfg.ch_orders_table d)
      → (d1 d2 d3 : ch.Database) × (ch.command (drop_view (mv_of cfg)) d ≡ some d1)
        × (ch.command (drop_table (queue_of cfg)) d1 ≡ some d2)
        × (ch.command (drop_table cfg.ch_orders_table) d2 ≡ some d3)
        × (ch.object_at (mv_of cfg) d3 ≡ none)
        × (ch.object_at (queue_of cfg) d3 ≡ none)
        × (ch.object_at cfg.ch_orders_table d3 ≡ none)
        × (n ≢ mv_of cfg
            → n ≢ queue_of cfg
            → n ≢ cfg.ch_orders_table
            → ch.object_at n d3 ≡ ch.object_at n d)
  drops d n named view queue target =
      let t-mv = suffix-apart cfg.ch_orders_table "_mv" refl in
      let t-queue = suffix-apart cfg.ch_orders_table "_queue" refl in
      let mv-queue = suffixes-apart cfg.ch_orders_table "_mv" "_queue" refl in
      let (d1, c1, gone1, same1) = ch.drop_view-done (mv_of cfg) d named.mv_plain view in
      let (d2, c2, gone2, same2) =
        ch.drop_table-done (queue_of cfg) d1 named.queue_plain
          (subst IsTable (sym (same1 (queue_of cfg) (flip mv-queue))) queue) in
      let (d3, c3, gone3, same3) = ch.drop_table-done cfg.ch_orders_table d2 named.target_plain (
        subst IsTable (sym (same2 cfg.ch_orders_table t-queue ∙ same1 cfg.ch_orders_table t-mv))
          target) in
      (
        d1,
        d2,
        d3,
        c1,
        c2,
        c3,
        same3 (mv_of cfg) (flip t-mv) ∙ same2 (mv_of cfg) mv-queue ∙ gone1,
        same3 (queue_of cfg) (flip t-queue) ∙ gone2,
        gone3,
        λ a b c. same3 n c ∙ same2 n b ∙ same1 n a,
      )

  -- For names that are plain identifiers and settings that are literals, and whatever stands under the
  -- three names of the pipeline, as long as it is of the kind that is dropped, `create_pipeline`
  -- succeeds. It leaves the queue, the table, and the view that reads the one and writes the other, and
  -- touches no other name.
  pub create_pipeline_anew :
      (d : ch.Database) (n : String)
      → WellNamed cfg
      → IsView (ch.object_at (mv_of cfg) d)
      → IsTable (ch.object_at (queue_of cfg) d)
      → IsTable (ch.object_at cfg.ch_orders_table d)
      → n ≢ mv_of cfg
      → n ≢ queue_of cfg
      → n ≢ cfg.ch_orders_table
      → (d' : ch.Database) × (create_pipeline ch cfg d ≡ ok d')
        × (ch.object_at (queue_of cfg) d'
            ≡ some (kafka_queue cfg.kafka_bootstrap cfg.topic (group_of cfg)))
        × (ch.object_at cfg.ch_orders_table d' ≡ some orders_table)
        × (ch.object_at (mv_of cfg) d'
            ≡ some (materialized_view (queue_of cfg) cfg.ch_orders_table))
        × (ch.object_at n d' ≡ ch.object_at n d)
  unfolding create_pipeline
  create_pipeline_anew d n named view queue target n-mv n-queue n-target =
      let t-mv = suffix-apart cfg.ch_orders_table "_mv" refl in
      let t-queue = suffix-apart cfg.ch_orders_table "_queue" refl in
      let mv-queue = suffixes-apart cfg.ch_orders_table "_mv" "_queue" refl in
      let (d1, d2, d3, c1, c2, c3, no_mv, no_queue, no_table, same3) =
        drops d n named view queue target in
      let (d4, c4, is_queue, same4) =
        ch.create-done (queue_of cfg) (kafka_queue cfg.kafka_bootstrap cfg.topic (group_of cfg)) d3
          named.queue_plain (named.brokers_literal, named.topic_literal, named.group_literal)
          no_queue in
      let (d5, c5, is_table, same5) =
        ch.create-done cfg.ch_orders_table orders_table d4 named.target_plain tt
          (same4 cfg.ch_orders_table t-queue ∙ no_table) in
      let (d6, c6, is_view, same6) =
        ch.create-done (mv_of cfg) (materialized_view (queue_of cfg) cfg.ch_orders_table) d5
          named.mv_plain
          (
            named.queue_plain,
            named.target_plain,
            subst IsQueue (sym (same5 (queue_of cfg) (flip t-queue) ∙ is_queue)) tt,
            subst IsOrders (sym is_table) tt,
          )
          (same5 (mv_of cfg) (flip t-mv) ∙ same4 (mv_of cfg) mv-queue ∙ no_mv) in
      (
        d6,
        rw (c1, c2, c3, c4, c5, c6) refl,
        same6 (queue_of cfg) (flip mv-queue) ∙ same5 (queue_of cfg) (flip t-queue) ∙ is_queue,
        same6 cfg.ch_orders_table t-mv ∙ is_table,
        is_view,
        same6 n n-mv ∙ same5 n n-target ∙ same4 n n-queue ∙ same3 n-mv n-queue n-target,
      )
