-- ===== src/Pipeline/Bootstrap.antt =====
-- src/streaming_lab/events/admin.py and scripts/bootstrap.py: the topic and the table that the pipeline
-- stands on. The admin client is an interface: what the broker creates was not there, and it answers that
-- a topic already exists only when it does, and then changes nothing. Of any other failure, as of a
-- broker that is not reached, nothing is known. The `confluent_kafka` library gives the message.
pub mod Twice
pub mod Tests
use streaming_lab.Prelude.{
  ℕ, ◌≡◌, ◌≢◌, refl, sym, ap, ◌∙◌, ◌⊎◌, inl, inr, String, Bool, true, false, Option, none, some,
  List, [], ◌∷◌, or_else, ◌==◌, Bool-cases, Option-cases, if◌then◌else◌,
}
use streaming_lab.Config.{Config}
use streaming_lab.Text.{Text}
use streaming_lab.Results.{Result, ok, raise, uncaught, Fault, ◌>>=◌}
use streaming_lab.Sessions.Model.{lower, mentions}
use streaming_lab.Lake.{OrdersTable}
use streaming_lab.Lake.Catalog.{Identifier, Catalog, create_orders_table, create_orders_table_keeps}

-- `"already exists"`
abbrev pub already_exists : Text
already_exists =
    b'a' ∷ b'l' ∷ b'r' ∷ b'e' ∷ b'a' ∷ b'd' ∷ b'y' ∷ b' ' ∷ b'e' ∷ b'x' ∷ b'i' ∷ b's' ∷ b't' ∷ b's'
    ∷ []

-- The future of a topic: done, or an exception with its text.
pub data Answer : Type 0 where
  done : Answer
  failed : Text → Answer

abbrev pub says_exists : Text → Bool
says_exists message = mentions already_exists (lower message)

pub record Admin : Type 1 where
  pub Cluster : Type 0
  -- the number of partitions of a topic that is there
  pub partitions_of : String → Cluster → Option ℕ
  pub create : String → ℕ → Cluster → Answer × Cluster
  pub delete : String → Cluster → Answer × Cluster
  pub create-done :
      (topic : String) (n : ℕ) (c : Cluster)
      → (create topic n c).0 ≡ done
      → (partitions_of topic c ≡ none) × (partitions_of topic (create topic n c).1 ≡ some n)
  pub create-exists :
      (topic : String) (n : ℕ) (c : Cluster) (message : Text)
      → (create topic n c).0 ≡ failed message
      → says_exists message ≡ true
      → ((create topic n c).1 ≡ c) × (m : ℕ) × (partitions_of topic c ≡ some m)

module _ (admin : Admin) where
  -- `except Exception as e: if "already exists" not in str(e).lower(): raise`
  abbrev pub unless_exists : Answer × admin.Cluster → Result admin.Cluster
  unless_exists (done, c) = ok c
  unless_exists (failed message, c) = if says_exists message then ok c else raise uncaught

  -- `partitions or cfg.num_partitions`
  abbrev pub partitions_or : Option ℕ → Config → ℕ
  partitions_or none cfg = cfg.num_partitions
  partitions_or (some n) cfg = if n == 0 then cfg.num_partitions else n

  unfoldable pub create_topic : Config → String → Option ℕ → admin.Cluster → Result admin.Cluster
  create_topic cfg topic partitions c =
      unless_exists (admin.create topic (partitions_or partitions cfg) c)

  -- Whatever comes of it is passed over.
  unfoldable pub delete_topic : String → admin.Cluster → admin.Cluster
  delete_topic topic c = (admin.delete topic c).1

  module _ (lake : OrdersTable) (catalog : Catalog lake) where
    abbrev pub Ready : Type 0
    Ready = lake.Table × (admin.Cluster × catalog.State)

    -- `main` of scripts/bootstrap.py
    unfoldable pub bootstrap :
        Config → String → Identifier → admin.Cluster → catalog.State → Result Ready
    bootstrap cfg topic i c s = create_topic cfg topic none c >>= (λ c'.
        create_orders_table lake catalog i false s >>= (λ made. ok (made.0, (c', made.1))))
