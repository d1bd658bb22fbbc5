-- ===== src/Pipeline/Bootstrap/Tests.antt =====
-- A broker in memory, which says of a topic that is there that it already exists.
use streaming_lab.Prelude.{
  ℕ, ◌≡◌, refl, ◌⊎◌, String, Option, none, some, ◌∷◌, str_eq, eq_iff, if◌then◌else◌,
}
use streaming_lab.Config.{default}
use streaming_lab.Text.{Text}
use streaming_lab.Results.{ok, raise, uncaught}
use streaming_lab.Lake.Memory.{memory}
use streaming_lab.Lake.Tests.{catalog, tables, orders, users_id, orders_id, others_apart}
use streaming_lab.Pipeline.Bootstrap.{Admin, Answer, done, failed, already_exists, bootstrap}
use streaming_lab.Pipeline.Bootstrap.Twice.{Failed, Stands, bootstrap_again}

abbrev Topics : Type 0
Topics = String → Option ℕ

-- `Topic already exists`
abbrev topic_exists : Text
topic_exists = b'T' ∷ b'o' ∷ b'p' ∷ b'i' ∷ b'c' ∷ b' ' ∷ already_exists

abbrev put_topic : String → Option ℕ → Topics → Topics
put_topic topic o c t = if str_eq topic t then o else c t

abbrev answer : String → ℕ → Option ℕ → Topics → Answer × Topics
answer topic n none c = (done, put_topic topic (some n) c)
answer topic n (some m) c = (failed topic_exists, c)

done_lem :
    (topic : String) (n : ℕ) (o : Option ℕ) (c : Topics)
    → (answer topic n o c).0 ≡ done
    → (o ≡ none) × ((answer topic n o c).1 topic ≡ some n)
done_lem topic n none c h = (refl, rw ((eq_iff topic topic).1 refl) refl)
done_lem topic n (some m) c h = cc

exists_lem :
    (topic : String) (n : ℕ) (o : Option ℕ) (c : Topics) (message : Text)
    → (answer topic n o c).0 ≡ failed message
    → ((answer topic n o c).1 ≡ c) × (m : ℕ) × (o ≡ some m)
exists_lem topic n none c message h = cc
exists_lem topic n (some m) c message h = (refl, m, refl)

abbrev broker : Admin
broker = record {
  Cluster = Topics;
  partitions_of = λ topic c. c topic;
  create = λ topic n c. answer topic n (c topic) c;
  delete = λ topic c. (done, put_topic topic none c);
  create-done = λ topic n c h. done_lem topic n (c topic) c h;
  create-exists = λ topic n c message h says. exists_lem topic n (c topic) c message h;
}

abbrev two_partitions : Topics
two_partitions = put_topic "orders" (some 2) (λ t. none)

bootstrap_again_example :
    let first =
      ((bootstrap broker memory catalog default "orders" orders_id two_partitions tables
          ≡ raise uncaught)
        × Failed broker memory catalog default "orders" orders_id two_partitions tables) in
    first
    ⊎ ((c' : Topics) × (s' : catalog.State) × Stands broker memory catalog default "orders"
          orders_id users_id two_partitions tables c' s'
        × (((bootstrap broker memory catalog default "orders" orders_id c' s' ≡ raise uncaught)
              × Failed broker memory catalog default "orders" orders_id c' s')
            ⊎ ((s'' : catalog.State) × (bootstrap broker memory catalog default "orders" orders_id
                    c' s'
                  ≡ ok (orders, (c', s'')))
                × (s'' orders_id ≡ some orders))))
bootstrap_again_example =
    bootstrap_again broker memory catalog default "orders" orders_id users_id two_partitions tables
      others_apart
