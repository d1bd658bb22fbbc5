-- ===== src/Lib.antt =====
-- streaming-lab: one log of order events, written once to a lake by a job that may be killed at any
-- moment and once to a realtime store, and a query that joins the two at a watermark: what is below
-- it is read from the lake, exactly once, and the rest from ClickHouse, which gets each event at
-- least once.
--
-- - Config, Results, Dict, Text, Prelude: the settings of src/streaming_lab/config.py, and what the
--   program uses of Python: exceptions as values, dictionaries in insertion order, the decimal and
--   JSON texts of numbers, and integers of either sign for amounts, counted in cents.
-- - Events: src/streaming_lab/events. Schema is `OrderEvent` with `to_wire` and `from_wire`,
--   Generator is `build_events` and the summary, GroundTruth is `compute`. The random numbers are
--   an interface, `Rng`, with the ranges that `random` documents.
-- - Watermark: src/streaming_lab/lake/watermark.py, `compute_watermark`.
-- - Lake: src/streaming_lab/lake/catalog.py. Iceberg's table of orders is an interface,
--   `OrdersTable`, of an atomic append, which Lake.Memory meets; Catalog is `create_orders_table`,
--   over an interface of the catalog, whose calls may all raise.
-- - Landing: src/streaming_lab/lake/landing_job.py. State is the progress that a snapshot's summary
--   carries, Job is `LandingJob`: `start` is its constructor, `commit_batch` its commit, `on_poll`
--   one iteration of `run`. Delivery says what the broker hands over, and `Life` is the relation of
--   all tables that runs, kills and restarts lead to. Offsets, Safety, Commit and Polls carry the
--   invariant from a record to a run; Polls does so for every property that commits keep, `Kept`,
--   and Refines uses it again for a machine that takes one event at a time.
-- - Query: src/streaming_lab/query/seam.py and the two statements of
--   src/streaming_lab/realtime/clickhouse.py that it stands on.
-- - Realtime: the rest of src/streaming_lab/realtime/clickhouse.py. Tables is `create_pipeline` and
--   `drop_pipeline`, over an interface of ClickHouse's objects by name, whose CREATE succeeds for
--   plain names and when what a view reads and writes is there, and Waiting is `wait_for_count`,
--   whose fuel of one poll more than the timeout has milliseconds is shown to be enough.
-- - Pipeline: from the generator to the query; Bootstrap is create_topic and delete_topic of
--   events/admin.py and scripts/bootstrap.py, over an interface of the Kafka admin client, of which
--   nothing is assumed when it fails otherwise than for a topic that exists.
-- - Gateway: gateway. Producer is `AsyncKafkaProducerPool` of async_kafka_producer.py, where a send
--   is two steps, before and after the wait for the broker; Breaker has the relation of all
--   interleavings of its calls; RoundRobin and Worker are about `_get_producer` and
--   `_batch_worker`. Api is the two handlers of events_api_original.py that ingest events, and
--   Ingest what becomes of the events; Queries has the handlers that read, and Lifespan is the
--   start and the end of the application. The sends of aiokafka give futures, so that the count of
--   a batch's successes raises.
-- - Sessions: _materials/flink-reference. Model and Aggregate are `Event`, `UserSession` and
--   `SessionAggregator` of event_model_original.py and jobs/session_processing_job.py, Daily is
--   `DailySessionMetricsProcessor`, Tracker `ActiveSessionTracker` and Journey
--   `UserJourneyTracker`; Wire is `Event` between dictionaries, JSON texts and objects, over an
--   interface of datetimes; Metrics and Windows have the processors of
--   jobs/realtime_metrics_job.py, and Ranking is about its popular pages. Times are microseconds,
--   with whether they carry an offset, since Python does not compare the one kind with the other.
-- - Analytics: jobs/analytics_aggregation_job.py of the same directory, its queries as functions on
--   the rows of kafka_events. Sql is what they use of SQL, with NULL as a missing value; Grouping
--   and Sums are about GROUP BY. Hourly, Daily, Cohorts, Funnel and Geographic are the queries. A
--   window is numbered by its hour or day, a rate is the two numbers that are divided, and the
--   average of counts has no fraction.
-- - Storage: src/streaming_lab/naive_mode. Services has the interfaces of Redis, ClickHouse, S3,
--   Elasticsearch and JSON, whose calls may fail, and Memory instances of them. Hot, Warm, Cold and
--   Search are the tiers of multi_tier_storage.py, Tiers is `MultiTierStorage`, Opening its
--   `initialize` and those of the tiers, and Opened what they give; Expiry and Stored are about
--   what is read back, and what is answered when the services fail. Retention, Durable and Replay
--   are `HybridSourceOfTruth` of hybrid_source_of_truth.py, with times in whole seconds, and
--   Replayed what a replay sends. Ingested joins the gateway and the storage: a request and its
--   background tasks.
--
-- The landing job asks the generator's events and the broker for two things: a partition's events
-- come in offset order from the position assigned, and no event is older by more than the lateness
-- window than one before it in its partition. The first is `Delivered`, the second
-- `BoundedDisorder` of the topic. The poll loop has no fuel: a run is over the list of its polls,
-- and is still running where they end. The generator's loop has fuel for one iteration more than
-- the events asked for, and each iteration adds one event.
--
-- Not modelled: the clients of Kafka, ClickHouse and Iceberg, the files and command lines, the HTTP
-- metrics of the gateway and the unpacking of its search answers, and of the Flink reference the
-- job topologies and the query of user journeys of the analytics job, which takes FIRST_VALUE of a
-- column that is not grouped.
pub mod Prelude
pub mod Dict
pub mod Text
pub mod Results
pub mod Config
pub mod Events
pub mod Watermark
pub mod Lake
pub mod Landing
pub mod Query
pub mod Pipeline
pub mod Gateway
pub mod Sessions
pub mod Analytics
pub mod Storage
pub mod Realtime
