-- ===== src/Analytics.antt =====
-- _materials/flink-reference/jobs/analytics_aggregation_job.py: the SQL queries of the job, as functions
-- on the rows of `kafka_events`. What Flink emits of a window that has closed is the result of the
-- query on all its rows.
pub mod Sql
pub mod Grouping
pub mod Sums
pub mod Hourly
pub mod Daily
pub mod Cohorts
pub mod Funnel
pub mod Geographic
pub mod Tests
