-- ===== src/Config.antt =====
-- src/streaming_lab/config.py: the settings that the landing job, the generator and the queries
-- read. Times are whole milliseconds, so `batch_max_seconds` is given in milliseconds too. The
-- endpoints, credentials and names of tables and files are left out: the interfaces to the services
-- stand for them.
use streaming_lab.Prelude.{ℕ}

pub record Config : Type 0 where
  pub num_partitions : ℕ
  pub lateness_window_ms : ℕ
  pub batch_max_events : ℕ
  pub batch_max_ms : ℕ

abbrev pub default : Config
default = record {
  num_partitions = 4;
  lateness_window_ms = 1000;
  batch_max_events = 5000;
  batch_max_ms = 2000;
}
