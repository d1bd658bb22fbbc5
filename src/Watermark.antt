-- ===== src/Watermark.antt =====
-- src/streaming_lab/lake/watermark.py. Event times are milliseconds since the epoch, so they are
-- natural numbers.
pub mod Tests
pub mod Partitions
pub mod Bounds
use streaming_lab.Prelude.{
  ℕ, ◌-◌, min, max, Bool, true, false, ◌&&◌, Option, none, some, List, [], ◌∷◌, length, ltb,
  if◌then◌else◌,
}
use streaming_lab.Dict.{Dict, values}

-- `min(x, *xs)`
unfoldable pub min_of : ℕ → List ℕ → ℕ
min_of x [] = x
min_of x (y ∷ ys) = min_of (min x y) ys

-- `expected_partitions is not None and len(per_partition_max_ms) < expected_partitions`
abbrev pub misses_partition : Option ℕ → ℕ → Bool
misses_partition none n = false
misses_partition (some expected) n = ltb n expected

-- `max(previous_t_ms, min(values) - lateness_window_ms)`: a difference below zero loses against
-- `previous_t_ms`, which is a time.
unfoldable pub advance : List ℕ → ℕ → ℕ → ℕ
unfolding min_of
advance [] lateness previous = previous
advance (x ∷ xs) lateness previous =
    let min_max = min_of x xs in
    if ltb min_max lateness then previous else max previous (min_max - lateness)

unfoldable pub compute_watermark : Dict ℕ ℕ → ℕ → ℕ → Option ℕ → ℕ
compute_watermark per_partition_max lateness previous expected =
    if misses_partition expected (length per_partition_max)
    then previous
    else advance (values per_partition_max) lateness previous
