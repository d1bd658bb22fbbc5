-- ===== src/Landing/State.antt =====
-- The progress that the landing job keeps in the snapshot summary: `ResumeState`,
-- `_summary_props` and `read_resume_state`.
pub mod RoundTrip
use streaming_lab.Prelude.{ℕ, String, Bool, Option, none, some, [], ◌∷◌, nat_eq, string_eq, or_else}
use streaming_lab.Text.{Text, str_onto, int_of, dumps, loads}
use streaming_lab.Dict.{Dict, lookup}
use streaming_lab.Lake.{Props, OrdersTable}

-- the keys of the summary
module _ where
  abbrev pub k_offsets : String
  k_offsets = "streaming-lab.kafka.offsets"

  abbrev pub k_watermark : String
  k_watermark = "streaming-lab.watermark.event_time_ms"

  abbrev pub k_lateness : String
  k_lateness = "streaming-lab.watermark.lateness_window_ms"

  abbrev pub k_part_max : String
  k_part_max = "streaming-lab.watermark.per_partition_max_ms"

  abbrev pub k_batch_n : String
  k_batch_n = "streaming-lab.batch.event_count"

  abbrev pub k_seq : String
  k_seq = "streaming-lab.commit.seq"

-- `_summary_props`
unfoldable pub summary_props : Option Props → Props
summary_props none = []
summary_props (some props) = props

pub record ResumeState : Type 0 where
  pub offsets : Dict ℕ ℕ
  pub per_partition_max_ms : Dict ℕ ℕ
  pub watermark_t_ms : ℕ
  pub commit_seq : ℕ

abbrev pub initial : ResumeState
initial = record { offsets = []; per_partition_max_ms = []; watermark_t_ms = 0; commit_seq = 0 }

-- A dictionary property that is not there leaves the empty default; one that cannot be read raises.
abbrev pub map_prop : Option Text → Option (Dict ℕ ℕ)
map_prop none = some []
map_prop (some t) = loads t

-- `int(props.get(key, "0"))`
abbrev pub int_prop : Option Text → Option ℕ
int_prop none = some 0
int_prop (some t) = int_of t

infixl 5 ◌>>=◌
abbrev ◌>>=◌ {ℓ κ} : {A : Type ℓ} {B : Type κ} → Option A → (A → Option B) → Option B
none >>= f = none
some a >>= f = f a

-- `none` stands for an exception: a summary that is not one of this job's.
unfoldable pub resume_of : Props → Option ResumeState
resume_of props = do
  offsets ← map_prop (lookup k_offsets props)
  part_max ← map_prop (lookup k_part_max props)
  watermark ← int_prop (lookup k_watermark props)
  seq ← int_prop (lookup k_seq props)
  some (record {
    offsets = offsets;
    per_partition_max_ms = part_max;
    watermark_t_ms = watermark;
    commit_seq = seq;
  })

module _ (lake : OrdersTable) where
  unfoldable pub read_resume_state : lake.Table → Option ResumeState
  unfolding summary_props
  read_resume_state t = resume_of (summary_props (lake.current_snapshot t))

-- `read_watermark_t` of query/seam.py reads the same property.
module _ (lake : OrdersTable) where
  unfoldable pub read_watermark_t : lake.Table → Option ℕ
  unfolding summary_props
  read_watermark_t t = int_prop (lookup k_watermark (summary_props (lake.current_snapshot t)))
