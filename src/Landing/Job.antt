-- ===== src/Landing/Job.antt =====
-- `LandingJob` of src/streaming_lab/lake/landing_job.py. A poll of the consumer is given with the
-- time at which it returned, in milliseconds. The consumer, the clock and the table are the
-- environment's: the run takes the polls as its input.
use mathlib.Core.Option
use streaming_lab.Prelude.{
  ℕ, ◌+◌, ◌*◌, Bool, not, ◌&&◌, ◌||◌, Option, none, some, List, [], ◌∷◌, ◌++◌, map, max, length,
  is_empty, leb, ◌==◌, if◌then◌else◌, nat_eq, string_eq, or_else,
}
use streaming_lab.Text.{str_onto, dumps}
use streaming_lab.Dict.{Dict, lookup, insert}
use streaming_lab.Results.{Result, ok, raise, Fault}
use streaming_lab.Config.{Config}
use streaming_lab.Events.Schema.{OrderEvent, Wire, from_wire}
use streaming_lab.Watermark.{compute_watermark}
use streaming_lab.Lake.{Row, Props, OrdersTable}
use streaming_lab.Landing.State.{
  ResumeState, k_offsets, k_watermark, k_lateness, k_part_max, k_batch_n, k_seq, read_resume_state,
}

pub record Record : Type 0 where
  pub partition : ℕ
  pub offset : ℕ
  pub event : OrderEvent

-- `_arrow_batch`: the time column is cast from milliseconds to microseconds.
unfoldable pub row_of : OrderEvent → Row
row_of e = record {
  event_id = e.event_id;
  order_id = e.order_id;
  event_type = e.event_type;
  amount = e.amount;
  user_id = e.user_id;
  event_time_us = e.event_time_ms * 1000;
}

unfoldable pub arrow_batch : List OrderEvent → List Row
arrow_batch = map row_of

-- Where the consumer is asked to begin: `OFFSET_BEGINNING`, or the next offset to consume.
pub data Start : Type 0 where
  offset_beginning : Start
  next_offset : ℕ → Start

abbrev start_of : Option ℕ → Start
start_of none = offset_beginning
start_of (some o) = next_offset o

-- `_assign_from_state`, at one of the partitions
unfoldable pub assign : ResumeState → ℕ → Start
assign st p = start_of (lookup p st.offsets)

-- `max(next_offsets.get(r.partition, -1), r.offset + 1)`
abbrev pub after : Option ℕ → ℕ → ℕ
after none o = o + 1
after (some n) o = max n (o + 1)

unfoldable pub next_offsets : Dict ℕ ℕ → List Record → Dict ℕ ℕ
next_offsets d [] = d
next_offsets d (r ∷ batch) =
    next_offsets (insert r.partition (after (lookup r.partition d) r.offset) d) batch

unfoldable pub part_max : Dict ℕ ℕ → List Record → Dict ℕ ℕ
part_max d [] = d
part_max d (r ∷ batch) =
    part_max (insert r.partition (max (or_else (lookup r.partition d) 0) r.event.event_time_ms) d)
      batch

-- the state after a commit of `batch`
unfoldable pub advance_state : Config → List Record → ResumeState → ResumeState
advance_state cfg batch st =
    let part_max_new = part_max st.per_partition_max_ms batch in
    record {
      offsets = next_offsets st.offsets batch;
      per_partition_max_ms = part_max_new;
      watermark_t_ms =
          compute_watermark part_max_new cfg.lateness_window_ms st.watermark_t_ms
            (some cfg.num_partitions);
      commit_seq = st.commit_seq + 1;
    }

unfoldable pub snapshot_properties : Config → List Record → ResumeState → Props
snapshot_properties cfg batch st =
    (k_offsets, dumps st.offsets)
    ∷ (k_watermark, str_onto st.watermark_t_ms [])
    ∷ (k_lateness, str_onto cfg.lateness_window_ms [])
    ∷ (k_part_max, dumps st.per_partition_max_ms)
    ∷ (k_batch_n, str_onto (length batch) [])
    ∷ (k_seq, str_onto st.commit_seq [])
    ∷ []

module _ (lake : OrdersTable) where
  pub record Job : Type 0 where
    pub state : ResumeState
    pub table : lake.Table
    pub batch : List Record
    pub last_flush : ℕ
    pub last_msg : ℕ
    pub committed : ℕ

module _ (cfg : Config) (lake : OrdersTable) where
  -- `_commit_batch`: one append carries the rows and the progress, and the state follows it.
  unfoldable pub commit_batch : List Record → ResumeState → lake.Table → ResumeState × lake.Table
  commit_batch batch st t =
      let st' = advance_state cfg batch st in
      (
        st',
        lake.append (arrow_batch (map (λ r. r.event) batch)) (snapshot_properties cfg batch st') t,
      )

  -- `__init__`: the state comes from the table, at time `now`.
  abbrev pub resumed : ℕ → lake.Table → ResumeState → Job lake
  resumed now t st = record {
    state = st;
    table = t;
    batch = [];
    last_flush = now;
    last_msg = now;
    committed = 0;
  }

  unfoldable pub start : ℕ → lake.Table → Option (Job lake)
  start now t = Option.map (resumed now t) (read_resume_state lake t)

  -- commit, count, and begin a new batch; the time of the flush is set where the loop goes on
  unfoldable pub flush : Job lake → Job lake
  flush j =
      let (st, t) = commit_batch j.batch j.state j.table in
      record j { state = st; table = t; batch = []; committed = j.committed + 1 }

-- What `consumer.poll(0.2)` returned.
pub data Poll : Type 0 where
  idle : ℕ → Poll
  failed : ℕ → Poll
  message : ℕ → ℕ → ℕ → Wire → Poll

-- How an iteration of the loop, or the run, ends: it goes on, has broken out, or has raised.
module _ (lake : OrdersTable) where
  pub data Outcome : Type 0 where
    running : Job lake → Outcome
    stopped : Job lake → Outcome
    aborted : Fault → Job lake → Outcome

  abbrev pub job_of : Outcome → Job lake
  job_of (running j) = j
  job_of (stopped j) = j
  job_of (aborted x j) = j

  -- the next iteration, where there is one
  abbrev pub proceed : Outcome → (Job lake → Outcome) → Outcome
  proceed (running j) next = next j
  proceed (stopped j) next = stopped j
  proceed (aborted x j) next = aborted x j

module _ (cfg : Config) (lake : OrdersTable) (idle_exit_ms max_batches : ℕ) where
  -- `max_batches and committed >= max_batches`
  unfoldable pub reached : Job lake → Bool
  reached j = not (max_batches == 0) && leb max_batches j.committed

  -- the branch for an idle poll, after its first test
  unfoldable pub idle_exit : ℕ → Job lake → Outcome lake
  idle_exit now j =
      if not (idle_exit_ms == 0) && leb (j.last_msg + idle_exit_ms) now
      then stopped (if is_empty j.batch then j else flush cfg lake j)
      else running j

  unfoldable pub on_idle : ℕ → Job lake → Outcome lake
  on_idle now j =
      if not (is_empty j.batch) && leb (j.last_flush + cfg.batch_max_ms) now
      then (let j' = record (flush cfg lake j) { last_flush = now } in
          if reached j' then stopped j' else idle_exit now j')
      else idle_exit now j

  unfoldable pub on_event : ℕ → Record → Job lake → Outcome lake
  on_event now r j =
      let j' = record j { batch = j.batch ++ r ∷ []; last_msg = now } in
      if leb cfg.batch_max_events (length j'.batch) || leb (j'.last_flush + cfg.batch_max_ms) now
      then (let j'' = record (flush cfg lake j') { last_flush = now } in
          if reached j'' then stopped j'' else running j'')
      else running j'

  -- `OrderEvent.from_json` may raise: that leaves the loop, and what was read is lost.
  unfoldable pub on_value : ℕ → ℕ → ℕ → Result OrderEvent → Job lake → Outcome lake
  on_value now p o (raise x) j = aborted x (record j { last_msg = now })
  on_value now p o (ok e) j = on_event now (record { partition = p; offset = o; event = e }) j

  unfoldable pub on_poll : Poll → Job lake → Outcome lake
  on_poll (idle now) j = on_idle now j
  on_poll (failed now) j = running j
  on_poll (message now p o value) j = on_value now p o (from_wire value) j

  -- `run`, over the polls of this process; it is still `running` where they end.
  unfoldable pub run : List Poll → Job lake → Outcome lake
  run [] j = running j
  run (poll ∷ polls) j = proceed lake (on_poll poll j) (run polls)
