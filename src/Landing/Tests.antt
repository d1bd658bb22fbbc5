-- ===== src/Landing/Tests.antt =====
-- Two partitions, one process that commits and is killed with an event in hand, and a second that
-- goes on from the table.
use mathlib.Core.List.{Perm}
use streaming_lab.Prelude.{
  ℕ, zero, suc, ◌≤◌, ◌<◌, ◌≡◌, refl, some, List, [], ◌∷◌, ◌++◌, map, arith, String,
}
use streaming_lab.Prelude.Int.{pos}
use streaming_lab.Text.{
  loads, dumps, entries_onto, entry_onto, read_entry, read_entries, expect, read_int, int_of,
  str_onto, emit, scan_digits, read_amount, read_cents, amount_text, cents_onto,
}
use streaming_lab.Watermark.{compute_watermark, advance, min_of}
use streaming_lab.Config.{Config}
use streaming_lab.Lake.Memory.{Memory, memory}
use streaming_lab.Events.Schema.{OrderEvent, to_wire, from_wire, order_created, order_cancelled}
use streaming_lab.Dict.{lookup, insert}
use streaming_lab.Landing.Disorder.{IsBounded, BoundedDisorder-lists}
use streaming_lab.Landing.State.{
  resume_of, summary_props, ResumeState, initial, read_resume_state, read_watermark_t,
}
use streaming_lab.Landing.Job.{
  row_of, Job, Poll, idle, message, job_of, assign, start, resumed, run, on_poll, on_idle,
  idle_exit, on_value, on_event, flush, reached, commit_batch, advance_state, snapshot_properties,
  next_offsets, part_max,
}
use streaming_lab.Landing.Offsets.{Topic, position, consumed}
use streaming_lab.Landing.Safety.{BoundedDisorder}
use streaming_lab.Landing.Delivery.{Delivered, Life, born, process, assigned}
use streaming_lab.Landing.Drain.{idle_exit_drains}
use streaming_lab.Landing.Delivery.{end_of}
use streaming_lab.Landing.Job.{running, stopped}
use streaming_lab.Landing.Refines.{Steps, view, refines_one_by_one}
use streaming_lab.Landing.ExactlyOnce.{exactly_once, watermark_safe, watermark_monotone}

abbrev pub cfg : Config
cfg = record {
  num_partitions = 2;
  lateness_window_ms = 100;
  batch_max_events = 2;
  batch_max_ms = 5000;
}

abbrev pub event : String → String → ℕ → ℕ → OrderEvent
event id kind cents time = record {
  event_id = id;
  order_id = "o1";
  event_type = kind;
  amount = pos cents;
  user_id = 7;
  event_time_ms = time;
}

abbrev pub e1 : OrderEvent
e1 = event "e1" order_created 1250 1000

abbrev pub e2 : OrderEvent
e2 = event "e2" order_created 300 1300

abbrev pub e3 : OrderEvent
e3 = event "e3" order_cancelled 1250 1200

abbrev pub log : Topic
log zero = e1 ∷ e3 ∷ []
log (suc zero) = e2 ∷ []
log (suc (suc p)) = []

abbrev first_polls : List Poll
first_polls =
    message 10 0 0 (to_wire e1)
    ∷ idle 20
    ∷ message 30 1 0 (to_wire e2)
    ∷ message 40 0 1 (to_wire e3)
    ∷ []

abbrev first_job : Job memory
first_job = resumed cfg memory 0 memory.created initial

abbrev pub first_table : Memory
first_table = (job_of memory (run cfg memory 0 0 first_polls first_job)).table

first_start : start cfg memory 0 memory.created ≡ some first_job
unfolding start read_resume_state resume_of lookup
first_start = refl

pub log-BoundedDisorder : BoundedDisorder log cfg.lateness_window_ms
log-BoundedDisorder = BoundedDisorder-lists log 100 parts
  where
    parts : (p : ℕ) → IsBounded 100 (log p)
    parts zero = omega arith
    parts (suc zero) = omega arith
    parts (suc (suc p)) = tt

first-Delivered : Delivered log 2 (assigned initial) first_polls
unfolding assign lookup
first-Delivered = (
  omega arith,
  refl,
  (e1, refl, refl),
  (omega arith, refl, (e2, refl, refl), (omega arith, refl, (e3, refl, refl), tt)),
)

pub first-Life : Life cfg memory log memory.created first_table
first-Life =
    process memory.created first_table 0 0 0 first_job first_polls (born memory.created refl)
      first_start first-Delivered refl

exactly_once_example :
    (st : ResumeState) × (read_resume_state memory first_table ≡ some st)
    × Perm first_table.rows (map row_of (consumed log 2 (position st.offsets)))
exactly_once_example = exactly_once cfg memory log log-BoundedDisorder first-Life

-- The state that the first process committed: two events, and the third in hand when it was killed.
abbrev pub first_state : ResumeState
first_state = record {
  offsets = (0, 1) ∷ (1, 1) ∷ [];
  per_partition_max_ms = (0, 1000) ∷ (1, 1300) ∷ [];
  watermark_t_ms = 900;
  commit_seq = 1;
}

first_state_lem : read_resume_state memory first_table ≡ some first_state
unfolding read_resume_state resume_of lookup insert run on_poll on_idle idle_exit on_value on_event
    flush reached commit_batch advance_state snapshot_properties next_offsets part_max
    compute_watermark advance min_of summary_props loads dumps entries_onto entry_onto read_entry
    read_entries expect read_int int_of str_onto emit scan_digits from_wire to_wire read_amount
    read_cents amount_text cents_onto
first_state_lem = refl

abbrev second_polls : List Poll
second_polls = message 60 0 1 (to_wire e3) ∷ idle 70 ∷ idle 5000 ∷ []

abbrev second_job : Job memory
second_job = resumed cfg memory 50 first_table first_state

abbrev pub second_table : Memory
second_table = (job_of memory (run cfg memory 1000 0 second_polls second_job)).table

second_start : start cfg memory 50 first_table ≡ some second_job
unfolding start
second_start = rw first_state_lem

second-Delivered : Delivered log 2 (assigned first_state) second_polls
unfolding assign lookup
second-Delivered = (omega arith, refl, (e3, refl, refl), tt)

pub second-Life : Life cfg memory log first_table second_table
second-Life =
    process first_table second_table 50 1000 0 second_job second_polls (born first_table refl)
      second_start second-Delivered refl

both-Life : Life cfg memory log memory.created second_table
both-Life =
    process first_table second_table 50 1000 0 second_job second_polls first-Life second_start
      second-Delivered refl

second_watermark : read_watermark_t memory second_table ≡ some 1100
unfolding read_watermark_t read_resume_state resume_of lookup insert run on_poll on_idle idle_exit
    on_value on_event flush reached commit_batch advance_state snapshot_properties next_offsets
    part_max compute_watermark advance min_of summary_props loads dumps entries_onto entry_onto
    read_entry read_entries expect read_int int_of str_onto emit scan_digits from_wire to_wire
    read_amount read_cents amount_text cents_onto
second_watermark = refl

watermark_safe_example :
    (st : ResumeState) × (read_resume_state memory second_table ≡ some st)
    × (0 < position st.offsets 0)
watermark_safe_example =
    watermark_safe cfg memory log log-BoundedDisorder 1100 0 0 e1 both-Life second_watermark
      (omega arith) refl (omega arith)

watermark_monotone_example :
    (a b : ℕ) × (read_watermark_t memory first_table ≡ some a)
    × (read_watermark_t memory second_table ≡ some b)
    × (a ≤ b)
watermark_monotone_example =
    watermark_monotone cfg memory log log-BoundedDisorder first-Life second-Life

refines_one_by_one_example :
    (st st' : ResumeState) × (read_resume_state memory first_table ≡ some st)
    × (read_resume_state memory second_table ≡ some st')
    × Steps log 2 (view cfg memory log st first_table) (view cfg memory log st' second_table)
refines_one_by_one_example =
    refines_one_by_one cfg memory log log-BoundedDisorder first-Life second-Life

first_running :
    run cfg memory 1000 0 first_polls first_job
    ≡ running (job_of memory (run cfg memory 1000 0 first_polls first_job))
unfolding lookup insert run on_poll on_idle idle_exit on_value on_event flush reached commit_batch
    advance_state snapshot_properties next_offsets part_max compute_watermark advance min_of
    summary_props loads dumps entries_onto entry_onto read_entry read_entries expect read_int int_of
    str_onto emit scan_digits from_wire to_wire read_amount read_cents amount_text cents_onto
first_running = refl

idle_exit_drains_example :
    (k : Job memory) × (run cfg memory 1000 0 (first_polls ++ idle 5000 ∷ []) first_job ≡ stopped k)
    × (read_resume_state memory k.table ≡ some k.state)
    × (position k.state.offsets ≡ end_of (assigned first_job.state) first_polls)
    × Perm k.table.rows
        (map row_of (consumed log 2 (end_of (assigned first_job.state) first_polls)))
unfolding run on_poll on_idle idle_exit on_value on_event flush reached from_wire to_wire
    read_amount read_cents amount_text cents_onto scan_digits emit str_onto read_int expect
idle_exit_drains_example =
    idle_exit_drains cfg memory 1000 0 log 0 5000 first_job
      (job_of memory (run cfg memory 1000 0 first_polls first_job)) first_polls log-BoundedDisorder
      (born memory.created refl) first_start first-Delivered first_running (omega arith)
      (omega arith)
