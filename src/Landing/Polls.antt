-- ===== src/Landing/Polls.antt =====
-- Every poll, and every run, leaves the job and its table in step.
use mathlib.Core.Path.{subst}
use streaming_lab.Landing.Kept.{Kept}
use streaming_lab.Prelude.{
  some-eq, ℕ, ◌+◌, ◌<◌, ◌≡◌, refl, sym, ap, ◌∙◌, some, List, [], ◌∷◌, ◌++◌, get_elem?, arith,
  nat_eq, string_eq,
}
use streaming_lab.Config.{Config}
use streaming_lab.Results.{Result, ok, raise}
use streaming_lab.Events.Schema.{OrderEvent, from_wire}
use streaming_lab.Events.Schema.RoundTrip.{from_wire-to_wire_eq}
use streaming_lab.Lake.{OrdersTable}
use streaming_lab.Landing.Job.{
  start, resumed, Record, Job, Poll, idle, failed, message, Outcome, running, stopped, aborted,
  job_of, flush, idle_exit, on_idle, on_event, on_value, on_poll, proceed, run,
}
use streaming_lab.Landing.State.{ResumeState, read_resume_state}
use streaming_lab.Landing.Offsets.{Topic, Position, position, update, Follows, Follows-append}
use streaming_lab.Landing.Delivery.{
  Delivered, after_poll, Delivered-cons, assigned, assigned-position, Life, born, process,
}

module _ (cfg : Config) (lake : OrdersTable) (log : Topic) (kept : Kept cfg lake log) where
  -- The job between two polls: what it has not committed follows what it has.
  abbrev pub IsRunning : Job lake → Position → Type 0
  IsRunning j at =
      kept.Holds j.state j.table
      × Follows log cfg.num_partitions (position j.state.offsets) j.batch at

  abbrev pub EndsKept : Outcome lake → Position → Type 0
  EndsKept (running j) at = IsRunning j at
  EndsKept (stopped j) at = kept.Holds j.state j.table
  EndsKept (aborted x j) at = kept.Holds j.state j.table

  pub flush-IsRunning :
      (j : Job lake) (at : Position) → IsRunning j at → IsRunning (flush cfg lake j) at
  unfolding flush
  flush-IsRunning j at h =
      let (held, moved) = kept.commits j.batch j.state j.table at h.1 h.0 in (held, sym moved)

  module _ (idle_exit_ms max_batches : ℕ) where
    idle_exit-EndsKept :
        (now : ℕ) (j : Job lake) (at : Position)
        → IsRunning j at
        → EndsKept (idle_exit cfg lake idle_exit_ms max_batches now j) at
    unfolding idle_exit
    idle_exit-EndsKept now j at h = ground (arith, flush-IsRunning j at h)

    on_idle-EndsKept :
        (now : ℕ) (j : Job lake) (at : Position)
        → IsRunning j at
        → EndsKept (on_idle cfg lake idle_exit_ms max_batches now j) at
    unfolding on_idle
    on_idle-EndsKept now j at h = ground (
      arith,
      flush-IsRunning j at h,
      idle_exit-EndsKept now j at h,
      idle_exit-EndsKept now (record (flush cfg lake j) { last_flush = now }) at
          (flush-IsRunning j at h),
    )

    on_event-EndsKept :
        (now : ℕ) (r : Record) (j : Job lake) (at : Position)
        → IsRunning j at
        → r.partition < cfg.num_partitions
        → r.offset ≡ at r.partition
        → get_elem? (log r.partition) r.offset ≡ some r.event
        → EndsKept
            (on_event cfg lake idle_exit_ms max_batches now r j)
            (update at r.partition (r.offset + 1))
    unfolding on_event
    on_event-EndsKept now r j at h lt o e =
        let j' : Job lake = record j { batch = j.batch ++ r ∷ []; last_msg = now } in
        let at' = update at r.partition (r.offset + 1) in
        let next : IsRunning j' at' = (
          h.0,
          Follows-append log cfg.num_partitions (position j.state.offsets) at j.batch r h.1 lt o e,
        ) in
        ground (arith, next, flush-IsRunning j' at' next)

    on_value-EndsKept :
        (now p o : ℕ) (e : OrderEvent) (value : Result OrderEvent) (j : Job lake) (at : Position)
        → IsRunning j at
        → p < cfg.num_partitions
        → o ≡ at p
        → get_elem? (log p) o ≡ some e
        → ((e' : OrderEvent) → value ≡ ok e' → e' ≡ e)
        → EndsKept
            (on_value cfg lake idle_exit_ms max_batches now p o value j)
            (update at p (o + 1))
    unfolding on_value
    on_value-EndsKept now p o e (raise x) j at h lt here found same = h.0
    on_value-EndsKept now p o e (ok e') j at h lt here found same =
        on_event-EndsKept now (record { partition = p; offset = o; event = e' }) j at h lt here
          (found ∙ ap some (sym (same e' refl)))

    proceed-Kept :
        (at : Position) (o : Outcome lake) (next : Job lake → Outcome lake)
        → EndsKept o at
        → ((j : Job lake)
            → IsRunning j at
            → let j' = job_of lake (next j) in kept.Holds j'.state j'.table)
        → let j' = job_of lake (proceed lake o next) in kept.Holds j'.state j'.table
    proceed-Kept at (running j) next h k = k j h
    proceed-Kept at (stopped j) next h k = h
    proceed-Kept at (aborted x j) next h k = h

    -- One poll, of what the broker delivers.
    pub on_poll-EndsKept :
        (at : Position) (poll : Poll) (j : Job lake)
        → IsRunning j at
        → Delivered log cfg.num_partitions at (poll ∷ [])
        → EndsKept (on_poll cfg lake idle_exit_ms max_batches poll j) (after_poll at poll)
    unfolding on_poll
    on_poll-EndsKept at (idle now) j h d = on_idle-EndsKept now j at h
    on_poll-EndsKept at (failed now) j h d = h
    on_poll-EndsKept at (message now p o value) j h d =
        let (e, found, sent) = d.2 in
        on_value-EndsKept now p o e (from_wire value) j at h d.0 d.1 found
          (λ e' read. from_wire-to_wire_eq e (ap from_wire (sym sent) ∙ read))

    pub run-Kept :
        (at : Position) (polls : List Poll) (j : Job lake)
        → IsRunning j at
        → Delivered log cfg.num_partitions at polls
        → let j' = job_of lake (run cfg lake idle_exit_ms max_batches polls j) in
          kept.Holds j'.state j'.table
    unfolding run
    run-Kept at [] j h d = h.0
    run-Kept at (poll ∷ polls) j h d =
        let (now_delivered, later) = Delivered-cons log cfg.num_partitions at poll polls d in
        proceed-Kept (after_poll at poll) _ _ (on_poll-EndsKept at poll j h now_delivered)
          (λ j' h'. run-Kept (after_poll at poll) polls j' h' later)

  start-resumed :
      (now : ℕ) (t : lake.Table) (st : ResumeState)
      → read_resume_state lake t ≡ some st
      → start cfg lake now t ≡ some (resumed cfg lake now t st)
  unfolding start
  start-resumed now t st h = rw h

  pub start-IsRunning :
      (now : ℕ) (t : lake.Table) (j : Job lake) (st : ResumeState)
      → start cfg lake now t ≡ some j
      → kept.Holds st t
      → IsRunning j (assigned j.state)
  start-IsRunning now t j st started h =
      let same : resumed cfg lake now t st ≡ j =
        some-eq _ _ (sym (start-resumed now t st (kept.resumes st t h)) ∙ started) in
      subst (λ (k : Job lake). IsRunning k (assigned k.state)) same (h, assigned-position st)

  -- what commits keep, a sequence of processes keeps
  pub Life-Kept :
      {t u : lake.Table} (st : ResumeState)
      → kept.Holds st t
      → Life cfg lake log t u
      → (st' : ResumeState) × kept.Holds st' u
  Life-Kept st h (born u e) = (st, rw e h)
  Life-Kept st h (process t u now idle_exit_ms max_batches j polls life started d e) =
      let (st', h') = Life-Kept st h life in
      (
        (job_of lake (run cfg lake idle_exit_ms max_batches polls j)).state,
        rw e (
            run-Kept idle_exit_ms max_batches (assigned j.state) polls j
              (start-IsRunning now t j st' started h') d),
      )
