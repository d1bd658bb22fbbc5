-- ===== src/Landing/Drain.antt =====
-- A run that is left idle for long enough commits all that it was handed, and ends.
use mathlib.Core.Path.{subst}
use mathlib.Core.List.{Perm}
use streaming_lab.Prelude.{
  ℕ, ◌+◌, ◌≤◌, ◌<◌, ◌≡◌, refl, sym, ap, ◌∙◌, some, List, [], ◌∷◌, ◌++◌, map, arith, true, is_empty,
}
use streaming_lab.Config.{Config}
use streaming_lab.Lake.{OrdersTable}
use streaming_lab.Landing.State.{read_resume_state}
use streaming_lab.Landing.Commit.{IsLanded, landed_kept}
use streaming_lab.Landing.Polls.{
  IsRunning, EndsKept, on_poll-EndsKept, flush-IsRunning, start-IsRunning,
}
use streaming_lab.Landing.ExactlyOnce.{created-Life-IsLanded}
use streaming_lab.Landing.Job.{
  Record, row_of, Job, Poll, idle, Outcome, running, stopped, aborted, start, flush, idle_exit,
  on_idle, on_poll, proceed, run,
}
use streaming_lab.Landing.Offsets.{Topic, Position, position, consumed, Follows}
use streaming_lab.Landing.Safety.{BoundedDisorder}
use streaming_lab.Landing.Delivery.{Delivered, Delivered-cons, after_poll, end_of, assigned, Life}

Follows-empty :
    (log : Topic) (n : ℕ) (off end : Position) (batch : List Record)
    → is_empty batch ≡ true
    → Follows log n off batch end
    → off ≡ end
Follows-empty log n off end [] e h = sym h
Follows-empty log n off end (r ∷ batch) e h = cc

module _ (lake : OrdersTable) where
  running-eq : (j k : Job lake) → running j ≡ running k → j ≡ k
  running-eq j k e = cc

  proceed-append :
      (o target : Outcome lake) (j' : Job lake) (next next' : Job lake → Outcome lake)
      → ((k : Job lake) → next k ≡ running j' → next' k ≡ target)
      → proceed lake o next ≡ running j'
      → proceed lake o next' ≡ target
  proceed-append (running k) target j' next next' step e = step k e
  proceed-append (stopped k) target j' next next' step e = cc
  proceed-append (aborted x k) target j' next next' step e = cc

module _ (cfg : Config) (lake : OrdersTable) (idle_exit_ms max_batches : ℕ) where
  -- A run that is still going goes on with the next poll.
  run-append :
      (polls : List Poll) (poll : Poll) (j j' : Job lake)
      → run cfg lake idle_exit_ms max_batches polls j ≡ running j'
      → run cfg lake idle_exit_ms max_batches (polls ++ poll ∷ []) j
        ≡ run cfg lake idle_exit_ms max_batches (poll ∷ []) j'
  unfolding run
  run-append [] poll j j' h =
      ap (λ (k : Job lake). run cfg lake idle_exit_ms max_batches (poll ∷ []) k)
        (running-eq lake j j' h)
  run-append (first ∷ polls) poll j j' h =
      proceed-append lake (on_poll cfg lake idle_exit_ms max_batches first j) _ j' _ _
        (λ k. run-append polls poll k j') h

  module _ (log : Topic) (floor : ℕ) (disorder : BoundedDisorder log cfg.lateness_window_ms) where
    proceed-running :
        {G : Type 0} (o : Outcome lake) (at : Position) (next : Job lake → Outcome lake)
        (j' : Job lake)
        → EndsKept cfg lake log (landed_kept cfg lake log floor disorder) o at
        → proceed lake o next ≡ running j'
        → ((k : Job lake)
            → IsRunning cfg lake log (landed_kept cfg lake log floor disorder) k at
            → next k ≡ running j'
            → G)
        → G
    proceed-running (running k) at next j' h e g = g k h e
    proceed-running (stopped k) at next j' h e g = cc
    proceed-running (aborted x k) at next j' h e g = cc

    run-IsRunning :
        (at : Position) (polls : List Poll) (j j' : Job lake)
        → IsRunning cfg lake log (landed_kept cfg lake log floor disorder) j at
        → Delivered log cfg.num_partitions at polls
        → run cfg lake idle_exit_ms max_batches polls j ≡ running j'
        → IsRunning cfg lake log (landed_kept cfg lake log floor disorder) j' (end_of at polls)
    unfolding run
    run-IsRunning at [] j j' h d e =
        subst
          (λ (k : Job lake). IsRunning cfg lake log (landed_kept cfg lake log floor disorder) k at)
          (running-eq lake j j' e) h
    run-IsRunning at (poll ∷ polls) j j' h d e =
        let (now_delivered, later) = Delivered-cons log cfg.num_partitions at poll polls d in
        proceed-running (on_poll cfg lake idle_exit_ms max_batches poll j) (after_poll at poll) _ j'
          (on_poll-EndsKept cfg lake log (landed_kept cfg lake log floor disorder) idle_exit_ms
            max_batches at poll j h now_delivered)
          e (λ k h' e'. run-IsRunning (after_poll at poll) polls k j' h' later e')

    -- What a clean exit leaves: nothing in hand, and the progress at `at`.
    abbrev Drained : Job lake → Position → Type 0
    Drained j at =
        IsLanded cfg lake log floor j.state j.table
        × (is_empty j.batch ≡ true)
        × (position j.state.offsets ≡ at)

    abbrev StopsDrained : Outcome lake → Position → Type 0
    StopsDrained (running j) at = ⊥
    StopsDrained (stopped j) at = Drained j at
    StopsDrained (aborted x j) at = ⊥

    empty-Drained :
        (j : Job lake) (at : Position)
        → IsRunning cfg lake log (landed_kept cfg lake log floor disorder) j at
        → is_empty j.batch ≡ true
        → Drained j at
    empty-Drained j at h e =
        (h.0, e, Follows-empty log cfg.num_partitions (position j.state.offsets) at j.batch e h.1)

    flush-Drained :
        (j : Job lake) (at : Position)
        → IsRunning cfg lake log (landed_kept cfg lake log floor disorder) j at
        → Drained (flush cfg lake j) at
    flush-Drained j at h =
        empty-Drained (flush cfg lake j) at
          (flush-IsRunning cfg lake log (landed_kept cfg lake log floor disorder) j at h)
          (unfold flush in refl)

    idle_exit-StopsDrained :
        (now : ℕ) (j : Job lake) (at : Position)
        → IsRunning cfg lake log (landed_kept cfg lake log floor disorder) j at
        → 0 < idle_exit_ms
        → j.last_msg + idle_exit_ms ≤ now
        → StopsDrained (idle_exit cfg lake idle_exit_ms max_batches now j) at
    unfolding idle_exit
    idle_exit-StopsDrained now j at h on due =
        ground (arith, flush-Drained j at h, empty-Drained j at h)

    on_idle-StopsDrained :
        (now : ℕ) (j : Job lake) (at : Position)
        → IsRunning cfg lake log (landed_kept cfg lake log floor disorder) j at
        → 0 < idle_exit_ms
        → j.last_msg + idle_exit_ms ≤ now
        → StopsDrained (on_idle cfg lake idle_exit_ms max_batches now j) at
    unfolding on_idle
    on_idle-StopsDrained now j at h on due =
        let j' = record (flush cfg lake j) { last_flush = now } in
        ground (
          arith,
          flush-Drained j at h,
          idle_exit-StopsDrained now j at h on due,
          idle_exit-StopsDrained now j' at
              (flush-IsRunning cfg lake log (landed_kept cfg lake log floor disorder) j at h) on
              (unfold flush in due),
        )

    StopsDrained-stopped :
        (o : Outcome lake) (at : Position)
        → StopsDrained o at
        → (k : Job lake) × (proceed lake o running ≡ stopped k) × Drained k at
    StopsDrained-stopped (running j) at h = absurd h
    StopsDrained-stopped (stopped j) at h = (j, refl, h)
    StopsDrained-stopped (aborted x j) at h = absurd h

  -- A process that finds nothing new for the exit time commits what it has in hand and ends: then
  -- the table holds every event that it was handed, exactly once, beside those of the runs before.
  pub idle_exit_drains :
      (log : Topic) {t : lake.Table} (start_time now : ℕ) (j j' : Job lake) (polls : List Poll)
      → BoundedDisorder log cfg.lateness_window_ms
      → Life cfg lake log lake.created t
      → start cfg lake start_time t ≡ some j
      → Delivered log cfg.num_partitions (assigned j.state) polls
      → run cfg lake idle_exit_ms max_batches polls j ≡ running j'
      → 0 < idle_exit_ms
      → j'.last_msg + idle_exit_ms ≤ now
      → (k : Job lake) × (run cfg lake idle_exit_ms max_batches (polls ++ idle now ∷ []) j
          ≡ stopped k)
        × (read_resume_state lake k.table ≡ some k.state)
        × (position k.state.offsets ≡ end_of (assigned j.state) polls)
        × Perm
            (lake.rows k.table)
            (map row_of (consumed log cfg.num_partitions (end_of (assigned j.state) polls)))
  unfolding run on_poll
  idle_exit_drains log {t} start_time now j j' polls disorder life started d going on due =
      let (st, landed) = created-Life-IsLanded cfg lake log disorder life in
      let begun =
        start-IsRunning cfg lake log (landed_kept cfg lake log 0 disorder) start_time t j st started
          landed in
      let at = end_of (assigned j.state) polls in
      let h = run-IsRunning log 0 disorder (assigned j.state) polls j j' begun d going in
      let (k, ends, drained) =
        StopsDrained-stopped log 0 disorder (on_idle cfg lake idle_exit_ms max_batches now j') at
          (on_idle-StopsDrained log 0 disorder now j' at h on due) in
      (
        k,
        run-append polls (idle now) j j' going ∙ ends,
        drained.0.resumes,
        drained.2,
        rw (← drained.2) drained.0.rows,
      )
