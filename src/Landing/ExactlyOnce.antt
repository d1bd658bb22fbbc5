-- ===== src/Landing/ExactlyOnce.antt =====
-- The table after any sequence of processes, kills included.
use streaming_lab.Landing.Commit.{IsLanded, landed_kept}
use streaming_lab.Landing.Polls.{Life-Kept}
use mathlib.Core.List.{Perm}
use mathlib.Core.List.Perm
use streaming_lab.Prelude.{
  some-eq, ℕ, ◌≤◌, ◌<◌, ◌≡◌, sym, ◌∙◌, some, [], map, get_elem?, arith, nat_eq, string_eq,
}
use streaming_lab.Dict.{lookup}
use streaming_lab.Config.{Config}
use streaming_lab.Events.Schema.{OrderEvent}
use streaming_lab.Lake.{OrdersTable}
use streaming_lab.Landing.State.{
  read_watermark_t, ResumeState, read_resume_state, resume_of, initial,
}
use streaming_lab.Landing.State.RoundTrip.{read_watermark_t-resume}
use streaming_lab.Landing.Job.{row_of}
use streaming_lab.Landing.Offsets.{Topic, position, consumed, consumed_none}
use streaming_lab.Landing.Safety.{BoundedDisorder}
use streaming_lab.Landing.Delivery.{Life}

lt_of_not_le : (a b : ℕ) → ¬ (a ≤ b) → b < a
lt_of_not_le a b h = omega arith

le_lt_absurd : {a b : ℕ} → a ≤ b → b < a → ⊥
le_lt_absurd h k = omega arith

module _ (cfg : Config) (lake : OrdersTable) (log : Topic) where
  created-IsLanded : IsLanded cfg lake log 0 initial lake.created
  unfolding read_resume_state resume_of lookup
  created-IsLanded = record {
    above = omega arith;
    resumes = rw lake.current_snapshot-created;
    rows = rw (lake.rows-created, consumed_none log cfg.num_partitions) (Perm.refl []);
    offsets_distinct = tt;
    maxima_distinct = tt;
    maxima_below = tt;
    maxima = λ p v e. cc;
    safe = λ p j e lt le found. omega arith;
  }

  -- what is landed is landed above its own watermark
  pub refloor :
      (st : ResumeState) (t : lake.Table)
      → IsLanded cfg lake log 0 st t
      → IsLanded cfg lake log st.watermark_t_ms st t
  refloor st t h = record {
    above = omega arith;
    resumes = h.resumes;
    rows = h.rows;
    offsets_distinct = h.offsets_distinct;
    maxima_distinct = h.maxima_distinct;
    maxima_below = h.maxima_below;
    maxima = h.maxima;
    safe = h.safe;
  }

  module _ (floor : ℕ) (disorder : BoundedDisorder log cfg.lateness_window_ms) where
    -- After any sequence of processes the table is again one that its own snapshot describes.
    pub Life-IsLanded :
        {t u : lake.Table} (st : ResumeState)
        → IsLanded cfg lake log floor st t
        → Life cfg lake log t u
        → (st' : ResumeState) × IsLanded cfg lake log floor st' u
    Life-IsLanded st h life =
        Life-Kept cfg lake log (landed_kept cfg lake log floor disorder) st h life

  module _ (disorder : BoundedDisorder log cfg.lateness_window_ms) where
    pub created-Life-IsLanded :
        {t : lake.Table}
        → Life cfg lake log lake.created t
        → (st : ResumeState) × IsLanded cfg lake log 0 st t
    created-Life-IsLanded life = Life-IsLanded 0 disorder initial created-IsLanded life

    -- After any sequence of runs and kills, the table holds the events before the offsets of its
    -- latest snapshot, each exactly once, and nothing else: a restart resumes from those offsets.
    pub exactly_once :
        {t : lake.Table}
        → Life cfg lake log lake.created t
        → (st : ResumeState) × (read_resume_state lake t ≡ some st)
          × Perm (lake.rows t) (map row_of (consumed log cfg.num_partitions (position st.offsets)))
    exactly_once life =
        let (st, landed) = created-Life-IsLanded life in (st, landed.resumes, landed.rows)

    -- Whatever the runs and kills so far, an event that is older than the published watermark stands
    -- before the offsets that the latest snapshot resumes from, so it is in the table.
    pub watermark_safe :
        {t : lake.Table} (t_ms p i : ℕ) (e : OrderEvent)
        → Life cfg lake log lake.created t
        → read_watermark_t lake t ≡ some t_ms
        → p < cfg.num_partitions
        → get_elem? (log p) i ≡ some e
        → e.event_time_ms < t_ms
        → (st : ResumeState) × (read_resume_state lake t ≡ some st) × (i < position st.offsets p)
    watermark_safe {t} t_ms p i e life published lt found old =
        let (st, landed) = created-Life-IsLanded life in
        let same : st.watermark_t_ms ≡ t_ms =
          some-eq _ _ (sym (read_watermark_t-resume lake t st landed.resumes) ∙ published) in
        (
          st,
          landed.resumes,
          lt_of_not_le (position st.offsets p) i
              (λ le. le_lt_absurd (rw (← same) (landed.safe p i e lt le found)) old),
        )

    -- The published watermark never goes back, over commits, restarts and kills.
    pub watermark_monotone :
        {t u : lake.Table}
        → Life cfg lake log lake.created t
        → Life cfg lake log t u
        → (a b : ℕ) × (read_watermark_t lake t ≡ some a)
          × (read_watermark_t lake u ≡ some b)
          × (a ≤ b)
    watermark_monotone {t} {u} life later =
        let (st, landed) = created-Life-IsLanded life in
        let (st', landed') =
          Life-IsLanded st.watermark_t_ms disorder st (refloor st t landed) later in
        (
          st.watermark_t_ms,
          st'.watermark_t_ms,
          read_watermark_t-resume lake t st landed.resumes,
          read_watermark_t-resume lake u st' landed'.resumes,
          landed'.above,
        )
