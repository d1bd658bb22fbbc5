-- ===== src/Landing/Commit.antt =====
-- A commit: the table it leaves is again one that its own snapshot describes.
use native.Mathlib.Nat.{le_trans}
use streaming_lab.Watermark.Bounds.{compute_watermark-ge}
use mathlib.Core.Path.{subst}
use mathlib.Core.List.{Perm, map-append}
use mathlib.Core.List.Perm
use streaming_lab.Prelude.{ℕ, ◌≤◌, ◌≡◌, refl, sym, some, List, map, nat_eq, string_eq}
use streaming_lab.Dict.{lookup}
use streaming_lab.Dict.Laws.{Distinct}
use streaming_lab.Config.{Config}
use streaming_lab.Watermark.Partitions.{KeysBelow}
use streaming_lab.Lake.{OrdersTable}
use streaming_lab.Landing.State.{ResumeState, read_resume_state}
use streaming_lab.Landing.State.RoundTrip.{resume_of-Stamps}
use streaming_lab.Landing.Job.{
  Record, row_of, arrow_batch, advance_state, snapshot_properties, commit_batch, part_max,
}
use streaming_lab.Landing.Offsets.{
  Topic, Position, position, consumed, Follows, consumed-Follows, position-next_offsets,
  next_offsets-Distinct, part_max-Distinct, part_max-KeysBelow, IsMaximum,
}
use streaming_lab.Landing.Kept.{Kept}
use streaming_lab.Landing.Safety.{
  BoundedDisorder, IsSafe, part_max-IsMaximum, compute_watermark-IsSafe,
}

module _ (cfg : Config) (lake : OrdersTable) (log : Topic) (floor : ℕ) where
  -- What the table holds is what the progress in its snapshot says.
  pub record IsLanded (st : ResumeState) (t : lake.Table) : Type 0 where
    pub above : floor ≤ st.watermark_t_ms
    pub resumes : read_resume_state lake t ≡ some st
    pub rows :
        Perm (lake.rows t) (map row_of (consumed log cfg.num_partitions (position st.offsets)))
    pub offsets_distinct : Distinct st.offsets
    pub maxima_distinct : Distinct st.per_partition_max_ms
    pub maxima_below : KeysBelow cfg.num_partitions st.per_partition_max_ms
    pub maxima : IsMaximum log st.per_partition_max_ms (position st.offsets)
    pub safe : IsSafe log cfg.num_partitions (position st.offsets) st.watermark_t_ms

  commit_batch-resumes :
      (batch : List Record) (st : ResumeState) (t : lake.Table)
      → Distinct st.offsets
      → Distinct st.per_partition_max_ms
      → let (st', t') = commit_batch cfg lake batch st t in read_resume_state lake t' ≡ some st'
  unfolding commit_batch advance_state read_resume_state
  commit_batch-resumes batch st t u m =
      let st' = advance_state cfg batch st in
      let (summary, current, carries) =
        lake.current_snapshot-append (arrow_batch (map (λ r. r.event) batch))
          (snapshot_properties cfg batch st') t in
      rw current (
        resume_of-Stamps st' summary (next_offsets-Distinct st.offsets batch u)
          (part_max-Distinct st.per_partition_max_ms batch m)
          (unfold snapshot_properties lookup in
            record {
              offsets = carries _ _ refl;
              part_max = carries _ _ refl;
              watermark = carries _ _ refl;
              seq = carries _ _ refl;
            }))

  commit_batch-rows :
      (batch : List Record) (st : ResumeState) (t : lake.Table) (end : Position)
      → Follows log cfg.num_partitions (position st.offsets) batch end
      → Perm (lake.rows t) (map row_of (consumed log cfg.num_partitions (position st.offsets)))
      → Perm
          (lake.rows (commit_batch cfg lake batch st t).1)
          (map row_of (consumed log cfg.num_partitions end))
  unfolding commit_batch arrow_batch
  commit_batch-rows batch st t end f h = rw lake.rows-append (
      Perm.trans (Perm.append_right _ h) (
        rw (← map-append) (
          Perm.map row_of
            (consumed-Follows log cfg.num_partitions (position st.offsets) end batch f))))

  module _ (disorder : BoundedDisorder log cfg.lateness_window_ms) where
    pub commit_batch-IsLanded :
        (batch : List Record) (st : ResumeState) (t : lake.Table) (end : Position)
        → Follows log cfg.num_partitions (position st.offsets) batch end
        → IsLanded st t
        → let (st', t') = commit_batch cfg lake batch st t in
          IsLanded st' t' × (position st'.offsets ≡ end)
    unfolding commit_batch advance_state
    commit_batch-IsLanded batch st t end f h =
        let moved = position-next_offsets log cfg.num_partitions st.offsets end batch f in
        let below =
          part_max-KeysBelow log cfg.num_partitions st.per_partition_max_ms (position st.offsets)
            end batch f h.maxima_below in
        let distinct = part_max-Distinct st.per_partition_max_ms batch h.maxima_distinct in
        let maxima =
          part_max-IsMaximum log cfg.num_partitions st.per_partition_max_ms (position st.offsets)
            end batch f h.maxima in
        (
          record {
            above = le_trans h.above (
                compute_watermark-ge (part_max st.per_partition_max_ms batch) cfg.lateness_window_ms
                  st.watermark_t_ms (some cfg.num_partitions));
            resumes = commit_batch-resumes batch st t h.offsets_distinct h.maxima_distinct;
            rows = rw moved (commit_batch-rows batch st t end f h.rows);
            offsets_distinct = next_offsets-Distinct st.offsets batch h.offsets_distinct;
            maxima_distinct = distinct;
            maxima_below = below;
            maxima =
                subst (λ (q : Position). IsMaximum log (part_max st.per_partition_max_ms batch) q)
                  (sym moved) maxima;
            safe =
                subst
                  (λ (q : Position).
                    IsSafe log cfg.num_partitions q
                      (commit_batch cfg lake batch st t).0.watermark_t_ms)
                  (sym moved)
                  (compute_watermark-IsSafe log cfg.num_partitions cfg.lateness_window_ms
                    st.watermark_t_ms (position st.offsets) end batch
                    (part_max st.per_partition_max_ms batch) disorder f distinct below maxima
                    h.safe);
          },
          moved,
        )

    -- being landed is what commits keep
    abbrev pub landed_kept : Kept cfg lake log
    landed_kept = record {
      Holds = IsLanded;
      resumes = λ st t h. h.resumes;
      commits = commit_batch-IsLanded;
    }
