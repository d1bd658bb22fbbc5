-- ===== src/Landing/Refines.antt =====
-- The landing job against a machine without processes, batches and snapshots: it takes one event of a
-- partition at a time and forgets the order of the rows.
use mathlib.Core.Path.{subst}
use mathlib.Core.List.{Perm, append_assoc, append-nil}
use mathlib.Core.List.Perm
use mathlib.Core.Quot
use mathlib.Core.Quot.{Quot, Quot-set}
use streaming_lab.Prelude.{
  ℕ, ◌+◌, ◌<◌, ◌≡◌, refl, some, List, [], ◌∷◌, ◌++◌, map, get_elem?, nat_eq,
}
use streaming_lab.Config.{Config}
use streaming_lab.Events.Schema.{OrderEvent}
use streaming_lab.Lake.{Row, OrdersTable}
use streaming_lab.Landing.State.{ResumeState, read_resume_state}
use streaming_lab.Landing.Job.{Record, row_of, arrow_batch, commit_batch}
use streaming_lab.Landing.Offsets.{Topic, Position, position, update, Follows}
use streaming_lab.Landing.Safety.{BoundedDisorder}
use streaming_lab.Landing.Kept.{Kept}
use streaming_lab.Landing.Commit.{IsLanded, commit_batch-IsLanded}
use streaming_lab.Landing.Polls.{Life-Kept}
use streaming_lab.Landing.Delivery.{Life}
use streaming_lab.Landing.ExactlyOnce.{created-Life-IsLanded}

-- Rows in no order, each as often as it is there.
abbrev pub Bag : Type 0
Bag = Quot (Perm {A = Row})

unfoldable pub add_row : Row → Bag → Bag
add_row r =
    Quot.lift Quot-set (λ rs. Quot.mk (rs ++ r ∷ []))
      (λ rs ss h. Quot.sound (Perm.append_right (r ∷ []) h))

pub record Sink : Type 0 where
  pub taken : Position
  pub held : Bag

module _ (log : Topic) (n : ℕ) where
  -- The next event of a partition is taken, and its row is held.
  pub data Step : Sink → Sink → Type 0 where
    take_next :
        (s : Sink) (p : ℕ) (e : OrderEvent)
        → p < n
        → get_elem? (log p) (s.taken p) ≡ some e
        → Step s
            (record { taken = update s.taken p (s.taken p + 1); held = add_row (row_of e) s.held })

  pub data Steps (s : Sink) : Sink → Type 0 where
    stay : (u : Sink) → u ≡ s → Steps s u
    and_then : (v u : Sink) → Steps s v → Step v u → Steps s u

  pub Steps-trans : {s v u : Sink} → Steps s v → Steps v u → Steps s u
  Steps-trans a (stay u e) = rw e a
  Steps-trans a (and_then w u b step) = and_then w u (Steps-trans a b) step

  Follows-Steps :
      (off end : Position) (batch : List Record) (rs : List Row)
      → Follows log n off batch end
      → Steps
          (record { taken = off; held = Quot.mk rs })
          (record { taken = end; held = Quot.mk (rs ++ map row_of (map (λ r. r.event) batch)) })
  unfolding add_row
  Follows-Steps off end [] rs h = rw (h, append-nil) (stay _ refl)
  Follows-Steps off end (r ∷ batch) rs (lt, here, found, h) =
      let taken : Sink = record {
        taken = update off r.partition (off r.partition + 1);
        held = Quot.mk (rs ++ row_of r.event ∷ []);
      } in
      let first : Step (record { taken = off; held = Quot.mk rs }) taken =
        take_next _ r.partition r.event lt (rw (← here) found) in
      let rest =
        Follows-Steps (update off r.partition (off r.partition + 1)) end batch
          (rs ++ row_of r.event ∷ [])
          (subst (λ (o : ℕ). Follows log n (update off r.partition (o + 1)) batch end) here h) in
      Steps-trans (and_then _ taken (stay _ refl) first) (
        subst (λ (ss : List Row). Steps taken (record { taken = end; held = Quot.mk ss }))
          (append_assoc rs (row_of r.event ∷ []) (map row_of (map (λ r. r.event) batch))) rest)

module _ (cfg : Config) (lake : OrdersTable) (log : Topic) where
  -- what the machine sees of a table and its progress
  abbrev pub view : ResumeState → lake.Table → Sink
  view st t = record { taken = position st.offsets; held = Quot.mk (lake.rows t) }

  module _ (disorder : BoundedDisorder log cfg.lateness_window_ms) where
    commit_batch-Steps :
        (batch : List Record) (st : ResumeState) (t : lake.Table) (end : Position)
        → Follows log cfg.num_partitions (position st.offsets) batch end
        → let (st', t') = commit_batch cfg lake batch st t in
          position st'.offsets ≡ end → Steps log cfg.num_partitions (view st t) (view st' t')
    unfolding commit_batch arrow_batch
    commit_batch-Steps batch st t end f moved =
        rw (moved, lake.rows-append)
          (Follows-Steps log cfg.num_partitions (position st.offsets) end batch (lake.rows t) f)

    -- being landed, and reached by steps of the machine from an earlier table
    abbrev reached_kept : ResumeState → lake.Table → Kept cfg lake log
    reached_kept st0 t0 = record {
      Holds = λ st t.
          IsLanded cfg lake log 0 st t × Steps log cfg.num_partitions (view st0 t0) (view st t);
      resumes = λ st t h. h.0.resumes;
      commits = λ batch st t end f h.
          let (landed, moved) =
            commit_batch-IsLanded cfg lake log 0 disorder batch st t end f h.0 in
          (
            (
              landed,
              Steps-trans log cfg.num_partitions h.1 (commit_batch-Steps batch st t end f moved),
            ),
            moved,
          );
    }

    -- Bounded disorder of the topic given, whatever a landing job that is run, killed and restarted
    -- does to the table is what the machine does: from any table that runs and kills have led to, to
    -- any that later ones lead to, the offsets of the snapshots and the rows, in no order, go by steps
    -- that each take the next event of one partition and add its row.
    pub refines_one_by_one :
        {t u : lake.Table}
        → Life cfg lake log lake.created t
        → Life cfg lake log t u
        → (st st' : ResumeState) × (read_resume_state lake t ≡ some st)
          × (read_resume_state lake u ≡ some st')
          × Steps log cfg.num_partitions (view st t) (view st' u)
    refines_one_by_one {t} {u} life later =
        let (st, landed) = created-Life-IsLanded cfg lake log disorder life in
        let (st', h) = Life-Kept cfg lake log (reached_kept st t) st (landed, stay _ refl) later in
        (st, st', landed.resumes, h.0.resumes, h.1)
