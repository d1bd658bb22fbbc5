-- ===== src/Landing/Delivery.antt =====
-- What the job relies on: the broker hands each partition's events over in offset order, from the
-- position that was assigned. The topic is the one that there is in the end: a broker that hands
-- over a prefix of it may have got the rest later.
use mathlib.Core.Path.{fun_ext}
use streaming_lab.Prelude.{ℕ, ◌+◌, ◌<◌, ◌≡◌, some, List, [], ◌∷◌, get_elem?, arith, nat_eq}
use streaming_lab.Config.{Config}
use streaming_lab.Events.Schema.{OrderEvent, to_wire}
use streaming_lab.Lake.{OrdersTable}
use streaming_lab.Landing.State.{ResumeState}
use streaming_lab.Landing.Job.{
  Start, offset_beginning, next_offset, assign, Job, Poll, idle, failed, message, start, run,
  job_of,
}
use streaming_lab.Landing.Offsets.{Topic, Position, position, update}

-- Offsets begin at 0.
abbrev pub offset_of : Start → ℕ
offset_of offset_beginning = 0
offset_of (next_offset o) = o

-- the consumer's position after `_assign_from_state`
abbrev pub assigned : ResumeState → Position
assigned st p = offset_of (assign st p)

-- A partition without an entry begins at its first event, and so does one whose position is 0.
pub assigned-position : (st : ResumeState) → assigned st ≡ position st.offsets
unfolding assign
assigned-position st = fun_ext λ p. ground arith

module _ (log : Topic) (n : ℕ) where
  abbrev pub Delivered : Position → List Poll → Type 0
  Delivered at [] = Unit
  Delivered at (idle now ∷ polls) = Delivered at polls
  Delivered at (failed now ∷ polls) = Delivered at polls
  Delivered at (message now p o value ∷ polls) =
      (p < n)
      × (o ≡ at p)
      × ((e : OrderEvent) × (get_elem? (log p) o ≡ some e) × (value ≡ to_wire e))
      × Delivered (update at p (o + 1)) polls

-- the consumer's position after a poll
abbrev pub after_poll : Position → Poll → Position
after_poll at (idle now) = at
after_poll at (failed now) = at
after_poll at (message now p o value) = update at p (o + 1)

abbrev pub end_of : Position → List Poll → Position
end_of at [] = at
end_of at (poll ∷ polls) = end_of (after_poll at poll) polls

pub Delivered-cons :
    (log : Topic) (n : ℕ) (at : Position) (poll : Poll) (polls : List Poll)
    → Delivered log n at (poll ∷ polls)
    → Delivered log n at (poll ∷ []) × Delivered log n (after_poll at poll) polls
Delivered-cons log n at (idle now) polls d = (tt, d)
Delivered-cons log n at (failed now) polls d = (tt, d)
Delivered-cons log n at (message now p o value) polls d = ((d.0, d.1, d.2, tt), d.3)

-- The tables that a sequence of processes leaves, from the table `t0`, each started from the table that the one before
-- left and ended by itself or by a kill. A kill between two polls leaves the table of the polls so
-- far; one within a commit leaves the table before the append or the table after it, which are those
-- of the polls without and with the last.
module _ (cfg : Config) (lake : OrdersTable) (log : Topic) where
  pub data Life (t0 : lake.Table) : lake.Table → Type 0 where
    born : (t : lake.Table) → t ≡ t0 → Life t0 t
    process :
        (t u : lake.Table) (now idle_exit_ms max_batches : ℕ) (j : Job lake) (polls : List Poll)
        → Life t0 t
        → start cfg lake now t ≡ some j
        → Delivered log cfg.num_partitions (assigned j.state) polls
        → u ≡ (job_of lake (run cfg lake idle_exit_ms max_batches polls j)).table
        → Life t0 u
