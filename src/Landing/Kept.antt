-- ===== src/Landing/Kept.antt =====
-- What every commit of the landing job keeps, as an interface: a property of the progress and the
-- table that a commit of what follows the progress establishes again.
use streaming_lab.Prelude.{◌≡◌, some, List, nat_eq}
use streaming_lab.Config.{Config}
use streaming_lab.Lake.{OrdersTable}
use streaming_lab.Landing.State.{ResumeState, read_resume_state}
use streaming_lab.Landing.Job.{Record, commit_batch}
use streaming_lab.Landing.Offsets.{Topic, Position, position, Follows}

pub record Kept (cfg : Config) (lake : OrdersTable) (log : Topic) : Type 1 where
  pub Holds : ResumeState → lake.Table → Type 0
  pub resumes :
      (st : ResumeState) (t : lake.Table) → Holds st t → read_resume_state lake t ≡ some st
  pub commits :
      (batch : List Record) (st : ResumeState) (t : lake.Table) (end : Position)
      → Follows log cfg.num_partitions (position st.offsets) batch end
      → Holds st t
      → let (st', t') = commit_batch cfg lake batch st t in
        Holds st' t' × (position st'.offsets ≡ end)
