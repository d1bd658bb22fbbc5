-- ===== src/Landing/State/RoundTrip.antt =====
-- What a commit stamps into the summary is what a restart reads.
use streaming_lab.Prelude.{◌≡◌, some, [], nat_eq, string_eq, arith}
use streaming_lab.Text.{str_onto, dumps}
use streaming_lab.Text.RoundTrip.{int_of-str, loads-dumps}
use streaming_lab.Dict.{lookup}
use streaming_lab.Dict.Laws.{Distinct}
use streaming_lab.Lake.{Props, OrdersTable}
use streaming_lab.Landing.State.{
  ResumeState, k_offsets, k_part_max, k_watermark, k_seq, resume_of, read_resume_state,
  read_watermark_t,
}

pub record Stamps (st : ResumeState) (props : Props) : Type 0 where
  pub offsets : lookup k_offsets props ≡ some (dumps st.offsets)
  pub part_max : lookup k_part_max props ≡ some (dumps st.per_partition_max_ms)
  pub watermark : lookup k_watermark props ≡ some (str_onto st.watermark_t_ms [])
  pub seq : lookup k_seq props ≡ some (str_onto st.commit_seq [])

pub resume_of-Stamps :
    (st : ResumeState) (props : Props)
    → Distinct st.offsets
    → Distinct st.per_partition_max_ms
    → Stamps st props
    → resume_of props ≡ some st
unfolding resume_of
resume_of-Stamps st props du dm s = rw (
  s.offsets,
  s.part_max,
  s.watermark,
  s.seq,
  loads-dumps st.offsets du,
  loads-dumps st.per_partition_max_ms dm,
  int_of-str st.watermark_t_ms,
  int_of-str st.commit_seq,
)

-- The queries read the watermark that a restart reads.
pub read_watermark_t-resume :
    (lake : OrdersTable) (t : lake.Table) (st : ResumeState)
    → read_resume_state lake t ≡ some st
    → read_watermark_t lake t ≡ some st.watermark_t_ms
unfolding read_resume_state read_watermark_t resume_of
read_watermark_t-resume lake t st h = ground arith
