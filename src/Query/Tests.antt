-- ===== src/Query/Tests.antt =====
-- The query at the watermark of the first process, while the second has written on.
use mathlib.Core.List.Perm
use streaming_lab.Prelude.{List, [], ◌∷◌}
use streaming_lab.Events.Schema.{OrderEvent}
use streaming_lab.Events.GroundTruth.{GroundTruth}
use streaming_lab.Landing.Tests.{e2, log}
use streaming_lab.Query.Sides.{all_events}

abbrev all : List OrderEvent
all = all_events log 2

-- one event of the topic a second time, as after a kill of ClickHouse
abbrev again : List OrderEvent
again = e2 ∷ []
