-- ===== src/Text/Tests.antt =====
-- Offsets of two partitions, and a refund.
use streaming_lab.Prelude.{ℕ, ◌≡◌, refl, some, [], ◌∷◌}
use streaming_lab.Prelude.Int.{negsuc}
use streaming_lab.Dict.{Dict, lookup}
use streaming_lab.Text.{dumps, loads, amount_text, read_amount}
use streaming_lab.Text.RoundTrip.{loads-dumps, read_amount-text}

abbrev offsets : Dict ℕ ℕ
offsets = (3, 120) ∷ (0, 7) ∷ []

loads-dumps_example : loads (dumps offsets) ≡ some offsets
unfolding lookup
loads-dumps_example = loads-dumps offsets (refl, (refl, tt))

read_amount-text_example : read_amount (amount_text (negsuc 1249)) ≡ some (negsuc 1249)
read_amount-text_example = read_amount-text (negsuc 1249)
