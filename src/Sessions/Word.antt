-- ===== src/Sessions/Word.antt =====
-- The words that `_extract_device_info` looks for.
use streaming_lab.Prelude.{[], ◌∷◌}
use streaming_lab.Text.{Text}

abbrev pub mobile : Text
mobile = b'm' ∷ b'o' ∷ b'b' ∷ b'i' ∷ b'l' ∷ b'e' ∷ []

abbrev pub android : Text
android = b'a' ∷ b'n' ∷ b'd' ∷ b'r' ∷ b'o' ∷ b'i' ∷ b'd' ∷ []

abbrev pub iphone : Text
iphone = b'i' ∷ b'p' ∷ b'h' ∷ b'o' ∷ b'n' ∷ b'e' ∷ []

abbrev pub tablet : Text
tablet = b't' ∷ b'a' ∷ b'b' ∷ b'l' ∷ b'e' ∷ b't' ∷ []

abbrev pub ipad : Text
ipad = b'i' ∷ b'p' ∷ b'a' ∷ b'd' ∷ []

abbrev pub chrome : Text
chrome = b'c' ∷ b'h' ∷ b'r' ∷ b'o' ∷ b'm' ∷ b'e' ∷ []

abbrev pub firefox : Text
firefox = b'f' ∷ b'i' ∷ b'r' ∷ b'e' ∷ b'f' ∷ b'o' ∷ b'x' ∷ []

abbrev pub safari : Text
safari = b's' ∷ b'a' ∷ b'f' ∷ b'a' ∷ b'r' ∷ b'i' ∷ []

abbrev pub edge : Text
edge = b'e' ∷ b'd' ∷ b'g' ∷ b'e' ∷ []
