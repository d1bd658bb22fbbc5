-- ===== src/Text.antt =====
-- The texts that the program writes and reads back: `str` and `int` on natural numbers, `json.dumps`
-- and `json.loads` on a dictionary of numbers (the two summary properties of a snapshot), and the
-- two-decimal amount of the wire format. A text is the list of its code points. Each printer takes
-- the text that follows. `int`, `json.loads` and `Decimal` accept more texts than the readers here,
-- which read what the program itself prints.
pub mod Tests
pub mod RoundTrip
use streaming_lab.Prelude.{
  ℕ, zero, suc, ◌+◌, ◌-◌, ◌*◌, ◌/◌, ◌%◌, Bool, true, false, ◌&&◌, Option, none, some, List, [], ◌∷◌,
  length, is_empty, ltb, leb, ◌==◌, if◌then◌else◌, nat_eq,
}
use streaming_lab.Prelude.Int.{ℤ, pos, negsuc, neg_ℤ}
use streaming_lab.Dict.{Dict, insert}

abbrev pub Text : Type 0
Text = List ℕ

-- The decimal digits of `n`, before `rest`. The fuel `n + 1` is more than the digits there are.
unfoldable pub emit : ℕ → ℕ → Text → Text
emit zero n rest = rest
emit (suc f) n rest =
    let more = emit f (n / 10) ((48 + n % 10) ∷ rest) in if ltb n 10 then (48 + n) ∷ rest else more

-- `str(n)`, before `rest`
unfoldable pub str_onto : ℕ → Text → Text
unfolding emit
str_onto n rest = emit (suc n) n rest

abbrev pub is_digit : ℕ → Bool
is_digit c = leb 48 c && leb c 57

abbrev pub starts_with_digit : Text → Bool
starts_with_digit [] = false
starts_with_digit (c ∷ s) = is_digit c

unfoldable pub scan_digits : Text → ℕ → ℕ × Text
scan_digits [] n = (n, [])
scan_digits (c ∷ s) n =
    let more = scan_digits s (n * 10 + (c - 48)) in if is_digit c then more else (n, c ∷ s)

unfoldable pub read_int : Text → Option (ℕ × Text)
unfolding scan_digits
read_int s = if starts_with_digit s then some (scan_digits s 0) else none

-- `int(s)`
abbrev pub whole : Option (ℕ × Text) → Option ℕ
whole none = none
whole (some (n, [])) = some n
whole (some (n, c ∷ s)) = none

unfoldable pub int_of : Text → Option ℕ
unfolding read_int
int_of s = whole (read_int s)

-- `"k": v`
unfoldable pub entry_onto : ℕ → ℕ → Text → Text
unfolding str_onto
entry_onto k v rest = b'"' ∷ str_onto k (b'"' ∷ b':' ∷ b' ' ∷ str_onto v rest)

unfoldable pub entries_onto : Dict ℕ ℕ → Text
entries_onto [] = b'}' ∷ []
entries_onto ((k, v) ∷ d) = b',' ∷ b' ' ∷ entry_onto k v (entries_onto d)

-- `json.dumps({str(k): v for k, v in d.items()})`
unfoldable pub dumps : Dict ℕ ℕ → Text
dumps [] = b'{' ∷ b'}' ∷ []
dumps ((k, v) ∷ d) = b'{' ∷ entry_onto k v (entries_onto d)

unfoldable pub expect : ℕ → Text → Option Text
expect c [] = none
expect c (x ∷ s) = if x == c then some s else none

infixl 5 ◌>>=◌
abbrev pub ◌>>=◌ {ℓ κ} : {A : Type ℓ} {B : Type κ} → Option A → (A → Option B) → Option B
none >>= f = none
some a >>= f = f a

unfoldable pub read_entry : Text → Option (ℕ × ℕ × Text)
read_entry s = do
  a ← expect b'"' s
  (k, b) ← read_int a
  c ← expect b'"' b
  d ← expect b':' c
  e ← expect b' ' d
  (v, r) ← read_int e
  some (k, v, r)

abbrev closes : Text → Bool
closes [] = false
closes (c ∷ s) = c == b'}' && is_empty s

-- The entries after the first, into a dictionary that has those before; `fuel` bounds their number.
unfoldable pub read_entries : ℕ → Text → Dict ℕ ℕ → Option (Dict ℕ ℕ)
read_entries zero s d = none
read_entries (suc f) s d =
    let next = (do
      a ← expect b',' s
      b ← expect b' ' a
      (k, v, r) ← read_entry b
      read_entries f r (insert k v d)) in
    if closes s then some d else next

-- `{int(k): int(v) for k, v in json.loads(s).items()}`
unfoldable pub loads : Text → Option (Dict ℕ ℕ)
loads s = do
  a ← expect b'{' s
  if closes a
      then some []
      else do (k, v, r) ← read_entry a; read_entries (suc (length r)) r (insert k v [])

-- The amount, a whole number of cents, as `f"{amount:.2f}"`, before `rest`.
unfoldable pub cents_onto : ℕ → Text → Text
unfolding str_onto
cents_onto c rest = str_onto (c / 100) (b'.' ∷ (48 + c % 100 / 10) ∷ (48 + c % 10) ∷ rest)

unfoldable pub amount_text : ℤ → Text
amount_text (pos c) = cents_onto c []
amount_text (negsuc c) = b'-' ∷ cents_onto (suc c) []

abbrev two_digits : Text → Option ℕ
two_digits (a ∷ b ∷ []) = if is_digit a && is_digit b then some ((a - 48) * 10 + (b - 48)) else none
two_digits _ = none

unfoldable pub read_cents : Text → Option ℕ
read_cents s = do
  (units, r) ← read_int s
  t ← expect b'.' r
  cents ← two_digits t
  some (units * 100 + cents)

-- `Decimal(s)`, for a text with two digits after the point
unfoldable pub read_amount : Text → Option ℤ
read_amount [] = none
read_amount (c ∷ s) =
    if c == b'-'
    then (do n ← read_cents s; some (neg_ℤ (pos n)))
    else (do n ← read_cents (c ∷ s); some (pos n))
