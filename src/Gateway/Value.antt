-- ===== src/Gateway/Value.antt =====
-- The dictionaries that the gateway and the storage send: JSON values by name, and the texts that
-- Python's f-strings make of numbers.
use Prim.Native.String
use streaming_lab.Prelude.{ℕ, zero, suc, ◌/◌, ◌%◌, String, [], ◌∷◌, ltb, ◌==◌, if◌then◌else◌}
use streaming_lab.Dict.{Dict}

infixr 5 ◌<>◌
abbrev pub ◌<>◌ : String → String → String
a <> b = String.◌++◌ a b

abbrev digit : ℕ → String
digit d =
    if d == 0
    then "0"
    else if d == 1
    then "1"
    else if d == 2
    then "2"
    else if d == 3
    then "3"
    else if d == 4
    then "4"
    else if d == 5
    then "5"
    else if d == 6
    then "6"
    else if d == 7
    then "7"
    else if d == 8
    then "8"
    else "9"

-- `left` digits at most, and no leading zero
unfoldable pub digits : ℕ → ℕ → String
digits zero n = ""
digits (suc left) n =
    let rest = digits left (n / 10) in if ltb n 10 then digit n else rest <> digit (n % 10)

-- `str(n)`: a number has no more digits than it is large.
unfoldable pub str_number : ℕ → String
str_number n = digits (suc n) n

mutual
  pub data Value : Type 0 where
    null : Value
    number : ℕ → Value
    text : String → Value
    object : Fields → Value

  pub data Fields : Type 0 where
    no_fields : Fields
    field : String → Value → Fields → Fields

-- `f"{prefix}{n}"`
abbrev pub numbered : String → ℕ → Value
numbered prefix n = text (prefix <> str_number n)

abbrev str_optional : Value → String
str_optional (number n) = str_number n
str_optional v = "None"

-- `f"{prefix}{n}_{m}"`, where the second is a number or `None`
abbrev pub numbered_pair : String → ℕ → Value → Value
numbered_pair prefix n m = text (prefix <> str_number n <> "_" <> str_optional m)

abbrev pub Event : Type 0
Event = Dict String Value

-- A dictionary as a value.
abbrev pub fields_of : Event → Fields
fields_of [] = no_fields
fields_of ((k, v) ∷ e) = field k v (fields_of e)
