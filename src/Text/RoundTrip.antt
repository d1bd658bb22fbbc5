-- ===== src/Text/RoundTrip.antt =====
-- What is printed is read back.
use streaming_lab.Prelude.{
  ℕ, zero, suc, ◌+◌, ◌/◌, ◌%◌, ◌≤◌, ◌<◌, ◌≡◌, refl, ◌∙◌, true, false, some, [], ◌∷◌, length, arith,
  inl, inr,
}
use streaming_lab.Text.{
  Text, emit, str_onto, starts_with_digit, scan_digits, read_int, int_of, entry_onto, entries_onto,
  dumps, expect, read_entry, read_entries, loads, cents_onto, amount_text, read_cents, read_amount,
  closes,
}
use mathlib.Core.List.{append-nil, append_assoc}
use streaming_lab.Prelude.{nat_eq, ap, Option-cases, ◌++◌}
use streaming_lab.Prelude.Int.{ℤ, pos, negsuc, neg_ℤ}
use mathlib.Core.Option
use streaming_lab.Dict.{Dict, insert}
use streaming_lab.Dict.Laws.{Distinct, insert-append}

scan_digits-emit :
    (f n : ℕ) (rest : Text) → n < f → scan_digits (emit f n rest) 0 ≡ scan_digits rest n
unfolding emit scan_digits
scan_digits-emit zero n rest h = absurd (omega arith)
scan_digits-emit (suc f) n rest h =
    ground (arith, scan_digits-emit f (n / 10) ((48 + n % 10) ∷ rest))

starts_with_digit-emit : (f n : ℕ) (rest : Text) → n < f → starts_with_digit (emit f n rest) ≡ true
unfolding emit
starts_with_digit-emit zero n rest h = absurd (omega arith)
starts_with_digit-emit (suc f) n rest h =
    ground (arith, starts_with_digit-emit f (n / 10) ((48 + n % 10) ∷ rest))

scan_digits-stop :
    (n : ℕ) (rest : Text) → starts_with_digit rest ≡ false → scan_digits rest n ≡ (n, rest)
unfolding scan_digits
scan_digits-stop n [] h = refl
scan_digits-stop n (c ∷ s) h = ground arith

-- A printed number is read back, where no digit follows it.
pub read_int-str :
    (n : ℕ) (rest : Text)
    → starts_with_digit rest ≡ false
    → read_int (str_onto n rest) ≡ some (n, rest)
unfolding read_int str_onto
read_int-str n rest h = cc (
  starts_with_digit-emit (suc n) n rest (omega arith),
  scan_digits-emit (suc n) n rest (omega arith),
  scan_digits-stop n rest h,
)

pub int_of-str : (n : ℕ) → int_of (str_onto n []) ≡ some n
unfolding int_of
int_of-str n = rw (read_int-str n [] refl)

read_entry-entry :
    (k v : ℕ) (rest : Text)
    → starts_with_digit rest ≡ false
    → read_entry (entry_onto k v rest) ≡ some (k, v, rest)
unfolding read_entry entry_onto expect
read_entry-entry k v rest h =
    rw (read_int-str k (b'"' ∷ b':' ∷ b' ' ∷ str_onto v rest) refl, read_int-str v rest h)

entries_onto-no_digit : (d : Dict ℕ ℕ) → starts_with_digit (entries_onto d) ≡ false
unfolding entries_onto
entries_onto-no_digit [] = refl
entries_onto-no_digit (e ∷ d) = refl

read_entries-entries :
    (f : ℕ) (d done : Dict ℕ ℕ)
    → length d < f
    → Distinct (done ++ d)
    → read_entries f (entries_onto d) done ≡ some (done ++ d)
unfolding read_entries entries_onto expect
read_entries-entries zero d done h u = absurd (omega arith)
read_entries-entries (suc f) [] done h u = rw append-nil
read_entries-entries (suc f) ((k, v) ∷ d) done h u =
    rw (read_entry-entry k v (entries_onto d) (entries_onto-no_digit d), insert-append k v done d u)
      (read_entries-entries f d (done ++ (k, v) ∷ []) (omega arith) (rw append_assoc u)
        ∙ ap some (append_assoc done _ _))

length-emit : (f n : ℕ) (rest : Text) → length rest ≤ length (emit f n rest)
unfolding emit
length-emit zero n rest = omega arith
length-emit (suc f) n rest = ground (arith, length-emit f (n / 10) ((48 + n % 10) ∷ rest))

length-entry_onto : (k v : ℕ) (rest : Text) → length rest < length (entry_onto k v rest)
unfolding entry_onto
length-entry_onto k v rest = omega (
  arith,
  length-emit (suc k) k (b'"' ∷ b':' ∷ b' ' ∷ str_onto v rest),
  length-emit (suc v) v rest,
)

length-entries_onto : (d : Dict ℕ ℕ) → length d < length (entries_onto d)
unfolding entries_onto
length-entries_onto [] = omega arith
length-entries_onto ((k, v) ∷ d) =
    omega (arith, length-entries_onto d, length-entry_onto k v (entries_onto d))

closes-entry_onto : (k v : ℕ) (rest : Text) → closes (entry_onto k v rest) ≡ false
unfolding entry_onto
closes-entry_onto k v rest = refl

-- What `json.dumps` writes of a dictionary of numbers, `json.loads` reads back, keys in order.
pub loads-dumps : (d : Dict ℕ ℕ) → Distinct d → loads (dumps d) ≡ some d
unfolding loads dumps expect
loads-dumps [] u = refl
loads-dumps ((k, v) ∷ d) u =
    rw
      (
        closes-entry_onto k v (entries_onto d),
        read_entry-entry k v (entries_onto d) (entries_onto-no_digit d),
      )
      (unfold insert in
        read_entries-entries (suc (length (entries_onto d))) d ((k, v) ∷ [])
          (omega (arith, length-entries_onto d)) u)

read_cents-cents : (c : ℕ) → read_cents (cents_onto c []) ≡ some c
unfolding read_cents cents_onto expect
read_cents-cents c =
    rw (read_int-str (c / 100) (b'.' ∷ (48 + c % 100 / 10) ∷ (48 + c % 10) ∷ []) refl)
      (ground arith)

read_amount-digit :
    (t : Text) → starts_with_digit t ≡ true → read_amount t ≡ Option.map pos (read_cents t)
unfolding read_amount
read_amount-digit [] h = cc
read_amount-digit (c ∷ s) h = elim (Option-cases (read_cents (c ∷ s))) [
  | inl none_read ↦ rw none_read (ground arith)
  | inr (n, read) ↦ rw read (ground arith)
]

starts_with_digit-cents : (c : ℕ) → starts_with_digit (cents_onto c []) ≡ true
unfolding cents_onto str_onto
starts_with_digit-cents c =
    starts_with_digit-emit (suc (c / 100)) (c / 100)
      (b'.' ∷ (48 + c % 100 / 10) ∷ (48 + c % 10) ∷ []) (omega arith)

-- An amount of whole cents, of either sign, is read back from its two-decimal text.
pub read_amount-text : (a : ℤ) → read_amount (amount_text a) ≡ some a
unfolding amount_text
read_amount-text (pos c) =
    rw (read_amount-digit (cents_onto c []) (starts_with_digit-cents c), read_cents-cents c)
read_amount-text (negsuc c) =
    unfold read_amount in rw (read_cents-cents (suc c)) (unfold neg_ℤ in ground arith)
