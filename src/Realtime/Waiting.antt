-- ===== src/Realtime/Waiting.antt =====
-- `wait_for_count`: the polling loop. The table that the poll of each number finds, and the time before
-- it, in milliseconds, are the environment's.
use streaming_lab.Prelude.{
  ℕ, zero, suc, ◌+◌, ◌-◌, ◌≤◌, ◌<◌, ◌≡◌, refl, ◌⊎◌, inl, inr, false, Option, none, some, List,
  length, leb, ltb, leb→le, ltb→lt, arith, if◌then◌else◌, Bool-cases,
}
use mathlib.Core.Path.{subst}
use native.Mathlib.Nat.{add-zero}
use streaming_lab.Query.Seam.{ChRow}

-- `SELECT count()`
abbrev pub total_count : List ChRow → ℕ
total_count table = length table

module _ (clock : ℕ → ℕ) (table : ℕ → List ChRow) (expected : ℕ) where
  -- From poll `i` on, with the count that was seen last; `none` where the fuel is too little.
  unfoldable pub poll_until : ℕ → ℕ → ℕ → ℕ → Option ℕ
  poll_until deadline zero i seen = none
  poll_until deadline (suc fuel) i seen =
      let now_seen = total_count (table i) in
      let rest = poll_until deadline fuel (i + 1) now_seen in
      if ltb (clock i) deadline
      then (if leb expected now_seen then some now_seen else rest)
      else some seen

  -- The deadline is taken from a time before the first poll.
  unfoldable pub wait_for_count : ℕ → ℕ → ℕ → Option ℕ
  wait_for_count begun timeout fuel = poll_until (begun + timeout) fuel 0 0

  -- How a wait may end: with the count of a poll in time that was enough, or after no poll in time
  -- from number `i` on found enough.
  abbrev pub Ends : ℕ → ℕ → ℕ → Type 0
  Ends deadline i n =
      ((k : ℕ) × (clock k < deadline) × (n ≡ total_count (table k)) × (expected ≤ n))
      ⊎ ((k : ℕ) → i ≤ k → clock k < deadline → total_count (table k) < expected)

  Ends-earlier :
      (deadline i n : ℕ)
      → total_count (table i) < expected
      → Ends deadline (i + 1) n
      → Ends deadline i n
  Ends-earlier deadline i n few (inl enough) = inl enough
  Ends-earlier deadline i n few (inr late) = inr (λ k from in_time. elim (Bool-cases (leb k i)) [
    | inl upto ↦ let same : k ≡ i = omega (arith, leb→le k i upto, from) in rw same few
    | inr beyond ↦ late k (ground (arith, beyond)) in_time
  ])

  module _ (advances : (i : ℕ) → clock i < clock (i + 1)) where
    clock-add : (i k : ℕ) → clock i + k ≤ clock (i + k)
    clock-add i zero = rw (add-zero i) (omega arith)
    clock-add i (suc k) =
        let next : clock (i + k) < clock (i + suc k) =
          subst (λ (m : ℕ). clock (i + k) < clock m) (omega arith) (advances (i + k)) in
        omega (arith, clock-add i k, next)

    clock_mono : (i k : ℕ) → i ≤ k → clock i ≤ clock k
    clock_mono i k h =
        let same : i + (k - i) ≡ k = omega (arith, h) in
        omega (arith, rw same at (clock-add i (k - i)))

    -- a poll after the deadline ends the wait, and none of the later ones is in time
    too_late : (deadline i n : ℕ) → ltb (clock i) deadline ≡ false → Ends deadline i n
    too_late deadline i n h =
        inr (λ k from in_time. absurd (ground (arith, h, clock_mono i k from, in_time)))

    module _ (begun timeout : ℕ) where
      abbrev deadline : ℕ
      deadline = begun + timeout

      -- one iteration, where what follows it is known
      poll_until-step :
          (fuel i seen : ℕ)
          → (clock i < deadline
              → (n : ℕ) × (poll_until deadline fuel (i + 1) (total_count (table i)) ≡ some n)
                × Ends deadline (i + 1) n)
          → (n : ℕ) × (poll_until deadline (suc fuel) i seen ≡ some n) × Ends deadline i n
      unfolding poll_until
      poll_until-step fuel i seen next = elim (Bool-cases (ltb (clock i) deadline)) [
        | inr over ↦ (seen, rw over refl, too_late deadline i seen over)
        | inl in_time ↦ elim (Bool-cases (leb expected (total_count (table i)))) [
          | inl seen_enough ↦ (
            total_count (table i),
            rw (in_time, seen_enough) refl,
            inl (
              i,
              ltb→lt (clock i) deadline in_time,
              refl,
              leb→le expected (total_count (table i)) seen_enough,
            ),
          )
          | inr few ↦
              let (n, goes_on, ends) = next (ltb→lt (clock i) deadline in_time) in
              (n, rw (in_time, few) goes_on, Ends-earlier deadline i n (ground (arith, few)) ends)
        ]
      ]

      poll_until-Ends :
          (fuel i seen : ℕ)
          → begun + i ≤ clock i
          → timeout ≤ fuel + i
          → (n : ℕ) × (poll_until deadline (suc fuel) i seen ≡ some n) × Ends deadline i n
      poll_until-Ends zero i seen passed enough =
          poll_until-step zero i seen (λ in_time. absurd (omega (arith, passed, enough, in_time)))
      poll_until-Ends (suc fuel) i seen passed enough =
          poll_until-step (suc fuel) i seen (λ in_time.
            poll_until-Ends fuel (i + 1) (total_count (table i)) (omega (arith, passed, advances i))
              (omega (arith, enough)))

      -- When every poll takes time, the wait ends, in no more polls than the timeout has milliseconds
      -- and one: with the count of a poll in time that was enough, or else no poll in time found
      -- enough.
      pub wait_for_count_total :
          begun ≤ clock 0
          → (n : ℕ) × (wait_for_count begun timeout (suc timeout) ≡ some n) × Ends deadline 0 n
      unfolding wait_for_count
      wait_for_count_total started =
          poll_until-Ends timeout 0 0 (omega (arith, started)) (omega arith)
