-- ===== src/Gateway/RoundRobin.antt =====
-- The pool hands its clients out in turn.
use native.Mathlib.Nat.{suc-mod, mod-add-mod, mod_self, mod-eq_of_lt, mod-lt}
use mathlib.Core.Path.{subst}
use mathlib.Core.List.{Perm, append-nil, perm_append_comm}
use streaming_lab.Prelude.{
  ℕ, zero, suc, ◌+◌, ◌%◌, ◌≤◌, ◌<◌, ◌≡◌, refl, sym, ap, ◌∙◌, some, List, [], ◌∷◌, ◌++◌, length,
  get_elem?, take, drop, take-append-drop, arith, ◌-◌, length-drop,
}
use streaming_lab.Results.{Result, ok, ◌>>=◌}
use streaming_lab.Gateway.Producer.{Pool, get_producer}

-- `_get_producer`, called so many times in a row
unfoldable pub get_producers : ℕ → Pool → Result (List ℕ × Pool)
get_producers zero pool = ok ([], pool)
get_producers (suc k) pool = do
  (p, pool') ← get_producer pool
  (ps, pool'') ← get_producers k pool'
  ok (p ∷ ps, pool'')

abbrev advanced : ℕ → Pool → Pool
advanced k pool = record pool { producer_index = pool.producer_index + k }

drop-get :
    (r : ℕ) (xs : List ℕ)
    → r < length xs
    → (x : ℕ) × (get_elem? xs r ≡ some x) × (drop r xs ≡ x ∷ drop (suc r) xs)
drop-get r [] h = absurd (omega arith)
drop-get zero (x ∷ xs) h = (x, refl, refl)
drop-get (suc r) (x ∷ xs) h = drop-get r xs (omega arith)

next_slot : (i n r : ℕ) → i % n ≡ r → suc r < n → (i + 1) % n ≡ suc r
next_slot i n r e h =
    ap (λ (x : ℕ). x % n) (omega arith) ∙ suc-mod i n ∙ ap (λ (x : ℕ). suc x % n) e ∙ mod-eq_of_lt h

wrapped_slot : (i n r k : ℕ) → i % n ≡ r → r + k ≡ n → (i + k) % n ≡ 0
wrapped_slot i n r k e h =
    sym (mod-add-mod i n k) ∙ ap (λ (x : ℕ). (x + k) % n) e ∙ ap (λ (x : ℕ). x % n) h ∙ mod_self n

get_producer_lem :
    (p : ℕ) (pool : Pool)
    → get_elem? pool.producers (pool.producer_index % length pool.producers) ≡ some p
    → get_producer pool ≡ ok (p, advanced 1 pool)
unfolding get_producer
get_producer_lem p pool h = rw (get_producer, h) refl

one_more :
    (k p : ℕ) (pool mid last : Pool) (ps : List ℕ)
    → get_producer pool ≡ ok (p, mid)
    → get_producers k mid ≡ ok (ps, last)
    → get_producers (suc k) pool ≡ ok (p ∷ ps, last)
unfolding get_producers
one_more k p pool mid last ps first rest = rw (first, rest) refl

-- from slot `r` on, without passing the end of the pool
get_producers-run :
    (a b r : ℕ) (pool : Pool) (qs : List ℕ) (last : Pool)
    → (0 < a → pool.producer_index % length pool.producers ≡ r)
    → r + a ≤ length pool.producers
    → get_producers b (advanced a pool) ≡ ok (qs, last)
    → get_producers (a + b) pool ≡ ok (take a (drop r pool.producers) ++ qs, last)
get_producers-run zero b r pool qs last e h rest =
    ap (λ (k : ℕ). get_producers k pool) (omega arith)
    ∙ ap (λ (i : ℕ). get_producers b (record pool { producer_index = i })) (omega arith)
    ∙ rest
get_producers-run (suc a) b r pool qs last e h rest =
    let (p, found, parts) = drop-get r pool.producers (omega arith) in
    let here = get_producer_lem p pool (ap (get_elem? pool.producers) (e (omega arith)) ∙ found) in
    let later =
      get_producers-run a b (suc r) (advanced 1 pool) qs last
        (λ more.
          next_slot pool.producer_index (length pool.producers) r (e (omega arith)) (omega arith))
        (omega arith)
        (ap (λ (i : ℕ). get_producers b (record pool { producer_index = i })) (omega arith)
          ∙ rest) in
    ap (λ (k : ℕ). get_producers k pool) (omega arith)
    ∙ one_more (a + b) p pool (advanced 1 pool) last _ here later
    ∙ ap (λ (l : List ℕ). ok (take (suc a) l ++ qs, last)) (sym parts)

take-all : (xs : List ℕ) → take (length xs) xs ≡ xs
take-all [] = refl
take-all (x ∷ xs) = ap (λ t. x ∷ t) (take-all xs)

rotation-perm :
    (r a : ℕ) (l : List ℕ) → length (drop r l) ≡ a → Perm (take a (drop r l) ++ (take r l ++ [])) l
rotation-perm r a l h =
    rw (← h, take-all (drop r l), append-nil (take r l))
      (subst (λ (x : List ℕ). Perm (drop r l ++ take r l) x) (take-append-drop r l)
        (perm_append_comm (drop r l) (take r l)))

-- As many sends in a row as there are clients, from any position, take every client exactly once,
-- and never find the pool empty.
pub round_robin :
    (pool : Pool)
    → 0 < length pool.producers
    → (ps : List ℕ) × (get_producers (length pool.producers) pool
        ≡ ok (ps, advanced (length pool.producers) pool))
      × Perm ps pool.producers
round_robin pool h =
    let l = pool.producers in
    let n = length l in
    let r = pool.producer_index % n in
    let below : r < n = mod-lt pool.producer_index h in
    let a = n - r in
    let last = advanced r (advanced a pool) in
    let second =
      get_producers-run r 0 0 (advanced a pool) [] last
        (λ more. wrapped_slot pool.producer_index n r a refl (omega arith)) (omega arith)
        (unfold get_producers in refl) in
    let first =
      get_producers-run a (r + 0) r pool (take r l ++ []) last (λ more. refl) (omega arith)
        second in
    (
      take a (drop r l) ++ (take r l ++ []),
      ap (λ (k : ℕ). get_producers k pool) (omega arith)
          ∙ first
          ∙ ap
              (λ (i : ℕ).
                ok (take a (drop r l) ++ (take r l ++ []), record pool { producer_index = i }))
              (omega arith),
      rotation-perm r a l (omega (arith, length-drop r l)),
    )
