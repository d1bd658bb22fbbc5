-- ===== src/Events/Generator/Invariant.antt =====
-- What holds of the events at every iteration of the generator.
use streaming_lab.Prelude.{
  ℕ, zero, suc, ◌+◌, ◌-◌, ◌*◌, ◌≤◌, ◌<◌, ◌≡◌, refl, sym, ap, ◌∙◌, Bool, true, false, some, List, [],
  ◌∷◌, ◌++◌, length, length-append, All, All-append, arith, ltb, ◌==◌, if◌then◌else◌, ltb→lt,
  ltb→le, Bool-cases, inl, inr,
}
use streaming_lab.Prelude.Int.{ℤ, pos, ◌+ℤ◌, neg_ℤ, ◌≤ℤ◌, int_laws}
use streaming_lab.Prelude.Perms.{sum_by, sum_by-append}
use streaming_lab.Config.{Config}
use streaming_lab.Results.{Result, ok}
use streaming_lab.Events.Schema.{OrderEvent, order_created, order_cancelled}
use streaming_lab.Events.Generator.{
  Rng, Created, pop, Gen, emit_cancelled, add_created, emit_created, choose, iteration, loop,
}
use streaming_lab.Landing.Disorder.{IsBounded}
use streaming_lab.Query.Sides.{delta, HasKnownType}
use streaming_lab.Query.Seam.{signed_amount}

abbrev pub amount_of : Created → ℤ
amount_of c = c.amount

pop-some :
    (i : ℕ) (pool : List Created)
    → i < length pool
    → (c : Created) × (rest : List Created) × (pop i pool ≡ some (c, rest))
      × (sum_by amount_of pool ≡ c.amount +ℤ sum_by amount_of rest)
      × (All (λ d. pos 0 ≤ℤ amount_of d) pool
          → (pos 0 ≤ℤ c.amount) × All (λ d. pos 0 ≤ℤ amount_of d) rest)
unfolding pop sum_by
pop-some i [] h = absurd (omega arith)
pop-some zero (c ∷ pool) h = (c, pool, refl, refl, λ a. a)
pop-some (suc i) (c ∷ pool) h =
    let (d, rest, found, total, nonneg) = pop-some i pool (omega arith) in
    (
      d,
      c ∷ rest,
      rw found,
      ap (λ s. c.amount +ℤ s) total ∙ omega int_laws,
      λ a. ((nonneg a.1).0, (a.0, (nonneg a.1).1)),
    )

IsBounded-append :
    (w : ℕ) (es : List OrderEvent) (b : OrderEvent)
    → All (λ a. a.event_time_ms ≤ b.event_time_ms + w) es
    → IsBounded w es
    → IsBounded w (es ++ b ∷ [])
IsBounded-append w [] b a h = (tt, tt)
IsBounded-append w (e ∷ es) b a h = (
  All-append (λ c. e.event_time_ms ≤ c.event_time_ms + w) es (b ∷ []) h.0 (a.0, tt),
  IsBounded-append w es b a.1 h.1,
)

All-weaken {ℓ κ} :
    {A : Type ℓ} (P Q : A → Type κ) (xs : List A) → ((x : A) → P x → Q x) → All P xs → All Q xs
All-weaken P Q [] f h = tt
All-weaken P Q (x ∷ xs) f h = (f x h.0, All-weaken P Q xs f h.1)

cancel_total : (s c r : ℤ) → s ≡ c +ℤ r → s +ℤ (neg_ℤ c +ℤ pos 0) ≡ r
cancel_total s c r h = rw h (omega int_laws)

module _ (rng : Rng) (cfg : Config) (start_ms : ℕ) where
  pub record IsGood (g : Gen rng) : Type 0 where
    pub counted : length g.events ≡ g.i
    pub early :
        All (λ (e : OrderEvent). e.event_time_ms < start_ms + g.i + cfg.lateness_window_ms) g.events
    pub bounded : IsBounded cfg.lateness_window_ms g.events
    pub known : All HasKnownType g.events
    pub total : sum_by delta g.events ≡ sum_by amount_of g.created_pool
    pub nonneg : All (λ c. pos 0 ≤ℤ amount_of c) g.created_pool

  -- the parts of the invariant about events, for one more event
  append-events :
      (g : Gen rng) (e : OrderEvent) (jitter : ℕ)
      → IsGood g
      → jitter < cfg.lateness_window_ms
      → e.event_time_ms ≡ start_ms + g.i + jitter
      → (length (g.events ++ e ∷ []) ≡ g.i + 1)
        × All
            (λ (a : OrderEvent). a.event_time_ms < start_ms + (g.i + 1) + cfg.lateness_window_ms)
            (g.events ++ e ∷ [])
        × IsBounded cfg.lateness_window_ms (g.events ++ e ∷ [])
  append-events g e jitter h lt time = (
    omega (arith, length-append g.events (e ∷ []), h.counted),
    All-append _ g.events (e ∷ []) (All-weaken _ _ g.events (λ a early. omega arith) h.early)
        (omega arith, tt),
    IsBounded-append cfg.lateness_window_ms g.events e
        (All-weaken _ _ g.events (λ a early. omega arith) h.early) h.bounded,
  )

  emit_cancelled-IsGood :
      (g : Gen rng) (s : rng.State) (time jitter : ℕ)
      → IsGood g
      → jitter < cfg.lateness_window_ms
      → time ≡ start_ms + g.i + jitter
      → 0 < length g.created_pool
      → (g' : Gen rng) × (emit_cancelled rng time s g ≡ ok g') × IsGood g' × (g'.i ≡ g.i + 1)
  unfolding emit_cancelled sum_by signed_amount
  emit_cancelled-IsGood g s time jitter h lt at some_order =
      let (idx, s1) = rng.randrange (length g.created_pool) s in
      let (event_id, s2) = rng.uuid s1 in
      let (c, pool, found, total, nonneg) =
        pop-some idx g.created_pool (rng.randrange_lt (length g.created_pool) s some_order) in
      let e : OrderEvent = record {
        event_id = event_id;
        order_id = c.order_id;
        event_type = order_cancelled;
        amount = c.amount;
        user_id = c.user_id;
        event_time_ms = time;
      } in
      let (counted, early, bounded) = append-events g e jitter h lt at in
      (
        record { events = g.events ++ e ∷ []; created_pool = pool; i = g.i + 1; state = s2 },
        rw (found, emit_cancelled),
        record {
          counted = counted;
          early = early;
          bounded = bounded;
          known = All-append HasKnownType g.events (e ∷ []) h.known (refl, tt);
          total =
              sum_by-append delta g.events (e ∷ [])
              ∙ cancel_total (sum_by delta g.events) c.amount (sum_by amount_of pool)
                  (h.total ∙ total);
          nonneg = (nonneg h.nonneg).1;
        },
        refl,
      )

  add_created-IsGood :
      (g : Gen rng) (s : rng.State) (max_amount time jitter : ℕ)
      → IsGood g
      → jitter < cfg.lateness_window_ms
      → time ≡ start_ms + g.i + jitter
      → IsGood (add_created rng max_amount time s g)
        × ((add_created rng max_amount time s g).i ≡ g.i + 1)
  unfolding add_created sum_by signed_amount
  add_created-IsGood g s max_amount time jitter h lt at =
      let (order_id, s1) = rng.uuid s in
      let (cents, s2) = rng.randint 1 (max_amount * 100) s1 in
      let (user_id, s3) = rng.randint 1 1000 s2 in
      let (event_id, s4) = rng.uuid s3 in
      let e : OrderEvent = record {
        event_id = event_id;
        order_id = order_id;
        event_type = order_created;
        amount = pos cents;
        user_id = user_id;
        event_time_ms = time;
      } in
      let c : Created = record { order_id = order_id; amount = pos cents; user_id = user_id } in
      let (counted, early, bounded) = append-events g e jitter h lt at in
      (
        record {
          counted = counted;
          early = early;
          bounded = bounded;
          known = All-append HasKnownType g.events (e ∷ []) h.known (refl, tt);
          total =
              sum_by-append delta g.events (e ∷ [])
              ∙ ap (λ (z : ℤ). z +ℤ (pos cents +ℤ pos 0)) h.total
              ∙ sym (sum_by-append amount_of g.created_pool (c ∷ []));
          nonneg =
              All-append (λ d. pos 0 ≤ℤ amount_of d) g.created_pool (c ∷ []) h.nonneg
                (omega arith, tt);
        },
        refl,
      )

  -- The call goes through, and adds one event.
  abbrev pub Advances : Gen rng → Result (Gen rng) → Type 0
  Advances g r = (g' : Gen rng) × (r ≡ ok g') × IsGood g' × (g'.i ≡ g.i + 1)

  zero_test : (w : ℕ) → 0 < w → (w == 0) ≡ false
  zero_test w h = ground arith

  branch-IsGood :
      (g : Gen rng) (s : rng.State) (max_amount time jitter : ℕ) (cancel : Bool)
      → IsGood g
      → jitter < cfg.lateness_window_ms
      → time ≡ start_ms + g.i + jitter
      → (cancel ≡ true → 0 < length g.created_pool)
      → 0 < max_amount
      → Advances g
          (if cancel then emit_cancelled rng time s g else emit_created rng max_amount time s g)
  unfolding emit_created
  branch-IsGood g s max_amount time jitter true h lt at some_order some_amount =
      emit_cancelled-IsGood g s time jitter h lt at (some_order refl)
  branch-IsGood g s max_amount time jitter false h lt at some_order some_amount =
      let (good, next) = add_created-IsGood g s max_amount time jitter h lt at in
      (
        add_created rng max_amount time s g,
        rw (zero_test (max_amount * 100) (omega (arith, some_amount))) refl,
        good,
        next,
      )

  choose-some :
      (pool : List Created) (s : rng.State) → (choose rng pool s).0 ≡ true → 0 < length pool
  choose-some [] s h = cc
  choose-some (c ∷ pool) s h = omega arith

  pub iteration-IsGood :
      (g : Gen rng) (max_amount : ℕ)
      → 0 < cfg.lateness_window_ms
      → 0 < max_amount
      → IsGood g
      → Advances g (iteration rng cfg start_ms max_amount g)
  unfolding iteration
  iteration-IsGood g max_amount w m h =
      let drawn = rng.randint 0 (cfg.lateness_window_ms - 1) g.state in
      let in_window = rng.randint_bounds 0 (cfg.lateness_window_ms - 1) g.state (omega arith) in
      let chosen = choose rng g.created_pool drawn.1 in
      rw (zero_test cfg.lateness_window_ms w) (
        branch-IsGood g chosen.1 max_amount (start_ms + g.i * 1 + drawn.0) drawn.0 chosen.0 h
          (omega arith) (omega arith) (choose-some g.created_pool drawn.1) m)

  -- With fuel for the events that are missing, the loop ends with as many events as were asked for.
  pub loop-IsGood :
      (fuel n max_amount : ℕ) (g : Gen rng)
      → 0 < cfg.lateness_window_ms
      → 0 < max_amount
      → IsGood g
      → g.i ≤ n
      → n < fuel + g.i
      → (g' : Gen rng) × (loop rng cfg start_ms max_amount fuel n g ≡ some (ok g'.events))
        × IsGood g'
        × (g'.i ≡ n)
  unfolding loop
  loop-IsGood zero n max_amount g w m h le lt = absurd (omega arith)
  loop-IsGood (suc fuel) n max_amount g w m h le lt = elim (Bool-cases (ltb (length g.events) n)) [
    | inr done ↦ (g, rw done, h, omega (arith, h.counted, ltb→le (length g.events) n done))
    | inl more ↦
        let (g1, goes, good, next) = iteration-IsGood g max_amount w m h in
        let below : length g.events < n = ltb→lt (length g.events) n more in
        let (g', ends, good', all) =
          loop-IsGood fuel n max_amount g1 w m good (omega (arith, h.counted))
            (omega (arith, next)) in
        (g', rw (more, goes) ends, good', all)
  ]
