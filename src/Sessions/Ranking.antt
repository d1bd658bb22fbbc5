-- ===== src/Sessions/Ranking.antt =====
-- The popular pages of a window.
use mathlib.Core.List.{Perm}
use mathlib.Core.List.Perm
use streaming_lab.Prelude.{
  ℕ, ◌+◌, ◌≤◌, ◌≡◌, refl, ap, ◌∙◌, String, Option, none, some, List, [], ◌∷◌, All, take, leb,
  leb→le, str_eq, or_else, arith, Bool-cases, inl, inr, if◌then◌else◌, string_eq,
}
use streaming_lab.Dict.{Dict, lookup}
use streaming_lab.Sessions.Model.{UserEvent, truthy}
use streaming_lab.Prelude.{suc, zero, ◌==◌, sym, eq_iff, Bool-cases, str_eq, inl, inr}
use streaming_lab.Dict.Laws.{Distinct, insert-Distinct, lookup-insert}
use streaming_lab.Sessions.Metrics.{count_one}
use streaming_lab.Sessions.Metrics.{
  count_some, url_counts, insert_count, sort_counts, process_page_views,
}

insert_count-perm : (e : String × ℕ) (d : Dict String ℕ) → Perm (insert_count e d) (e ∷ d)
unfolding insert_count
insert_count-perm (k, n) [] = Perm.refl ((k, n) ∷ [])
insert_count-perm (k, n) ((j, m) ∷ d) = elim (Bool-cases (leb m n)) [
  | inl here ↦ rw here (Perm.refl ((k, n) ∷ (j, m) ∷ d))
  | inr later ↦
      rw later
        (Perm.trans (Perm.cons (j, m) (insert_count-perm (k, n) d)) (Perm.swap (k, n) (j, m) d))
]

sort_counts-perm : (d : Dict String ℕ) → Perm (sort_counts d) d
unfolding sort_counts
sort_counts-perm [] = Perm.refl []
sort_counts-perm ((k, n) ∷ d) =
    Perm.trans (insert_count-perm (k, n) (sort_counts d)) (Perm.cons (k, n) (sort_counts-perm d))

abbrev pub AtMost : ℕ → Dict String ℕ → Type 0
AtMost n d = All (λ (e : String × ℕ). e.1 ≤ n) d

-- Each count is at least those after it.
abbrev pub IsRanked : Dict String ℕ → Type 0
IsRanked [] = Unit
IsRanked ((k, n) ∷ d) = AtMost n d × IsRanked d

AtMost-le : (m n : ℕ) (d : Dict String ℕ) → m ≤ n → AtMost m d → AtMost n d
AtMost-le m n [] h a = tt
AtMost-le m n (e ∷ d) h a = (omega (arith, a.0), AtMost-le m n d h a.1)

AtMost-insert_count :
    (b : ℕ) (k : String) (n : ℕ) (d : Dict String ℕ)
    → n ≤ b
    → AtMost b d
    → AtMost b (insert_count (k, n) d)
unfolding insert_count
AtMost-insert_count b k n [] h a = (h, tt)
AtMost-insert_count b k n ((j, m) ∷ d) h a = elim (Bool-cases (leb m n)) [
  | inl here ↦ rw here (h, a)
  | inr later ↦ rw later (a.0, AtMost-insert_count b k n d h a.1)
]

insert_count-IsRanked :
    (k : String) (n : ℕ) (d : Dict String ℕ) → IsRanked d → IsRanked (insert_count (k, n) d)
unfolding insert_count
insert_count-IsRanked k n [] h = (tt, tt)
insert_count-IsRanked k n ((j, m) ∷ d) h = elim (Bool-cases (leb m n)) [
  | inl here ↦ let le = leb→le m n here in rw here ((le, AtMost-le m n d le h.0), h)
  | inr later ↦
      rw later
        (AtMost-insert_count m k n d (ground (arith, later)) h.0, insert_count-IsRanked k n d h.1)
]

sort_counts-IsRanked : (d : Dict String ℕ) → IsRanked (sort_counts d)
unfolding sort_counts
sort_counts-IsRanked [] = tt
sort_counts-IsRanked ((k, n) ∷ d) =
    insert_count-IsRanked k n (sort_counts d) (sort_counts-IsRanked d)

-- Whether an event views a page.
abbrev is_view_of : String → Option String → ℕ
is_view_of k none = 0
is_view_of k (some u) = if str_eq u k then 1 else 0

abbrev pub views_of : String → List UserEvent → ℕ
views_of k [] = 0
views_of k (e ∷ es) = is_view_of k (truthy e.url) + views_of k es

-- a count that has grown; a page that nobody views is not listed
abbrev pub counted : Option ℕ → ℕ → Option ℕ
counted none zero = none
counted none (suc n) = some (suc n)
counted (some m) n = some (m + n)

counted-none : (o : Option ℕ) → counted o 0 ≡ o
counted-none none = refl
counted-none (some m) = ap some (omega arith)

counted-counted : (o : Option ℕ) (m n : ℕ) → counted (counted o m) n ≡ counted o (m + n)
counted-counted none zero n = ap (λ (i : ℕ). counted none i) (omega arith)
counted-counted none (suc m) n =
    let sum : suc (m + n) ≡ suc m + n = omega arith in
    ap some (sym sum) ∙ ap (λ (i : ℕ). counted none i) sum
counted-counted (some k) m n = let sum : k + m + n ≡ k + (m + n) = omega arith in ap some sum

counted_one : (o : Option ℕ) → some (or_else o 0 + 1) ≡ counted o 1
counted_one none = ap some (omega arith)
counted_one (some m) = refl

count_some-lookup :
    (k : String) (o : Option String) (d : Dict String ℕ)
    → lookup k (count_some o d) ≡ counted (lookup k d) (is_view_of k o)
unfolding count_one
count_some-lookup k none d = sym (counted-none (lookup k d))
count_some-lookup k (some u) d = elim (Bool-cases (str_eq u k)) [
  | inl same ↦
      rw (lookup-insert u k (or_else (lookup u d) 0 + 1) d, same)
        (ap (λ j. some (or_else (lookup j d) 0 + 1)) ((eq_iff u k).0 same)
          ∙ counted_one (lookup k d))
  | inr other ↦
      rw (lookup-insert u k (or_else (lookup u d) 0 + 1) d, other) (sym (counted-none (lookup k d)))
]

url_counts-views :
    (k : String) (es : List UserEvent) (d : Dict String ℕ)
    → lookup k (url_counts es d) ≡ counted (lookup k d) (views_of k es)
unfolding url_counts
url_counts-views k [] d = sym (counted-none (lookup k d))
url_counts-views k (e ∷ es) d =
    url_counts-views k es (count_some (truthy e.url) d)
    ∙ ap (λ o. counted o (views_of k es)) (count_some-lookup k (truthy e.url) d)
    ∙ counted-counted (lookup k d) (is_view_of k (truthy e.url)) (views_of k es)

count_some-Distinct :
    (o : Option String) (d : Dict String ℕ) → Distinct d → Distinct (count_some o d)
unfolding count_one
count_some-Distinct none d h = h
count_some-Distinct (some u) d h = insert-Distinct u (or_else (lookup u d) 0 + 1) d h

url_counts-Distinct :
    (es : List UserEvent) (d : Dict String ℕ) → Distinct d → Distinct (url_counts es d)
unfolding url_counts
url_counts-Distinct [] d h = h
url_counts-Distinct (e ∷ es) d h =
    url_counts-Distinct es (count_some (truthy e.url) d) (count_some-Distinct (truthy e.url) d h)

-- The counts of a window list every page that an event names, once, with the number of the events that
-- name it, and no other page. The popular pages are the first ten of the same entries, ranked from the
-- most viewed to the least.
pub top_urls-IsRanked :
    (k : String) (events : List UserEvent)
    → let counts = url_counts events [] in
      let ranked = sort_counts counts in
      (lookup k counts ≡ (if views_of k events == 0 then none else some (views_of k events)))
      × Distinct counts
      × Perm ranked counts
      × IsRanked ranked
      × ((process_page_views events).top_urls ≡ take 10 ranked)
unfolding process_page_views lookup
top_urls-IsRanked k events =
    let counts = url_counts events [] in
    (
      url_counts-views k events [] ∙ counted_from (views_of k events),
      url_counts-Distinct events [] tt,
      sort_counts-perm counts,
      sort_counts-IsRanked counts,
      refl,
    )
  where
    counted_from : (n : ℕ) → counted none n ≡ (if n == 0 then none else some n)
    counted_from zero = refl
    counted_from (suc n) = ground arith
