-- ===== src/Drift/Distance.antt =====
-- services/drift/service.py: what `_compute_tvd` sums, against how often each event type occurs.
use dox.Prelude.{
  Bool, true, ltb, filter, ◌∙◌, ap, ℕ, ◌+◌, ◌≤◌, ◌≡◌, refl, false, ◌||◌, String, List, [], ◌∷◌,
  ◌++◌, map, arith, any, count, count-perm, length, if◌then◌else◌, inl, inr, Bool-cases, ◌==◌, ℕ_eq,
  String_eq, eq_iff,
}
use dox.Sorting.{sort-perm}
use dox.Events.{EventRecord}
use dox.Adapters.{value_at, update_at, value_at-update_at}
use dox.Drift.{
  Counts, Float, EventTypeDeviation, tally, nub, all_types, sum_over, freq, deviations_over,
  compute_tvd, text_le,
}

-- How many events are of a type.
abbrev pub occurrences : List EventRecord → String → ℕ
occurrences events k = count (λ e. e.event_type == k) events

value_at-tally :
    (events : List EventRecord) (counts : Counts) (k : String)
    → value_at 0 k (tally events counts) ≡ occurrences events k + value_at 0 k counts
unfolding tally
value_at-tally [] counts k = omega arith
value_at-tally (e ∷ events) counts k = ground (
  arith,
  eq_iff e.event_type k,
  value_at-tally events (update_at 0 e.event_type (λ n. n + 1) counts) k,
  value_at-update_at 0 e.event_type k (λ n. n + 1) counts,
)

absent : (k : String) (ks : List String) → any (λ j. k == j) ks ≡ false → count (λ j. j == k) ks ≡ 0
absent k [] h = refl
absent k (j ∷ ks) h = ground (arith, absent k ks, eq_iff j k, eq_iff k j)

nub-once : (k : String) (ks : List String) → count (λ j. j == k) (nub ks) ≤ 1
unfolding nub
nub-once k [] = omega arith
nub-once k (j ∷ ks) = elim (Bool-cases (any (λ i. j == i) (nub ks))) [
  | inl there ↦ rw there (nub-once k ks)
  | inr new ↦ rw new (ground (arith, nub-once k ks, absent j (nub ks) new, eq_iff j k))
]

abbrev has : String → List String → Bool
has k ks = any (λ j. k == j) ks

nub-has : (k : String) (ks : List String) → has k (nub ks) ≡ has k ks
unfolding nub
nub-has k [] = refl
nub-has k (j ∷ ks) = elim (Bool-cases (has j (nub ks))) [
  | inl there ↦ rw there (ground (arith, nub-has k ks, eq_iff k j))
  | inr new ↦ rw new (ground (arith, nub-has k ks))
]

present : (k : String) (ks : List String) → has k ks ≡ true → 1 ≤ count (λ j. j == k) ks
present k [] h = cc
present k (j ∷ ks) h = ground (arith, present k ks, eq_iff j k, eq_iff k j)

once : (k : String) (ks : List String) → count (λ j. j == k) (nub ks) ≡ (if has k ks then 1 else 0)
once k ks = elim (Bool-cases (has k ks)) [
  | inl there ↦ rw there (omega (arith, nub-once k ks, present k (nub ks) (nub-has k ks ∙ there)))
  | inr new ↦ rw new (absent k (nub ks) (nub-has k ks ∙ new))
]

abbrev keys : Counts → List String
keys counts = map (λ e. e.0) counts

has-append : (k : String) (ks js : List String) → has k (ks ++ js) ≡ (has k ks || has k js)
has-append k [] js = refl
has-append k (i ∷ ks) js = ground (arith, has-append k ks js)

has-update_at :
    (k j : String) (f : ℕ → ℕ) (counts : Counts)
    → has k (keys (update_at 0 j f counts)) ≡ (k == j || has k (keys counts))
unfolding update_at
has-update_at k j f [] = ground arith
has-update_at k j f ((i, n) ∷ counts) =
    ground (arith, has-update_at k j f counts, eq_iff i j, eq_iff k j, eq_iff k i)

-- The types of a tally are those of its events.
has-tally :
    (k : String) (events : List EventRecord) (counts : Counts)
    → has k (keys (tally events counts)) ≡ (ltb 0 (occurrences events k) || has k (keys counts))
unfolding tally
has-tally k [] counts = refl
has-tally k (e ∷ events) counts = ground (
  arith,
  has-tally k events (update_at 0 e.event_type (λ n. n + 1) counts),
  has-update_at k e.event_type (λ n. n + 1) counts,
  eq_iff e.event_type k,
  eq_iff k e.event_type,
)

-- Every type that occurs in one of the lists is there once, and no other.
all_types-occurs :
    (es fs : List EventRecord) (k : String)
    → count (λ j. j == k) (all_types (tally es []) (tally fs []))
      ≡ (if ltb 0 (occurrences es k + occurrences fs k) then 1 else 0)
unfolding all_types
all_types-occurs es fs k =
    let ks : List String = keys (tally es []) ++ keys (tally fs []) in
    ground (
      arith,
      count-perm (λ j. j == k) (sort-perm text_le (nub ks)),
      once k ks,
      has-append k (keys (tally es [])) (keys (tally fs [])),
      has-tally k es [],
      has-tally k fs [],
    )

module _ (float : Float) where
  -- The relative frequency of a type, and the difference of two.
  abbrev pub share : List EventRecord → String → float.Value
  share events k = float.ratio (occurrences events k) (length events)

  abbrev pub gap : List EventRecord → List EventRecord → String → float.Value
  gap es fs k = float.apart (share es k) (share fs k)

  abbrev pub deviation :
      List EventRecord → List EventRecord → String → EventTypeDeviation float.Value
  deviation es fs k = record {
    event_type = k;
    baseline_freq = float.round4 (share es k);
    recent_freq = float.round4 (share fs k);
    delta = float.round4 (gap es fs k);
  }

  freq-share :
      (events : List EventRecord) (k : String)
      → freq float (tally events []) (length events) k ≡ share events k
  unfolding value_at
  freq-share events k =
      let all_counted : value_at 0 k (tally events []) ≡ occurrences events k =
        value_at-tally events [] k ∙ omega arith in
      ap (λ n. float.ratio n (length events)) all_counted

  -- The differences, added to a number one after another.
  abbrev pub added : List EventRecord → List EventRecord → float.Value → List String → float.Value
  added es fs total [] = total
  added es fs total (k ∷ ks) = added es fs (float.plus total (gap es fs k)) ks

  -- A number, but 1 where it is above 1.
  abbrev pub at_most_one : float.Value → float.Value
  at_most_one x = if float.below (float.ratio 10 10) x then float.ratio 10 10 else x

  sum_over-added :
      (f : String → float.Value) (es fs : List EventRecord) (total : float.Value) (ks : List String)
      → ((k : String) → f k ≡ gap es fs k)
      → sum_over float f total ks ≡ added es fs total ks
  unfolding sum_over
  sum_over-added f es fs total [] same = refl
  sum_over-added f es fs total (k ∷ ks) same =
      rw (same k) (sum_over-added f es fs (float.plus total (gap es fs k)) ks same)

  deviations_over-filter :
      (b r : String → float.Value) (es fs : List EventRecord) (ks : List String)
      → ((k : String) → b k ≡ share es k)
      → ((k : String) → r k ≡ share fs k)
      → deviations_over float b r ks
        ≡ map (deviation es fs) (filter (λ k. float.below (float.ratio 1 1000) (gap es fs k)) ks)
  unfolding deviations_over
  deviations_over-filter b r es fs [] left right = refl
  deviations_over-filter b r es fs (k ∷ ks) left right =
      elim (Bool-cases (float.below (float.ratio 1 1000) (gap es fs k))) [
        | inl wide ↦
            rw (left k, right k, wide)
              (ap (λ l. deviation es fs k ∷ l) (deviations_over-filter b r es fs ks left right))
        | inr narrow ↦ rw (left k, right k, narrow) (deviations_over-filter b r es fs ks left right)
      ]

  -- For the counts that two lists of events are tallied to, the types that are summed over are those
  -- that occur in one of the lists, each once; the score is half the sum, in the order of the types, of the
  -- differences of their relative frequencies, and at most 1; and the deviations are those of the types
  -- whose difference is above 0.001, rounded. Where one list is empty the score is 0 and there is no
  -- deviation. All numbers are floats.
  pub compute_tvd-tally :
      (es fs : List EventRecord)
      → let types = all_types (tally es []) (tally fs []) in
        ((k : String)
          → count (λ j. j == k) types
            ≡ (if ltb 0 (occurrences es k + occurrences fs k) then 1 else 0))
        × (compute_tvd float (tally es []) (length es) (tally fs []) (length fs) ≡ (
            if length es == 0 || length fs == 0 then (float.ratio 0 10, []) else (
              at_most_one (float.half (added es fs (float.ratio 0 10) types)),
              map
                  (deviation es fs)
                  (filter (λ k. float.below (float.ratio 1 1000) (gap es fs k)) types),
            )))
  unfolding compute_tvd
  compute_tvd-tally es fs =
      let b = freq float (tally es []) (length es) in
      let r = freq float (tally fs []) (length fs) in
      let types = all_types (tally es []) (tally fs []) in
      let summed =
        sum_over-added (λ k. float.apart (b k) (r k)) es fs (float.ratio 0 10) types
          (λ k. rw (freq-share es k, freq-share fs k) refl) in
      let listed = deviations_over-filter b r es fs types (freq-share es) (freq-share fs) in
      (
        all_types-occurs es fs,
        elim (Bool-cases (length es == 0 || length fs == 0)) [
          | inl empty ↦ rw empty refl
          | inr full ↦ rw (full, summed, listed) refl
        ],
      )
