-- ===== src/Adapters/Metrics.antt =====
-- common/adapters/metrics.py: the metrics in memory. A gauge or histogram has values of any type, where
-- the code has floats, and a counter starts from 0. Tags are accepted and not used, so they are left out.
use mathlib.Core.List.{append-nil, append_assoc}
use dox.Prelude.{
  ℤ, pos, ◌+ℤ◌, +ℤ_assoc, +ℤ_zero, zero_+ℤ, sym, ◌∙◌, ap, ◌≡◌, refl, String, Option, none, some,
  List, [], ◌∷◌, ◌++◌, arith, if◌then◌else◌, ◌==◌, String_eq, eq_iff, Bool-cases, inl, inr,
}
use dox.Adapters.{
  value_at, update_at, value_at-update_at, increment, get_counter, get_counter-increment,
}

module _ {V : Type 0} where
  -- `self._gauges.get(name)`
  unfoldable pub lookup : String → List (String × V) → Option V
  lookup k [] = none
  lookup k ((j, v) ∷ d) = if j == k then some v else lookup k d

  unfoldable pub assign : String → V → List (String × V) → List (String × V)
  assign k v [] = (k, v) ∷ []
  assign k v ((j, w) ∷ d) = if j == k then (j, v) ∷ d else (j, w) ∷ assign k v d

  lookup-assign :
      (k j : String) (v : V) (d : List (String × V))
      → lookup j (assign k v d) ≡ (if k == j then some v else lookup j d)
  unfolding lookup assign
  lookup-assign k j v [] = ground arith
  lookup-assign k j v ((i, w) ∷ d) =
      ground (arith, eq_iff k j, eq_iff i k, eq_iff i j, lookup-assign k j v d)

pub record Metrics (V : Type 0) : Type 0 where
  pub counters : List (String × ℤ)
  pub gauges : List (String × V)
  pub histograms : List (String × List V)

pub data Call (V : Type 0) : Type 0 where
  count_up : String → ℤ → Call V
  set_gauge : String → V → Call V
  observe : String → V → Call V

module _ {V : Type 0} where
  -- `clear`; a new adapter is as a cleared one.
  unfoldable pub clear : Metrics V → Metrics V
  clear m = record { counters = []; gauges = []; histograms = [] }

  unfoldable pub gauge : String → V → Metrics V → Metrics V
  unfolding assign
  gauge name value m = record m { gauges = assign name value m.gauges }

  unfoldable pub histogram : String → V → Metrics V → Metrics V
  unfolding update_at
  histogram name value m = record m {
    histograms = update_at [] name (λ l. l ++ value ∷ []) m.histograms;
  }

  unfoldable pub get_gauge : String → Metrics V → Option V
  unfolding lookup
  get_gauge name m = lookup name m.gauges

  unfoldable pub get_histogram : String → Metrics V → List V
  unfolding value_at
  get_histogram name m = value_at [] name m.histograms

  unfoldable pub perform : Call V → Metrics V → Metrics V
  unfolding increment gauge histogram
  perform (Call.count_up name value) m = record m { counters = increment name value m.counters }
  perform (Call.set_gauge name value) m = gauge name value m
  perform (Call.observe name value) m = histogram name value m

  unfoldable pub perform_all : List (Call V) → Metrics V → Metrics V
  unfolding perform
  perform_all [] m = m
  perform_all (c ∷ cs) m = perform_all cs (perform c m)

  -- What the calls with one name come to.
  unfoldable pub total : String → List (Call V) → ℤ
  total name [] = pos 0
  total name (Call.count_up n value ∷ cs) =
      if n == name then value +ℤ total name cs else total name cs
  total name (Call.set_gauge n value ∷ cs) = total name cs
  total name (Call.observe n value ∷ cs) = total name cs

  unfoldable pub last_set : String → Option V → List (Call V) → Option V
  last_set name old [] = old
  last_set name old (Call.count_up n value ∷ cs) = last_set name old cs
  last_set name old (Call.set_gauge n value ∷ cs) =
      if n == name then last_set name (some value) cs else last_set name old cs
  last_set name old (Call.observe n value ∷ cs) = last_set name old cs

  unfoldable pub observed : String → List (Call V) → List V
  observed name [] = []
  observed name (Call.count_up n value ∷ cs) = observed name cs
  observed name (Call.set_gauge n value ∷ cs) = observed name cs
  observed name (Call.observe n value ∷ cs) =
      if n == name then value ∷ observed name cs else observed name cs

  get_counter-perform_all :
      (name : String) (cs : List (Call V)) (m : Metrics V)
      → get_counter name (perform_all cs m).counters ≡ get_counter name m.counters +ℤ total name cs
  unfolding perform_all perform total gauge histogram
  get_counter-perform_all name [] m = sym (+ℤ_zero (get_counter name m.counters))
  get_counter-perform_all name (Call.count_up n value ∷ cs) m =
      get_counter-perform_all name cs (perform (Call.count_up n value) m)
      ∙ elim (Bool-cases (n == name)) [
        | inl same ↦
            let k : n ≡ name = (eq_iff n name).0 same in
            rw (get_counter-increment n name value m.counters, same, k)
              (+ℤ_assoc (get_counter name m.counters) value (total name cs))
        | inr other ↦ rw (get_counter-increment n name value m.counters, other) refl
      ]
  get_counter-perform_all name (Call.set_gauge n value ∷ cs) m =
      get_counter-perform_all name cs (perform (Call.set_gauge n value) m)
  get_counter-perform_all name (Call.observe n value ∷ cs) m =
      get_counter-perform_all name cs (perform (Call.observe n value) m)

  get_gauge-perform_all :
      (name : String) (cs : List (Call V)) (m : Metrics V)
      → get_gauge name (perform_all cs m) ≡ last_set name (get_gauge name m) cs
  unfolding perform_all perform last_set gauge histogram get_gauge
  get_gauge-perform_all name [] m = refl
  get_gauge-perform_all name (Call.count_up n value ∷ cs) m =
      get_gauge-perform_all name cs (perform (Call.count_up n value) m)
  get_gauge-perform_all name (Call.set_gauge n value ∷ cs) m =
      let later = get_gauge-perform_all name cs (perform (Call.set_gauge n value) m) in
      elim (Bool-cases (n == name)) [
        | inl e ↦ later ∙ rw (lookup-assign n name value m.gauges, e) refl
        | inr e ↦ later ∙ rw (lookup-assign n name value m.gauges, e) refl
      ]
  get_gauge-perform_all name (Call.observe n value ∷ cs) m =
      get_gauge-perform_all name cs (perform (Call.observe n value) m)

  get_histogram-perform_all :
      (name : String) (cs : List (Call V)) (m : Metrics V)
      → get_histogram name (perform_all cs m) ≡ get_histogram name m ++ observed name cs
  unfolding perform_all perform observed gauge histogram get_histogram
  get_histogram-perform_all name [] m = sym (append-nil (get_histogram name m))
  get_histogram-perform_all name (Call.count_up n value ∷ cs) m =
      get_histogram-perform_all name cs (perform (Call.count_up n value) m)
  get_histogram-perform_all name (Call.set_gauge n value ∷ cs) m =
      get_histogram-perform_all name cs (perform (Call.set_gauge n value) m)
  get_histogram-perform_all name (Call.observe n value ∷ cs) m =
      let later = get_histogram-perform_all name cs (perform (Call.observe n value) m) in
      let now = value_at-update_at [] n name (λ l. l ++ value ∷ []) m.histograms in
      elim (Bool-cases (n == name)) [
        | inl e ↦
            later
            ∙ rw (now, e)
                (append_assoc (get_histogram n m) (value ∷ []) (observed name cs)
                  ∙ ap (λ k. get_histogram k m ++ value ∷ observed name cs) ((eq_iff n name).0 e))
        | inr e ↦ later ∙ rw (now, e) refl
      ]

  -- After a clear, and so in a new adapter, a counter is the sum of what was added to it, a gauge is the
  -- last value that it was given, and none where it was given none, and a histogram is the values that were
  -- observed, in order; calls with another name change none of them.
  pub get_counter-perform_all-clear :
      (name : String) (cs : List (Call V)) (m : Metrics V)
      → (get_counter name (perform_all cs (clear m)).counters ≡ total name cs)
        × (get_gauge name (perform_all cs (clear m)) ≡ last_set name none cs)
        × (get_histogram name (perform_all cs (clear m)) ≡ observed name cs)
  unfolding clear get_gauge get_histogram get_counter value_at lookup
  get_counter-perform_all-clear name cs m =
      let counted = get_counter-perform_all name cs (clear m) in
      (
        counted ∙ zero_+ℤ (total name cs),
        get_gauge-perform_all name cs (clear m),
        get_histogram-perform_all name cs (clear m),
      )
