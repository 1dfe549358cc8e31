-- ===== src/Drift.antt =====
-- services/drift/service.py and common/models/baseline.py: baselines of an agent's events and the
-- distance of its recent events from them. The arithmetic of floats is a parameter.
pub mod Decimals
pub mod Distance
pub mod Baselines
pub mod Analysis
pub mod Alerting
mod Tests
use Prim.Native.String.{compare}
use Prim.Native.Nat.{Ordering}
use dox.Prelude.{
  ◌≡◌, ℕ, ◌+◌, ◌-◌, ◌*◌, ◌≤◌, Bool, true, false, ◌&&◌, ◌||◌, String, Option, none, some, List, [],
  ◌∷◌, ◌++◌, map, any, filter, length, min, if◌then◌else◌, leb, ltb, not, ◌==◌, ℕ_eq, String_eq,
}
use dox.Result.{Result, ok, err, Exec, ◌>>=◌, pure}
use dox.Clock.{hour}
use dox.Sorting.{sort}
use dox.Enums.{SentinelType, Severity}
use dox.Events.{EventRecord}
use dox.Json.{Json, obj, end}
use dox.Sql.{Sql, get, change, add, page}
use dox.Adapters.{value_at, update_at}
use dox.Sentinel.{matches}

-- A dictionary from event types to their numbers.
abbrev pub Counts : Type 0
Counts = List (String × ℕ)

pub record AgentBaseline : Type 0 where
  pub id : ℕ
  pub tenant_id : String
  pub agent_id : String
  pub lookback_hours : ℕ
  pub event_counts : Counts
  pub total_events : ℕ
  pub computed_at : ℕ
  pub is_active : Bool

pub record BaselineCreate : Type 0 where
  pub tenant_id : String
  pub agent_id : String
  pub lookback_hours : ℕ

-- Python's float, which is outside the repository. `ratio a b` is `a / b` of two integers; as it rounds
-- correctly it is also what a literal stands for, 0.6 being `ratio 6 10`.
pub record Float : Type 1 where
  pub Value : Type 0
  pub ratio : ℕ → ℕ → Value
  pub plus : Value → Value → Value
  -- `abs(x - y)`, `x / 2.0` and `round(x, 4)`
  pub apart : Value → Value → Value
  pub half : Value → Value
  pub round4 : Value → Value
  -- `x <= y` and `x < y`
  pub at_most : Value → Value → Bool
  pub below : Value → Value → Bool
  -- The number in a document of JSON, and formatted with `.4f`.
  pub to_json : Value → Json
  pub to_text : Value → String
  pub at_most_trans : (x y z : Value) → at_most x y ≡ true → at_most y z ≡ true → at_most x z ≡ true
  -- The literals 0.0, 0.1, ... 1.0 are in this order.
  pub tenths : (a b : ℕ) → a ≤ 10 → b ≤ 10 → at_most (ratio a 10) (ratio b 10) ≡ leb a b

pub record EventTypeDeviation (V : Type 0) : Type 0 where
  pub event_type : String
  pub baseline_freq : V
  pub recent_freq : V
  pub delta : V

-- `counts[e.event_type] = counts.get(e.event_type, 0) + 1` for each event.
unfoldable pub tally : List EventRecord → Counts → Counts
unfolding update_at
tally [] counts = counts
tally (e ∷ events) counts = tally events (update_at 0 e.event_type (λ n. n + 1) counts)

-- The elements of a set, each once.
unfoldable pub nub : List String → List String
nub [] = []
nub (k ∷ ks) = let rest = nub ks in if any (λ j. k == j) rest then rest else k ∷ rest

abbrev pub text_le : String → String → Bool
text_le s t = elim (compare s t) [ Ordering.gt ↦ false | _ ↦ true ]

-- `sorted(set(baseline_counts) | set(recent_counts))`
unfoldable pub all_types : Counts → Counts → List String
unfolding nub sort
all_types baseline recent = sort text_le (nub (map (λ e. e.0) baseline ++ map (λ e. e.0) recent))

module _ (float : Float) where
  -- `_score_to_severity`: the first threshold that the score reaches. The last one is "none" too.
  unfoldable pub score_to_severity : float.Value → String
  score_to_severity s =
      if float.at_most (float.ratio 6 10) s
      then "high"
      else if float.at_most (float.ratio 4 10) s
      then "medium"
      else if float.at_most (float.ratio 2 10) s
      then "low"
      else "none"

  -- `tvd += f(et)` for each type.
  unfoldable pub sum_over : (String → float.Value) → float.Value → List String → float.Value
  sum_over f tvd [] = tvd
  sum_over f tvd (et ∷ types) = sum_over f (float.plus tvd (f et)) types

  -- `min(x, 1.0)`
  abbrev pub capped : float.Value → float.Value
  capped x = if float.below (float.ratio 10 10) x then float.ratio 10 10 else x

  -- `counts.get(et, 0) / total`
  abbrev pub freq : Counts → ℕ → String → float.Value
  freq counts total et = float.ratio (value_at 0 et counts) total

  -- What the loop makes of the frequencies of the types.
  unfoldable pub deviations_over :
      (String → float.Value)
      → (String → float.Value)
      → List String
      → List (EventTypeDeviation float.Value)
  deviations_over b_freq r_freq [] = []
  deviations_over b_freq r_freq (et ∷ types) =
      let rest = deviations_over b_freq r_freq types in
      if float.below (float.ratio 1 1000) (float.apart (b_freq et) (r_freq et))
      then record {
        event_type = et;
        baseline_freq = float.round4 (b_freq et);
        recent_freq = float.round4 (r_freq et);
        delta = float.round4 (float.apart (b_freq et) (r_freq et));
      }
        ∷ rest
      else rest

  -- `_compute_tvd`: half the sum of the differences, at most 1.
  unfoldable pub compute_tvd :
      Counts → ℕ → Counts → ℕ → float.Value × List (EventTypeDeviation float.Value)
  unfolding all_types sum_over deviations_over
  compute_tvd b b_total r r_total =
      let b_freq = freq b b_total in
      let r_freq = freq r r_total in
      let types = all_types b r in
      if b_total == 0 || r_total == 0 then (float.ratio 0 10, []) else (
        capped (
            float.half
              (sum_over (λ et. float.apart (b_freq et) (r_freq et)) (float.ratio 0 10) types)),
        deviations_over b_freq r_freq types,
      )

-- The events of an agent since an instant.
abbrev pub is_recent : String → String → ℕ → EventRecord → Bool
is_recent tenant agent since e =
    e.tenant_id == tenant && (e.agent_id == agent && leb since e.timestamp)

abbrev pub active_for : String → String → AgentBaseline → Bool
active_for tenant agent b = b.tenant_id == tenant && (b.agent_id == agent && b.is_active)

abbrev pub switched_off : AgentBaseline → AgentBaseline
switched_off b = record b { is_active = false }

-- `old.is_active = False` for each row that the query returned, flushed with the next commit.
unfoldable pub deactivate_each : List AgentBaseline → List AgentBaseline → List AgentBaseline
deactivate_each [] rows = rows
deactivate_each (old ∷ olds) rows =
    deactivate_each olds (map (λ r. if r.id == old.id then switched_off r else r) rows)

abbrev pub clash : AgentBaseline → AgentBaseline → Bool
clash a b = b.id == a.id

-- What a call draws: an identifier, and three readings of the clock.
pub record Draw : Type 0 where
  pub fresh : ℕ
  pub since_now : ℕ
  pub now : ℕ

module _ (sql : Sql) where
  unfoldable pub new_baseline : Draw → BaselineCreate → List EventRecord → AgentBaseline
  unfolding tally
  new_baseline draw create events =
      let since = draw.since_now - create.lookback_hours * hour in
      let seen =
        sql.order_asc EventRecord (λ e. e.timestamp)
          (sql.select EventRecord (is_recent create.tenant_id create.agent_id since) events) in
      record {
        id = draw.fresh;
        tenant_id = create.tenant_id;
        agent_id = create.agent_id;
        lookback_hours = create.lookback_hours;
        event_counts = tally seen [];
        total_events = length seen;
        computed_at = draw.now;
        is_active = true;
      }

  -- One commit writes the old rows and the new one, or raises and writes neither.
  unfoldable pub compute_baseline :
      Draw → BaselineCreate → List EventRecord → Exec (List AgentBaseline) AgentBaseline
  compute_baseline draw create events rows =
      let olds = sql.select AgentBaseline (active_for create.tenant_id create.agent_id) rows in
      let new = new_baseline draw create events in
      elim (add clash new (deactivate_each olds rows)).0 [
        | ok b ↦ (ok b, (add clash new (deactivate_each olds rows)).1)
        | err e ↦ (err e, rows)
      ]

  unfoldable pub get_baseline : ℕ → List AgentBaseline → Result AgentBaseline
  unfolding get
  get_baseline baseline_id = get sql (λ b. b.id) baseline_id

  unfoldable pub deactivate_baseline : ℕ → Exec (List AgentBaseline) AgentBaseline
  unfolding change
  deactivate_baseline baseline_id = change sql (λ b. b.id) baseline_id switched_off

  unfoldable pub get_active_baseline :
      String → String → List AgentBaseline → Result (Option AgentBaseline)
  get_active_baseline tenant agent rows = sql.scalar_one_or_none AgentBaseline (
      page 1 0 (
        sql.order_desc AgentBaseline (λ b. b.computed_at)
          (sql.select AgentBaseline (active_for tenant agent) rows)))

  unfoldable pub list_baselines :
      String → Option String → Bool → List AgentBaseline → List AgentBaseline
  list_baselines tenant agent active_only rows =
      sql.order_desc AgentBaseline (λ b. b.computed_at)
        (sql.select AgentBaseline
          (λ b.
            b.tenant_id == tenant
            && (matches (λ a. b.agent_id == a) agent && (not active_only || b.is_active)))
          rows)
