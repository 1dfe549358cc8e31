-- ===== src/Workflow/Response/Paths.antt =====
-- langgraph_workflows/sentinels/graph.py: the ways that a run can take, and how it ends.
use dox.Prelude.{
  [], ◌∷◌, or_text, ℕ, ◌<◌, ◌≡◌, refl, ◌∙◌, ap, true, String, Option, none, some, List, filter,
  arith, inl, inr, ℕ_eq, String_eq,
}
use dox.Result.{Error, Result, ok, err, Result-cases}
use dox.Sql.{Sql}
use dox.Sentinel.{SentinelAlert}
use dox.Policy.{Policy, list_policies}
use dox.Audit.{record_checked}
use dox.Workflow.{Config, Reach, finish, run}
use dox.Workflow.Runs.{finish-Reach}
use dox.Workflow.Response.{
  Scene, Draw, Node, is_for, choose, load_alert, find_policy, loaded, route_after_load,
  route_after_policy, execute_action, resolve_with_default, outcome_of, record_outcome, act, route,
  response_graph,
}

-- Every edge leads to a node of lower rank.
rank : Node → ℕ
rank Node.load = 3
rank Node.find = 2
rank Node.execute = 1
rank Node.default = 1
rank Node.outcome = 0

module _ (sql : Sql) (parse_id : String → Result ℕ) (str_id : ℕ → String) (draw : Draw) where
  -- The state that a run leaves.
  abbrev pub respond : Scene → Scene
  respond = finish (response_graph sql parse_id str_id draw) 4

  route_falls :
      (n m : Node) (s : Scene) → route sql parse_id str_id draw n s ≡ some m → rank m < rank n
  unfolding rank
  route_falls Node.load m s h = ground arith
  route_falls Node.find m s h = ground arith
  route_falls Node.execute m s h = ground arith
  route_falls Node.default m s h = ground arith
  route_falls Node.outcome m s h = ground arith

  -- Whatever a run has reached, it goes on to the state that `respond` computes.
  reached :
      (s : Scene) (d : Config Node Scene)
      → Reach (response_graph sql parse_id str_id draw) (some Node.load, s) d
      → Reach (response_graph sql parse_id str_id draw) d (none, respond s)
  unfolding rank
  reached s d r =
      finish-Reach (response_graph sql parse_id str_id draw) rank route_falls 4 s (omega arith) d r

  abbrev pub load : Scene → Scene
  load = load_alert sql parse_id str_id draw

  abbrev judge : Scene → Scene
  judge = find_policy sql parse_id str_id draw

  -- An alert that cannot be loaded ends the run.
  pub respond_missing :
      (s : Scene) {e : Error}
      → loaded sql parse_id str_id draw s ≡ err e
      → respond s ≡ record s { state = record s.state { error = some e } }
  unfolding finish run act
  respond_missing s {e = e} h =
      let bad : load s ≡ record s { state = record s.state { error = some e } } =
        rw (load_alert, h) in
      ap
        (λ t.
          (run (response_graph sql parse_id str_id draw) 3 (route_after_load t.state.error, t)).1)
        bad

  -- The two ways of resolving the alert.
  abbrev pub settle : Option ℕ → Scene → Scene
  settle none = resolve_with_default sql parse_id str_id draw
  settle (some k) = execute_action sql parse_id str_id draw

  settled :
      (o : Option ℕ) (t : Scene)
      → (run (response_graph sql parse_id str_id draw) 2 (route_after_policy o, t)).1
        ≡ record_outcome sql parse_id str_id draw (settle o t)
  unfolding run act
  settled none t = refl
  settled (some k) t = refl

  -- An alert that is loaded is judged, resolved and recorded.
  respond-loaded :
      (s : Scene) {a : SentinelAlert}
      → loaded sql parse_id str_id draw s ≡ ok a
      → respond s
        ≡ record_outcome sql parse_id str_id draw
            (settle (judge (load s)).state.matched_policy_id (judge (load s)))
  unfolding finish run act
  respond-loaded s h =
      let fine : (load s).state.error ≡ none = rw (load_alert, h) in
      ap (λ o. (run (response_graph sql parse_id str_id draw) 3 (route_after_load o, load s)).1)
        fine
      ∙ settled (judge (load s)).state.matched_policy_id (judge (load s))

  or_text_same : (t : String) → or_text (some t) "" ≡ t
  or_text_same String.[] = refl
  or_text_same (String.◌∷◌ c t) = refl

  abbrev pub with_alert : SentinelAlert → Scene → Scene
  with_alert a s = record s {
    state = record s.state {
      alert_severity = some a.severity;
      alert_type = some a.sentinel_type;
      agent_id = some a.agent_id;
      error = none;
    };
  }

  load_found :
      (s : Scene) {a : SentinelAlert}
      → loaded sql parse_id str_id draw s ≡ ok a
      → load s ≡ with_alert a s
  unfolding load_alert
  load_found s h = rw h

  judge_found :
      (s : Scene) (a : SentinelAlert)
      → judge (with_alert a s) ≡ record (with_alert a s) {
        state =
            choose
              (filter
                (is_for a.sentinel_type)
                (list_policies sql s.state.tenant_id true s.policies))
              (with_alert a s).state;
      }
  unfolding find_policy
  judge_found s a = rw (or_text_same a.sentinel_type)

  abbrev pub chosen : List Policy → Scene → Scene
  chosen l t = record t { state = choose l t.state }

  -- The rest of a run, from the policies that the alert matches.
  pub respond_judged :
      (s : Scene) (a : SentinelAlert) (l : List Policy)
      → loaded sql parse_id str_id draw s ≡ ok a
      → filter (is_for a.sentinel_type) (list_policies sql s.state.tenant_id true s.policies) ≡ l
      → respond s
        ≡ record_outcome sql parse_id str_id draw
            (settle (chosen l (with_alert a s)).state.matched_policy_id (chosen l (with_alert a s)))
  respond_judged s a l h found =
      let same : judge (load s) ≡ chosen l (with_alert a s) =
        ap judge (load_found s h) ∙ (judge_found s a ∙ ap (λ m. chosen m (with_alert a s)) found) in
      respond-loaded s h
      ∙ ap (λ t. record_outcome sql parse_id str_id draw (settle t.state.matched_policy_id t)) same

  -- The state of an alert that is loaded, with the policy and the action that were found for it.
  abbrev judged : Option ℕ → Option String → SentinelAlert → Scene → Scene
  judged policy action a s =
      let t = with_alert a s in
      record t { state = record t.state { matched_policy_id = policy; action_taken = action } }

  -- With a policy the run executes its action, without one it resolves with a warning, and records either.
  abbrev pub Takes : List Policy → SentinelAlert → Scene → Scene → Type 0
  Takes [] a s t =
      t
      ≡ record_outcome sql parse_id str_id draw
          (resolve_with_default sql parse_id str_id draw (judged none none a s))
  Takes (p ∷ others) a s t =
      t
      ≡ record_outcome sql parse_id str_id draw
          (execute_action sql parse_id str_id draw (judged (some p.id) (some p.action) a s))

  -- An alert that is not loaded ends the run with the error.
  abbrev pub Way : Result SentinelAlert → Scene → Scene → Type 0
  Way (err e) s t = t ≡ record s { state = record s.state { error = some e } }
  Way (ok a) s t =
      Takes (filter (is_for a.sentinel_type) (list_policies sql s.state.tenant_id true s.policies))
        a s t

  takes :
      (s : Scene) (a : SentinelAlert) (l : List Policy)
      → loaded sql parse_id str_id draw s ≡ ok a
      → filter (is_for a.sentinel_type) (list_policies sql s.state.tenant_id true s.policies) ≡ l
      → Takes l a s (respond s)
  takes s a [] h found = respond_judged s a [] h found
  takes s a (p ∷ others) h found = respond_judged s a (p ∷ others) h found

  -- Whatever a run of the response has reached, it goes on to the one state that `respond` computes,
  -- and ends there. Where the alert is not loaded that is the state with the error; where no active policy
  -- of the tenant is for the alert's type it is resolved by default and recorded; else the action of the
  -- first such policy is executed and recorded.
  pub respond-Reach :
      (s : Scene) (d : Config Node Scene)
      → Reach (response_graph sql parse_id str_id draw) (some Node.load, s) d
      → Reach (response_graph sql parse_id str_id draw) d (none, respond s)
        × Way (loaded sql parse_id str_id draw s) s (respond s)
  respond-Reach s d r = (
    reached s d r,
    elim (Result-cases (loaded sql parse_id str_id draw s)) [
      | inl (a, e) ↦ rw e (
          takes s a
            (filter (is_for a.sentinel_type) (list_policies sql s.state.tenant_id true s.policies))
            e refl)
      | inr (x, e) ↦ rw e (respond_missing s e)
    ],
  )

  -- The last node changes the trail and, of the state, its entry or its error.
  pub record_outcome_keeps :
      (t : Scene)
      → ((record_outcome sql parse_id str_id draw t).alerts ≡ t.alerts)
        × ((record_outcome sql parse_id str_id draw t).policies ≡ t.policies)
        × ((record_outcome sql parse_id str_id draw t).state.resolved ≡ t.state.resolved)
  unfolding record_outcome
  record_outcome_keeps t =
      elim (Result-cases
        (record_checked draw.entry_id draw.created_at (outcome_of sql parse_id str_id draw t.state)
          t.trail).0) [ inl (entry, e) ↦ (refl, refl, rw e) | inr (x, e) ↦ (refl, refl, rw e) ]
