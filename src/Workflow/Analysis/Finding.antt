-- ===== src/Workflow/Analysis/Finding.antt =====
-- langgraph_workflows/drift_analysis/graph.py: what is recorded, against the alerts of the analysis.
use mathlib.Core.Path.{subst}
use Prim.Native.String.{count as characters}
use dox.Prelude.{
  length, Option, ◌≤◌, ◌≡◌, refl, sym, ◌∙◌, ap, Bool, true, false, none, some, List, ◌∷◌, All, inl,
  inr, ◌==◌, ℕ_eq, String_eq,
}
use dox.Result.{ok}
use dox.Sql.{Sql}
use dox.Sentinel.{SentinelAlert}
use dox.Drift.{AgentBaseline, get_active_baseline, Float, score_to_severity}
use dox.Drift.Analysis.{AnalyzeRequest, DriftReport, analyze}
use dox.Drift.Alerting.{Alerted, is_high, score_to_severity-cases, score_of, analyze-alerts}
use dox.Json.{str, num, member}
use dox.Audit.{AuditEntry, new_entry}
use dox.Audit.Trail.{record_checked_fresh}
use dox.Workflow.{Graph, finish, run}
use dox.Workflow.Analysis.{
  AnalysisState, Scene, Draw, Node, request_of, on_analysis, is_severe, route_after_analysis,
  analyzed, analyze_drift, finding_of, record_finding, act, analysis_graph,
}

-- `critical` is no severity of a score, so the route asks what the sentinel's part asks.
severe_finding :
    (float : Float) (s : float.Value) → is_severe (score_to_severity float s) ≡ is_high float s
severe_finding float s = elim (score_to_severity-cases float s) [
  | inl h ↦ rw (h.0, h.1) refl
  | inr (inl h) ↦ rw (h.0, h.1) refl
  | inr (inr (inl h)) ↦ rw (h.0, h.1) refl
  | inr (inr (inr h)) ↦ rw (h.0, h.1) refl
]

module _ (sql : Sql) (has_sentinel : Bool) (float : Float) (draw : Draw) where
  abbrev graph : Graph Node (Scene float.Value)
  graph = analysis_graph sql has_sentinel float true draw

  -- The state that a run leaves, with an audit service.
  abbrev pub found : Scene float.Value → Scene float.Value
  found = finish graph 2

  -- The state after the analysis.
  abbrev pub reported :
      Scene float.Value → DriftReport float.Value → List SentinelAlert → Scene float.Value
  reported s report alerts = record s { state = on_analysis (ok report) s.state; alerts = alerts }

  analyze_drift_lem :
      (s : Scene float.Value) (request : AnalyzeRequest) (report : DriftReport float.Value)
      (alerts : List SentinelAlert)
      → request_of s.state ≡ ok request
      → analyze sql has_sentinel float draw.analysis request s.events s.baselines s.alerts
        ≡ (ok report, alerts)
      → analyze_drift sql has_sentinel float true draw s ≡ reported s report alerts
  unfolding analyze_drift analyzed
  analyze_drift_lem s request report alerts valid h = rw (valid, h) refl

  -- The state has the report.
  abbrev pub HasReport : DriftReport float.Value → AnalysisState float.Value → Type 0
  HasReport report s =
      (s.drift_score ≡ some report.score)
      × (s.severity ≡ some report.severity)
      × (s.deviations_count ≡ length report.deviations)
      × (s.alert_created ≡ report.alert_created)

  -- The entry names the agent and the report.
  abbrev pub Finds : Scene float.Value → DriftReport float.Value → AuditEntry → Type 0
  Finds s report e =
      (e.action ≡ "drift_detected")
      × (e.tenant_id ≡ s.state.tenant_id)
      × (e.resource_id ≡ s.state.agent_id)
      × (member "drift_score" e.extra ≡ some (float.to_json report.score))
      × (member "severity" e.extra ≡ some (str report.severity))
      × (member "deviations_count" e.extra ≡ some (num (length report.deviations)))

  -- What a run records of a report.
  abbrev pub Recorded :
      Scene float.Value
      → DriftReport float.Value
      → List SentinelAlert
      → Bool
      → Scene float.Value
      → Type 0
  Recorded s report alerts false t = HasReport report t.state × (t ≡ reported s report alerts)
  Recorded s report alerts true t =
      HasReport report t.state
      × (t.alerts ≡ alerts)
      × ((e : AuditEntry) × (t.trail ≡ e ∷ s.trail)
          × Finds s report e
          × (t.state.audit_entry_id ≡ some e.id))

  settled :
      (s : Scene float.Value) (report : DriftReport float.Value) (alerts : List SentinelAlert)
      (b : Bool)
      → is_severe report.severity ≡ b
      → 1 ≤ characters s.state.agent_id
      → characters s.state.agent_id ≤ 255
      → All (λ e. (e.id == draw.entry_id) ≡ false) s.trail
      → Recorded s report alerts b
          (run graph 1
            (route_after_analysis none (some report.severity), reported s report alerts)).1
  unfolding run act record_finding new_entry finding_of member
  settled s report alerts false calm low high fresh = rw calm ((refl, refl, refl, refl), refl)
  settled s report alerts true severe low high fresh =
      let done =
        record_checked_fresh draw.entry_id draw.created_at
          (finding_of sql has_sentinel float true draw (reported s report alerts).state) s.trail low
          high fresh in
      rw (severe, done)
        (
          (refl, refl, refl, refl),
          refl,
          (
            new_entry draw.entry_id draw.created_at
                (finding_of sql has_sentinel float true draw (reported s report alerts).state),
            refl,
            (refl, refl, refl, refl, refl, refl),
            refl,
          ),
        )

  -- Where the request is valid, its analysis returns, the agent's name has between 1 and 255 characters
  -- and the entry's identifier is fresh, a run with an audit service adds an entry exactly when the
  -- score for the active baseline, before it is rounded, reaches 0.4, and the analysis has stored an alert
  -- exactly when besides the service has a sentinel; the state has the report's score, severity, number of
  -- deviations and whether an alert was stored, and the entry names the agent, the score, the severity
  -- and that number. Without an entry a run only writes the report to its state.
  pub found-Recorded :
      (s : Scene float.Value) (request : AnalyzeRequest) (report : DriftReport float.Value)
      (alerts : List SentinelAlert)
      → request_of s.state ≡ ok request
      → analyze sql has_sentinel float draw.analysis request s.events s.baselines s.alerts
        ≡ (ok report, alerts)
      → 1 ≤ characters s.state.agent_id
      → characters s.state.agent_id ≤ 255
      → All (λ e. (e.id == draw.entry_id) ≡ false) s.trail
      → (baseline : Option AgentBaseline) × (get_active_baseline sql request.tenant_id
            request.agent_id s.baselines
          ≡ ok baseline)
        × (let score = score_of sql has_sentinel float draw.analysis request s.events baseline in
            Recorded s report alerts (is_high float score) (found s)
            × Alerted sql has_sentinel float draw.analysis request s.alerts alerts report score)
  unfolding finish run act
  found-Recorded s request report alerts valid h low high fresh =
      let (baseline, active, alerted) =
        analyze-alerts sql has_sentinel float draw.analysis request s.events s.baselines s.alerts
          alerts report h in
      let score = score_of sql has_sentinel float draw.analysis request s.events baseline in
      let after = analyze_drift_lem s request report alerts valid h in
      let severe : is_severe report.severity ≡ is_high float score =
        ap (λ x. is_severe x) alerted.0 ∙ severe_finding float score in
      let path : found s
          ≡ (run graph 1
              (route_after_analysis none (some report.severity), reported s report alerts)).1 =
        ap (λ t. (run graph 1 (route_after_analysis t.state.error t.state.severity, t)).1) after in
      (
        baseline,
        active,
        (
          subst (Recorded s report alerts (is_high float score)) (sym path)
              (settled s report alerts (is_high float score) severe low high fresh),
          alerted,
        ),
      )
