-- ===== src/Drift/Alerting.antt =====
-- services/drift/service.py: when an analysis stores an alert.
use dox.Prelude.{
  ℕ, ◌⊎◌, ◌≡◌, refl, sym, ap, ◌∙◌, Bool, true, false, ◌&&◌, ◌||◌, Option, none, some, List, [], ◌∷◌,
  length, if◌then◌else◌, ◌==◌, String_eq, arith, inl, inr, Bool-cases,
}
use dox.Result.{ok, Result-cases, ok-injective}
use dox.Events.{EventRecord}
use dox.Sql.{Sql, add}
use dox.Sql.Rows.{add-cases}
use dox.Sentinel.{SentinelAlert, SentinelAlertCreate, create_alert, new_alert}
use dox.Sentinel
use dox.Drift.{AgentBaseline, Counts, Float, tally, score_to_severity, get_active_baseline}
use dox.Drift.Analysis.{
  measured, recent, AnalyzeRequest, DriftReport, Draw, assess, alert_of, alert_on, report_on,
  analyze, with_alert,
}

module _ (float : Float) where
  -- The score reaches 0.4.
  abbrev pub is_high : float.Value → Bool
  is_high s = float.at_most (float.ratio 4 10) s

  -- A score that reaches 0.6 reaches 0.4.
  high-medium : (s : float.Value) → float.at_most (float.ratio 6 10) s ≡ true → is_high s ≡ true
  high-medium s h =
      float.at_most_trans (float.ratio 4 10) (float.ratio 6 10) s
        (float.tenths 4 6 (omega arith) (omega arith)) h

  -- The four severities, by whether the score reaches 0.4.
  pub score_to_severity-cases :
      (s : float.Value)
      → ((score_to_severity float s ≡ "high") × (is_high s ≡ true))
        ⊎ (((score_to_severity float s ≡ "medium") × (is_high s ≡ true))
            ⊎ (((score_to_severity float s ≡ "low") × (is_high s ≡ false))
                ⊎ ((score_to_severity float s ≡ "none") × (is_high s ≡ false))))
  unfolding score_to_severity
  score_to_severity-cases s = elim (Bool-cases (float.at_most (float.ratio 6 10) s)) [
    | inl high ↦ inl (rw high refl, high-medium s high)
    | inr under ↦ elim (Bool-cases (is_high s)) [
      | inl medium ↦ inr (inl (rw (under, medium) refl, medium))
      | inr low ↦ elim (Bool-cases (float.at_most (float.ratio 2 10) s)) [
        | inl some_drift ↦ inr (inr (inl (rw (under, low, some_drift) refl, low)))
        | inr no_drift ↦ inr (inr (inr (rw (under, low, no_drift) refl, low)))
      ]
    ]
  ]

  severe_score :
      (s : float.Value)
      → (score_to_severity float s == "medium" || score_to_severity float s == "high") ≡ is_high s
  severe_score s = elim (score_to_severity-cases s) [
    | inl h ↦ rw (h.0, h.1) refl
    | inr (inl h) ↦ rw (h.0, h.1) refl
    | inr (inr (inl h)) ↦ rw (h.0, h.1) refl
    | inr (inr (inr h)) ↦ rw (h.0, h.1) refl
  ]

  no_score : score_to_severity float (float.ratio 0 10) ≡ "none"
  unfolding score_to_severity
  no_score =
      rw
        (
          float.tenths 6 0 (omega arith) (omega arith),
          float.tenths 4 0 (omega arith) (omega arith),
          float.tenths 2 0 (omega arith) (omega arith),
        )
        refl

  -- What a report says of a score.
  abbrev Labels : float.Value → DriftReport float.Value → Type 0
  Labels score made =
      (made.severity ≡ score_to_severity float score) × (made.score ≡ float.round4 score)

  assess-Labels :
      (baseline : Option AgentBaseline) (counts : Counts) (total : ℕ)
      → Labels (measured float baseline counts total).0 (assess float baseline counts total)
  unfolding assess measured
  assess-Labels none counts total = (sym no_score, refl)
  assess-Labels (some b) counts total = (refl, refl)

module _ (sql : Sql) (has_sentinel : Bool) (float : Float) (draw : Draw) (request : AnalyzeRequest)
    (made : DriftReport float.Value) (alerts : List SentinelAlert) (score : float.Value)
    (label : Labels float score made) where
  alarm : (made.severity == "medium" || made.severity == "high") ≡ is_high float score
  alarm = rw label.0 (severe_score float score)

  alert_on_calm :
      (has_sentinel && is_high float score) ≡ false
      → alert_on sql has_sentinel float draw request made alerts ≡ (ok made, alerts)
  unfolding alert_on
  alert_on_calm calm = rw (alarm, calm) refl

  alert_on_raised :
      (has_sentinel && is_high float score) ≡ true
      → alert_on sql has_sentinel float draw request made alerts
        ≡ with_alert made (
            add Sentinel.clash
              (new_alert draw.alert_id draw.created_at
                (alert_of sql has_sentinel float request made))
              alerts)
  unfolding alert_on create_alert
  alert_on_raised raised = rw (alarm, raised) refl

-- What an analysis promises of the alerts before and after it, from its score.
module _ (sql : Sql) (has_sentinel : Bool) (float : Float) (draw : Draw) (request : AnalyzeRequest)
    (alerts alerts' : List SentinelAlert) (report : DriftReport float.Value)
    (score : float.Value) where
  abbrev pub Alerted : Type 0
  Alerted =
      (report.severity ≡ score_to_severity float score)
      × (report.score ≡ float.round4 score)
      × (report.alert_created ≡ (has_sentinel && is_high float score))
      × (alerts' ≡ (
          if report.alert_created
          then new_alert draw.alert_id draw.created_at
              (alert_of sql has_sentinel float request report)
            ∷ alerts
          else alerts))

  alert_on-Alerted :
      (made : DriftReport float.Value)
      → Labels float score made
      → made.alert_created ≡ false
      → alert_on sql has_sentinel float draw request made alerts ≡ (ok report, alerts')
      → Alerted
  alert_on-Alerted made label quiet h = elim (Bool-cases (has_sentinel && is_high float score)) [
    | inr calm ↦
        let kept : (ok made, alerts) ≡ (ok report, alerts') =
          sym (alert_on_calm sql has_sentinel float draw request made alerts score label calm)
          ∙ h in
        let same : made ≡ report = ok-injective (ap (λ x. x.0) kept) in
        let rows : alerts ≡ alerts' = ap (λ x. x.1) kept in
        rw (← same, ← rows, quiet, calm) (label.0, label.1, refl, refl)
    | inl raised ↦
        let new : SentinelAlert =
          new_alert draw.alert_id draw.created_at (alert_of sql has_sentinel float request made) in
        let step =
          alert_on_raised sql has_sentinel float draw request made alerts score label raised in
        elim (add-cases Sentinel.clash new alerts) [
          | inl taken ↦ absurd (ground (arith, step, taken.1))
          | inr stored ↦
              let kept : (ok (record made { alert_created = true }), new ∷ alerts)
                  ≡ (ok report, alerts') =
                sym (step ∙ ap (with_alert made) stored.1) ∙ h in
              let same = ok-injective (ap (λ x. x.0) kept) in
              let rows = ap (λ x. x.1) kept in
              rw (← same, ← rows, raised) (label.0, label.1, refl, unfold alert_of in refl)
        ]
  ]

-- The score of an analysis before it is rounded, for the baseline that it found.
abbrev pub score_of :
    (sql : Sql) (has_sentinel : Bool) (float : Float)
    → Draw
    → AnalyzeRequest
    → List EventRecord
    → Option AgentBaseline
    → float.Value
score_of sql has_sentinel float draw request events baseline =
    let seen = recent sql has_sentinel float draw request events in
    (measured float baseline (tally seen []) (length seen)).0

-- An analysis that returns has stored an alert exactly when the service has a sentinel and the score
-- for the active baseline, before it is rounded, reaches 0.4: the alert is the newest row, and no other
-- row changed. The report says whether one was stored; its severity is that of the score before it is
-- rounded, and its score is the rounded one.
pub analyze-alerts :
    (sql : Sql) (has_sentinel : Bool) (float : Float) (draw : Draw) (request : AnalyzeRequest)
    (events : List EventRecord) (baselines : List AgentBaseline)
    (alerts alerts' : List SentinelAlert) (report : DriftReport float.Value)
    → analyze sql has_sentinel float draw request events baselines alerts ≡ (ok report, alerts')
    → (baseline : Option AgentBaseline) × (get_active_baseline sql request.tenant_id
          request.agent_id baselines
        ≡ ok baseline)
      × Alerted sql has_sentinel float draw request alerts alerts' report
          (score_of sql has_sentinel float draw request events baseline)
unfolding analyze report_on
analyze-alerts sql has_sentinel float draw request events baselines alerts alerts' report h =
    elim (Result-cases (get_active_baseline sql request.tenant_id request.agent_id baselines)) [
      | inr (e, bad) ↦ absurd (ground arith)
      | inl (baseline, found) ↦
          let seen = recent sql has_sentinel float draw request events in
          let made = assess float baseline (tally seen []) (length seen) in
          let label = assess-Labels float baseline (tally seen []) (length seen) in
          (
            baseline,
            found,
            alert_on-Alerted sql has_sentinel float draw request alerts alerts' report
                (score_of sql has_sentinel float draw request events baseline) made label
                (unfold assess in refl) (ground arith),
          )
    ]
