-- ===== src/Workflow/Response/Trail.antt =====
-- langgraph_workflows/sentinels/graph.py: the entry that a run adds to the trail.
use Prim.Native.String.{count as characters}
use dox.Prelude.{
  ℕ, ◌≤◌, ◌≡◌, refl, sym, ◌∙◌, true, false, String, Option, none, some, List, [], ◌∷◌, All, filter,
  inl, inr, ◌==◌, ℕ_eq, String_eq,
}
use dox.Sentinel.{SentinelAlert}
use dox.Result.{Result, ok, err, Result-cases}
use dox.Enums.{InterventionAction}
use dox.Sql.{Sql}
use dox.Policy.{Policy, list_policies}
use dox.Audit.{AuditEntry, new_entry}
use dox.Json.{Json, null, str, bool, member}
use dox.Workflow.Response.Paths.{
  respond, with_alert, chosen, settle, respond_judged, respond_missing,
}
use dox.Workflow.Response.{
  ResponseState, str_or_null, Scene, Draw, is_for, resolve, loaded, apply_action, execute_action,
  resolve_with_default, outcome_of, record_outcome,
}
use mathlib.Core.Path.{subst}
use dox.Audit.Trail.{record_checked_fresh}

module _ (sql : Sql) (parse_id : String → Result ℕ) (str_id : ℕ → String) (draw : Draw) where
  -- What the nodes before the last one leave alone.
  chosen_keeps :
      (l : List Policy) (t : Scene)
      → ((chosen sql parse_id str_id draw l t).trail ≡ t.trail)
        × ((chosen sql parse_id str_id draw l t).state.alert_id ≡ t.state.alert_id)
  chosen_keeps [] t = (refl, refl)
  chosen_keeps (p ∷ l) t = (refl, refl)

  settle_keeps :
      (o : Option ℕ) (t : Scene)
      → ((settle sql parse_id str_id draw o t).trail ≡ t.trail)
        × ((settle sql parse_id str_id draw o t).state.alert_id ≡ t.state.alert_id)
  unfolding resolve_with_default execute_action
  settle_keeps none t =
      elim (Result-cases
        (resolve sql parse_id str_id draw t.state.alert_id InterventionAction.warn t.alerts).0) [
          | inl (a, e) ↦ (refl, rw e)
          | inr (x, e) ↦ (refl, rw e)
        ]
  settle_keeps (some k) t =
      elim (Result-cases (apply_action sql parse_id str_id draw t.state t.alerts).0) [
        | inl (a, e) ↦ (refl, rw e)
        | inr (x, e) ↦ (refl, rw e)
      ]

  abbrev policy_json : Option ℕ → Json
  policy_json none = null
  policy_json (some k) = str (str_id k)

  -- What an entry says of a state.
  abbrev pub Describes : ResponseState → AuditEntry → Type 0
  Describes s e =
      (e.action ≡ "sentinel_response_applied")
      × (e.tenant_id ≡ s.tenant_id)
      × (e.resource_type ≡ "sentinel_alert")
      × (e.resource_id ≡ s.alert_id)
      × (member "alert_severity" e.extra ≡ some (str_or_null s.alert_severity))
      × (member "alert_type" e.extra ≡ some (str_or_null s.alert_type))
      × (member "policy_id" e.extra ≡ some (policy_json s.matched_policy_id))
      × (member "action_taken" e.extra ≡ some (str_or_null s.action_taken))
      × (member "resolved" e.extra ≡ some (bool s.resolved))

  -- One entry was added, and it describes the state.
  abbrev pub IsRecorded : Scene → Scene → Type 0
  IsRecorded s t =
      (e : AuditEntry) × (t.trail ≡ e ∷ s.trail)
      × Describes t.state e
      × (t.state.audit_entry_id ≡ some e.id)

  describes :
      (t : ResponseState) (o : Option ℕ)
      → t.matched_policy_id ≡ o
      → Describes t
          (new_entry draw.entry_id draw.created_at (outcome_of sql parse_id str_id draw t))
  unfolding new_entry outcome_of member
  describes t none h = (refl, refl, refl, refl, refl, refl, rw h refl, refl, refl)
  describes t (some k) h = (refl, refl, refl, refl, refl, refl, rw h refl, refl, refl)

  record_outcome-IsRecorded :
      (s t : Scene)
      → t.trail ≡ s.trail
      → t.state.alert_id ≡ s.state.alert_id
      → 1 ≤ characters s.state.alert_id
      → characters s.state.alert_id ≤ 255
      → All (λ e. (e.id == draw.entry_id) ≡ false) s.trail
      → IsRecorded s (record_outcome sql parse_id str_id draw t)
  unfolding record_outcome new_entry outcome_of
  record_outcome-IsRecorded s t trail id low high fresh =
      let done =
        record_checked_fresh draw.entry_id draw.created_at
          (outcome_of sql parse_id str_id draw t.state) s.trail (rw id low) (rw id high) fresh in
      let entry =
        new_entry draw.entry_id draw.created_at (outcome_of sql parse_id str_id draw t.state) in
      (
        entry,
        rw (trail, done) refl,
        rw (trail, done) (describes t.state t.state.matched_policy_id refl),
        rw (trail, done) refl,
      )

  -- What a run leaves, by what the loading of the alert says.
  abbrev pub Concludes : Result SentinelAlert → Scene → Scene → Type 0
  Concludes (ok a) s t = IsRecorded s t
  Concludes (err e) s t = t ≡ record s { state = record s.state { error = some e } }

  -- Where the alert's identifier has between 1 and 255 characters and the new entry's identifier is fresh:
  -- if the alert is loaded a run adds one entry to the trail, whether or not the alert could be resolved,
  -- and the entry has the tenant, the alert, its severity and type, the policy, the action and whether it
  -- is resolved from the state that the run leaves; if the alert is not loaded a run changes nothing but
  -- the error in its state.
  pub respond-IsRecorded :
      (s : Scene)
      → 1 ≤ characters s.state.alert_id
      → characters s.state.alert_id ≤ 255
      → All (λ e. (e.id == draw.entry_id) ≡ false) s.trail
      → Concludes (loaded sql parse_id str_id draw s) s (respond sql parse_id str_id draw s)
  respond-IsRecorded s low high fresh = elim (Result-cases (loaded sql parse_id str_id draw s)) [
    | inl (a, e) ↦
        let l =
          filter (is_for a.sentinel_type) (list_policies sql s.state.tenant_id true s.policies) in
        let found = with_alert sql parse_id str_id draw a s in
        let t = chosen sql parse_id str_id draw l found in
        let u = settle sql parse_id str_id draw t.state.matched_policy_id t in
        let first = chosen_keeps l found in
        let second = settle_keeps t.state.matched_policy_id t in
        let recorded =
          record_outcome-IsRecorded s u (second.0 ∙ first.0) (second.1 ∙ first.1) low high fresh in
        rw e (
          subst (IsRecorded s) (sym (respond_judged sql parse_id str_id draw s a l e refl))
            recorded)
    | inr (x, e) ↦ rw e (respond_missing sql parse_id str_id draw s e)
  ]
