-- ===== src/Workflow/Response/Effects.antt =====
-- langgraph_workflows/sentinels/graph.py: what a run leaves in the tables.
use mathlib.Core.List.{Mem}
use dox.Prelude.{
  or_text, All-both, ℕ, ◌≤◌, ◌≡◌, refl, ◌∙◌, ap, Bool, true, false, ◌&&◌, String, none, some, List,
  [], ◌∷◌, All, ◌⊎◌, inl, inr, ◌==◌, ℕ_eq, String_eq,
}
use dox.Result.{Result, ok}
use dox.Enums.{InterventionAction, action_str, parse_action}
use dox.Sql.{Sql, save}
use dox.Sql.Rows.{Distinct, find}
use dox.Sql.Change.{get-find, change_found}
use dox.Sql.Newest.{first-order_desc, All-Mem}
use dox.Sentinel.{SentinelAlert, get_alert, resolve_alert, resolved}
use dox.Sentinel.Alerts.{by_id}
use dox.Policy.{Policy, list_policies, to_action}
use dox.Policy.Verdict.{HasAction, action_str-parse_action}
use dox.Workflow.Response.Paths.{
  respond, with_alert, chosen, settle, respond_judged, record_outcome_keeps,
}
use dox.Workflow.Response.{
  Scene, Draw, is_for, resolve, loaded, apply_action, execute_action, resolve_with_default,
  record_outcome,
}

-- The condition of `list_policies` with `active_only`.
abbrev pub is_active_of : String → Policy → Bool
is_active_of tenant p = p.tenant_id == tenant && p.is_active

module _ (sql : Sql) (parse_id : String → Result ℕ) (str_id : ℕ → String) (draw : Draw) where
  -- What the alert is resolved with: the action of the newest active policy of the tenant for the
  -- alert's type, and a warning where there is none.
  abbrev pub Prescribed : String → SentinelAlert → List Policy → InterventionAction → Type 0
  Prescribed tenant a policies action =
      (All (λ p. is_active_of tenant p ≡ true → is_for a.sentinel_type p ≡ false) policies
        × (action ≡ InterventionAction.warn))
      ⊎ ((p : Policy) × Mem p policies
          × (is_active_of tenant p ≡ true)
          × (is_for a.sentinel_type p ≡ true)
          × All
              (λ q.
                is_active_of tenant q ≡ true
                → is_for a.sentinel_type q ≡ true
                → q.created_at ≤ p.created_at)
              policies
          × (action_str action ≡ p.action))

  to_action-parse :
      (t : String) (a : InterventionAction)
      → parse_action t ≡ some a
      → to_action (or_text (some t) "warn") ≡ ok a
  unfolding parse_action find action_str
  to_action-parse String.[] a e = absurd (cc e)
  to_action-parse (String.◌∷◌ c t) a e = rw (to_action, e) refl

  -- A stored action is read back.
  to_action-HasAction :
      (p : Policy) (h : HasAction p) → to_action (or_text (some p.action) "warn") ≡ ok h.0
  to_action-HasAction p (a, e) = to_action-parse p.action a e

  resolve_found :
      (s : Scene) (k : ℕ) (a : SentinelAlert) (action : InterventionAction)
      → parse_id s.state.alert_id ≡ ok k
      → Distinct by_id s.alerts
      → find by_id k s.alerts ≡ some a
      → resolve sql parse_id str_id draw s.state.alert_id action s.alerts
        ≡ (ok (resolved action draw.now a), save by_id (resolved action draw.now a) s.alerts)
  unfolding resolve resolve_alert
  resolve_found s k a action parsed d found =
      rw parsed (change_found sql by_id k (resolved action draw.now) s.alerts a d found)

  fits : (l : List Policy) → All HasAction l → All (λ p. Mem p l × HasAction p) l
  fits l h = All-both (λ p. Mem p l) HasAction l (All-Mem l) h

  get_alert-find :
      (s : Scene) (k : ℕ) (a : SentinelAlert)
      → Distinct by_id s.alerts
      → find by_id k s.alerts ≡ some a
      → get_alert sql k s.alerts ≡ ok a
  unfolding get_alert
  get_alert-find s k a d found = rw (get-find sql by_id k s.alerts d, found)

  -- The alert is resolved with the action, and nothing else is written to the two tables.
  abbrev pub IsResolved : InterventionAction → SentinelAlert → Scene → Scene → Type 0
  IsResolved action a s t =
      (t.alerts ≡ save by_id (resolved action draw.now a) s.alerts)
      × (t.state.resolved ≡ true)
      × (t.policies ≡ s.policies)

  record_outcome-IsResolved :
      (action : InterventionAction) (a : SentinelAlert) (s t : Scene)
      → IsResolved action a s t
      → IsResolved action a s (record_outcome sql parse_id str_id draw t)
  record_outcome-IsResolved action a s t (alerts, done, policies) =
      let (same_alerts, same_policies, same_done) =
        record_outcome_keeps sql parse_id str_id draw t in
      (same_alerts ∙ alerts, same_done ∙ done, same_policies ∙ policies)

  default-IsResolved :
      (s : Scene) (k : ℕ) (a : SentinelAlert)
      → parse_id s.state.alert_id ≡ ok k
      → Distinct by_id s.alerts
      → find by_id k s.alerts ≡ some a
      → IsResolved InterventionAction.warn a s (
          settle sql parse_id str_id draw none
            (chosen sql parse_id str_id draw [] (with_alert sql parse_id str_id draw a s)))
  unfolding resolve_with_default
  default-IsResolved s k a parsed d found =
      let done = resolve_found s k a InterventionAction.warn parsed d found in
      (ap (λ r. r.1) done, rw done, refl)

  execute-IsResolved :
      (s : Scene) (k : ℕ) (a : SentinelAlert) (p : Policy) (rest : List Policy) (h : HasAction p)
      → parse_id s.state.alert_id ≡ ok k
      → Distinct by_id s.alerts
      → find by_id k s.alerts ≡ some a
      → IsResolved h.0 a s (
          settle sql parse_id str_id draw
            (some p.id)
            (chosen sql parse_id str_id draw (p ∷ rest) (with_alert sql parse_id str_id draw a s)))
  unfolding execute_action apply_action
  execute-IsResolved s k a p rest h parsed d found =
      let read = to_action-HasAction p h in
      let done = resolve_found s k a h.0 parsed d found in (rw (read, done), rw (read, done), refl)

  -- Where the identifier of the alert parses, the identifiers of the alerts are unique, the alert is
  -- found and every stored action is a member of the enumeration, a run resolves the alert, and no
  -- other row, with the action of the newest active policy of the tenant for the alert's type, or with
  -- a warning where there is none; the policies stay as they are.
  pub respond-Prescribed :
      (s : Scene) (k : ℕ) (a : SentinelAlert)
      → parse_id s.state.alert_id ≡ ok k
      → Distinct by_id s.alerts
      → find by_id k s.alerts ≡ some a
      → All HasAction s.policies
      → (action : InterventionAction) × Prescribed s.state.tenant_id a s.policies action
        × IsResolved action a s (respond sql parse_id str_id draw s)
  unfolding loaded list_policies
  respond-Prescribed s k a parsed d found actions =
      let here : loaded sql parse_id str_id draw s ≡ ok a =
        rw (loaded, parsed) (get_alert-find s k a d found) in
      let Fits : Policy → Type 0 = λ p. Mem p s.policies × HasAction p in
      elim (first-order_desc sql Fits (λ p. p.created_at) (is_active_of s.state.tenant_id)
        (is_for a.sentinel_type) s.policies (fits s.policies actions)) [
          | inl (empty, none_is) ↦ (
            InterventionAction.warn,
            inl (none_is, refl),
            rw (respond_judged sql parse_id str_id draw s a [] here empty) (
                record_outcome-IsResolved InterventionAction.warn a s
                  (settle sql parse_id str_id draw none
                    (chosen sql parse_id str_id draw [] (with_alert sql parse_id str_id draw a s)))
                  (default-IsResolved s k a parsed d found)),
          )
          | inr (p, rest, first, (stored, h), active, typed, newest) ↦ (
            h.0,
            inr (p, stored, active, typed, newest, action_str-parse_action p.action h.0 h.1),
            rw (respond_judged sql parse_id str_id draw s a (p ∷ rest) here first) (
                record_outcome-IsResolved h.0 a s
                  (settle sql parse_id str_id draw (some p.id) (
                    chosen sql parse_id str_id draw (p ∷ rest)
                      (with_alert sql parse_id str_id draw a s)))
                  (execute-IsResolved s k a p rest h parsed d found)),
          )
        ]
