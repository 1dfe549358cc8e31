-- ===== src/Workflow/Review/Decision.antt =====
-- langgraph_workflows/human_review/graph.py: what a run leaves, with and without a decision.
use Prim.Native.String.{count as characters}
use mathlib.Core.Path.{subst}
use dox.Enums.{InterventionAction, action_str}
use dox.Json.{str, member}
use dox.Prelude.{
  String_eq, true, List, or_text, sym, ℕ, ◌≤◌, ◌≡◌, refl, ◌∙◌, ap, false, String, Option, none,
  some, ◌∷◌, All, ◌==◌, ℕ_eq,
}
use dox.Result.{Result, ok}
use dox.Sql.{Sql, save}
use dox.Sql.Rows.{Distinct, find}
use dox.Sql.Change.{get-find, change_found}
use dox.Sentinel.{SentinelAlert, get_alert, resolved, resolve_alert}
use dox.Sentinel.Alerts.{by_id}
use dox.Audit.{AuditEntry, new_entry}
use dox.Audit.Trail.{record_checked_fresh}
use dox.Workflow.{finish, run}
use dox.Workflow.Review.Actions.{Means, action_of-Means}
use dox.Workflow.Response.{str_or_null}
use dox.Workflow.Review.{
  action_of, resolve, decision_of, Scene, Draw, loaded, load_alert, request_of, request_review,
  record_decision, act, route_after_load, route_after_request, review_graph,
}

module _ (sql : Sql) (parse_id : String → Result ℕ) (message : SentinelAlert → String)
    (draw : Draw) where
  -- The state that a run leaves.
  abbrev pub review : Scene → Scene
  review = finish (review_graph sql parse_id message draw) 3

  abbrev load : Scene → Scene
  load = load_alert sql parse_id message draw

  abbrev request : Scene → Scene
  request = request_review sql parse_id message draw

  abbrev decide : Scene → Scene
  decide = record_decision sql parse_id message draw

  abbrev with_alert : SentinelAlert → Scene → Scene
  with_alert a s = record s {
    state = record s.state {
      alert_severity = some a.severity;
      alert_type = some a.sentinel_type;
      alert_message = some (message a);
      error = none;
    };
  }

  load_found :
      (s : Scene) (k : ℕ) (a : SentinelAlert)
      → parse_id s.state.alert_id ≡ ok k
      → Distinct by_id s.alerts
      → find by_id k s.alerts ≡ some a
      → load s ≡ with_alert a s
  unfolding load_alert loaded get_alert
  load_found s k a parsed d found = rw (parsed, get-find sql by_id k s.alerts d, found)

  abbrev pub requested : SentinelAlert → Scene → Scene
  requested a s =
      let t = with_alert a s in
      record t {
        state = record t.state { audit_entry_id = some draw.request_id };
        trail =
            new_entry draw.request_id draw.requested_at
              (request_of sql parse_id message draw t.state)
            ∷ s.trail;
      }

  request_found :
      (s : Scene) (a : SentinelAlert)
      → 1 ≤ characters s.state.alert_id
      → characters s.state.alert_id ≤ 255
      → All (λ e. (e.id == draw.request_id) ≡ false) s.trail
      → request (with_alert a s) ≡ requested a s
  unfolding request_review new_entry request_of
  request_found s a low high fresh = rw (
      record_checked_fresh draw.request_id draw.requested_at
        (request_of sql parse_id message draw (with_alert a s).state) s.trail low high fresh)

  -- After the request a run stops without a decision, and otherwise records it.
  abbrev settle : Option String → Scene → Scene
  settle none s = s
  settle (some String.[]) s = s
  settle (some d) s = decide s

  settled :
      (o : Option String) (t : Scene)
      → (run (review_graph sql parse_id message draw) 1 (route_after_request none o, t)).1
        ≡ settle o t
  unfolding run act
  settled none t = refl
  settled (some String.[]) t = refl
  settled (some (String.◌∷◌ c d)) t = refl

  review-requested :
      (s : Scene) (k : ℕ) (a : SentinelAlert)
      → parse_id s.state.alert_id ≡ ok k
      → Distinct by_id s.alerts
      → find by_id k s.alerts ≡ some a
      → 1 ≤ characters s.state.alert_id
      → characters s.state.alert_id ≤ 255
      → All (λ e. (e.id == draw.request_id) ≡ false) s.trail
      → review s ≡ settle s.state.decision (requested a s)
  unfolding finish run act
  review-requested s k a parsed d found low high fresh =
      let g = review_graph sql parse_id message draw in
      let at_load = load_found s k a parsed d found in
      let at_request = request_found s a low high fresh in
      ap (λ t. (run g 2 (route_after_load t.state.error, t)).1) at_load
      ∙ (ap (λ t. (run g 1 (route_after_request t.state.error t.state.decision, t)).1) at_request
          ∙ settled s.state.decision (requested a s))

  -- The table of alerts after a resolution with an action.
  abbrev pub settled_alerts : SentinelAlert → Scene → String → List SentinelAlert
  settled_alerts a s d = save by_id (resolved (action_of d) draw.now a) s.alerts

  decide_found :
      (s : Scene) (k : ℕ) (a : SentinelAlert) (d : String)
      → or_text s.state.decision "reject" ≡ d
      → parse_id s.state.alert_id ≡ ok k
      → Distinct by_id s.alerts
      → find by_id k s.alerts ≡ some a
      → 1 ≤ characters s.state.alert_id
      → characters s.state.alert_id ≤ 255
      → All (λ e. (e.id == draw.decision_id) ≡ false) s.trail
      → (draw.request_id == draw.decision_id) ≡ false
      → let t = requested a s in
        decide t ≡ record t {
          state = record t.state { resolved = true; error = none };
          alerts = settled_alerts a s d;
          trail =
              new_entry draw.decision_id draw.decided_at
                (decision_of sql parse_id message draw t.state d)
              ∷ t.trail;
        }
  unfolding record_decision resolve resolve_alert new_entry decision_of
  decide_found s k a d e parsed u found low high fresh apart =
      let t = requested a s in
      rw
        (
          e,
          parsed,
          change_found sql by_id k (resolved (action_of d) draw.now) s.alerts a u found,
          record_checked_fresh draw.decision_id draw.decided_at
              (decision_of sql parse_id message draw t.state d) t.trail low high (apart, fresh),
        )
        refl

  -- The entry of the request names the alert and who shall review it.
  abbrev pub Asked : SentinelAlert → Scene → Type 0
  Asked a s =
      (e : AuditEntry) × ((requested a s).trail ≡ e ∷ s.trail)
      × (e.action ≡ "human_review_requested")
      × (e.tenant_id ≡ s.state.tenant_id)
      × (e.resource_id ≡ s.state.alert_id)
      × (member "severity" e.extra ≡ some (str a.severity))
      × (member "type" e.extra ≡ some (str a.sentinel_type))
      × (member "reviewer_id" e.extra ≡ some (str_or_null s.state.reviewer_id))

  asked : (a : SentinelAlert) (s : Scene) → Asked a s
  unfolding new_entry request_of member
  asked a s = (
    new_entry draw.request_id draw.requested_at
        (request_of sql parse_id message draw (with_alert a s).state),
    refl,
    refl,
    refl,
    refl,
    refl,
    refl,
    refl,
  )

  -- What the run with a decision and its action leaves.
  abbrev pub Decided : SentinelAlert → Scene → String → InterventionAction → Scene → Type 0
  Decided a s d action t =
      Means d action
      × (t.alerts ≡ save by_id (resolved action draw.now a) s.alerts)
      × ((e : AuditEntry) × (t.trail ≡ e ∷ (requested a s).trail)
          × (e.action ≡ "human_review_completed")
          × (e.tenant_id ≡ s.state.tenant_id)
          × (e.resource_id ≡ s.state.alert_id)
          × (e.actor_email ≡ or_text s.state.reviewer_id "system")
          × (member "decision" e.extra ≡ some (str d))
          × (member "action_taken" e.extra ≡ some (str (action_str action))))
      × (t.state.resolved ≡ true)

  -- What a run does with a decision, and without one: an empty text is none.
  abbrev pub Decides : SentinelAlert → Scene → Option String → Scene → Type 0
  Decides a s none t = t ≡ requested a s
  Decides a s (some String.[]) t = t ≡ requested a s
  Decides a s (some d) t = (action : InterventionAction) × Decided a s d action t

  -- Where the identifier of the alert parses and has between 1 and 255 characters, the identifiers of the
  -- alerts are unique, the alert is found and the entries' identifiers are fresh: without a decision a
  -- run only loads the alert and adds the entry of the request, which names the tenant, the alert, its
  -- severity and type and the reviewer; with one it also resolves the alert, and no other row, with
  -- the action allow for approve, block_tool_call for reject, request_human_review for escalate and warn
  -- for any other text, and adds an entry that names the reviewer, the alert, the decision and the action.
  pub review-Decides :
      (s : Scene) (k : ℕ) (a : SentinelAlert)
      → parse_id s.state.alert_id ≡ ok k
      → Distinct by_id s.alerts
      → find by_id k s.alerts ≡ some a
      → 1 ≤ characters s.state.alert_id
      → characters s.state.alert_id ≤ 255
      → All (λ e. (e.id == draw.request_id) ≡ false) s.trail
      → All (λ e. (e.id == draw.decision_id) ≡ false) s.trail
      → (draw.request_id == draw.decision_id) ≡ false
      → Asked a s × Decides a s s.state.decision (review s)
  unfolding decision_of new_entry member
  review-Decides s k a parsed u found low high fresh fresh' apart = (
    asked a s,
    subst (Decides a s s.state.decision)
        (sym (review-requested s k a parsed u found low high fresh))
        (decided s.state.decision refl),
  )
    where
      decided :
          (o : Option String) → s.state.decision ≡ o → Decides a s o (settle o (requested a s))
      decided none e = refl
      decided (some String.[]) e = refl
      decided (some (String.◌∷◌ c d)) e =
          let text = String.◌∷◌ c d in
          let done =
            decide_found s k a text (ap (λ o. or_text o "reject") e) parsed u found low high fresh'
              apart in
          let entry =
            new_entry draw.decision_id draw.decided_at
              (decision_of sql parse_id message draw (requested a s).state text) in
          (
            action_of text,
            (
              action_of-Means text,
              ap (λ t. t.alerts) done,
              (entry, ap (λ t. t.trail) done, refl, refl, refl, refl, refl, refl),
              ap (λ t. t.state.resolved) done,
            ),
          )
