-- ===== src/Sentinel.antt =====
-- services/sentinel/service.py: alerts, and the alerts that an event triggers. The state is the table
-- of alerts, as committed; the policies are in the module Policy. The texts of alerts are not modelled.
pub mod Alerts
mod Tests
use dox.Prelude.{
  ℕ, Bool, true, false, ◌&&◌, String, Option, none, some, List, [], ◌∷◌, ◌==◌, ℕ_eq, String_eq,
}
use dox.Result.{Result, Exec, map_ok}
use dox.Enums.{
  EventType, SentinelType, Severity, InterventionAction, sentinel_type_str, severity_str,
  action_str, event_type_str,
}
use dox.Events.{CanonicalEvent}
use dox.Json.{Json, str, obj, Fields, end, field}
use dox.Sql.{Sql, get, add, change, page}

pub record SentinelAlertCreate : Type 0 where
  pub event_id : Option ℕ
  pub tenant_id : String
  pub agent_id : String
  pub sentinel_type : SentinelType
  pub severity : Severity
  pub details : Json

pub record SentinelAlert : Type 0 where
  pub id : ℕ
  pub event_id : Option ℕ
  pub tenant_id : String
  pub agent_id : String
  pub sentinel_type : String
  pub severity : String
  pub details : Json
  pub action_taken : Option String
  pub is_resolved : Bool
  pub resolved_at : Option ℕ
  pub created_at : ℕ

-- `_TRIGGER_MAP`
unfoldable pub trigger : EventType → Option (SentinelType × Severity)
trigger EventType.tool_call_blocked = some (SentinelType.tool_misuse, Severity.high)
trigger EventType.tool_call_failed = some (SentinelType.tool_misuse, Severity.medium)
trigger EventType.policy_failed = some (SentinelType.policy_breach, Severity.high)
trigger EventType.memory_write_blocked = some (SentinelType.memory, Severity.high)
trigger EventType.memory_rollback = some (SentinelType.memory, Severity.medium)
trigger EventType.agent_failed = some (SentinelType.trajectory, Severity.high)
trigger EventType.agent_terminated = some (SentinelType.trajectory, Severity.critical)
trigger _ = none

unfoldable pub alert_for : CanonicalEvent → SentinelType × Severity → SentinelAlertCreate
alert_for event (sentinel_type, severity) = record {
  event_id = some event.event_id;
  tenant_id = event.tenant_id;
  agent_id = event.agent_id;
  sentinel_type = sentinel_type;
  severity = severity;
  details = obj (
      field "event_type" (str (event_type_str event.event_type))
        (field "payload" event.payload end));
}

unfoldable pub evaluate_event : CanonicalEvent → List SentinelAlertCreate
unfolding trigger alert_for event_type_str
evaluate_event event = elim (trigger event.event_type) [
  | none ↦ []
  | some t ↦ alert_for event t ∷ []
]

abbrev pub clash : SentinelAlert → SentinelAlert → Bool
clash a b = b.id == a.id

-- The constructor and the column's default: an alert starts unresolved.
unfoldable pub new_alert : ℕ → ℕ → SentinelAlertCreate → SentinelAlert
unfolding sentinel_type_str severity_str
new_alert id created_at create = record {
  id = id;
  event_id = create.event_id;
  tenant_id = create.tenant_id;
  agent_id = create.agent_id;
  sentinel_type = sentinel_type_str create.sentinel_type;
  severity = severity_str create.severity;
  details = create.details;
  action_taken = none;
  is_resolved = false;
  resolved_at = none;
  created_at = created_at;
}

unfoldable pub create_alert : ℕ → ℕ → SentinelAlertCreate → Exec (List SentinelAlert) SentinelAlert
unfolding add new_alert
create_alert id created_at create = add clash (new_alert id created_at create)

abbrev pub resolved : InterventionAction → ℕ → SentinelAlert → SentinelAlert
resolved action now alert = record alert {
  is_resolved = true;
  action_taken = some (action_str action);
  resolved_at = some now;
}

-- A filter that may be left out.
abbrev pub matches {ℓ} : {A : Type ℓ} → (A → Bool) → Option A → Bool
matches test none = true
matches test (some a) = test a

pub record AlertFilter : Type 0 where
  pub tenant_id : String
  pub severity : Option Severity
  pub sentinel_type : Option SentinelType
  pub is_resolved : Option Bool

abbrev same_bool : Bool → Bool → Bool
same_bool true b = b
same_bool false true = false
same_bool false false = true

-- The conditions of `list_alerts`.
unfoldable pub passes : AlertFilter → SentinelAlert → Bool
passes f a =
    a.tenant_id == f.tenant_id
    && (matches (λ s. a.severity == severity_str s) f.severity
        && (matches (λ t. a.sentinel_type == sentinel_type_str t) f.sentinel_type
            && matches (λ b. same_bool a.is_resolved b) f.is_resolved))

module _ (sql : Sql) where
  unfoldable pub get_alert : ℕ → List SentinelAlert → Result SentinelAlert
  unfolding get
  get_alert alert_id = get sql (λ a. a.id) alert_id

  unfoldable pub list_alerts : AlertFilter → ℕ → ℕ → List SentinelAlert → List SentinelAlert
  unfolding passes
  list_alerts filters limit offset rows = page limit offset (
      sql.order_desc SentinelAlert (λ a. a.created_at)
        (sql.select SentinelAlert (passes filters) rows))

  unfoldable pub resolve_alert :
      ℕ → InterventionAction → ℕ → Exec (List SentinelAlert) SentinelAlert
  unfolding change action_str
  resolve_alert alert_id action now = change sql (λ a. a.id) alert_id (resolved action now)
