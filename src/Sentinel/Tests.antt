-- ===== src/Sentinel/Tests.antt =====
-- Resolving one of two alerts.
use dox.Prelude.{ℕ, ◌≡◌, refl, false, List, [], ◌∷◌, none, some, ℕ_eq}
use dox.Result.{ok}
use dox.Enums.{InterventionAction}
use dox.Json.{null}
use dox.Sql.{fetch, get, save, change, commit}
use dox.Sql.Engine.{list_engine}
use dox.Sentinel.{SentinelAlert, get_alert, resolve_alert}

abbrev open_alert : ℕ → SentinelAlert
open_alert n = record {
  id = n;
  event_id = some n;
  tenant_id = "acme";
  agent_id = "bot";
  sentinel_type = "tool_misuse";
  severity = "high";
  details = null;
  action_taken = none;
  is_resolved = false;
  resolved_at = none;
  created_at = n;
}

abbrev rows : List SentinelAlert
rows = open_alert 4 ∷ open_alert 5 ∷ []

still_open :
    get_alert list_engine 5 (resolve_alert list_engine 4 InterventionAction.warn 9 rows).1
    ≡ ok (open_alert 5)
unfolding get_alert resolve_alert fetch get save change commit
still_open = refl
