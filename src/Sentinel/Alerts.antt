-- ===== src/Sentinel/Alerts.antt =====
-- services/sentinel/service.py: reading an alert after one is resolved.

use dox.Prelude.{ℕ, ◌≡◌, refl, List, if◌then◌else◌, ◌==◌, ℕ_eq}
use dox.Result.{map_ok, ok, err}
use dox.Enums.{InterventionAction}
use dox.Sql.{Sql, save}
use dox.Sql.Rows.{Distinct}
use dox.Sql.Change.{get-change, change-get, change-table}
use dox.Sentinel.{SentinelAlert, get_alert, resolve_alert, resolved}

abbrev pub by_id : SentinelAlert → ℕ
by_id a = a.id

-- With unique identifiers, reading an alert after a call to resolve one shows that alert with its
-- action and time, and every other alert as before; the call returns what it wrote, and where there
-- is no such alert it raises as `get_alert` does and leaves the table.
pub get_alert-resolve_alert :
    (sql : Sql) (k j now : ℕ) (action : InterventionAction) (rows : List SentinelAlert)
    → Distinct by_id rows
    → (get_alert sql j (resolve_alert sql k action now rows).1 ≡ (
        if k == j
        then map_ok (resolved action now) (get_alert sql k rows)
        else get_alert sql j rows))
      × ((resolve_alert sql k action now rows).0
          ≡ map_ok (resolved action now) (get_alert sql k rows))
      × ((resolve_alert sql k action now rows).1 ≡ elim (get_alert sql k rows) [
        | ok a ↦ save by_id (resolved action now a) rows
        | err e ↦ rows
      ])
unfolding get_alert resolve_alert
get_alert-resolve_alert sql k j now action rows d = (
  get-change sql by_id k j (resolved action now) rows (λ r. refl) d,
  change-get sql by_id k (resolved action now) rows,
  change-table sql by_id k (resolved action now) rows,
)
