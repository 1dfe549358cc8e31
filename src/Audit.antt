-- ===== src/Audit.antt =====
-- services/audit/service.py and common/models/audit_log.py: the append-only log of the actions that
-- govern the platform. The table is as committed.
pub mod Trail
pub mod Routes
mod Tests
use Prim.Native.String.{count as characters}
use dox.Prelude.{
  leb, if◌then◌else◌, ℕ, Bool, ◌&&◌, String, Option, none, some, List, length, ◌==◌, ℕ_eq,
  String_eq, false,
}
use dox.Result.{Result, ok, err, value_error, Exec, ◌>>=◌, reads}
use dox.Json.{Json}
use dox.Sql.{Sql, get, add, page}
use dox.Sentinel.{matches}

pub record AuditEntry : Type 0 where
  pub id : ℕ
  pub tenant_id : String
  pub actor_id : Option ℕ
  pub actor_email : String
  pub action : String
  pub resource_type : String
  pub resource_id : String
  pub summary : String
  pub extra : Json
  pub created_at : ℕ

pub record AuditEntryCreate : Type 0 where
  pub tenant_id : String
  pub actor_id : Option ℕ
  pub actor_email : String
  pub action : String
  pub resource_type : String
  pub resource_id : String
  pub summary : String
  pub extra : Json

-- The schema's bounds on the lengths; the other fields that have one are never outside it where the
-- repository makes an entry.
unfoldable pub to_create : AuditEntryCreate → Result AuditEntryCreate
to_create create =
    if leb 1 (characters create.resource_id) && leb (characters create.resource_id) 255
    then ok create
    else err value_error

-- The arguments that `list_for_tenant` and `count_for_tenant` share.
pub record TrailFilter : Type 0 where
  pub tenant_id : String
  pub action : Option String
  pub resource_type : Option String
  pub actor_id : Option ℕ

abbrev pub clash : AuditEntry → AuditEntry → Bool
clash a b = b.id == a.id

unfoldable pub new_entry : ℕ → ℕ → AuditEntryCreate → AuditEntry
new_entry id created_at create = record {
  id = id;
  tenant_id = create.tenant_id;
  actor_id = create.actor_id;
  actor_email = create.actor_email;
  action = create.action;
  resource_type = create.resource_type;
  resource_id = create.resource_id;
  summary = create.summary;
  extra = create.extra;
  created_at = created_at;
}

-- `record`
unfoldable pub record_entry : ℕ → ℕ → AuditEntryCreate → Exec (List AuditEntry) AuditEntry
unfolding add new_entry
record_entry id created_at create = add clash (new_entry id created_at create)

-- `record(AuditEntryCreate(...))`
unfoldable pub record_checked : ℕ → ℕ → AuditEntryCreate → Exec (List AuditEntry) AuditEntry
unfolding to_create record_entry
record_checked id created_at create = do
  checked ← reads (λ trail. to_create create)
  record_entry id created_at checked

abbrev same_actor : ℕ → Option ℕ → Bool
same_actor actor none = false
same_actor actor (some a) = a == actor

-- The conditions that both queries add.
unfoldable pub is_in_trail : TrailFilter → AuditEntry → Bool
is_in_trail f e =
    e.tenant_id == f.tenant_id
    && (matches (λ a. e.action == a) f.action
        && (matches (λ t. e.resource_type == t) f.resource_type
            && matches (λ a. same_actor a e.actor_id) f.actor_id))

module _ (sql : Sql) where
  unfoldable pub get_entry : ℕ → List AuditEntry → Result AuditEntry
  unfolding get
  get_entry entry_id = get sql (λ e. e.id) entry_id

  unfoldable pub list_for_tenant : TrailFilter → ℕ → ℕ → List AuditEntry → List AuditEntry
  unfolding is_in_trail
  list_for_tenant f limit offset rows =
      page limit offset
        (sql.order_desc AuditEntry (λ e. e.created_at) (sql.select AuditEntry (is_in_trail f) rows))

  -- `select(func.count())` counts the rows that the query finds.
  unfoldable pub count_for_tenant : TrailFilter → List AuditEntry → ℕ
  unfolding is_in_trail
  count_for_tenant f rows = length (sql.select AuditEntry (is_in_trail f) rows)
