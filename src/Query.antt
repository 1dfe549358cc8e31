-- ===== src/Query.antt =====
-- services/query/service.py and common/audit/integrity.py: reading the stored events, and checking
-- the hashes that were stored with them.
pub mod Pages
pub mod Integrity
mod Tests
use dox.Prelude.{
  ℕ, ◌-◌, Bool, true, false, ◌&&◌, String, Option, none, some, List, [], ◌∷◌, length, map, count,
  if◌then◌else◌, leb, ◌==◌, ℕ_eq, String_eq,
}
use dox.Result.{Result}
use dox.Events.{EventRecord}
use dox.Json.{Json}
use dox.Enums.{EventType, Environment, event_type_str, environment_str}
use dox.Sql.{Sql, page, fetch, or_not_found}
use dox.Sentinel.{matches}

pub record EventFilter : Type 0 where
  pub tenant_id : String
  pub agent_id : Option String
  pub event_type : Option EventType
  pub environment : Option Environment
  pub session_id : Option String
  pub from_ts : Option ℕ
  pub to_ts : Option ℕ
  pub limit : ℕ
  pub offset : ℕ

-- The conditions that `list_events` and `count_events` both build.
unfoldable pub conditions : EventFilter → EventRecord → Bool
unfolding event_type_str environment_str
conditions f e =
    e.tenant_id == f.tenant_id
    && (matches (λ a. e.agent_id == a) f.agent_id
        && (matches (λ t. e.event_type == event_type_str t) f.event_type
            && (matches (λ v. e.environment == environment_str v) f.environment
                && (matches (λ s. e.session_id == s) f.session_id
                    && (matches (λ t. leb t e.timestamp) f.from_ts
                        && matches (λ t. leb e.timestamp t) f.to_ts)))))

pub data IntegrityStatus : Type 0 where
  ok : IntegrityStatus
  hash_mismatch : IntegrityStatus
  missing_hash : IntegrityStatus

pub record RecordIntegrity : Type 0 where
  pub record_id : ℕ
  pub event_id : ℕ
  pub status : IntegrityStatus
  pub stored_hash : Option String
  pub computed_hash : String

pub record IntegrityReport : Type 0 where
  pub tenant_id : String
  pub total_checked : ℕ
  pub passed : ℕ
  pub failed : ℕ
  pub records : List RecordIntegrity

-- The property `is_clean`.
abbrev pub is_clean : IntegrityReport → Bool
is_clean report = report.failed == 0

abbrev pub is_ok : RecordIntegrity → Bool
is_ok c = elim c.status [ IntegrityStatus.ok ↦ true | _ ↦ false ]

-- The branches of `check_record` on the stored hash.
unfoldable pub status_of : Option String → String → IntegrityStatus
status_of none computed = IntegrityStatus.missing_hash
status_of (some stored) computed =
    if stored == computed then IntegrityStatus.ok else IntegrityStatus.hash_mismatch

abbrev first_tenant : List EventRecord → String
first_tenant [] = ""
first_tenant (r ∷ records) = r.tenant_id

-- `digest` is `compute_payload_hash`: SHA-256 of the payload's canonical dump.
module _ (digest : Json → String) where
  unfoldable pub check_record : EventRecord → RecordIntegrity
  unfolding status_of
  check_record r = record {
    record_id = r.id;
    event_id = r.event_id;
    status = status_of r.payload_hash (digest r.payload);
    stored_hash = r.payload_hash;
    computed_hash = digest r.payload;
  }

  unfoldable pub verify_tenant_integrity : List EventRecord → IntegrityReport
  unfolding check_record
  verify_tenant_integrity records =
      let checked = map check_record records in
      record {
        tenant_id = first_tenant records;
        total_checked = length checked;
        passed = count is_ok checked;
        failed = length checked - count is_ok checked;
        records = checked;
      }

module _ (sql : Sql) where
  unfoldable pub get_event : ℕ → List EventRecord → Result EventRecord
  unfolding fetch
  get_event event_id rows = or_not_found (fetch sql (λ e. e.event_id == event_id) rows)

  unfoldable pub list_events : EventFilter → List EventRecord → List EventRecord
  unfolding conditions
  list_events f rows =
      page f.limit f.offset
        (sql.order_desc EventRecord (λ e. e.timestamp) (sql.select EventRecord (conditions f) rows))

  -- `select(func.count())` counts the rows that the same query without limits would return.
  unfoldable pub count_events : EventFilter → List EventRecord → ℕ
  unfolding conditions
  count_events f rows = length (sql.select EventRecord (conditions f) rows)

  unfoldable pub verify_integrity :
      (Json → String) → String → ℕ → List EventRecord → IntegrityReport
  unfolding verify_tenant_integrity
  verify_integrity digest tenant limit rows = verify_tenant_integrity digest (
      page limit 0 (
        sql.order_asc EventRecord (λ e. e.timestamp)
          (sql.select EventRecord (λ e. e.tenant_id == tenant) rows)))
