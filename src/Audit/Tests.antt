-- ===== src/Audit/Tests.antt =====
-- A trail of two entries, and the theorems at it.
use dox.Prelude.{List, filter, ◌==◌, String_eq, ◌≡◌, refl, [], ◌∷◌, none, some, ℕ_eq}
use dox.Sql.{get, fetch, insert, add}
use dox.Sql.Rows.{find}
use dox.Sql.Engine.{list_engine}
use dox.Api.{reply, refused}
use dox.Audit
use dox.Audit.Trail.{by_id}
use dox.Audit.Routes
use dox.Audit.Routes.{list_entries, created, get_entry, shown, entry_of, get_entry-filter}
use dox.Result.{ok}
use dox.Json.{null}
use dox.Sorting.{sort}
use dox.Audit.{
  list_for_tenant, count_for_tenant, is_in_trail, AuditEntry, AuditEntryCreate, TrailFilter,
  new_entry, record_entry,
}

abbrev create : AuditEntryCreate
create = record {
  tenant_id = "acme";
  actor_id = none;
  actor_email = "system";
  action = "policy.create";
  resource_type = "policy";
  resource_id = "7";
  summary = "created";
  extra = null;
}

abbrev first : AuditEntry
first = new_entry 1 10 create

abbrev second : AuditEntry
second = new_entry 2 20 create

recorded : record_entry 2 20 create (first ∷ []) ≡ (ok second, second ∷ first ∷ [])
unfolding record_entry add insert new_entry
recorded = refl

abbrev policies : TrailFilter
policies = record {
  tenant_id = "acme";
  action = none;
  resource_type = some "policy";
  actor_id = none;
}

-- The first of these is of another tenant.
abbrev mixed : List AuditEntry
mixed = second ∷ record first { tenant_id = "globex" } ∷ []

shown_to_its_tenant : get_entry list_engine "acme" 2 mixed ≡ reply 200 second
unfolding get_entry Audit.get_entry get fetch shown new_entry
shown_to_its_tenant = refl

hidden_from_others : get_entry list_engine "acme" 1 mixed ≡ refused 404
unfolding get_entry Audit.get_entry get fetch shown new_entry
hidden_from_others = refl

get_entry-filter_example :
    get_entry list_engine "acme" 1 mixed
    ≡ entry_of (find by_id 1 (filter (λ e. e.tenant_id == "acme") mixed))
unfolding new_entry
get_entry-filter_example = get_entry-filter list_engine "acme" 1 mixed ((refl, tt), (tt, tt))

posted : Routes.record_entry 2 20 create (first ∷ []) ≡ (reply 201 second, second ∷ first ∷ [])
unfolding Routes.record_entry record_entry add insert new_entry created
posted = refl

listed :
    list_entries list_engine (record policies { resource_type = none }) 1 0 mixed
    ≡ reply 200 (record { entries = second ∷ []; total = 1; limit = 1; offset = 0 })
unfolding list_entries list_for_tenant count_for_tenant is_in_trail new_entry sort
listed = refl

nothing_to_list : list_entries list_engine policies 0 0 mixed ≡ refused 422
unfolding list_entries
nothing_to_list = refl
