-- ===== src/Registry.antt =====
-- services/registry/service.py and common/models/agent.py: the profiles of a tenant's agents. The
-- table is as committed.
pub mod Profiles
mod Tests
use dox.Prelude.{
  ℕ, Bool, true, false, ◌&&◌, ◌||◌, not, String, Option, none, some, List, ◌==◌, ℕ_eq, String_eq,
}
use dox.Result.{Result, ok, err, conflict, Exec, ◌>>=◌, reads, raise}
use dox.Sql.{Sql, fetch, get, add, change, commit, page, or_not_found}

pub record AgentProfile : Type 0 where
  pub id : ℕ
  pub tenant_id : String
  pub agent_id : String
  pub name : String
  pub description : Option String
  pub version : String
  pub capabilities : List String
  pub tags : List (String × String)
  pub is_active : Bool
  pub last_seen_at : Option ℕ
  pub created_at : ℕ

pub record AgentProfileCreate : Type 0 where
  pub tenant_id : String
  pub agent_id : String
  pub name : String
  pub description : Option String
  pub version : String
  pub capabilities : List String
  pub tags : List (String × String)

-- A field that is not given is left as it is.
pub record AgentProfileUpdate : Type 0 where
  pub name : Option String
  pub description : Option String
  pub version : Option String
  pub capabilities : Option (List String)
  pub tags : Option (List (String × String))
  pub is_active : Option Bool

-- The query of `_get_by_tenant_and_agent`.
abbrev pub is_agent : String → String → AgentProfile → Bool
is_agent tenant agent p = p.tenant_id == tenant && p.agent_id == agent

-- The primary key, and the unique constraint on tenant and agent.
abbrev pub clash : AgentProfile → AgentProfile → Bool
clash p r = r.id == p.id || is_agent p.tenant_id p.agent_id r

unfoldable pub new_profile : ℕ → ℕ → AgentProfileCreate → AgentProfile
new_profile id created_at create = record {
  id = id;
  tenant_id = create.tenant_id;
  agent_id = create.agent_id;
  name = create.name;
  description = create.description;
  version = create.version;
  capabilities = create.capabilities;
  tags = create.tags;
  is_active = true;
  last_seen_at = none;
  created_at = created_at;
}

abbrev or_same {ℓ} : {A : Type ℓ} → Option A → A → A
or_same none old = old
or_same (some new) old = new

-- A nullable column, which a patch cannot clear.
abbrev or_same_null {ℓ} : {A : Type ℓ} → Option A → Option A → Option A
or_same_null none old = old
or_same_null (some new) old = some new

unfoldable pub patched : AgentProfileUpdate → AgentProfile → AgentProfile
patched u p = record p {
  name = or_same u.name p.name;
  description = or_same_null u.description p.description;
  version = or_same u.version p.version;
  capabilities = or_same u.capabilities p.capabilities;
  tags = or_same u.tags p.tags;
  is_active = or_same u.is_active p.is_active;
}

abbrev pub seen : ℕ → AgentProfile → AgentProfile
seen now p = record p { last_seen_at = some now }

module _ (sql : Sql) where
  unfoldable pub get_by_tenant_and_agent :
      String → String → List AgentProfile → Result (Option AgentProfile)
  unfolding fetch
  get_by_tenant_and_agent tenant agent rows = fetch sql (is_agent tenant agent) rows

  -- `create`, once the query has answered.
  unfoldable pub create_unless :
      ℕ → ℕ → AgentProfileCreate → Option AgentProfile → Exec (List AgentProfile) AgentProfile
  unfolding add new_profile
  create_unless id created_at request none = add clash (new_profile id created_at request)
  create_unless id created_at request (some existing) = raise conflict

  unfoldable pub create : ℕ → ℕ → AgentProfileCreate → Exec (List AgentProfile) AgentProfile
  unfolding get_by_tenant_and_agent create_unless
  create id created_at request = do
    existing ← reads (get_by_tenant_and_agent request.tenant_id request.agent_id)
    create_unless id created_at request existing

  unfoldable pub get_profile : ℕ → List AgentProfile → Result AgentProfile
  unfolding get
  get_profile profile_id = get sql (λ p. p.id) profile_id

  unfoldable pub get_by_agent_id : String → String → List AgentProfile → Result AgentProfile
  unfolding get_by_tenant_and_agent
  get_by_agent_id tenant agent rows = or_not_found (get_by_tenant_and_agent tenant agent rows)

  unfoldable pub list_for_tenant : String → Bool → ℕ → ℕ → List AgentProfile → List AgentProfile
  list_for_tenant tenant active_only limit offset rows = page limit offset (
      sql.order_desc AgentProfile (λ p. p.created_at)
        (sql.select AgentProfile (λ p. p.tenant_id == tenant && (not active_only || p.is_active))
          rows))

  unfoldable pub update : ℕ → AgentProfileUpdate → Exec (List AgentProfile) AgentProfile
  unfolding change patched
  update profile_id u = change sql (λ p. p.id) profile_id (patched u)

  unfoldable pub delete : ℕ → Exec (List AgentProfile) AgentProfile
  unfolding change
  delete profile_id = change sql (λ p. p.id) profile_id (λ p. record p { is_active = false })

  unfoldable pub heartbeat : ℕ → String → String → Exec (List AgentProfile) AgentProfile
  unfolding get_by_agent_id commit
  heartbeat now tenant agent = do
    profile ← reads (get_by_agent_id tenant agent)
    commit (λ p. p.id) (seen now profile)
