-- ===== src/Registry/Tests.antt =====
-- An agent that is registered, and the theorems at it.
use dox.Prelude.{◌≡◌, refl, true, String, [], ◌∷◌, none, some, ℕ_eq}
use dox.Result.{ok}
use dox.Sql.{fetch, save, commit}
use dox.Sql.Engine.{list_engine}
use dox.Registry.{
  AgentProfile, AgentProfileCreate, AgentProfileUpdate, create, new_profile,
  get_by_tenant_and_agent, get_by_agent_id, heartbeat, seen,
}
use dox.Registry.Profiles.{profiles, get_by_agent_id-create}

abbrev request : String → AgentProfileCreate
request agent = record {
  tenant_id = "acme";
  agent_id = agent;
  name = "Bot";
  description = none;
  version = "1.0";
  capabilities = [];
  tags = [];
}

abbrev bot : AgentProfile
bot = record {
  id = 1;
  tenant_id = "acme";
  agent_id = "bot";
  name = "Bot";
  description = none;
  version = "1.0";
  capabilities = [];
  tags = [];
  is_active = true;
  last_seen_at = none;
  created_at = 5;
}

beaten : heartbeat list_engine 9 "acme" "bot" (bot ∷ []) ≡ (ok (seen 9 bot), seen 9 bot ∷ [])
unfolding heartbeat get_by_agent_id get_by_tenant_and_agent fetch commit save
beaten = refl

one_bot : profiles "acme" "bot" (bot ∷ []) ≡ bot ∷ []
one_bot = refl

get_by_agent_id-create_example :
    (create list_engine 2 6 (request "cat") (bot ∷ [])
      ≡ (ok (new_profile 2 6 (request "cat")), new_profile 2 6 (request "cat") ∷ bot ∷ []))
    × (get_by_agent_id list_engine "acme" "bot"
          (create list_engine 2 6 (request "cat") (bot ∷ [])).1
        ≡ get_by_agent_id list_engine "acme" "bot" (bot ∷ []))
get_by_agent_id-create_example =
    get_by_agent_id-create list_engine 2 6 (request "cat") (bot ∷ []) "acme" "bot" refl refl

abbrev renamed : AgentProfileUpdate
renamed = record {
  name = some "Robot";
  description = none;
  version = none;
  capabilities = none;
  tags = none;
  is_active = none;
}
