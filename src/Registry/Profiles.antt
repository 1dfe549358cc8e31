-- ===== src/Registry/Profiles.antt =====
-- services/registry/service.py: registering an agent, looking it up, and updating its profile.
use dox.Prelude.{
  ℕ, ◌≡◌, refl, Bool, false, ◌&&◌, String, List, [], ◌∷◌, arith, filter, any, if◌then◌else◌, inl,
  inr, ◌==◌, ℕ_eq, String_eq, eq_iff, Bool-cases, any-or,
}
use dox.Result.{map_ok, ok, err, conflict}
use dox.Sql.{Sql, insert, add}
use dox.Sql.Fetch.{fetch_lem, one_or_none}
use dox.Sql.Rows.{Distinct}
use dox.Sql.Change.{get-change, change-get}
use dox.Registry.{
  AgentProfile, AgentProfileCreate, AgentProfileUpdate, is_agent, new_profile, create,
  create_unless, get_by_tenant_and_agent, get_by_agent_id, get_profile, update, patched,
}

abbrev pub by_id : AgentProfile → ℕ
by_id p = p.id

-- The profiles of an agent.
abbrev pub profiles : String → String → List AgentProfile → List AgentProfile
profiles tenant agent = filter (is_agent tenant agent)

none-any :
    (p : AgentProfile → Bool) (rows : List AgentProfile) → filter p rows ≡ [] → any p rows ≡ false
none-any p [] h = refl
none-any p (r ∷ rows) h = ground (arith, none-any p rows)

module _ (sql : Sql) where
  -- A lookup finds the profile of an agent that has one, and raises where it has none.
  lookup :
      (tenant agent : String) (rows : List AgentProfile)
      → get_by_tenant_and_agent sql tenant agent rows ≡ one_or_none (profiles tenant agent rows)
  unfolding get_by_tenant_and_agent
  lookup tenant agent rows = fetch_lem sql (is_agent tenant agent) rows

  -- Registering an agent that has one profile raises ConflictError and writes nothing.
  pub create_conflict :
      (id now : ℕ) (c : AgentProfileCreate) (rows : List AgentProfile) (p : AgentProfile)
      → profiles c.tenant_id c.agent_id rows ≡ p ∷ []
      → create sql id now c rows ≡ (err conflict, rows)
  unfolding create create_unless
  create_conflict id now c rows p h = rw (lookup c.tenant_id c.agent_id rows, h) refl

  create_free :
      (id now : ℕ) (c : AgentProfileCreate) (rows : List AgentProfile)
      → profiles c.tenant_id c.agent_id rows ≡ []
      → any (λ r. r.id == id) rows ≡ false
      → create sql id now c rows ≡ (ok (new_profile id now c), new_profile id now c ∷ rows)
  unfolding create create_unless add insert new_profile
  create_free id now c rows none_yet fresh =
      rw
        (
          lookup c.tenant_id c.agent_id rows,
          none_yet,
          any-or (λ (r : AgentProfile). r.id == id) (is_agent c.tenant_id c.agent_id) rows,
          fresh,
          none-any (is_agent c.tenant_id c.agent_id) rows none_yet,
        )
        refl

  lookup_new :
      (id now : ℕ) (c : AgentProfileCreate) (rows : List AgentProfile) (tenant agent : String)
      → profiles c.tenant_id c.agent_id rows ≡ []
      → get_by_agent_id sql tenant agent (new_profile id now c ∷ rows) ≡ (
          if c.tenant_id == tenant && c.agent_id == agent
          then ok (new_profile id now c)
          else get_by_agent_id sql tenant agent rows)
  unfolding get_by_agent_id new_profile
  lookup_new id now c rows tenant agent none_yet =
      elim (Bool-cases (c.tenant_id == tenant && c.agent_id == agent)) [
        | inl hit ↦
            let t : c.tenant_id ≡ tenant = ground (arith, eq_iff c.tenant_id tenant, hit) in
            let a : c.agent_id ≡ agent = ground (arith, eq_iff c.agent_id agent, hit) in
            let bare : profiles tenant agent rows ≡ [] = rw (← t, ← a) none_yet in
            rw (lookup tenant agent (new_profile id now c ∷ rows), hit, bare) refl
        | inr miss ↦
            rw (lookup tenant agent (new_profile id now c ∷ rows), lookup tenant agent rows, miss)
              refl
      ]

  -- Registering an agent that has no profile, under a fresh identifier, returns its profile, which
  -- a lookup of the agent then returns, and a lookup of another agent returns what it did.
  pub get_by_agent_id-create :
      (id now : ℕ) (c : AgentProfileCreate) (rows : List AgentProfile) (tenant agent : String)
      → profiles c.tenant_id c.agent_id rows ≡ []
      → any (λ r. r.id == id) rows ≡ false
      → (create sql id now c rows ≡ (ok (new_profile id now c), new_profile id now c ∷ rows))
        × (get_by_agent_id sql tenant agent (create sql id now c rows).1 ≡ (
            if c.tenant_id == tenant && c.agent_id == agent
            then ok (new_profile id now c)
            else get_by_agent_id sql tenant agent rows))
  get_by_agent_id-create id now c rows tenant agent none_yet fresh =
      let new : AgentProfile = new_profile id now c in
      let made : create sql id now c rows ≡ (ok new, new ∷ rows) =
        create_free id now c rows none_yet fresh in
      (made, rw made (lookup_new id now c rows tenant agent none_yet))

-- With unique identifiers, reading a profile after an update shows that profile with the given fields
-- replaced, and every other profile as before; an update of a missing profile raises as the reading
-- does.
pub get_profile-update :
    (sql : Sql) (k j : ℕ) (u : AgentProfileUpdate) (rows : List AgentProfile)
    → Distinct by_id rows
    → (get_profile sql j (update sql k u rows).1
        ≡ (if k == j then map_ok (patched u) (get_profile sql k rows) else get_profile sql j rows))
      × ((update sql k u rows).0 ≡ map_ok (patched u) (get_profile sql k rows))
unfolding get_profile update patched
get_profile-update sql k j u rows d = (
  get-change sql by_id k j (patched u) rows (λ r. refl) d,
  change-get sql by_id k (patched u) rows,
)
