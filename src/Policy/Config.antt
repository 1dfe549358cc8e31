-- ===== src/Policy/Config.antt =====
-- common/policy_config.py: the policies of a YAML file. Reading and parsing the file, and the check of
-- an entry's fields, are libraries: the parameter `load`, which may raise or find no document.
use dox.Prelude.{
  any-false, ◌≤◌, suc, ◌≡◌, refl, ap, false, not, String, Option, none, some, List, [], ◌∷◌, length,
  map, any, any_none, All, All-imp, arith, if◌then◌else◌, ◌==◌, ℕ_eq, String_eq, eq_iff, nat_eq_iff,
  Bool-cases, inl, inr, ◌↔◌,
}
use dox.Result.{Result, ok, err, value_error, and_then, map_ok}
use dox.Enums.{SentinelType, Severity, InterventionAction}
use dox.Json.{Json}
use dox.Policy.{PolicyCreate}
use dox.Sql.Rows.{Distinct}

pub record PolicyConfigEntry : Type 0 where
  pub name : String
  pub description : String
  pub sentinel_type : SentinelType
  pub severity : Severity
  pub action : InterventionAction
  pub config : Json

-- `set(names)`, of which only the size is used: the last of each group of equal names.
unfoldable pub names_set : List String → List String
names_set [] = []
names_set (n ∷ names) =
    let rest = names_set names in if any (λ m. m == n) names then rest else n ∷ rest

-- `_names_unique`
unfoldable pub names_unique : List PolicyConfigEntry → Result (List PolicyConfigEntry)
unfolding names_set
names_unique policies =
    let names = map (λ p. p.name) policies in
    if not (length names == length (names_set names)) then err value_error else ok policies

module _ (Location : Type 0) (load : Location → Result (Option (List PolicyConfigEntry))) where
  abbrev validated : Option (List PolicyConfigEntry) → Result (List PolicyConfigEntry)
  validated none = ok []
  validated (some policies) = names_unique policies

  -- An empty document has no policies.
  unfoldable pub load_from_file : Location → Result (List PolicyConfigEntry)
  unfolding names_unique
  load_from_file path = and_then (load path) validated

  abbrev pub for_tenant : String → PolicyConfigEntry → PolicyCreate
  for_tenant tenant entry = record {
    tenant_id = tenant;
    name = entry.name;
    description = entry.description;
    sentinel_type = entry.sentinel_type;
    severity = entry.severity;
    action = entry.action;
    config = entry.config;
  }

  unfoldable pub load_for_tenant : Location → String → Result (List PolicyCreate)
  unfolding load_from_file
  load_for_tenant path tenant = map_ok (map (for_tenant tenant)) (load_from_file path)

names_set-le : (names : List String) → length (names_set names) ≤ length names
unfolding names_set
names_set-le [] = omega arith
names_set-le (n ∷ names) = ground (arith, names_set-le names)

absent :
    (n : String) (names : List String)
    → any (λ m. m == n) names ≡ false
    → All (λ m. (n == m) ≡ false) names
absent n names h =
    All-imp (λ m. (m == n) ≡ false) (λ m. (n == m) ≡ false) names
      (λ m e. ground (arith, eq_iff m n, eq_iff n m)) (any_none (λ m. m == n) names h)

present :
    (n : String) (names : List String)
    → All (λ m. (n == m) ≡ false) names
    → any (λ m. m == n) names ≡ false
present n names h =
    any-false (λ m. m == n) names
      (All-imp (λ m. (n == m) ≡ false) (λ m. (m == n) ≡ false) names
        (λ m e. ground (arith, eq_iff m n, eq_iff n m)) h)

-- A list is as long as its set exactly when nothing occurs twice in it.
names_set-Distinct :
    (names : List String) → length names ≡ length (names_set names) → Distinct (λ n. n) names
unfolding names_set
names_set-Distinct [] h = tt
names_set-Distinct (n ∷ names) h = elim (Bool-cases (any (λ m. m == n) names)) [
  | inl twice ↦ absurd (ground (arith, names_set-le names))
  | inr once ↦ (absent n names once, names_set-Distinct names (ground arith))
]

Distinct-names_set :
    (names : List String) → Distinct (λ n. n) names → length names ≡ length (names_set names)
unfolding names_set
Distinct-names_set [] h = refl
Distinct-names_set (n ∷ names) h = rw (present n names h.0) (ap suc (Distinct-names_set names h.1))

module _ (Location : Type 0) (load : Location → Result (Option (List PolicyConfigEntry))) where
  -- For a file that can be read with these policies: where no two names are equal, loading returns a
  -- request for each policy in order, with its name and the tenant's; where two are equal it raises.
  pub load_for_tenant-Distinct :
      (path : Location) (tenant : String) (policies : List PolicyConfigEntry)
      → load path ≡ ok (some policies)
      → ((load_for_tenant Location load path tenant
            ≡ ok (map (for_tenant Location load tenant) policies))
          ↔ Distinct (λ n. n) (map (λ p. p.name) policies))
        × ((load_for_tenant Location load path tenant ≡ err value_error)
            ↔ ¬ Distinct (λ n. n) (map (λ p. p.name) policies))
  unfolding load_for_tenant load_from_file names_unique
  load_for_tenant-Distinct path tenant policies h =
      let names = map (λ p. p.name) policies in
      elim (Bool-cases (length names == length (names_set names))) [
        | inl same ↦
            let all_apart : Distinct (λ n. n) names =
              names_set-Distinct names
                ((nat_eq_iff (length names) (length (names_set names))).0 same) in
            rw (h, same)
              ((λ e. all_apart, λ d. refl), (λ e. absurd (cc e), λ d. absurd (d all_apart)))
        | inr other ↦
            let not_all : ¬ Distinct (λ n. n) names = λ d. ground (
              arith,
              Distinct-names_set names d,
              nat_eq_iff (length names) (length (names_set names)),
            ) in
            rw (h, other) ((λ e. absurd (cc e), λ d. absurd (not_all d)), (λ e. not_all, λ d. refl))
      ]
