-- ===== src/Adapters/Registry.antt =====
-- common/adapters/registry.py: the adapters that the settings choose. An adapter that needs a service
-- or a disk is named with what it is made of; the objects behind it are outside the model.
use dox.Prelude.{
  ◌⊎◌, inl, inr, refl, ◌≡◌, ◌&&◌, true, false, Bool, not, String, List, [], ◌∷◌, any, if◌then◌else◌,
  ◌==◌, String_eq,
}
use dox.Result.{Result, ok, err, configuration_error, and_then, map_ok}

-- The settings that are read.
pub record Settings : Type 0 where
  pub event_bus : String
  pub object_store : String
  pub secret_store : String
  pub metrics : String
  pub redis_url : String
  pub local_fs_path : String

pub data EventBusKind : Type 0 where
  in_memory : EventBusKind
  redis_streams : String → EventBusKind

pub data ObjectStoreKind : Type 0 where
  in_memory : ObjectStoreKind
  local_fs : String → ObjectStoreKind

pub data SecretStoreKind : Type 0 where
  in_memory env : SecretStoreKind

pub data MetricsKind : Type 0 where
  in_memory noop : MetricsKind

-- `name in known`
abbrev pub is_in : List String → String → Bool
is_in known name = any (λ k. k == name) known

unfoldable pub build_event_bus : Settings → Result EventBusKind
build_event_bus s =
    if not (is_in ("in_memory" ∷ "redis_streams" ∷ []) s.event_bus)
    then err configuration_error
    else if s.event_bus == "redis_streams"
    then ok (EventBusKind.redis_streams s.redis_url)
    else ok EventBusKind.in_memory

unfoldable pub build_object_store : Settings → Result ObjectStoreKind
build_object_store s =
    if not (is_in ("in_memory" ∷ "local_fs" ∷ []) s.object_store)
    then err configuration_error
    else if s.object_store == "local_fs"
    then ok (ObjectStoreKind.local_fs s.local_fs_path)
    else ok ObjectStoreKind.in_memory

unfoldable pub build_secret_store : Settings → Result SecretStoreKind
build_secret_store s =
    if not (is_in ("in_memory" ∷ "env" ∷ []) s.secret_store)
    then err configuration_error
    else if s.secret_store == "env"
    then ok SecretStoreKind.env
    else ok SecretStoreKind.in_memory

-- `prometheus` is known, and has the adapter that does nothing.
unfoldable pub build_metrics : Settings → Result MetricsKind
build_metrics s =
    if not (is_in ("in_memory" ∷ "noop" ∷ "prometheus" ∷ []) s.metrics)
    then err configuration_error
    else if s.metrics == "in_memory"
    then ok MetricsKind.in_memory
    else ok MetricsKind.noop

pub record AdapterRegistry : Type 0 where
  pub event_bus : EventBusKind
  pub object_store : ObjectStoreKind
  pub secret_store : SecretStoreKind
  pub metrics : MetricsKind

-- `__init__`, which the first error leaves.
unfoldable pub new_registry : Settings → Result AdapterRegistry
unfolding build_event_bus build_object_store build_secret_store build_metrics
new_registry s = and_then (build_event_bus s) λ event_bus.
    and_then (build_object_store s) λ object_store. and_then (build_secret_store s) λ secret_store.
      map_ok
        (λ metrics. record {
          event_bus = event_bus;
          object_store = object_store;
          secret_store = secret_store;
          metrics = metrics;
        })
        (build_metrics s)

-- A choice among known names.
Chosen : {A : Type 0} → Bool → Result A → Type 0
Chosen {A} known built =
    ((known ≡ true) × (kind : A) × (built ≡ ok kind))
    ⊎ ((known ≡ false) × (built ≡ err configuration_error))

chosen :
    {A : Type 0} (known first : Bool) (a b : A)
    → Chosen known (if not known then err configuration_error else if first then ok a else ok b)
unfolding Chosen
chosen true true a b = inl (refl, a, refl)
chosen true false a b = inl (refl, b, refl)
chosen false first a b = inr (refl, refl)

-- The registry is made exactly when each of the four names is a known one; otherwise it raises
-- ConfigurationError, and nothing else.
pub new_registry-is_in :
    (s : Settings)
    → let known =
        is_in ("in_memory" ∷ "redis_streams" ∷ []) s.event_bus
        && is_in ("in_memory" ∷ "local_fs" ∷ []) s.object_store
        && is_in ("in_memory" ∷ "env" ∷ []) s.secret_store
        && is_in ("in_memory" ∷ "noop" ∷ "prometheus" ∷ []) s.metrics in
      elim (new_registry s) as (λ _. Type 0) [
        | ok registry ↦ known ≡ true
        | err e ↦ (known ≡ false) × (e ≡ configuration_error)
      ]
unfolding new_registry Chosen build_event_bus build_object_store build_secret_store build_metrics
new_registry-is_in s =
    let bus : Chosen (is_in ("in_memory" ∷ "redis_streams" ∷ []) s.event_bus) (build_event_bus s) =
      chosen (is_in ("in_memory" ∷ "redis_streams" ∷ []) s.event_bus)
        (s.event_bus == "redis_streams") (EventBusKind.redis_streams s.redis_url)
        EventBusKind.in_memory in
    let objects : Chosen (is_in ("in_memory" ∷ "local_fs" ∷ []) s.object_store)
        (build_object_store s) =
      chosen (is_in ("in_memory" ∷ "local_fs" ∷ []) s.object_store) (s.object_store == "local_fs")
        (ObjectStoreKind.local_fs s.local_fs_path) ObjectStoreKind.in_memory in
    let secrets : Chosen (is_in ("in_memory" ∷ "env" ∷ []) s.secret_store) (build_secret_store s) =
      chosen (is_in ("in_memory" ∷ "env" ∷ []) s.secret_store) (s.secret_store == "env")
        SecretStoreKind.env SecretStoreKind.in_memory in
    let meters : Chosen (is_in ("in_memory" ∷ "noop" ∷ "prometheus" ∷ []) s.metrics)
        (build_metrics s) =
      chosen (is_in ("in_memory" ∷ "noop" ∷ "prometheus" ∷ []) s.metrics) (s.metrics == "in_memory")
        MetricsKind.in_memory MetricsKind.noop in
    elim bus [
      | inr (unknown, bad) ↦ rw (bad, unknown) (refl, refl)
      | inl (known, a, built) ↦ elim objects [
        | inr (unknown, bad) ↦ rw (built, bad, known, unknown) (refl, refl)
        | inl (known', b, built') ↦ elim secrets [
          | inr (unknown, bad) ↦ rw (built, built', bad, known, known', unknown) (refl, refl)
          | inl (known'', c, built'') ↦ elim meters [
            | inr (unknown, bad) ↦
                rw (built, built', built'', bad, known, known', known'', unknown) (refl, refl)
            | inl (last, d, made) ↦
                rw (built, built', built'', made, known, known', known'', last) refl
          ]
        ]
      ]
    ]
