-- ===== src/Adapters.antt =====
-- common/adapters: the bus as the services see it, and the in-process bus and metrics.
pub mod Registry
pub mod Stores
pub mod Files
pub mod Metrics
mod Tests
use dox.Prelude.{
  ℤ, pos, ◌+ℤ◌, ℕ, ◌+◌, ◌≡◌, String, List, [], ◌∷◌, ◌++◌, arith, if◌then◌else◌, ◌==◌, String_eq,
  eq_iff,
}
use dox.Result.{Result, ok}
use dox.Events.{CanonicalEvent}

-- `EventBusAdapter`: publishing to a topic may raise, as a network client does.
pub record EventBus : Type 1 where
  pub State : Type 0
  pub publish : String → CanonicalEvent → State → Result (Unit {0}) × State

-- A `defaultdict`: the value of a key that is not there is the default.
module _ {V : Type 0} (default : V) where
  unfoldable pub value_at : String → List (String × V) → V
  value_at k [] = default
  value_at k ((j, v) ∷ d) = if j == k then v else value_at k d

  unfoldable pub update_at : String → (V → V) → List (String × V) → List (String × V)
  update_at k f [] = (k, f default) ∷ []
  update_at k f ((j, v) ∷ d) = if j == k then (j, f v) ∷ d else (j, v) ∷ update_at k f d

  pub value_at-update_at :
      (k j : String) (f : V → V) (d : List (String × V))
      → value_at j (update_at k f d) ≡ (if k == j then f (value_at k d) else value_at j d)
  unfolding value_at update_at
  value_at-update_at k j f [] = ground (arith, eq_iff k j, eq_iff k k)
  value_at-update_at k j f ((i, v) ∷ d) =
      ground (arith, eq_iff k j, eq_iff i k, eq_iff i j, value_at-update_at k j f d)

-- `InMemoryEventBusAdapter`
abbrev pub Topics : Type 0
Topics = List (String × List CanonicalEvent)

unfoldable pub publish : String → CanonicalEvent → Topics → Result (Unit {0}) × Topics
unfolding update_at
publish topic event store = (ok tt, update_at [] topic (λ l. l ++ event ∷ []) store)

unfoldable pub get_events : String → Topics → List CanonicalEvent
unfolding value_at
get_events topic store = value_at [] topic store

abbrev pub in_memory : EventBus
in_memory = record { State = Topics; publish = publish }

-- `InMemoryMetricsAdapter`: the counters.
abbrev pub Counters : Type 0
Counters = List (String × ℤ)

unfoldable pub increment : String → ℤ → Counters → Counters
unfolding update_at
increment name value counters = update_at (pos 0) name (λ n. n +ℤ value) counters

unfoldable pub get_counter : String → Counters → ℤ
unfolding value_at
get_counter name counters = value_at (pos 0) name counters

-- A publication is read at the end of its topic, and on no other.
pub get_events-publish :
    (topic other : String) (event : CanonicalEvent) (store : Topics)
    → get_events other (publish topic event store).1
      ≡ (if topic == other then get_events topic store ++ event ∷ [] else get_events other store)
unfolding get_events publish
get_events-publish topic other event store =
    value_at-update_at [] topic other (λ l. l ++ event ∷ []) store

-- An increment adds to the counter of its name, and to no other.
pub get_counter-increment :
    (name other : String) (value : ℤ) (counters : Counters)
    → get_counter other (increment name value counters)
      ≡ (if name == other then get_counter name counters +ℤ value else get_counter other counters)
unfolding get_counter increment
get_counter-increment name other value counters =
    value_at-update_at (pos 0) name other (λ n. n +ℤ value) counters
