-- ===== src/Notify/Tests.antt =====
-- A dispatch to two webhooks, of which one subscribes, and the theorems at it.
use mathlib.Core.List.{Permᴰ}
use dox.Prelude.{
  not, filter, ℕ, ◌+◌, ◌≡◌, refl, ℕ_eq, true, String, List, [], ◌∷◌, none, some, count,
}
use dox.Result.{ok}
use dox.Json.{null}
use dox.Sorting.{sort, insert_sorted}
use dox.Sql.{save}
use dox.Sql.Rows.{find}
use dox.Sql.Engine.{list_engine}
use dox.Notify.{
  WebhookEndpoint, DispatchRequest, HttpClient, Body, Draw, dispatch, matching, deliver,
  deliver_all, send, judge_response, delivered, list_webhooks,
}
use dox.Notify.Deliveries.{Served, dispatch-Served}
use dox.Notify.Dispatch.{by_id, is_due, dispatch-others}

program : Unit {0}
unfolding sort insert_sorted save find dispatch matching deliver deliver_all send judge_response
    delivered list_webhooks
program = tt

-- A server that answers 500.
abbrev broken : HttpClient
broken = record { State = ℕ; post = λ url body signature n. (ok 500, n + 1) }

abbrev sign : Body → String → String
sign body secret = "sha256="

abbrev hook : ℕ → String → WebhookEndpoint
hook id kind = record {
  id = id;
  tenant_id = "acme";
  url = "https://acme.test";
  secret = "secret";
  event_types = kind ∷ [];
  description = "";
  is_active = true;
  failure_count = 3;
  last_delivered_at = none;
  created_at = id;
}

abbrev start : List WebhookEndpoint × ℕ
start = (hook 1 "*" ∷ hook 2 "memory" ∷ [], 0)

abbrev request : DispatchRequest
request = record { tenant_id = "acme"; sentinel_type = "drift"; payload = null }

abbrev draws : ℕ → Draw
draws n = record { delivery_id = n; now = 50 }

failed_once : (dispatch list_engine true broken sign draws request start).1 ≡ (
  record (hook 1 "*") { failure_count = 4; last_delivered_at = some 50 } ∷ hook 2 "memory" ∷ [],
  1,
)
unfolding program
failed_once = refl

dispatch-Served_example :
    let done = dispatch list_engine true broken sign draws request start in
    (hooks : List WebhookEndpoint) × Permᴰ hooks
      (filter (is_due request) (hook 1 "*" ∷ hook 2 "memory" ∷ []))
    × Served list_engine true broken sign draws 0 request hooks done.0.deliveries 0 done.1.1
    × (done.0.successful ≡ count (λ d. d.success) done.0.deliveries)
    × (done.0.failed ≡ count (λ d. not d.success) done.0.deliveries)
dispatch-Served_example = dispatch-Served list_engine true broken sign draws request start

second : find by_id 2 (hook 1 "*" ∷ hook 2 "memory" ∷ []) ≡ some (hook 2 "memory")
unfolding find
second = refl

dispatch-others_example :
    find by_id 2 (dispatch list_engine true broken sign draws request start).1.0
    ≡ some (hook 2 "memory")
dispatch-others_example =
    dispatch-others list_engine true broken sign draws request start 2 (hook 2 "memory")
      ((refl, tt), (tt, tt)) second refl
