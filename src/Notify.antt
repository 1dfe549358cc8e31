-- ===== src/Notify.antt =====
-- services/notify/service.py and common/models/webhook.py: the webhooks of a tenant, and the delivery
-- of an alert to those that subscribe to it. The table is as committed.
pub mod Dispatch
pub mod Deliveries
mod Tests
use dox.Prelude.{
  ℕ, ◌+◌, ◌-◌, Bool, true, false, ◌&&◌, ◌||◌, not, String, Option, none, some, List, [], ◌∷◌,
  length, filter, any, count, if◌then◌else◌, leb, ltb, ◌==◌, ℕ_eq, String_eq,
}
use dox.Result.{Result, ok, err, Error, Exec}
use dox.Json.{Json}
use dox.Sql.{Sql, get, change, add, save}

pub record WebhookEndpoint : Type 0 where
  pub id : ℕ
  pub tenant_id : String
  pub url : String
  pub secret : String
  pub event_types : List String
  pub description : String
  pub is_active : Bool
  pub failure_count : ℕ
  pub last_delivered_at : Option ℕ
  pub created_at : ℕ

pub record WebhookCreate : Type 0 where
  pub tenant_id : String
  pub url : String
  pub secret : String
  pub event_types : List String
  pub description : String

pub record DispatchRequest : Type 0 where
  pub tenant_id : String
  pub sentinel_type : String
  pub payload : Json

-- The dictionary that is dumped as the body of a delivery.
pub record Body : Type 0 where
  pub delivery_id : ℕ
  pub sentinel_type : String
  pub payload : Json
  pub delivered_at : ℕ

-- `AsyncHttpClient`: a POST of a signed body returns a status code or raises.
pub record HttpClient : Type 1 where
  pub State : Type 0
  pub post : String → Body → String → State → Result ℕ × State

-- The text of the `error` field, as what it is made from.
pub data DeliveryError : Type 0 where
  http_status : ℕ → DeliveryError
  raised : Error → DeliveryError

pub record WebhookDeliveryResult : Type 0 where
  pub webhook_id : ℕ
  pub url : String
  pub success : Bool
  pub status_code : Option ℕ
  pub error : Option DeliveryError
  pub delivered_at : ℕ

pub record DispatchResult : Type 0 where
  pub deliveries : List WebhookDeliveryResult
  pub successful : ℕ
  pub failed : ℕ

abbrev pub clash : WebhookEndpoint → WebhookEndpoint → Bool
clash w r = r.id == w.id

-- The constructor's defaults: active, and no failure yet.
unfoldable pub new_webhook : ℕ → ℕ → WebhookCreate → WebhookEndpoint
new_webhook id created_at create = record {
  id = id;
  tenant_id = create.tenant_id;
  url = create.url;
  secret = create.secret;
  event_types = create.event_types;
  description = create.description;
  is_active = true;
  failure_count = 0;
  last_delivered_at = none;
  created_at = created_at;
}

unfoldable pub register_webhook :
    ℕ → ℕ → WebhookCreate → Exec (List WebhookEndpoint) WebhookEndpoint
unfolding add new_webhook
register_webhook id created_at create = add clash (new_webhook id created_at create)

-- `"*" in w.event_types or request.sentinel_type in w.event_types`
abbrev pub subscribes : String → WebhookEndpoint → Bool
subscribes kind w = any (λ t. t == "*") w.event_types || any (λ t. t == kind) w.event_types

abbrev pub is_listed : String → Bool → WebhookEndpoint → Bool
is_listed tenant active_only w = w.tenant_id == tenant && (not active_only || w.is_active)

-- The answer of the client, where there is one: success, status code and error.
unfoldable pub judge_response : Option (Result ℕ) → Bool × Option ℕ × Option DeliveryError
judge_response none = (false, none, none)
judge_response (some (ok code)) =
    if leb 200 code && ltb code 300
    then (true, some code, none)
    else (false, some code, some (http_status code))
judge_response (some (err e)) = (false, none, some (raised e))

-- The columns that a delivery sets.
unfoldable pub delivered : ℕ → Bool → WebhookEndpoint → WebhookEndpoint
delivered now success w = record w {
  last_delivered_at = some now;
  failure_count = if success then 0 else w.failure_count + 1;
}

-- What one delivery draws.
pub record Draw : Type 0 where
  pub delivery_id : ℕ
  pub now : ℕ

-- `has_http` says whether the service was constructed with a client; `sign` is `sign_payload` of the
-- dumped body, an HMAC under the webhook's secret.
module _ (sql : Sql) (has_http : Bool) (http : HttpClient) (sign : Body → String → String) where
  -- The table, and the state of the client.
  abbrev pub World : Type 0
  World = List WebhookEndpoint × http.State

  unfoldable pub get_webhook : ℕ → List WebhookEndpoint → Result WebhookEndpoint
  unfolding get
  get_webhook webhook_id = get sql (λ w. w.id) webhook_id

  unfoldable pub list_webhooks : String → Bool → List WebhookEndpoint → List WebhookEndpoint
  list_webhooks tenant active_only rows =
      sql.order_desc WebhookEndpoint (λ w. w.created_at)
        (sql.select WebhookEndpoint (is_listed tenant active_only) rows)

  unfoldable pub deactivate_webhook : ℕ → Exec (List WebhookEndpoint) WebhookEndpoint
  unfolding change
  deactivate_webhook webhook_id =
      change sql (λ w. w.id) webhook_id (λ w. record w { is_active = false })

  -- The call of the client, its exceptions caught.
  unfoldable pub send :
      Draw → WebhookEndpoint → String → Json → http.State → Option (Result ℕ) × http.State
  send draw w kind payload net =
      let body : Body = record {
        delivery_id = draw.delivery_id;
        sentinel_type = kind;
        payload = payload;
        delivered_at = draw.now;
      } in
      let (answer, net') = http.post w.url body (sign body w.secret) net in
      if has_http then (some answer, net') else (none, net)

  unfoldable pub deliver :
      Draw → WebhookEndpoint → String → Json → World → WebhookDeliveryResult × World
  unfolding send judge_response delivered save
  deliver draw w kind payload (rows, net) =
      let (answer, net') = send draw w kind payload net in
      let (success, status_code, error) = judge_response answer in
      (
        record {
          webhook_id = w.id;
          url = w.url;
          success = success;
          status_code = status_code;
          error = error;
          delivered_at = draw.now;
        },
        (save (λ r. r.id) (delivered draw.now success w) rows, net'),
      )

  -- The loop over the webhooks that match; `draws n` is what the n-th delivery draws.
  unfoldable pub deliver_all :
      (ℕ → Draw)
      → ℕ
      → List WebhookEndpoint
      → String
      → Json
      → World
      → List WebhookDeliveryResult × World
  unfolding deliver
  deliver_all draws n [] kind payload w = ([], w)
  deliver_all draws n (hook ∷ hooks) kind payload w =
      let (result, w') = deliver (draws n) hook kind payload w in
      let (results, w'') = deliver_all draws (n + 1) hooks kind payload w' in
      (result ∷ results, w'')

  unfoldable pub matching : DispatchRequest → List WebhookEndpoint → List WebhookEndpoint
  unfolding list_webhooks
  matching request rows =
      filter (subscribes request.sentinel_type) (list_webhooks request.tenant_id true rows)

  unfoldable pub dispatch : (ℕ → Draw) → DispatchRequest → World → DispatchResult × World
  unfolding matching deliver_all
  dispatch draws request w =
      let (deliveries, w') =
        deliver_all draws 0 (matching request w.0) request.sentinel_type request.payload w in
      let successful = count (λ d. d.success) deliveries in
      (
        record {
          deliveries = deliveries;
          successful = successful;
          failed = length deliveries - successful;
        },
        w',
      )
