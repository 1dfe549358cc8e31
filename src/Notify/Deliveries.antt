-- ===== src/Notify/Deliveries.antt =====
-- services/notify/service.py: the deliveries of a dispatch, from the answers of the client.
use mathlib.Core.Path.{subst}
use mathlib.Core.List.{Permᴰ}
use dox.Result.{Result, ok, err}
use dox.Prelude.{
  filter-filter, filter-perm, count-not, Option, none, not, leb, ltb, ℕ, ◌+◌, ◌≡◌, refl, Bool, true,
  false, ◌&&◌, String, some, List, [], ◌∷◌, filter, count, arith, ℕ_eq, String_eq, inl, inr,
  Bool-cases,
}
use dox.Json.{Json}
use dox.Sql.{Sql}
use dox.Notify.{
  WebhookEndpoint, DispatchRequest, WebhookDeliveryResult, HttpClient, Body, Draw, World, is_listed,
  subscribes, list_webhooks, matching, deliver, deliver_all, dispatch, judge_response, send,
}
use dox.Notify.Dispatch.{is_due}

-- The status of an answer: an answer from 200 to 299 is a success.
abbrev pub is_accepted : Result ℕ → Bool
is_accepted (ok code) = leb 200 code && ltb code 300
is_accepted (err e) = false

abbrev pub code_of : Result ℕ → Option ℕ
code_of (ok code) = some code
code_of (err e) = none

judge_response-answer :
    (answer : Result ℕ)
    → ((judge_response (some answer)).0 ≡ is_accepted answer)
      × ((judge_response (some answer)).1 ≡ code_of answer)
unfolding judge_response
judge_response-answer (err e) = (refl, refl)
judge_response-answer (ok code) = elim (Bool-cases (leb 200 code && ltb code 300)) [
  | inl good ↦ (rw good refl, rw good refl)
  | inr bad ↦ (rw bad refl, rw bad refl)
]

module _ (sql : Sql) (has_http : Bool) (http : HttpClient) (sign : Body → String → String) where
  -- The webhooks that match are those that are due.
  matching-filter :
      (request : DispatchRequest) (rows : List WebhookEndpoint)
      → Permᴰ (matching sql has_http http sign request rows) (filter (is_due request) rows)
  unfolding matching list_webhooks
  matching-filter request rows =
      let listed : WebhookEndpoint → Bool = is_listed request.tenant_id true in
      let chosen = sql.select WebhookEndpoint listed rows in
      let same : Permᴰ (sql.order_desc WebhookEndpoint (λ r. r.created_at) chosen)
          (filter listed rows) =
        Permᴰ.trans (sql.order_desc_perm WebhookEndpoint (λ r. r.created_at) chosen)
          (sql.select_perm WebhookEndpoint listed rows) in
      subst
        (λ l.
          Permᴰ
            (filter (subscribes request.sentinel_type)
              (sql.order_desc WebhookEndpoint (λ r. r.created_at) chosen))
            l)
        (filter-filter listed (subscribes request.sentinel_type) rows)
        (filter-perm (subscribes request.sentinel_type) same)

  -- One delivery, from the state of the client to the next one. Without a client nothing is sent.
  abbrev pub Attempted :
      Bool
      → Draw
      → WebhookEndpoint
      → DispatchRequest
      → http.State
      → http.State
      → WebhookDeliveryResult
      → Type 0
  Attempted false draw hook request net next r =
      (r.success ≡ false) × (r.status_code ≡ none) × (next ≡ net)
  Attempted true draw hook request net next r =
      let body : Body = record {
        delivery_id = draw.delivery_id;
        sentinel_type = request.sentinel_type;
        payload = request.payload;
        delivered_at = draw.now;
      } in
      let answered = http.post hook.url body (sign body hook.secret) net in
      (r.success ≡ is_accepted answered.0)
      × (r.status_code ≡ code_of answered.0)
      × (next ≡ answered.1)

  -- One delivery to each webhook, in order.
  abbrev pub Served :
      (ℕ → Draw)
      → ℕ
      → DispatchRequest
      → List WebhookEndpoint
      → List WebhookDeliveryResult
      → http.State
      → http.State
      → Type 0
  Served draws n request [] results net final = (results ≡ []) × (final ≡ net)
  Served draws n request (hook ∷ hooks) results net final =
      (r : WebhookDeliveryResult) × (rest : List WebhookDeliveryResult) × (next : http.State)
      × (results ≡ r ∷ rest)
      × (r.webhook_id ≡ hook.id)
      × (r.url ≡ hook.url)
      × Attempted has_http (draws n) hook request net next r
      × Served draws (n + 1) request hooks rest next final

  deliver-Attempted :
      (draw : Draw) (hook : WebhookEndpoint) (request : DispatchRequest)
      (w : World sql has_http http sign)
      → let done =
          deliver sql has_http http sign draw hook request.sentinel_type request.payload w in
        Attempted has_http draw hook request w.1 done.1.1 done.0
  unfolding deliver send
  deliver-Attempted draw hook request w = elim (Bool-cases has_http) [
    | inl there ↦
        let body : Body = record {
          delivery_id = draw.delivery_id;
          sentinel_type = request.sentinel_type;
          payload = request.payload;
          delivered_at = draw.now;
        } in
        let judged =
          judge_response-answer (http.post hook.url body (sign body hook.secret) w.1).0 in
        rw there (judged.0, judged.1, refl)
    | inr missing ↦ rw missing (unfold judge_response in refl, unfold judge_response in refl, refl)
  ]

  deliver_all-Served :
      (draws : ℕ → Draw) (n : ℕ) (request : DispatchRequest) (hooks : List WebhookEndpoint)
      (w : World sql has_http http sign)
      → let done =
          deliver_all sql has_http http sign draws n hooks request.sentinel_type request.payload
            w in
        Served draws n request hooks done.0 w.1 done.1.1
  unfolding deliver_all
  deliver_all-Served draws n request [] w = (refl, refl)
  deliver_all-Served draws n request (hook ∷ hooks) w =
      let kind : String = request.sentinel_type in
      let payload : Json = request.payload in
      let one = deliver sql has_http http sign (draws n) hook kind payload w in
      let rest = deliver_all sql has_http http sign draws (n + 1) hooks kind payload one.1 in
      (
        one.0,
        rest.0,
        one.1.1,
        refl,
        unfold deliver in refl,
        unfold deliver in refl,
        deliver-Attempted (draws n) hook request w,
        deliver_all-Served draws (n + 1) request hooks one.1,
      )

  -- A dispatch makes one delivery after another, one to each webhook that is due, in some order. Each
  -- result has the webhook's identifier and URL; with a client its status is that of the answer to a POST
  -- to that URL of the signed alert, and it is a success exactly if that is from 200 to 299; without a
  -- client, or where it raises, the delivery has failed. The successes and the failures are counted.
  pub dispatch-Served :
      (draws : ℕ → Draw) (request : DispatchRequest) (w : World sql has_http http sign)
      → let done = dispatch sql has_http http sign draws request w in
        (hooks : List WebhookEndpoint) × Permᴰ hooks (filter (is_due request) w.0)
        × Served draws 0 request hooks done.0.deliveries w.1 done.1.1
        × (done.0.successful ≡ count (λ d. d.success) done.0.deliveries)
        × (done.0.failed ≡ count (λ d. not d.success) done.0.deliveries)
  unfolding dispatch
  dispatch-Served draws request w =
      let hooks = matching sql has_http http sign request w.0 in
      let deliveries =
        (deliver_all sql has_http http sign draws 0 hooks request.sentinel_type request.payload
          w).0 in
      (
        hooks,
        matching-filter request w.0,
        deliver_all-Served draws 0 request hooks w,
        refl,
        omega (arith, count-not (λ (d : WebhookDeliveryResult). d.success) deliveries),
      )
