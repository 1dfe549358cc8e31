-- ===== src/Notify/Dispatch.antt =====
-- services/notify/service.py: whom `dispatch` delivers to, and the rows that it changes.
use mathlib.Core.List.{Permᴰ}
use dox.Prelude.{
  All-given, ℕ, ◌+◌, ◌≡◌, refl, ◌∙◌, ap, Bool, true, false, ◌&&◌, String, some, List, [], ◌∷◌,
  filter, arith, ◌==◌, ℕ_eq, String_eq, All, All-imp, All-perm, inl, inr, Bool-cases, nat_eq_iff,
}
use dox.Json.{Json}
use dox.Sql.{Sql, save}
use dox.Sql.Rows.{Distinct, find}
use dox.Notify.{
  WebhookEndpoint, DispatchRequest, HttpClient, Body, Draw, World, is_listed, subscribes,
  list_webhooks, matching, deliver, deliver_all, dispatch, delivered, judge_response, send,
}

abbrev pub by_id : WebhookEndpoint → ℕ
by_id w = w.id

-- The webhook is the tenant's, active, and subscribed to the type or to all.
abbrev pub is_due : DispatchRequest → WebhookEndpoint → Bool
is_due request w = is_listed request.tenant_id true w && subscribes request.sentinel_type w

find-save_apart :
    (k : ℕ) (q : WebhookEndpoint) (rows : List WebhookEndpoint)
    → (q.id == k) ≡ false
    → find by_id k (save by_id q rows) ≡ find by_id k rows
unfolding find save
find-save_apart k q [] h = refl
find-save_apart k q (r ∷ rows) h =
    ground (
      arith,
      find-save_apart k q rows h,
      nat_eq_iff r.id q.id,
      nat_eq_iff r.id k,
      nat_eq_iff q.id k,
    )

-- No row that passes a test has the identifier of a row that fails it.
apart :
    (test : WebhookEndpoint → Bool) (k : ℕ) (w : WebhookEndpoint) (rows : List WebhookEndpoint)
    → Distinct by_id rows
    → find by_id k rows ≡ some w
    → test w ≡ false
    → All (λ r. test r ≡ true → (r.id == k) ≡ false) rows
unfolding find
apart test k w [] d h off = tt
apart test k w (r ∷ rows) d h off = elim (Bool-cases (r.id == k)) [
  | inl hit ↦
      let same : r ≡ w = ground arith in
      (
        λ on. absurd (cc (ap test same, on, off)),
        All-imp (λ y. (r.id == y.id) ≡ false) (λ y. test y ≡ true → (y.id == k) ≡ false) rows
            (λ y f on. ground (arith, nat_eq_iff r.id k, nat_eq_iff y.id k, nat_eq_iff r.id y.id))
            d.0,
      )
  | inr miss ↦ (λ on. miss, apart test k w rows d.1 (ground arith) off)
]

module _ (sql : Sql) (has_http : Bool) (http : HttpClient) (sign : Body → String → String) where
  matching-apart :
      (request : DispatchRequest) (rows : List WebhookEndpoint) (k : ℕ) (w : WebhookEndpoint)
      → Distinct by_id rows
      → find by_id k rows ≡ some w
      → is_due request w ≡ false
      → All (λ r. (r.id == k) ≡ false) (matching sql has_http http sign request rows)
  unfolding matching list_webhooks
  matching-apart request rows k w d found off =
      let listed : WebhookEndpoint → Bool = is_listed request.tenant_id true in
      let wants : WebhookEndpoint → Bool = subscribes request.sentinel_type in
      let chosen = sql.select WebhookEndpoint listed rows in
      let sorted = sql.order_desc WebhookEndpoint (λ r. r.created_at) chosen in
      let same : Permᴰ sorted (filter listed rows) =
        Permᴰ.trans (sql.order_desc_perm WebhookEndpoint (λ r. r.created_at) chosen)
          (sql.select_perm WebhookEndpoint listed rows) in
      let due : All (λ r. listed r ≡ true → wants r ≡ true → (r.id == k) ≡ false) rows =
        All-imp (λ r. is_due request r ≡ true → (r.id == k) ≡ false)
          (λ r. listed r ≡ true → wants r ≡ true → (r.id == k) ≡ false) rows
          (λ r f a b. f (ground (arith, a, b))) (apart (is_due request) k w rows d found off) in
      All-given (λ r. (r.id == k) ≡ false) wants sorted
        ((All-perm (λ r. wants r ≡ true → (r.id == k) ≡ false) same).1
          (All-given (λ r. wants r ≡ true → (r.id == k) ≡ false) listed rows due))

  deliver_all-apart :
      (draws : ℕ → Draw) (n k : ℕ) (hooks : List WebhookEndpoint) (kind : String) (payload : Json)
      (w : World sql has_http http sign)
      → All (λ r. (r.id == k) ≡ false) hooks
      → find by_id k (deliver_all sql has_http http sign draws n hooks kind payload w).1.0
        ≡ find by_id k w.0
  unfolding deliver_all deliver delivered
  deliver_all-apart draws n k [] kind payload w h = refl
  deliver_all-apart draws n k (hook ∷ hooks) kind payload w h =
      deliver_all-apart draws (n + 1) k hooks kind payload
        (deliver sql has_http http sign (draws n) hook kind payload w).1 h.1
      ∙ find-save_apart k
          (delivered (draws n).now
            (judge_response (send sql has_http http sign (draws n) hook kind payload w.1).0).0 hook)
          w.0 h.0

  -- With unique identifiers, a webhook that is not due is as it was after a dispatch.
  pub dispatch-others :
      (draws : ℕ → Draw) (request : DispatchRequest) (w : World sql has_http http sign) (k : ℕ)
      (r : WebhookEndpoint)
      → Distinct by_id w.0
      → find by_id k w.0 ≡ some r
      → is_due request r ≡ false
      → find by_id k (dispatch sql has_http http sign draws request w).1.0 ≡ some r
  unfolding dispatch
  dispatch-others draws request w k r d found off =
      deliver_all-apart draws 0 k (matching sql has_http http sign request w.0)
        request.sentinel_type request.payload w (matching-apart request w.0 k r d found off)
      ∙ found
