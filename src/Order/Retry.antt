-- ===== src/Order/Retry.antt =====
-- Repeated `createOrder`: apps/server/src/order-manager/order-manager.ts.
use finance_agent_os.Base.{
  ◌≡◌, refl, String, ◌==◌, eq_refl, lookup-insert, some, Option-cases, arith, false, inl, inr,
  Result, ok, err, trim,
}
use finance_agent_os.Order.Data.{ManagedOrder, OrderManager, Env, OrderParams, Fields, CreateError}
use finance_agent_os.Order.Manager.{
  new_order, register, find_by, create_checked, checked_fields, create_order,
}

module _ (o p : ManagedOrder) (om : OrderManager) (c : p.client_order_id ≡ o.client_order_id)
    (k : p.idempotency_key ≡ o.idempotency_key) where
  registered_found :
      find_by (register o om).orders_by_client o.client_order_id (register o om) ≡ some o
  unfolding find_by register
  registered_found = ground (
    arith,
    lookup-insert o.client_order_id o.client_order_id o.id om.orders_by_client,
    eq_refl o.client_order_id,
    lookup-insert o.id o.id o om.orders,
    eq_refl o.id,
  )

  create_checked_again : let r = create_checked o om in create_checked p r.1 ≡ r
  unfolding create_checked
  create_checked_again = elim (Option-cases (find_by om.orders_by_client o.client_order_id om)) [
    | inr (q, e) ↦ ground arith
    | inl e ↦ elim (Option-cases (find_by om.orders_by_idempotency o.idempotency_key om)) [
      | inr (q, f) ↦ ground arith
      | inl f ↦ ground (arith, registered_found)
    ]
  ]

new_order_keys :
    (env env' : Env) (params : OrderParams) (f : Fields) (c : String)
    → params.client_order_id ≡ some c
    → (trim c == "") ≡ false
    → ((new_order env' params f).client_order_id ≡ (new_order env params f).client_order_id)
      × ((new_order env' params f).idempotency_key ≡ (new_order env params f).idempotency_key)
unfolding new_order
new_order_keys env env' params f c h b = (ground arith, ground arith)

-- A caller that gives a client order id may retry `createOrder` at will: a second call with the same
-- parameters, at another time and with other ids from the generator, returns the same order (or the
-- same error) and changes nothing.
pub create_order_retry :
    (env env' : Env) (params : OrderParams) (om : OrderManager) (c : String)
    → params.client_order_id ≡ some c
    → (trim c == "") ≡ false
    → let r = create_order env params om in create_order env' params r.1 ≡ r
unfolding create_order
create_order_retry env env' params om c h b = go (checked_fields params) refl
  where
    go :
        (x : Result CreateError Fields)
        → checked_fields params ≡ x
        → create_order env' params (create_order env params om).1 ≡ create_order env params om
    go (err e) m = ground arith
    go (ok f) m =
        let (same_client, same_key) = new_order_keys env env' params f c h b in
        ground (
          arith,
          create_checked_again (new_order env params f) (new_order env' params f) om same_client
              same_key,
        )
