-- ===== src/Order/Invariant.antt =====
-- The maps of the order manager between two calls:
-- apps/server/src/order-manager/order-manager.ts.
use finance_agent_os.Base.{
  ◌≤◌, ◌<◌, ◌≡◌, refl, String, ◌==◌, eq_iff, ◌∙◌, Dict, lookup, insert, lookup-insert, lookup-empty,
  some, [], arith, ◌⊎◌, inl, inr, Bool-cases,
}
use finance_agent_os.Order.Data.{ManagedOrder, OrderManager}

-- An order never holds more fills than it asked for, and its average price is a quotient.
pub record IsSound (o : ManagedOrder) : Type 0 where
  pub capped : o.filled_quantity ≤ o.quantity
  pub asked : 0 < o.quantity
  pub versioned : 0 < o.version
  pub averaged : 0 < o.average_fill_price.den

-- The secondary maps and the orders agree in both directions.
pub record Agrees (orders : Dict ManagedOrder) (by_client by_key : Dict String) : Type 0 where
  pub keyed : (id : String) (o : ManagedOrder) → lookup id orders ≡ some o → o.id ≡ id
  pub sound : (id : String) (o : ManagedOrder) → lookup id orders ≡ some o → IsSound o
  pub client_known :
      (id : String) (o : ManagedOrder)
      → lookup id orders ≡ some o
      → lookup o.client_order_id by_client ≡ some id
  pub key_known :
      (id : String) (o : ManagedOrder)
      → lookup id orders ≡ some o
      → lookup o.idempotency_key by_key ≡ some id
  pub client_leads :
      (c id : String)
      → lookup c by_client ≡ some id
      → (o : ManagedOrder) × (lookup id orders ≡ some o) × (o.client_order_id ≡ c)
  pub key_leads :
      (k id : String)
      → lookup k by_key ≡ some id
      → (o : ManagedOrder) × (lookup id orders ≡ some o) × (o.idempotency_key ≡ k)

abbrev pub IsValid : OrderManager → Type 0
IsValid om = Agrees om.orders om.orders_by_client om.orders_by_idempotency

-- What every later call leaves alone in an order.
pub record Keeps (o o' : ManagedOrder) : Type 0 where
  pub same_id : o'.id ≡ o.id
  pub same_client : o'.client_order_id ≡ o.client_order_id
  pub same_key : o'.idempotency_key ≡ o.idempotency_key
  pub same_quantity : o'.quantity ≡ o.quantity

pub Agrees-empty : Agrees [] [] []
Agrees-empty = record {
  keyed = λ id o h. cc (lookup-empty {V = ManagedOrder} id);
  sound = λ id o h. absurd (cc (lookup-empty {V = ManagedOrder} id));
  client_known = λ id o h. cc (lookup-empty {V = ManagedOrder} id);
  key_known = λ id o h. cc (lookup-empty {V = ManagedOrder} id);
  client_leads = λ c id h. absurd (cc (lookup-empty {V = String} c));
  key_leads = λ c id h. absurd (cc (lookup-empty {V = String} c));
}

-- Writing back one order under its own id.
module _ {orders : Dict ManagedOrder} {by_client by_key : Dict String} {o o' : ManagedOrder}
    (v : Agrees orders by_client by_key) (at : lookup o.id orders ≡ some o) (k : Keeps o o') where
  put-found :
      (j : String) (p : ManagedOrder)
      → lookup j (insert o.id o' orders) ≡ some p
      → ((j ≡ o.id) × (p ≡ o')) ⊎ (lookup j orders ≡ some p)
  put-found j p h = ground (arith, lookup-insert o.id j o' orders, eq_iff o.id j)

  put-leads :
      (j : String) (p : ManagedOrder)
      → lookup j orders ≡ some p
      → (q : ManagedOrder) × (lookup j (insert o.id o' orders) ≡ some q)
        × (q.client_order_id ≡ p.client_order_id)
        × (q.idempotency_key ≡ p.idempotency_key)
  put-leads j p h = elim (Bool-cases (o.id == j)) [
    | inl e ↦ (
      o',
      ground (arith, lookup-insert o.id j o' orders),
      ground (arith, eq_iff o.id j, k),
      ground (arith, eq_iff o.id j, k),
    )
    | inr e ↦ (p, ground (arith, lookup-insert o.id j o' orders), refl, refl)
  ]

  pub Agrees-put : IsSound o' → Agrees (insert o.id o' orders) by_client by_key
  Agrees-put s = record {
    keyed = λ j p h. ground (arith, put-found j p h, v.keyed j p, k);
    sound = λ j p h. elim (put-found j p h) [ inl e ↦ rw e.1 s | inr e ↦ v.sound j p e ];
    client_known =
        λ j p h. ground (arith, put-found j p h, v.client_known j p, v.client_known o.id o at, k);
    key_known = λ j p h. ground (arith, put-found j p h, v.key_known j p, v.key_known o.id o at, k);
    client_leads = λ c id h.
        let (p, a, e) = v.client_leads c id h in
        let (q, b, f, g) = put-leads id p a in (q, b, f ∙ e);
    key_leads = λ c id h.
        let (p, a, e) = v.key_leads c id h in let (q, b, f, g) = put-leads id p a in (q, b, g ∙ e);
  }
