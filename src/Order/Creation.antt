-- ===== src/Order/Creation.antt =====
-- What `createOrder` writes: apps/server/src/order-manager/order-manager.ts.
use finance_agent_os.Base.{
  ◌<◌, ◌≡◌, String, ◌==◌, eq_iff, lookup, insert, lookup-insert, none, some, Option-cases, arith,
  ◌⊎◌, inl, inr, Bool-cases, positive_finite, ok,
}
use finance_agent_os.Order.Data.{ManagedOrder, OrderManager, OrderParams, Fields}
use finance_agent_os.Order.Manager.{register, find_by, create_checked, checked_fields}
use finance_agent_os.Order.Invariant.{IsSound, IsValid}

-- A fresh order that no map knows.
pub record IsNew (o : ManagedOrder) (om : OrderManager) : Type 0 where
  pub fresh_id : lookup o.id om.orders ≡ none
  pub fresh_client : lookup o.client_order_id om.orders_by_client ≡ none
  pub fresh_key : lookup o.idempotency_key om.orders_by_idempotency ≡ none

module _ (o : ManagedOrder) (om : OrderManager) (v : IsValid om) (n : IsNew o om) where
  found :
      (j : String) (p : ManagedOrder)
      → lookup j (insert o.id o om.orders) ≡ some p
      → ((o.id ≡ j) × (p ≡ o)) ⊎ (lookup j om.orders ≡ some p)
  found j p h = ground (arith, lookup-insert o.id j o om.orders, eq_iff o.id j)

  pub keep :
      (j : String) (p : ManagedOrder)
      → lookup j om.orders ≡ some p
      → lookup j (insert o.id o om.orders) ≡ some p
  keep j p h = ground (arith, lookup-insert o.id j o om.orders, eq_iff o.id j, n)

  pub register-IsValid : IsSound o → IsValid (register o om)
  unfolding register
  register-IsValid s = record {
    keyed = λ j p h. ground (arith, found j p h, v.keyed j p);
    sound = λ j p h. elim (found j p h) [ inl e ↦ rw e.1 s | inr e ↦ v.sound j p e ];
    client_known = λ j p h. ground (
      arith,
      found j p h,
      v.client_known j p,
      n,
      lookup-insert o.client_order_id p.client_order_id o.id om.orders_by_client,
      eq_iff o.client_order_id p.client_order_id,
    );
    key_known = λ j p h. ground (
      arith,
      found j p h,
      v.key_known j p,
      n,
      lookup-insert o.idempotency_key p.idempotency_key o.id om.orders_by_idempotency,
      eq_iff o.idempotency_key p.idempotency_key,
    );
    client_leads = λ c id h. elim (Bool-cases (o.client_order_id == c)) [
      | inl e ↦ (
        o,
        ground (
          arith,
          lookup-insert o.client_order_id c o.id om.orders_by_client,
          lookup-insert o.id id o om.orders,
          eq_iff o.id id,
        ),
        (eq_iff o.client_order_id c).0 e,
      )
      | inr e ↦
          let (p, a, f) =
            v.client_leads c id
              (ground (arith, lookup-insert o.client_order_id c o.id om.orders_by_client)) in
          (p, keep id p a, f)
    ];
    key_leads = λ c id h. elim (Bool-cases (o.idempotency_key == c)) [
      | inl e ↦ (
        o,
        ground (
          arith,
          lookup-insert o.idempotency_key c o.id om.orders_by_idempotency,
          lookup-insert o.id id o om.orders,
          eq_iff o.id id,
        ),
        (eq_iff o.idempotency_key c).0 e,
      )
      | inr e ↦
          let (p, a, f) =
            v.key_leads c id
              (ground (arith, lookup-insert o.idempotency_key c o.id om.orders_by_idempotency)) in
          (p, keep id p a, f)
    ];
  }

-- In a valid manager a secondary map that knows a key leads to an order.
find_by_client-none :
    (c : String) (om : OrderManager)
    → IsValid om
    → find_by om.orders_by_client c om ≡ none
    → lookup c om.orders_by_client ≡ none
unfolding find_by
find_by_client-none c om v h = elim (Option-cases (lookup c om.orders_by_client)) [
  | inl e ↦ e
  | inr (id, e) ↦ let (o, at, _) = v.client_leads c id e in absurd (ground arith)
]

find_by_key-none :
    (k : String) (om : OrderManager)
    → IsValid om
    → find_by om.orders_by_idempotency k om ≡ none
    → lookup k om.orders_by_idempotency ≡ none
unfolding find_by
find_by_key-none k om v h = elim (Option-cases (lookup k om.orders_by_idempotency)) [
  | inl e ↦ e
  | inr (id, e) ↦ let (o, at, _) = v.key_leads k id e in absurd (ground arith)
]

-- Either an order of the manager is given back and nothing changes, or the new one is registered.
pub data Creation (o : ManagedOrder) (om : OrderManager)
    : ManagedOrder × OrderManager → Type 0 where
  known : (p : ManagedOrder) {r : ManagedOrder × OrderManager} → r ≡ (p, om) → Creation o om r
  added : {r : ManagedOrder × OrderManager} → IsNew o om → r ≡ (o, register o om) → Creation o om r

pub create_checked-Creation :
    (o : ManagedOrder) (om : OrderManager)
    → IsValid om
    → lookup o.id om.orders ≡ none
    → Creation o om (create_checked o om)
unfolding create_checked
create_checked-Creation o om v fresh =
    elim (Option-cases (find_by om.orders_by_client o.client_order_id om)) [
      | inr (p, e) ↦ known p (ground arith)
      | inl e ↦ elim (Option-cases (find_by om.orders_by_idempotency o.idempotency_key om)) [
        | inr (p, f) ↦ known p (ground arith)
        | inl f ↦
            added
              (record {
                fresh_id = fresh;
                fresh_client = find_by_client-none o.client_order_id om v e;
                fresh_key = find_by_key-none o.idempotency_key om v f;
              })
              (ground arith)
      ]
    ]

pub checked_fields_pos :
    (params : OrderParams) (f : Fields) → checked_fields params ≡ ok f → 0 < f.quantity
unfolding checked_fields positive_finite
checked_fields_pos params f h = ground arith
