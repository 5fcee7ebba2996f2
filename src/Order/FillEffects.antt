-- ===== src/Order/FillEffects.antt =====
-- The order after a fill: apps/server/src/order-manager/order-manager.ts.
use finance_agent_os.Base.{
  ℕ, ◌+◌, ◌*◌, ◌<◌, ◌≤◌, ◌≡◌, String, lookup, some, arith, true, false, positive_finite, includes,
  leb, if◌then◌else◌, pos, ◌+ℤ◌, or_default,
}
use finance_agent_os.Order.Status.{partially_filled, filled}
use finance_agent_os.Order.Data.{ManagedOrder, OrderManager, OrderFill}
use finance_agent_os.Order.Manager.{moved}
use finance_agent_os.Order.Fill.{apply_fill, filled_order, completed, dedup_key}
use finance_agent_os.Order.Invariant.{IsValid}
use finance_agent_os.Order.FillEdits.{executable, result, positive_finite_pos}
use finance_agent_os.Order.Fills.{
  HasCost, filled_order-HasCost, executable_amounts, accepted_writes, completed_status,
}

-- The order `o'` is `o`, whose fills have cost `c`, with `q` more units filled by `f`.
pub record Filled (q c : ℕ) (f : OrderFill) (o o' : ManagedOrder) : Type 0 where
  pub units : o'.filled_quantity ≡ o.filled_quantity + q
  pub paid : o'.fees ≡ o.fees +ℤ or_default f.fee (pos 0)
  pub cost : HasCost o' (c + f.price * q)
  pub status :
      o'.status ≡ (if leb o.quantity (o.filled_quantity + q + 1) then filled else partially_filled)

completed_same :
    (now : ℕ) (o : ManagedOrder)
    → ((completed now o).filled_quantity ≡ o.filled_quantity)
      × ((completed now o).fees ≡ o.fees)
      × ((completed now o).average_fill_price ≡ o.average_fill_price)
      × ((completed now o).submitted_at ≡ o.submitted_at)
unfolding completed
completed_same now o = ground arith

filled_order_amounts :
    (now q : ℕ) (f : OrderFill) (o : ManagedOrder)
    → o.filled_quantity + q ≤ o.quantity
    → let e = filled_order now q f o in
      (e.filled_quantity ≡ o.filled_quantity + q)
      × (e.fees ≡ o.fees +ℤ or_default f.fee (pos 0))
      × (e.quantity ≡ o.quantity)
      × (e.submitted_at ≡ o.submitted_at)
unfolding filled_order
filled_order_amounts now q f o h = ground arith

result-HasCost :
    (now q : ℕ) (f : OrderFill) (o : ManagedOrder)
    → 0 < q
    → o.filled_quantity + q ≤ o.quantity
    → (c : ℕ) → HasCost o c
    → HasCost (result now q f o) (c + f.price * q)
result-HasCost now q f o p h c k =
    ground
      (arith, completed_same now (filled_order now q f o), filled_order-HasCost now q f o c p h k)

executable_fees : (now : ℕ) (o : ManagedOrder) → (executable now o).fees ≡ o.fees
unfolding moved
executable_fees now o = ground arith

-- The order that a fill leaves, relative to the one it found.
result-Filled :
    (now q c : ℕ) (f : OrderFill) (o : ManagedOrder)
    → 0 < q
    → o.filled_quantity + q ≤ o.quantity
    → HasCost o c
    → Filled q c f o (result now q f (executable now o))
result-Filled now q c f o p h k =
    let e = executable now o in
    let e_same = executable_amounts now o in
    let amounts = filled_order_amounts now q f e (omega arith) in
    let r_same = completed_same now (filled_order now q f e) in
    record {
      units = ground arith;
      paid = ground (arith, executable_fees now o);
      cost = result-HasCost now q f e p (omega arith) c (ground arith);
      status = ground (arith, completed_status now (filled_order now q f e));
    }

-- A new fill that `applyFill` accepts on a valid manager and that fits into what is left of the
-- order: the filled quantity and the fees grow by the fill's, the exact cost (average price times
-- filled quantity) grows by the fill's price times its quantity, and the order is FILLED if at most
-- one unit is left open, PARTIALLY_FILLED otherwise.
pub apply_fill-Filled :
    (now q c : ℕ) (id : String) (f : OrderFill) (o : ManagedOrder) (om : OrderManager)
    → IsValid om
    → lookup id om.orders ≡ some o
    → includes om.fill_dedup (dedup_key id f) ≡ false
    → positive_finite f.quantity ≡ some q
    → o.filled_quantity + q ≤ o.quantity
    → HasCost o c
    → (apply_fill now id f om).0 ≡ true
    → (o' : ManagedOrder) × (lookup id (apply_fill now id f om).1.orders ≡ some o')
      × Filled q c f o o'
apply_fill-Filled now q c id f o om v at new p h k yes_answer = (
  result now q f (executable now o),
  accepted_writes now q id f o om v at new p yes_answer,
  result-Filled now q c f o (positive_finite_pos f.quantity q p) h k,
)
