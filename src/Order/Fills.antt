-- ===== src/Order/Fills.antt =====
-- Repeated fills and the cost of fills: `applyFill` of
-- apps/server/src/order-manager/order-manager.ts.
use finance_agent_os.Base.{
  ℕ, ◌+◌, ◌*◌, ◌<◌, ◌≤◌, ◌≡◌, ◌∙◌, String, eq_iff, eq_refl, lookup, lookup-insert, some, arith, inl,
  inr, Bool-cases, true, false, positive_finite, includes, leb, if◌then◌else◌,
}
use finance_agent_os.Order.Status.{pending, partially_filled, filled, is_status}
use finance_agent_os.Order.Data.{ManagedOrder, OrderManager, OrderFill}
use finance_agent_os.Order.Manager.{moved}
use finance_agent_os.Order.Fill.{
  apply_fill, apply_quantity, commit_fill, filled_order, completed, dedup_key, make_executable,
}
use finance_agent_os.Order.Invariant.{IsValid}
use finance_agent_os.Order.Answers.{apply_fill_refused}
use finance_agent_os.Order.FillEdits.{executable, make_executable-lookup, result}

-- After an accepted fill its key is known and its order is still there.
commit_fill_known :
    (now q : ℕ) (id key : String) (f : OrderFill) (o : ManagedOrder) (om : OrderManager)
    → o.id ≡ id
    → let om' = commit_fill now q key f o om in
      (includes om'.fill_dedup key ≡ true)
      × (lookup id om'.orders ≡ some (completed now (filled_order now q f o)))
unfolding commit_fill
commit_fill_known now q id key f o om e = (
  ground (arith, eq_refl key),
  ground (
    arith,
    lookup-insert o.id id (completed now (filled_order now q f o)) om.orders,
    eq_iff o.id id,
  ),
)

-- A call of `applyFill` whose fill is known, or whose order is gone, does nothing.
known_fill :
    (now : ℕ) (id : String) (f : OrderFill) (om : OrderManager)
    → includes om.fill_dedup (dedup_key id f) ≡ true
    → (apply_fill now id f om).1 ≡ om
unfolding apply_fill
known_fill now id f om h = ground arith

accepted_known :
    (now : ℕ) (id : String) (f : OrderFill) (om : OrderManager)
    → (apply_fill now id f om).0 ≡ true
    → includes (apply_fill now id f om).1.fill_dedup (dedup_key id f) ≡ true
unfolding apply_fill apply_quantity commit_fill
accepted_known now id f om h = ground (arith, eq_refl (dedup_key id f))

-- The answer to a fill does not turn on the clock.
answer_timeless :
    (now now' : ℕ) (id : String) (f : OrderFill) (om : OrderManager)
    → (apply_fill now id f om).0 ≡ (apply_fill now' id f om).0
unfolding apply_fill apply_quantity
answer_timeless now now' id f om = ground arith

-- A fill counts once: a second call with the same fill, at any time, leaves the manager as the
-- first call left it, whatever that one answered.
pub fill_once :
    (now now' : ℕ) (id : String) (f : OrderFill) (om : OrderManager)
    → let om' = (apply_fill now id f om).1 in (apply_fill now' id f om').1 ≡ om'
fill_once now now' id f om = elim (Bool-cases (apply_fill now id f om).0) [
  | inl yes_answer ↦
      known_fill now' id f (apply_fill now id f om).1 (accepted_known now id f om yes_answer)
  | inr no_answer ↦
      let unchanged = apply_fill_refused now id f om no_answer in
      rw unchanged (apply_fill_refused now' id f om (answer_timeless now' now id f om ∙ no_answer))
]

-- The exact cost of the fills of an order: average price times filled quantity.
abbrev pub HasCost : ManagedOrder → ℕ → Type 0
HasCost o c = o.average_fill_price.num * o.filled_quantity ≡ c * o.average_fill_price.den

cost_step :
    (num prev den p q c : ℕ)
    → num * prev ≡ c * den
    → (num * prev + p * q * den) * (prev + q) ≡ (c + p * q) * (den * (prev + q))
cost_step num prev den p q c h = rw h (omega arith)

-- A fill that fits into what the order still asks for raises the cost by price times quantity.
pub filled_order-HasCost :
    (now q : ℕ) (f : OrderFill) (o : ManagedOrder) (c : ℕ)
    → 0 < q
    → o.filled_quantity + q ≤ o.quantity
    → HasCost o c
    → HasCost (filled_order now q f o) (c + f.price * q)
unfolding filled_order
filled_order-HasCost now q f o c p fits h = ground (
  arith,
  cost_step o.average_fill_price.num o.filled_quantity o.average_fill_price.den f.price q c h,
)

pub executable_amounts :
    (now : ℕ) (o : ManagedOrder)
    → let e = executable now o in
      (e.quantity ≡ o.quantity)
      × (e.filled_quantity ≡ o.filled_quantity)
      × (e.average_fill_price ≡ o.average_fill_price)
      × (e.id ≡ o.id)
      × (e.submitted_at ≡ (if is_status o.status pending then some now else o.submitted_at))
unfolding moved
executable_amounts now o = ground arith

pub completed_status :
    (now : ℕ) (o : ManagedOrder)
    → (completed now o).status
      ≡ (if leb o.quantity (o.filled_quantity + 1) then filled else partially_filled)
unfolding completed
completed_status now o = ground arith

-- What an accepted, new fill of `q` units writes.
pub accepted_writes :
    (now q : ℕ) (id : String) (f : OrderFill) (o : ManagedOrder) (om : OrderManager)
    → IsValid om
    → lookup id om.orders ≡ some o
    → includes om.fill_dedup (dedup_key id f) ≡ false
    → positive_finite f.quantity ≡ some q
    → (apply_fill now id f om).0 ≡ true
    → lookup id (apply_fill now id f om).1.orders ≡ some (result now q f (executable now o))
unfolding apply_fill apply_quantity
accepted_writes now q id f o om v at new p h =
    let om' = make_executable now id o om in
    let e = executable now o in
    let w =
      commit_fill_known now q id (dedup_key id f) f e om'
        ((executable_amounts now o).3 ∙ v.keyed id o at) in
    ground (arith, make_executable-lookup now id o om (v.keyed id o at) at, w)
