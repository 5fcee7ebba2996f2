-- ===== src/Order/Answers.antt =====
-- The answers of calls: apps/server/src/order-manager/order-manager.ts.
use finance_agent_os.Base.{
  ℕ, ◌+◌, ◌≡◌, refl, String, eq_iff, lookup, lookup-insert, Option, none, some, Option-cases, arith,
  ◌⊎◌, inl, inr, Bool-cases, true, false, or_default,
}
use finance_agent_os.Order.Status.{
  OrderStatus, pending, cancelled, rejected, failed, is_status, is_status_iff, can_transition,
}
use finance_agent_os.Order.Data.{ManagedOrder, OrderManager, OrderFill, Env, OrderParams}
use finance_agent_os.Order.Manager.{
  moved, commit_status, update_status, cancel_order, reject_order, fail_order, retry_order,
  create_order,
}
use finance_agent_os.Order.Fill.{apply_fill, apply_quantity}
use finance_agent_os.Order.Invariant.{IsValid}
use finance_agent_os.Order.History.{
  Call, create, update, cancel, reject, fail, retry, fill, attempt,
}

update_status_refused :
    (now : ℕ) (id : String) (s : OrderStatus) (r : Option String) (om : OrderManager)
    → (update_status now id s r om).0 ≡ false
    → (update_status now id s r om).1 ≡ om
unfolding update_status
update_status_refused now id s r om h = ground arith

pub apply_fill_refused :
    (now : ℕ) (id : String) (f : OrderFill) (om : OrderManager)
    → (apply_fill now id f om).0 ≡ false
    → (apply_fill now id f om).1 ≡ om
unfolding apply_fill apply_quantity
apply_fill_refused now id f om h = ground arith

create_order_refused :
    (env : Env) (params : OrderParams) (om : OrderManager)
    → (attempt (create env params) om).0 ≡ false
    → (attempt (create env params) om).1 ≡ om
unfolding attempt create_order
create_order_refused env params om h = ground arith

-- A call that answers `false`, or throws, leaves the manager as it was: no order, map, event or
-- snapshot changes.
pub refused_unchanged :
    (c : Call) (om : OrderManager) → (attempt c om).0 ≡ false → (attempt c om).1 ≡ om
unfolding attempt cancel_order reject_order fail_order retry_order
refused_unchanged (create env params) om h = create_order_refused env params om h
refused_unchanged (update now id s r) om h = update_status_refused now id s r om h
refused_unchanged (cancel now id r) om h =
    ground
      (arith, update_status_refused now id cancelled (some (or_default r "cancel requested")) om)
refused_unchanged (reject now id r) om h =
    ground (arith, update_status_refused now id rejected (some r) om)
refused_unchanged (fail now id r) om h =
    ground (arith, update_status_refused now id failed (some r) om)
refused_unchanged (retry now id) om h =
    ground (arith, update_status_refused now id pending (some "retry") om)
refused_unchanged (fill now id f) om h = apply_fill_refused now id f om h

-- An answer `true` of `updateStatus`: the order exists and now has the status; it had it before and
-- nothing changed, or the table allows the transition, and the order is one version newer.
pub record Reached (id : String) (s : OrderStatus) (om om' : OrderManager) : Type 0 where
  pub before : ManagedOrder
  pub after : ManagedOrder
  pub before_at : lookup id om.orders ≡ some before
  pub after_at : lookup id om'.orders ≡ some after
  pub has_status : after.status ≡ s
  pub step :
      ((before.status ≡ s) × (om' ≡ om))
      ⊎ ((can_transition before.status s ≡ true) × (after.version ≡ before.version + 1))

moved_status :
    (s : OrderStatus) (r : Option String) (now : ℕ) (o : ManagedOrder)
    → (moved s r now o).status ≡ s
unfolding moved
moved_status s r now o = ground arith

moved_version :
    (s : OrderStatus) (r : Option String) (now : ℕ) (o : ManagedOrder)
    → (moved s r now o).version ≡ o.version + 1
unfolding moved
moved_version s r now o = ground arith

commit_status-lookup :
    (now : ℕ) (id : String) (s : OrderStatus) (r : Option String) (o : ManagedOrder)
    (om : OrderManager)
    → o.id ≡ id
    → lookup id (commit_status s r now o om).orders ≡ some (moved s r now o)
unfolding commit_status
commit_status-lookup now id s r o om e =
    ground (arith, lookup-insert o.id id (moved s r now o) om.orders, eq_iff o.id id)

-- `updateStatus` answers `true` only as `Reached` says.
pub update_status-Reached :
    (now : ℕ) (id : String) (s : OrderStatus) (r : Option String) (om : OrderManager)
    → IsValid om
    → (update_status now id s r om).0 ≡ true
    → Reached id s om (update_status now id s r om).1
unfolding update_status
update_status-Reached now id s r om v h = elim (Option-cases (lookup id om.orders)) [
  | inl missing ↦ absurd (ground arith)
  | inr (o, at) ↦ elim (Bool-cases (is_status o.status s)) [
    | inl e ↦
        rw (at, update_status, e)
          (record {
            before = o;
            after = o;
            before_at = at;
            after_at = at;
            has_status = (is_status_iff o.status s).0 e;
            step = inl ((is_status_iff o.status s).0 e, refl);
          })
    | inr e ↦
        let c : can_transition o.status s ≡ true = ground arith in
        rw (at, update_status, e, c)
          (record {
            before = o;
            after = moved s r now o;
            before_at = at;
            after_at = commit_status-lookup now id s r o om (v.keyed id o at);
            has_status = moved_status s r now o;
            step = inr (c, moved_version s r now o);
          })
  ]
]

-- The order and the status that a transition call asks for.
abbrev pub target : Call → Option (String × OrderStatus)
target (create env params) = none
target (update now id s r) = some (id, s)
target (cancel now id r) = some (id, cancelled)
target (reject now id r) = some (id, rejected)
target (fail now id r) = some (id, failed)
target (retry now id) = some (id, pending)
target (fill now id f) = none

already :
    (id : String) (s : OrderStatus) (o : ManagedOrder) (om : OrderManager)
    → lookup id om.orders ≡ some o
    → is_status o.status s ≡ true
    → Reached id s om om
already id s o om at e = record {
  before = o;
  after = o;
  before_at = at;
  after_at = at;
  has_status = (is_status_iff o.status s).0 e;
  step = inl ((is_status_iff o.status s).0 e, refl);
}

module _ (now : ℕ) (id : String) (om : OrderManager) (v : IsValid om) where
  cancel_order-Reached :
      (r : Option String)
      → (cancel_order now id r om).0 ≡ true
      → Reached id cancelled om (cancel_order now id r om).1
  unfolding cancel_order
  cancel_order-Reached r h = elim (Option-cases (lookup id om.orders)) [
    | inl missing ↦ absurd (ground arith)
    | inr (o, at) ↦
        rw (at, cancel_order)
          (grind (
            arith,
            already id cancelled o om at,
            update_status-Reached now id cancelled (some (or_default r "cancel requested")) om v,
          ))
  ]

  reject_order-Reached :
      (r : String)
      → (reject_order now id r om).0 ≡ true
      → Reached id rejected om (reject_order now id r om).1
  unfolding reject_order
  reject_order-Reached r h = elim (Option-cases (lookup id om.orders)) [
    | inl missing ↦ absurd (ground arith)
    | inr (o, at) ↦
        rw (at, reject_order)
          (grind (
            arith,
            already id rejected o om at,
            update_status-Reached now id rejected (some r) om v,
          ))
  ]

  fail_order-Reached :
      (r : String)
      → (fail_order now id r om).0 ≡ true
      → Reached id failed om (fail_order now id r om).1
  unfolding fail_order
  fail_order-Reached r h = elim (Option-cases (lookup id om.orders)) [
    | inl missing ↦ absurd (ground arith)
    | inr (o, at) ↦
        rw (at, fail_order)
          (grind
            (arith, already id failed o om at, update_status-Reached now id failed (some r) om v))
  ]

  retry_order-Reached :
      (retry_order now id om).0 ≡ true → Reached id pending om (retry_order now id om).1
  unfolding retry_order
  retry_order-Reached h = elim (Option-cases (lookup id om.orders)) [
    | inl missing ↦ absurd (ground arith)
    | inr (o, at) ↦
        rw (at, retry_order)
          (grind (arith, update_status-Reached now id pending (some "retry") om v))
  ]

-- A call of `updateStatus`, `cancelOrder`, `rejectOrder`, `failOrder` or `retryOrder` on a valid
-- manager that answers `true`: the order exists and now has the status asked for; it had it before
-- and nothing changed, or VALID_TRANSITIONS allows the transition, and the order is one version
-- newer.
pub answered-Reached :
    (c : Call) (id : String) (s : OrderStatus) (om : OrderManager)
    → IsValid om
    → target c ≡ some (id, s)
    → (attempt c om).0 ≡ true
    → Reached id s om (attempt c om).1
unfolding attempt
answered-Reached (create env params) id s om v t h = absurd (cc)
answered-Reached (update now j u r) id s om v t h =
    ground (arith, update_status-Reached now j u r om v h)
answered-Reached (cancel now j r) id s om v t h =
    ground (arith, cancel_order-Reached now j om v r h)
answered-Reached (reject now j r) id s om v t h =
    ground (arith, reject_order-Reached now j om v r h)
answered-Reached (fail now j r) id s om v t h = ground (arith, fail_order-Reached now j om v r h)
answered-Reached (retry now j) id s om v t h = ground (arith, retry_order-Reached now j om v h)
answered-Reached (fill now j f) id s om v t h = absurd (cc)
