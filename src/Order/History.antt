-- ===== src/Order/History.antt =====
-- Sequences of calls on the order manager: apps/server/src/order-manager/order-manager.ts.
use finance_agent_os.Base.{
  Bool, ℕ, ◌<◌, ◌≡◌, refl, ◌∙◌, ap, subst, String, ◌==◌, eq_iff, lookup, lookup-insert, Option,
  none, some, arith, ◌⊎◌, inl, inr, Bool-cases, true, false, Result, ok, err,
}
use finance_agent_os.Order.Status.{OrderStatus, is_terminal}
use finance_agent_os.Order.Data.{
  ManagedOrder, OrderManager, OrderFill, Env, OrderParams, Fields, CreateError,
}
use finance_agent_os.Order.Manager.{
  create_order, update_status, cancel_order, reject_order, fail_order, retry_order, register,
  new_order, checked_fields,
}
use finance_agent_os.Order.Fill.{apply_fill}
use finance_agent_os.Order.Invariant.{IsSound, IsValid, Keeps}
use finance_agent_os.Order.Edits.{
  Edit, Outcome, same, edited, Outcome-IsValid, update_status-Outcome, cancel_order-Outcome,
  reject_order-Outcome, fail_order-Outcome, retry_order-Outcome,
}
use finance_agent_os.Order.FillEdits.{apply_fill-Outcome}
use finance_agent_os.Order.Creation.{
  IsNew, Creation, known, added, create_checked-Creation, register-IsValid, checked_fields_pos,
  keep,
}

-- The calls of the manager that change its orders, with the clock's reading; `clear` empties it.
pub data Call : Type 0 where
  create : Env → OrderParams → Call
  update : ℕ → String → OrderStatus → Option String → Call
  cancel : ℕ → String → Option String → Call
  reject : ℕ → String → String → Call
  fail : ℕ → String → String → Call
  retry : ℕ → String → Call
  fill : ℕ → String → OrderFill → Call

-- A call's answer, where a thrown error is a refusal, and the manager after it.
unfoldable pub attempt : Call → OrderManager → Bool × OrderManager
attempt (create env params) om =
    let (r, om') = create_order env params om in (elim r [ ok o ↦ true | err e ↦ false ], om')
attempt (update now id s r) om = update_status now id s r om
attempt (cancel now id r) om = cancel_order now id r om
attempt (reject now id r) om = reject_order now id r om
attempt (fail now id r) om = fail_order now id r om
attempt (retry now id) om = retry_order now id om
attempt (fill now id f) om = apply_fill now id f om

unfoldable pub call : Call → OrderManager → OrderManager
unfolding attempt
call c om = (attempt c om).1

-- `uuidv4()` gives an id that no order has.
abbrev pub IsFresh : Call → OrderManager → Type 0
IsFresh (create env params) om = lookup env.order_uuid om.orders ≡ none
IsFresh _ om = Unit

-- The calls in turn, each with a fresh id where it creates an order.
pub data Run : OrderManager → OrderManager → Type 0 where
  here : (om : OrderManager) → Run om om
  step : {om om' : OrderManager} (c : Call) → Run om om' → IsFresh c om' → Run om (call c om')

new_order-IsSound :
    (env : Env) (params : OrderParams) (f : Fields)
    → checked_fields params ≡ ok f
    → IsSound (new_order env params f)
unfolding new_order
new_order-IsSound env params f h = omega (arith, checked_fields_pos params f h)

-- How an order may differ after a call.
pub data Later (o : ManagedOrder) : ManagedOrder → Type 0 where
  untouched : {p : ManagedOrder} → p ≡ o → Later o p
  changed :
      {p : ManagedOrder}
      → Keeps o p
      → o.version < p.version
      → is_terminal o.status ≡ false
      → Later o p

Later-trans : {o p q : ManagedOrder} → Later o p → Later p q → Later o q
Later-trans {q} (untouched e) m = subst (λ x. Later x q) e m
Later-trans (changed k n t) (untouched e) = rw e (changed k n t)
Later-trans (changed k n t) (changed l m u) = changed (ground arith) (omega arith) t

-- The order is still there, and is a later form of itself.
abbrev pub Survives : String → ManagedOrder → OrderManager → Type 0
Survives id o om = (p : ManagedOrder) × (lookup id om.orders ≡ some p) × Later o p

Edit-Survives :
    {o o' : ManagedOrder} {om om' : OrderManager} (id : String) (p : ManagedOrder)
    → Edit o o' om om'
    → lookup id om.orders ≡ some p
    → Survives id p om'
Edit-Survives {o} {o'} {om} id p e at = elim (Bool-cases (o.id == id)) [
  | inl k ↦
      let same_order : p ≡ o = ground (arith, eq_iff o.id id, e.found) in
      (
        o',
        rw e.orders_edited (ground (arith, lookup-insert o.id id o' om.orders)),
        rw same_order (changed e.keeps e.newer e.live),
      )
  | inr k ↦
      (p, rw e.orders_edited (ground (arith, lookup-insert o.id id o' om.orders)), untouched refl)
]

Outcome-Survives :
    {om om' : OrderManager} (id : String) (p : ManagedOrder)
    → Outcome om om'
    → lookup id om.orders ≡ some p
    → Survives id p om'
Outcome-Survives id p (same e) at = rw e (p, at, untouched refl)
Outcome-Survives id p (edited o o' path e) at =
    let (q, q_at, l) = Outcome-Survives id p path at in
    let (r, r_at, m) = Edit-Survives id q e q_at in (r, r_at, Later-trans l m)

Creation-IsValid :
    {o : ManagedOrder} {om : OrderManager} {r : ManagedOrder × OrderManager}
    → Creation o om r
    → IsValid om
    → IsSound o
    → IsValid r.1
Creation-IsValid (known p e) v s = rw e v
Creation-IsValid {o} {om} (added n e) v s = rw e (register-IsValid o om v n s)

register-Survives :
    (o : ManagedOrder) (om : OrderManager) (id : String) (p : ManagedOrder)
    → IsValid om
    → IsNew o om
    → lookup id om.orders ≡ some p
    → Survives id p (register o om)
unfolding register
register-Survives o om id p v n at = (p, keep o om v n id p at, untouched refl)

Creation-Survives :
    {o : ManagedOrder} {om : OrderManager} {r : ManagedOrder × OrderManager} (id : String)
    (p : ManagedOrder)
    → Creation o om r
    → IsValid om
    → lookup id om.orders ≡ some p
    → Survives id p r.1
Creation-Survives id p (known q e) v at = rw e (p, at, untouched refl)
Creation-Survives {o} {om} id p (added n e) v at = rw e (register-Survives o om id p v n at)

-- What one call does to a valid manager.
pub record Effect (om om' : OrderManager) : Type 0 where
  pub valid : IsValid om'
  pub survives : (id : String) (o : ManagedOrder) → lookup id om.orders ≡ some o → Survives id o om'

Outcome-Effect : {om om' : OrderManager} → IsValid om → Outcome om om' → Effect om om'
Outcome-Effect v p = record {
  valid = Outcome-IsValid p v;
  survives = λ id o at. Outcome-Survives id o p at;
}

create_order-Effect :
    (env : Env) (params : OrderParams) (om : OrderManager)
    → IsValid om
    → lookup env.order_uuid om.orders ≡ none
    → Effect om (create_order env params om).1
unfolding create_order
create_order-Effect env params om v fresh = go (checked_fields params) refl
  where
    go :
        (r : Result CreateError Fields)
        → checked_fields params ≡ r
        → Effect om (create_order env params om).1
    go (err e) h = rw (h, create_order) (Outcome-Effect v (same refl))
    go (ok f) h =
        let o = new_order env params f in
        let c = create_checked-Creation o om v fresh in
        rw (h, create_order)
          (record {
            valid = Creation-IsValid c v (new_order-IsSound env params f h);
            survives = λ id p at. Creation-Survives id p c v at;
          })

call-Effect : (c : Call) (om : OrderManager) → IsValid om → IsFresh c om → Effect om (call c om)
unfolding call
call-Effect (create env params) om v f = create_order-Effect env params om v f
call-Effect (update now id s r) om v f = Outcome-Effect v (update_status-Outcome now id s r om v)
call-Effect (cancel now id r) om v f = Outcome-Effect v (cancel_order-Outcome now id om v r)
call-Effect (reject now id r) om v f = Outcome-Effect v (reject_order-Outcome now id om v r)
call-Effect (fail now id r) om v f = Outcome-Effect v (fail_order-Outcome now id om v r)
call-Effect (retry now id) om v f = Outcome-Effect v (retry_order-Outcome now id om v)
call-Effect (fill now id x) om v f = Outcome-Effect v (apply_fill-Outcome now id x om v)

-- Every manager that calls reach from a valid one is valid: each order is stored under its id, its
-- fills never exceed its quantity, the maps by client order id and by idempotency key know every
-- order and lead only to orders that carry the key.
pub Run-IsValid : {om om' : OrderManager} → Run om om' → IsValid om → IsValid om'
Run-IsValid (here om) v = v
Run-IsValid (step {om' = mid} c r f) v = (call-Effect c mid (Run-IsValid r v) f).valid

-- Over any sequence of calls from a valid manager an order stays under its id. It is untouched, or
-- it was not terminal, its version has grown, and it keeps its id, its client order id, its
-- idempotency key and its quantity.
pub Run-Survives :
    {om om' : OrderManager} (id : String) (o : ManagedOrder)
    → Run om om'
    → IsValid om
    → lookup id om.orders ≡ some o
    → Survives id o om'
Run-Survives id o (here om) v at = (o, at, untouched refl)
Run-Survives id o (step {om' = mid} c r f) v at =
    let (p, p_at, l) = Run-Survives id o r v at in
    let (q, q_at, m) = (call-Effect c mid (Run-IsValid r v) f).survives id p p_at in
    (q, q_at, Later-trans l m)

Later-terminal : {o p : ManagedOrder} → Later o p → is_terminal o.status ≡ true → p ≡ o
Later-terminal (untouched e) t = e
Later-terminal (changed k n l) t = absurd (cc)

-- A filled, cancelled or rejected order is final: no sequence of calls on a valid manager, fills
-- included, changes any field of it.
pub terminal_final :
    {om om' : OrderManager} (id : String) (o : ManagedOrder)
    → Run om om'
    → IsValid om
    → lookup id om.orders ≡ some o
    → is_terminal o.status ≡ true
    → lookup id om'.orders ≡ some o
terminal_final id o r v at t =
    let (p, p_at, l) = Run-Survives id o r v at in p_at ∙ ap some (Later-terminal l t)

-- No duplicates: in every manager that calls reach from a valid one, two orders with the same client
-- order id are one, and so are two with the same idempotency key.
pub duplicate_free :
    {start om : OrderManager} (i j : String) (o p : ManagedOrder)
    → Run start om
    → IsValid start
    → lookup i om.orders ≡ some o
    → lookup j om.orders ≡ some p
    → (o.client_order_id ≡ p.client_order_id) ⊎ (o.idempotency_key ≡ p.idempotency_key)
    → o ≡ p
duplicate_free i j o p r v a b (inl e) =
    let w = Run-IsValid r v in cc (w.client_known i o a, w.client_known j p b)
duplicate_free i j o p r v a b (inr e) =
    let w = Run-IsValid r v in cc (w.key_known i o a, w.key_known j p b)
