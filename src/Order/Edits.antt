-- ===== src/Order/Edits.antt =====
-- What a call writes: apps/server/src/order-manager/order-manager.ts.
use finance_agent_os.Base.{
  ap, ◌∙◌, ◌+◌, ◌<◌, ◌≡◌, refl, String, lookup, insert, Option, some, Option-cases, arith, inl, inr,
  Bool-cases, or_default, ℕ, true, false,
}
use finance_agent_os.Order.Status.{
  OrderStatus, is_status, can_transition, is_terminal, created, pending, submitted,
  partially_filled, filled, cancelled, rejected, failed,
}
use finance_agent_os.Order.Data.{ManagedOrder, OrderManager}
use finance_agent_os.Order.Manager.{
  moved, commit_status, update_status, cancel_order, reject_order, fail_order, retry_order,
}
use finance_agent_os.Order.Invariant.{IsSound, IsValid, Keeps, Agrees-put}

-- One order was replaced, by a newer version of itself; the secondary maps stayed.
pub record Edit (o o' : ManagedOrder) (om om' : OrderManager) : Type 0 where
  pub found : lookup o.id om.orders ≡ some o
  pub keeps : Keeps o o'
  pub newer : o.version < o'.version
  pub live : is_terminal o.status ≡ false
  pub keeps_sound : IsSound o → IsSound o'
  pub orders_edited : om'.orders ≡ insert o.id o' om.orders
  pub clients_same : om'.orders_by_client ≡ om.orders_by_client
  pub keys_same : om'.orders_by_idempotency ≡ om.orders_by_idempotency

pub moved-Keeps :
    (s : OrderStatus) (r : Option String) (now : ℕ) (o : ManagedOrder) → Keeps o (moved s r now o)
unfolding moved
moved-Keeps s r now o = ground arith

pub moved-IsSound :
    (s : OrderStatus) (r : Option String) (now : ℕ) (o : ManagedOrder)
    → IsSound o
    → IsSound (moved s r now o)
unfolding moved
moved-IsSound s r now o h = ground arith

pub moved_newer :
    (s : OrderStatus) (r : Option String) (now : ℕ) (o : ManagedOrder)
    → (moved s r now o).version ≡ o.version + 1
unfolding moved
moved_newer s r now o = ground arith

pub transition_live : (s t : OrderStatus) → can_transition s t ≡ true → is_terminal s ≡ false
unfolding can_transition is_terminal
transition_live created t h = refl
transition_live pending t h = refl
transition_live submitted t h = refl
transition_live partially_filled t h = refl
transition_live filled t h = cc
transition_live cancelled t h = cc
transition_live rejected t h = cc
transition_live failed t h = refl

pub commit_status-Edit :
    (s : OrderStatus) (r : Option String) (now : ℕ) (o : ManagedOrder) (om : OrderManager)
    → lookup o.id om.orders ≡ some o
    → can_transition o.status s ≡ true
    → Edit o (moved s r now o) om (commit_status s r now o om)
unfolding commit_status
commit_status-Edit s r now o om at c = record {
  found = at;
  keeps = moved-Keeps s r now o;
  newer = omega (arith, moved_newer s r now o);
  live = transition_live o.status s c;
  keeps_sound = moved-IsSound s r now o;
  orders_edited = refl;
  clients_same = refl;
  keys_same = refl;
}

-- What a call does: nothing, or edits of orders, one after the other.
pub data Outcome (om : OrderManager) : OrderManager → Type 0 where
  same : {om' : OrderManager} → om' ≡ om → Outcome om om'
  edited :
      {om' om″ : OrderManager} (o o' : ManagedOrder)
      → Outcome om om'
      → Edit o o' om' om″
      → Outcome om om″

pub Edit-IsValid :
    {o o' : ManagedOrder} {om om' : OrderManager} → Edit o o' om om' → IsValid om → IsValid om'
Edit-IsValid {o} e v =
    rw (e.orders_edited, e.clients_same, e.keys_same)
      (Agrees-put v e.found e.keeps (e.keeps_sound (v.sound o.id o e.found)))

pub Outcome-IsValid : {om om' : OrderManager} → Outcome om om' → IsValid om → IsValid om'
Outcome-IsValid (same e) v = rw e v
Outcome-IsValid (edited o o' p e) v = Edit-IsValid e (Outcome-IsValid p v)

pub own_id :
    (id : String) (o : ManagedOrder) (om : OrderManager)
    → IsValid om
    → lookup id om.orders ≡ some o
    → lookup o.id om.orders ≡ some o
own_id id o om v at = ap (λ k. lookup k om.orders) (v.keyed id o at) ∙ at

pub update_status-Outcome :
    (now : ℕ) (id : String) (s : OrderStatus) (r : Option String) (om : OrderManager)
    → IsValid om
    → Outcome om (update_status now id s r om).1
unfolding update_status
update_status-Outcome now id s r om v = elim (Option-cases (lookup id om.orders)) [
  | inl missing ↦ rw (missing, update_status) (same refl)
  | inr (o, at) ↦ elim (Bool-cases (is_status o.status s)) [
    | inl e ↦ rw (at, update_status, e) (same refl)
    | inr e ↦ elim (Bool-cases (can_transition o.status s)) [
      | inl c ↦
          rw (at, update_status, e, c)
            (edited o (moved s r now o) (same refl)
              (commit_status-Edit s r now o om (own_id id o om v at) c))
      | inr c ↦ rw (at, update_status, e, c) (same refl)
    ]
  ]
]

module _ (now : ℕ) (id : String) (om : OrderManager) (v : IsValid om) where
  pub cancel_order-Outcome : (r : Option String) → Outcome om (cancel_order now id r om).1
  unfolding cancel_order
  cancel_order-Outcome r = grind (
    arith,
    same,
    update_status-Outcome now id cancelled (some (or_default r "cancel requested")) om v,
  )

  pub reject_order-Outcome : (r : String) → Outcome om (reject_order now id r om).1
  unfolding reject_order
  reject_order-Outcome r = grind (arith, same, update_status-Outcome now id rejected (some r) om v)

  pub fail_order-Outcome : (r : String) → Outcome om (fail_order now id r om).1
  unfolding fail_order
  fail_order-Outcome r = grind (arith, same, update_status-Outcome now id failed (some r) om v)

  pub retry_order-Outcome : Outcome om (retry_order now id om).1
  unfolding retry_order
  retry_order-Outcome =
      grind (arith, same, update_status-Outcome now id pending (some "retry") om v)
