-- ===== src/Safety/CancelAll.antt =====
-- Cancelling all open orders, order by order: apps/server/src/safety/kill-switch.ts.
use finance_agent_os.Base.{
  ℕ, ◌≡◌, ◌⊎◌, refl, ◌∙◌, ap, sym, Bool, true, false, ◌||◌, String, ◌==◌, eq_iff, Dict, lookup,
  lookup-insert, values, filter, Option, none, some, List, [], ◌∷◌, ◌++◌, arith, if◌then◌else◌,
  Option-cases, inl, inr,
}
use finance_agent_os.Order.Status.{
  is_status, is_open, is_terminal, can_transition, cancelled, failed, OrderStatus,
}
use finance_agent_os.Order.Data.{ManagedOrder, OrderManager}
use finance_agent_os.Order.Manager.{moved, commit_status, update_status, cancel_order}
use finance_agent_os.Order.Fill.{get_open_orders}
use finance_agent_os.Order.Invariant.{IsValid}
use finance_agent_os.Order.Edits.{Outcome-IsValid, cancel_order-Outcome}
use finance_agent_os.Safety.Cancel.{cancel_orders}

-- An order after a request to cancel it: cancelled if the table of transitions allows that.
abbrev pub cancelled_form : ℕ → String → ManagedOrder → ManagedOrder
cancelled_form now reason o =
    if can_transition o.status cancelled then moved cancelled (some reason) now o else o

abbrev pub map_order : (ManagedOrder → ManagedOrder) → Option ManagedOrder → Option ManagedOrder
map_order f none = none
map_order f (some o) = some (f o)

cancelled_form_idem :
    (now : ℕ) (reason : String) (o : ManagedOrder)
    → cancelled_form now reason (cancelled_form now reason o) ≡ cancelled_form now reason o
unfolding moved can_transition
cancelled_form_idem now reason o = ground arith

cancellable :
    (s : OrderStatus)
    → ((is_status s cancelled || is_terminal s) ≡ true)
      ⊎ (can_transition s cancelled ≡ true)
      ⊎ (s ≡ failed)
unfolding is_status is_terminal can_transition
cancellable s = ground arith

terminal_stays :
    (s : OrderStatus)
    → (is_status s cancelled || is_terminal s) ≡ true
    → can_transition s cancelled ≡ false
unfolding is_status is_terminal can_transition
terminal_stays s h = ground arith

cancel_order-lookup :
    (now : ℕ) (id reason j : String) (om : OrderManager)
    → IsValid om
    → lookup j (cancel_order now id (some reason) om).1.orders ≡ (
        if id == j
        then map_order (cancelled_form now reason) (lookup j om.orders)
        else lookup j om.orders)
unfolding cancel_order update_status commit_status
cancel_order-lookup now id reason j om v = elim (Option-cases (lookup id om.orders)) [
  | inl missing ↦ rw (missing, cancel_order) (ground (arith, eq_iff id j))
  | inr (o, at) ↦ ground (
    arith,
    v.keyed id o at,
    lookup-insert o.id j (moved cancelled (some reason) now o) om.orders,
    eq_iff id j,
    eq_iff o.id j,
    terminal_stays o.status,
  )
]

-- The ids of a list of orders.
abbrev pub has_id : List ManagedOrder → String → Bool
has_id [] j = false
has_id (o ∷ os) j = o.id == j || has_id os j

pub cancel_orders-IsValid :
    (now : ℕ) (reason : String) (os : List ManagedOrder) (done : List String) (om : OrderManager)
    → IsValid om
    → IsValid (cancel_orders now reason os done om).1
unfolding cancel_orders
cancel_orders-IsValid now reason [] done om v = v
cancel_orders-IsValid now reason (o ∷ os) done om v =
    let (success, om') = cancel_order now o.id (some reason) om in
    cancel_orders-IsValid now reason os (if success then done ++ o.id ∷ [] else done) om'
      (Outcome-IsValid (cancel_order-Outcome now o.id om v (some reason)) v)

-- The loop puts every order on its list into its cancelled form, and touches no other.
cancel_orders-lookup :
    (now : ℕ) (reason j : String) (os : List ManagedOrder) (done : List String) (om : OrderManager)
    → IsValid om
    → lookup j (cancel_orders now reason os done om).1.orders ≡ (
        if has_id os j
        then map_order (cancelled_form now reason) (lookup j om.orders)
        else lookup j om.orders)
unfolding cancel_orders
cancel_orders-lookup now reason j [] done om v = refl
cancel_orders-lookup now reason j (o ∷ os) done om v =
    let (success, om') = cancel_order now o.id (some reason) om in
    let v' = Outcome-IsValid (cancel_order-Outcome now o.id om v (some reason)) v in
    let ih =
      cancel_orders-lookup now reason j os (if success then done ++ o.id ∷ [] else done) om' v' in
    ih
    ∙ step o os (lookup j om'.orders) (lookup j om.orders)
        (cancel_order-lookup now o.id reason j om v)
  where
    step :
        (o : ManagedOrder) (os : List ManagedOrder) (x y : Option ManagedOrder)
        → x ≡ (if o.id == j then map_order (cancelled_form now reason) y else y)
        → (if has_id os j then map_order (cancelled_form now reason) x else x)
          ≡ (if has_id (o ∷ os) j then map_order (cancelled_form now reason) y else y)
    step o os x none e = ground arith
    step o os x (some p) e = ground (arith, cancelled_form_idem now reason p)

open_listed :
    (d : Dict ManagedOrder) (j : String) (p : ManagedOrder)
    → lookup j d ≡ some p
    → p.id ≡ j
    → is_open p.status ≡ true
    → has_id (filter (λ o. is_open o.status) (values d)) j ≡ true
unfolding lookup
open_listed [] j p at e o = cc
open_listed ((k, q) ∷ d) j p at e o = ground (arith, eq_iff k j, eq_iff q.id j, open_listed d j p)

closed_stays : (s : OrderStatus) → is_open s ≡ false → can_transition s cancelled ≡ false
unfolding is_open can_transition
closed_stays s h = ground arith

all_open :
    (now : ℕ) (reason : String) (listed : Bool) (o : Option ManagedOrder)
    → ((p : ManagedOrder) → o ≡ some p → is_open p.status ≡ true → listed ≡ true)
    → (if listed then map_order (cancelled_form now reason) o else o)
      ≡ map_order (cancelled_form now reason) o
all_open now reason listed none h = ground arith
all_open now reason listed (some p) h = ground (arith, closed_stays p.status, h p refl)

-- The order manager after the loop over its open orders.
abbrev pub all_cancelled : ℕ → String → OrderManager → OrderManager
all_cancelled now reason om = (cancel_orders now reason (get_open_orders om) [] om).1

-- Cancelling all open orders of a valid manager puts every order into its cancelled form: cancelled
-- if the table of transitions allows that, and otherwise as it was.
pub all_cancelled-lookup :
    (now : ℕ) (reason j : String) (om : OrderManager)
    → IsValid om
    → lookup j (all_cancelled now reason om).orders
      ≡ map_order (cancelled_form now reason) (lookup j om.orders)
unfolding get_open_orders
all_cancelled-lookup now reason j om v =
    cancel_orders-lookup now reason j (get_open_orders om) [] om v
    ∙ all_open now reason (has_id (get_open_orders om) j) (lookup j om.orders)
        (λ p at o. open_listed om.orders j p at (v.keyed j p at) o)

cancelled_form-open :
    (now : ℕ) (reason : String) (o : ManagedOrder)
    → is_open (cancelled_form now reason o).status ≡ true
    → cancelled_form now reason o ≡ o
unfolding moved is_open
cancelled_form-open now reason o h = ground arith

open_is_failed :
    (now : ℕ) (reason : String) (o : ManagedOrder)
    → is_open (cancelled_form now reason o).status ≡ true
    → o.status ≡ failed
unfolding moved is_open can_transition is_status
open_is_failed now reason o h = ground arith

-- After all open orders of a valid manager are cancelled, an order that is still open is a FAILED
-- one, and it is as it was before.
pub still_open :
    (now : ℕ) (reason j : String) (p : ManagedOrder) (om : OrderManager)
    → IsValid om
    → lookup j (all_cancelled now reason om).orders ≡ some p
    → is_open p.status ≡ true
    → (p.status ≡ failed) × (lookup j om.orders ≡ some p)
still_open now reason j p om v at o = go (lookup j om.orders) refl
  where
    go :
        (x : Option ManagedOrder)
        → lookup j om.orders ≡ x
        → (p.status ≡ failed) × (lookup j om.orders ≡ some p)
    go none e = absurd (cc (all_cancelled-lookup now reason j om v))
    go (some q) e =
        let same : cancelled_form now reason q ≡ p =
          cc (
            all_cancelled-lookup now reason j om v,
            ap (map_order (cancelled_form now reason)) e,
          ) in
        let q_open : is_open (cancelled_form now reason q).status ≡ true = rw same o in
        let q_same : q ≡ p = sym (cancelled_form-open now reason q q_open) ∙ same in
        (
          ap (λ (x : ManagedOrder). x.status) (sym q_same) ∙ open_is_failed now reason q q_open,
          e ∙ ap some q_same,
        )
