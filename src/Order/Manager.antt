-- ===== src/Order/Manager.antt =====
-- The operations of `OrderManager`: apps/server/src/order-manager/order-manager.ts.
use Prim.Native.String
use finance_agent_os.Base.{
  ℕ, ◌+◌, pos, Bool, true, false, not, String, ◌==◌, Option, none, some, List, [], ◌∷◌, ◌++◌,
  lookup, insert, values, trim, trimmed_or, to_upper, or_default, if◌then◌else◌, positive_finite,
  Result, ok, err,
}
use finance_agent_os.Order.Status.{
  OrderSide, OrderType, OrderStatus, created, pending, submitted, partially_filled, filled,
  cancelled, rejected, failed, is_status, can_transition, is_terminal, status_word,
  order_status_to_event,
}
use finance_agent_os.Order.Data.{
  ManagedOrder, OrderEvent, Given, missing, other, valid, OrderParams, Env, OrderManager,
  CreateError, Fields, symbol_required, bad_side, bad_quantity, bad_price, bad_type,
}

abbrev pub publish : OrderEvent → OrderManager → OrderManager
publish e om = record om { published = om.published ++ e ∷ [] }

-- `publishAudit`, at an event type `order.<word>`
abbrev pub publish_audit :
    String → ManagedOrder → Option OrderStatus → Option String → OrderManager → OrderManager
publish_audit word order prev reason = publish (record {
  event_type = String.◌++◌ "audit.order_" word;
  order = order;
  prev_status = prev;
  reason = reason;
  fill = none;
})

-- `persistSync`, on a file system that accepts the write
abbrev pub persist_sync : OrderManager → OrderManager
persist_sync om = record om { disk = if om.persists then values om.orders else om.disk }

unfoldable pub clear : OrderManager → OrderManager
clear om = persist_sync (record om {
  orders = [];
  orders_by_client = [];
  orders_by_correlation = [];
  orders_by_idempotency = [];
  fill_dedup = [];
})

-- The object that a secondary map refers to.
unfoldable pub find_by : List (String × String) → String → OrderManager → Option ManagedOrder
find_by index key om = elim (lookup key index) [ none ↦ none | some id ↦ lookup id om.orders ]

-- The registration of a new order in the four maps, its two events, and the snapshot.
unfoldable pub register : ManagedOrder → OrderManager → OrderManager
register order om = persist_sync (
    publish
      (record {
        event_type = "order.created";
        order = order;
        prev_status = none;
        reason = none;
        fill = none;
      })
      (publish_audit "create" order none (some "order created") (record om {
        orders = insert order.id order om.orders;
        orders_by_client = insert order.client_order_id order.id om.orders_by_client;
        orders_by_idempotency = insert order.idempotency_key order.id om.orders_by_idempotency;
        orders_by_correlation =
            insert order.correlation_id
              (or_default (lookup order.correlation_id om.orders_by_correlation) []
                ++ order.id ∷ [])
              om.orders_by_correlation;
      })))

-- The part of `createOrder` behind its validation.
unfoldable pub create_checked : ManagedOrder → OrderManager → ManagedOrder × OrderManager
create_checked order om = elim (find_by om.orders_by_client order.client_order_id om) [
  | some existing ↦ (existing, om)
  | none ↦ elim (find_by om.orders_by_idempotency order.idempotency_key om) [
    | some existing ↦ (existing, om)
    | none ↦ (order, register order om)
  ]
]

-- `params.type && ![...].includes(params.type)`
abbrev order_type_of : Given OrderType → Result CreateError (Option OrderType)
order_type_of missing = ok none
order_type_of other = err bad_type
order_type_of (valid t) = ok (some t)

abbrev side_of : Given OrderSide → Result CreateError OrderSide
side_of missing = err bad_side
side_of other = err bad_side
side_of (valid s) = ok s

abbrev positive_or : CreateError → Option ℕ → Result CreateError ℕ
positive_or e none = err e
positive_or e (some n) = ok n

-- `params.symbol?.trim().toUpperCase()`, which may not be empty
unfoldable pub symbol_of : Option String → Result CreateError String
symbol_of none = err symbol_required
symbol_of (some s) = let t = to_upper (trim s) in if t == "" then err symbol_required else ok t

infixl 5 ◌>>=◌
abbrev ◌>>=◌ :
    {A B : Type 0} → Result CreateError A → (A → Result CreateError B) → Result CreateError B
ok a >>= f = f a
err e >>= f = err e

-- The checks of `createOrder` in their order, and the values that they let through.
unfoldable pub checked_fields : OrderParams → Result CreateError Fields
checked_fields params = do
  symbol ← symbol_of params.symbol
  side ← side_of params.side
  quantity ← positive_or bad_quantity (positive_finite params.quantity)
  price ← positive_or bad_price (positive_finite params.price)
  order_type ← order_type_of params.order_type
  ok (record {
    symbol = symbol;
    side = side;
    order_type = order_type;
    quantity = quantity;
    price = price;
  })

abbrev pub client_id_of : Env → OrderParams → String
client_id_of env params = trimmed_or params.client_order_id env.client_uuid

-- The order that `createOrder` builds, once the parameters are checked.
unfoldable pub new_order : Env → OrderParams → Fields → ManagedOrder
new_order env params f = record {
  id = env.order_uuid;
  client_order_id = client_id_of env params;
  symbol = f.symbol;
  side = f.side;
  order_type = f.order_type;
  quantity = f.quantity;
  price = f.price;
  stop_price = params.stop_price;
  status = created;
  strategy = params.strategy;
  agent = params.agent;
  execution_mode = params.execution_mode;
  filled_quantity = 0;
  average_fill_price = record { num = 0; den = 1 };
  fees = pos 0;
  correlation_id = trimmed_or params.correlation_id env.correlation_uuid;
  idempotency_key = trimmed_or params.idempotency_key (client_id_of env params);
  version = 1;
  created_at = env.now;
  updated_at = env.now;
  submitted_at = none;
  filled_at = none;
  cancelled_at = none;
  rejected_at = none;
  failed_at = none;
  rejected_reason = none;
  failed_reason = none;
  cancelled_reason = none;
}

unfoldable pub create_order :
    Env → OrderParams → OrderManager → Result CreateError ManagedOrder × OrderManager
unfolding new_order create_checked
create_order env params om = elim (checked_fields params) [
  | err e ↦ (err e, om)
  | ok f ↦ let (result, om') = create_checked (new_order env params f) om in (ok result, om')
]

-- `if (reason) field = reason`
abbrev reason_or : Option String → Option String → Option String
reason_or none old = old
reason_or (some r) old = if r == "" then old else some r

-- The status, the version and the time stamps that a transition writes.
unfoldable pub moved : OrderStatus → Option String → ℕ → ManagedOrder → ManagedOrder
moved status reason now o =
    let t = record o { status = status; version = o.version + 1; updated_at = now } in
    elim status [
      | created ↦ t
      | pending ↦ t
      | submitted ↦ record t { submitted_at = some now }
      | partially_filled ↦ t
      | filled ↦ record t { filled_at = some now }
      | cancelled ↦ record t {
        cancelled_at = some now;
        cancelled_reason = reason_or reason o.cancelled_reason;
      }
      | rejected ↦ record t {
        rejected_at = some now;
        rejected_reason = reason_or reason o.rejected_reason;
      }
      | failed ↦ record t { failed_at = some now; failed_reason = reason_or reason o.failed_reason }
    ]

-- The writes and events of `updateStatus` once the transition is allowed. The audit's default
-- reason is a text for people; it is left out.
unfoldable pub commit_status :
    OrderStatus → Option String → ℕ → ManagedOrder → OrderManager → OrderManager
commit_status status reason now o om =
    let o' = moved status reason now o in
    persist_sync (
      publish
        (record {
          event_type = order_status_to_event status;
          order = o';
          prev_status = some o.status;
          reason = none;
          fill = none;
        })
        (publish_audit (status_word status) o' (some o.status) reason
          (record om { orders = insert o.id o' om.orders })))

unfoldable pub update_status :
    ℕ → String → OrderStatus → Option String → OrderManager → Bool × OrderManager
update_status now id status reason om = elim (lookup id om.orders) [
  | none ↦ (false, om)
  | some o ↦
      if is_status o.status status
      then (true, om)
      else if can_transition o.status status
      then (true, commit_status status reason now o om)
      else (false, om)
]

unfoldable pub cancel_order : ℕ → String → Option String → OrderManager → Bool × OrderManager
cancel_order now id reason om = elim (lookup id om.orders) [
  | none ↦ (false, om)
  | some o ↦
      if is_status o.status cancelled
      then (true, om)
      else if is_terminal o.status
      then (false, om)
      else update_status now id cancelled (some (or_default reason "cancel requested")) om
]

unfoldable pub reject_order : ℕ → String → String → OrderManager → Bool × OrderManager
reject_order now id reason om = elim (lookup id om.orders) [
  | none ↦ (false, om)
  | some o ↦
      if is_status o.status rejected
      then (true, om)
      else if is_terminal o.status
      then (false, om)
      else if not (can_transition o.status rejected)
      then (false, om)
      else update_status now id rejected (some reason) om
]

unfoldable pub fail_order : ℕ → String → String → OrderManager → Bool × OrderManager
fail_order now id reason om = elim (lookup id om.orders) [
  | none ↦ (false, om)
  | some o ↦
      if is_status o.status failed
      then (true, om)
      else if not (can_transition o.status failed)
      then (false, om)
      else update_status now id failed (some reason) om
]

unfoldable pub retry_order : ℕ → String → OrderManager → Bool × OrderManager
retry_order now id om = elim (lookup id om.orders) [
  | none ↦ (false, om)
  | some o ↦
      if not (is_status o.status failed)
      then (false, om)
      else update_status now id pending (some "retry") om
]

abbrev pub submit_order : ℕ → String → OrderManager → Bool × OrderManager
submit_order now id = update_status now id submitted none

abbrev pub pending_order : ℕ → String → OrderManager → Bool × OrderManager
pending_order now id = update_status now id pending none
