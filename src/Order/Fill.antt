-- ===== src/Order/Fill.antt =====
-- `applyFill` and the queries of `OrderManager`: apps/server/src/order-manager/order-manager.ts.
use Prim.Native.String
use finance_agent_os.Base.{
  ℕ, ◌+◌, ◌*◌, pos, ◌+ℤ◌, Bool, true, false, ◌||◌, String, ◌==◌, Option, none, some, List, [], ◌∷◌,
  lookup, insert, values, trim, includes, filter, or_default, ltb, leb, if◌then◌else◌,
  positive_finite, length,
}
use finance_agent_os.Order.Status.{
  OrderStatus, created, pending, submitted, partially_filled, filled, cancelled, rejected, failed,
  is_status, is_open,
}
use finance_agent_os.Order.Data.{Quotient, ManagedOrder, OrderFill, OrderManager}
use finance_agent_os.Order.Manager.{publish, publish_audit, persist_sync, find_by, update_status}

-- `fill.id?.trim() || hash`
abbrev pub fill_id : OrderFill → String
fill_id fill = elim fill.id [
  | none ↦ fill.hash
  | some s ↦ if trim s == "" then fill.hash else trim s
]

abbrev pub dedup_key : String → OrderFill → String
dedup_key id fill = String.◌++◌ id (String.◌++◌ ":" (fill_id fill))

-- `Math.min` on a number of units: the clamp of `filledQuantity`.
abbrev pub clamp : ℕ → ℕ → ℕ
clamp total max = if ltb max total then max else total

-- totalCost / filledQuantity, with the total cost over the old average's denominator
abbrev pub average : Quotient → ℕ → ℕ → ℕ → ℕ → Quotient
average old prev price q filled_quantity = record {
  num = old.num * prev + price * q * old.den;
  den = old.den * filled_quantity;
}

-- The amounts that a fill of `q` units changes, and the version.
unfoldable pub filled_order : ℕ → ℕ → OrderFill → ManagedOrder → ManagedOrder
filled_order now q fill o =
    let total = clamp (o.filled_quantity + q) o.quantity in
    record o {
      filled_quantity = total;
      fees = o.fees +ℤ or_default fill.fee (pos 0);
      average_fill_price =
          if ltb 0 total
          then average o.average_fill_price o.filled_quantity fill.price q total
          else o.average_fill_price;
      version = o.version + 1;
      updated_at = now;
    }

-- `order.filledQuantity >= order.quantity - 1e-9`
abbrev pub is_complete : ManagedOrder → Bool
is_complete o = leb o.quantity (o.filled_quantity + 1)

unfoldable pub completed : ℕ → ManagedOrder → ManagedOrder
completed now o =
    if is_complete o
    then record o { status = filled; filled_at = some now }
    else record o { status = partially_filled }

-- The audit, the status event and the trade linkage event of a fill.
abbrev publish_fill : String → ManagedOrder → OrderFill → OrderManager → OrderManager
publish_fill word o fill om =
    publish
      (record {
        event_type = "order.fill_applied";
        order = o;
        prev_status = none;
        reason = none;
        fill = some fill;
      })
      (publish
        (record {
          event_type = String.◌++◌ "order." word;
          order = o;
          prev_status = none;
          reason = none;
          fill = some fill;
        })
        (publish_audit word o none none om))

-- The part of `applyFill` behind its checks, on the order as `updateStatus` left it.
unfoldable pub commit_fill : ℕ → ℕ → String → OrderFill → ManagedOrder → OrderManager → OrderManager
unfolding filled_order completed
commit_fill now q key fill o om =
    let o' = completed now (filled_order now q fill o) in
    persist_sync (
      publish_fill (if is_complete o' then "filled" else "partially_filled") o' fill
        (record om { fill_dedup = key ∷ om.fill_dedup; orders = insert o.id o' om.orders }))

-- `if (CREATED || PENDING) updateStatus(id, "SUBMITTED")`, whose answer is not read
unfoldable pub make_executable : ℕ → String → ManagedOrder → OrderManager → OrderManager
unfolding is_status
make_executable now id o om =
    if is_status o.status created || is_status o.status pending
    then (update_status now id submitted none om).1
    else om

-- The checks on the fill's quantity and on the order's state.
unfoldable pub apply_quantity :
    ℕ → String → OrderFill → ManagedOrder → OrderManager → Bool × OrderManager
apply_quantity now id fill o om = elim (positive_finite fill.quantity) [
  | none ↦ (false, om)
  | some q ↦
      if ltb (o.quantity + 1) (o.filled_quantity + q)
      then (false, om)
      else if is_status o.status failed
          || is_status o.status cancelled
          || is_status o.status rejected
      then (false, om)
      else let om' = make_executable now id o om in
        (true, commit_fill now q (dedup_key id fill) fill (or_default (lookup id om'.orders) o) om')
]

unfoldable pub apply_fill : ℕ → String → OrderFill → OrderManager → Bool × OrderManager
apply_fill now id fill om = elim (lookup id om.orders) [
  | none ↦ (false, om)
  | some o ↦
      if is_status o.status filled
      then (false, om)
      else if includes om.fill_dedup (dedup_key id fill)
      then (true, om)
      else apply_quantity now id fill o om
]

abbrev pub get_order : String → OrderManager → Option ManagedOrder
get_order id om = lookup id om.orders

abbrev pub get_order_by_client_order_id : String → OrderManager → Option ManagedOrder
get_order_by_client_order_id id om = find_by om.orders_by_client id om

abbrev pub get_order_by_idempotency_key : String → OrderManager → Option ManagedOrder
get_order_by_idempotency_key key om = find_by om.orders_by_idempotency key om

unfoldable pub get_open_orders : OrderManager → List ManagedOrder
get_open_orders om = filter (λ o. is_open o.status) (values om.orders)

unfoldable pub get_orders_by_status : OrderStatus → OrderManager → List ManagedOrder
get_orders_by_status status om = filter (λ o. is_status o.status status) (values om.orders)

-- `ids.map(get).filter(Boolean)`
unfoldable pub resolve : List String → OrderManager → List ManagedOrder
resolve [] om = []
resolve (id ∷ ids) om =
    let rest = resolve ids om in elim (lookup id om.orders) [ none ↦ rest | some o ↦ o ∷ rest ]

unfoldable pub get_order_by_correlation_id : String → OrderManager → List ManagedOrder
unfolding resolve
get_order_by_correlation_id correlation om =
    resolve (or_default (lookup correlation om.orders_by_correlation) []) om

unfoldable pub size : OrderManager → ℕ
size om = length om.orders
