-- ===== src/Tests/Data.antt =====
-- An order, managers that hold it, and fills of it.
use finance_agent_os.Base.{
  ◌≡◌, refl, lookup, lookup-empty, insert, none, some, [], false, pos, finite, arith,
}
use finance_agent_os.Order.Status.{OrderStatus, buy, limit, paper}
use finance_agent_os.Order.Data.{ManagedOrder, OrderManager, OrderFill, Env, OrderParams, valid}
use finance_agent_os.Order.Manager.{register}
use finance_agent_os.Order.Invariant.{IsValid, Agrees-empty}
use finance_agent_os.Order.Creation.{register-IsValid}

abbrev pub empty_manager : OrderManager
empty_manager = record {
  orders = [];
  orders_by_client = [];
  orders_by_correlation = [];
  orders_by_idempotency = [];
  fill_dedup = [];
  persists = false;
  disk = [];
  published = [];
}

-- An order of ten units at price 3.
abbrev pub order_in : OrderStatus → ManagedOrder
order_in s = record {
  id = "o1";
  client_order_id = "c1";
  symbol = "BTCUSDT";
  side = buy;
  order_type = some limit;
  quantity = 10;
  price = 3;
  stop_price = none;
  status = s;
  strategy = none;
  agent = some "desk";
  execution_mode = paper;
  filled_quantity = 0;
  average_fill_price = record { num = 0; den = 1 };
  fees = pos 0;
  correlation_id = "r1";
  idempotency_key = "k1";
  version = 1;
  created_at = 5;
  updated_at = 5;
  submitted_at = none;
  filled_at = none;
  cancelled_at = none;
  rejected_at = none;
  failed_at = none;
  rejected_reason = none;
  failed_reason = none;
  cancelled_reason = none;
}

abbrev pub holding : OrderStatus → OrderManager
holding s = register (order_in s) empty_manager

pub holding-IsValid : (s : OrderStatus) → IsValid (holding s)
holding-IsValid s =
    register-IsValid (order_in s) empty_manager Agrees-empty
      (record {
        fresh_id = lookup-empty "o1";
        fresh_client = lookup-empty "c1";
        fresh_key = lookup-empty "k1";
      })
      (record {
        capped = omega arith;
        asked = omega arith;
        versioned = omega arith;
        averaged = omega arith;
      })

pub holding-lookup : (s : OrderStatus) → lookup "o1" (holding s).orders ≡ some (order_in s)
unfolding register lookup insert
holding-lookup s = refl

abbrev pub part_fill : OrderFill
part_fill = record {
  id = some "f1";
  quantity = finite (pos 4);
  price = 3;
  fee = some (pos 1);
  timestamp = 6;
  hash = "4:3:6";
}

abbrev pub env : Env
env = record { now = 5; order_uuid = "o2"; client_uuid = "c2"; correlation_uuid = "r2" }

abbrev pub params : OrderParams
params = record {
  symbol = some " ethusdt ";
  side = valid buy;
  order_type = valid limit;
  quantity = finite (pos 10);
  price = finite (pos 3);
  stop_price = none;
  strategy = none;
  agent = none;
  execution_mode = paper;
  client_order_id = some "c7";
  correlation_id = none;
  idempotency_key = none;
}
