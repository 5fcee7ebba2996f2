-- ===== src/Tests/Trade.antt =====
-- Runs of the trade engine.
use finance_agent_os.Base.{
  ℕ, ◌+◌, ◌≡◌, refl, arith, pos, none, some, List, [], ◌∷◌, lookup, trim, lookup-empty,
  positive_finite, insert, ◌*◌,
}
use finance_agent_os.Order.Status.{buy, partially_filled, is_status}
use finance_agent_os.Order.Data.{ManagedOrder, OrderManager}
use finance_agent_os.Order.Manager.{register, update_status}
use finance_agent_os.Order.Fill.{
  apply_fill, apply_quantity, commit_fill, make_executable, filled_order, completed,
}
use finance_agent_os.Order.FillEdits.{result, executable}
use finance_agent_os.Order.Invariant.{IsValid, Agrees-empty}
use finance_agent_os.Order.Creation.{register-IsValid}
use finance_agent_os.Trade.Mirror.{Mirrors, fill_event, fill_keeps-Mirrors}
use finance_agent_os.Tests.Data.{empty_manager, order_in, part_fill}
use finance_agent_os.Trade.State.{Trade, TradeEngine, FillEvent, AppliedFill}
use finance_agent_os.Trade.Engine.{
  Print, get_trade_by_order_id, on_fill_applied, close_trade, new_trade,
}
use finance_agent_os.Trade.Aggregate.{Delivery, handle_fills, params_of}
use finance_agent_os.Trade.Closing.{Realized, profit_of_fills}
use finance_agent_os.Trade.Late.{Unpaid, late_fill-Unpaid}
use finance_agent_os.Trade.Redelivery.{Happening, delivered, closed, happen_all, redelivery_ignored}

abbrev no_trades : TradeEngine
no_trades = record {
  trades = [];
  trades_by_order = [];
  open_by_symbol = [];
  processed_fills = [];
  fill_seq = 0;
  published = [];
}

abbrev filled : ℕ → ℕ → AppliedFill
filled q price = record {
  order_id = "o1";
  client_order_id = none;
  symbol = "btcusdt";
  side = buy;
  quantity = q;
  price = price;
  fee = some (pos 2);
  correlation_id = none;
}

abbrev first : Delivery
first = record { time = 5; uuid = "t1"; fill = filled 4 100 }

abbrev further : List Delivery
further =
    record { time = 6; uuid = "t2"; fill = filled 3 107 }
    ∷ record { time = 7; uuid = "t3"; fill = filled 2 90 }
    ∷ []

profit_of_fills_example :
    (t : Trade) × ((close_trade 9 "t1" 120 (pos 1) (handle_fills (first ∷ further) no_trades)).0
      ≡ some t)
    × Realized 120 (pos 1) buy (first ∷ further) t
unfolding get_trade_by_order_id lookup
profit_of_fills_example =
    profit_of_fills 9 120 (pos 1) first further no_trades refl refl (refl, (refl, tt))
      (omega arith, (omega arith, tt))

abbrev digits : Print
digits = record { natural = λ n. "9"; integer = λ n. "9" }

abbrev event : FillEvent
event = record {
  order_id = some "o1";
  client_order_id = none;
  symbol = some "btcusdt";
  side = some buy;
  quantity = some 4;
  price = some 100;
  fee = none;
  correlation_id = none;
  version = some 3;
  timestamp = none;
}

abbrev between : List Happening
between = delivered 6 "t2" (record event { order_id = some "o2" }) ∷ closed 7 "t1" 120 (pos 0) ∷ []

redelivery_ignored_example :
    let s = happen_all digits between (on_fill_applied digits 5 "t1" event no_trades) in
    on_fill_applied digits 8 "t3" event s ≡ s
redelivery_ignored_example = redelivery_ignored digits 5 8 "t1" "t3" event 3 between no_trades refl

abbrev late : Delivery
late = record { time = 10; uuid = "t9"; fill = filled 3 107 }

late_fill-Unpaid_example :
    let s = (close_trade 9 "t1" 120 (pos 1) (handle_fills (first ∷ further) no_trades)).1 in
    (t : Trade) × (get_trade_by_order_id "o1" (handle_fills (late ∷ []) s) ≡ some t)
    × Unpaid 120 (pos 1) (first ∷ further) late t
unfolding get_trade_by_order_id lookup
late_fill-Unpaid_example =
    late_fill-Unpaid 9 120 (pos 1) first further late no_trades refl refl (refl, (refl, (refl, tt)))
      (omega arith, (omega arith, tt))

-- An order of which four units are filled, and the trade of that fill.
abbrev part_order : ManagedOrder
part_order = record (order_in partially_filled) {
  filled_quantity = 4;
  average_fill_price = record { num = 12; den = 4 };
  fees = pos 2;
  version = 2;
}

abbrev part_manager : OrderManager
part_manager = register part_order empty_manager

part_manager-IsValid : IsValid part_manager
part_manager-IsValid =
    register-IsValid part_order empty_manager Agrees-empty
      (record {
        fresh_id = lookup-empty "o1";
        fresh_client = lookup-empty "c1";
        fresh_key = lookup-empty "k1";
      })
      (record {
        capped = omega arith;
        asked = omega arith;
        versioned = omega arith;
        averaged = omega arith;
      })

abbrev part_trade : Trade
part_trade = new_trade 5 "t1" (params_of (filled 4 3))

abbrev part_trades : TradeEngine
part_trades = record no_trades {
  trades = ("t1", part_trade) ∷ [];
  trades_by_order = ("o1", "t1") ∷ [];
}

abbrev part_state : Mirrors "o1" 12 part_manager part_trades
unfolding register lookup insert
part_state = record {
  order = part_order;
  trade = part_trade;
  stored = refl;
  cost = refl;
  linked = record { by_order = refl; named = refl; stored = refl };
  stands = record { sized = refl; averaged = refl; charged = refl; divided = omega arith };
}

abbrev next_order : ManagedOrder
next_order = result 6 4 part_fill (executable 6 part_order)

next_order-stored :
    lookup "o1" (apply_fill 6 "o1" part_fill part_manager).1.orders ≡ some next_order
unfolding apply_fill apply_quantity positive_finite register lookup insert is_status trim
    commit_fill make_executable filled_order completed update_status
next_order-stored = refl

fill_keeps-Mirrors_example :
    Mirrors "o1"
      (12 + part_fill.price * 4)
      (apply_fill 6 "o1" part_fill part_manager).1
      (on_fill_applied digits 7 "t9" (fill_event next_order part_fill) part_trades)
unfolding apply_fill apply_quantity positive_finite register lookup insert is_status trim
    filled_order completed
fill_keeps-Mirrors_example =
    fill_keeps-Mirrors digits 6 7 4 12 "o1" "t9" part_fill next_order part_manager part_trades
      part_state part_manager-IsValid refl refl (omega arith) refl next_order-stored refl refl refl
