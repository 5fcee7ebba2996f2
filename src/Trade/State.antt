-- ===== src/Trade/State.antt =====
-- The state of `TradeEngine`: apps/server/src/trade-engine/trade-engine.ts. Quantities are in units of
-- 1e-9, prices in a money unit, and fees and profits in thousandths of the product of the two.
use finance_agent_os.Base.{ℕ, ℤ, Bool, String, Option, List, Dict}
use finance_agent_os.Order.Status.{OrderSide}
use finance_agent_os.Order.Data.{Quotient}

-- A profit is `num / den`.
pub record Profit : Type 0 where
  pub num : ℤ
  pub den : ℕ

pub record Trade : Type 0 where
  pub id : String
  pub symbol : String
  pub strategy : String
  pub side : OrderSide
  pub entry_price : Quotient
  pub exit_price : Option ℕ
  pub quantity : ℕ
  pub filled_quantity : ℕ
  pub fees : ℤ
  pub pnl : Profit
  pub opened_at : ℕ
  pub closed_at : Option ℕ
  pub is_open : Bool
  pub order_id : String
  pub client_order_id : Option String
  pub correlation_id : Option String
  pub version : ℕ

pub record TradeEvent : Type 0 where
  pub event_type : String
  pub trade : Trade

-- `open_by_symbol` holds the ids of the trades that the program holds by reference.
pub record TradeEngine : Type 0 where
  pub trades : Dict Trade
  pub trades_by_order : Dict String
  pub open_by_symbol : Dict (List String)
  pub processed_fills : List String
  pub fill_seq : ℕ
  pub published : List TradeEvent

-- The data of an event "order.fill_applied". An amount is `none` where it is no number.
pub record FillEvent : Type 0 where
  pub order_id : Option String
  pub client_order_id : Option String
  pub symbol : Option String
  pub side : Option OrderSide
  pub quantity : Option ℕ
  pub price : Option ℕ
  pub fee : Option ℤ
  pub correlation_id : Option String
  pub version : Option ℕ
  pub timestamp : Option ℕ

-- A fill with all that `handleFill` needs.
pub record AppliedFill : Type 0 where
  pub order_id : String
  pub client_order_id : Option String
  pub symbol : String
  pub side : OrderSide
  pub quantity : ℕ
  pub price : ℕ
  pub fee : Option ℤ
  pub correlation_id : Option String

-- What a trade is opened with.
pub record TradeParams : Type 0 where
  pub symbol : String
  pub strategy : String
  pub side : OrderSide
  pub entry_price : ℕ
  pub quantity : ℕ
  pub fees : ℤ
  pub order_id : String
  pub client_order_id : Option String
  pub correlation_id : Option String
