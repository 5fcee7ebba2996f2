-- ===== src/Order/Data.antt =====
-- The records of apps/server/src/order-manager/canonical.ts, and what the order manager holds.
-- A quantity is a number of units of 1e-9, a price one of a fixed money unit, a fee one of thousandths
-- of the product of the two; an average
-- price is the exact quotient that the program computes in floating point.
use finance_agent_os.Base.{ℕ, ℤ, Bool, String, Option, List, Dict, Number}
use finance_agent_os.Order.Status.{OrderSide, OrderType, OrderStatus, ExecutionMode}

pub record Quotient : Type 0 where
  pub num : ℕ
  pub den : ℕ

pub record ManagedOrder : Type 0 where
  pub id : String
  pub client_order_id : String
  pub symbol : String
  pub side : OrderSide
  pub order_type : Option OrderType
  pub quantity : ℕ
  pub price : ℕ
  pub stop_price : Option ℕ
  pub status : OrderStatus
  pub strategy : Option String
  pub agent : Option String
  pub execution_mode : ExecutionMode
  pub filled_quantity : ℕ
  pub average_fill_price : Quotient
  pub fees : ℤ
  pub correlation_id : String
  pub idempotency_key : String
  pub version : ℕ
  pub created_at : ℕ
  pub updated_at : ℕ
  pub submitted_at : Option ℕ
  pub filled_at : Option ℕ
  pub cancelled_at : Option ℕ
  pub rejected_at : Option ℕ
  pub failed_at : Option ℕ
  pub rejected_reason : Option String
  pub failed_reason : Option String
  pub cancelled_reason : Option String

-- `hash` is the text `quantity:price:timestamp`, as the runtime prints the numbers. The price is
-- taken to be a finite number that is not negative, which the manager does not check.
pub record OrderFill : Type 0 where
  pub id : Option String
  pub quantity : Number
  pub price : ℕ
  pub fee : Option ℤ
  pub timestamp : ℕ
  pub hash : String

-- An event on the bus, with a copy of the order at that time.
pub record OrderEvent : Type 0 where
  pub event_type : String
  pub order : ManagedOrder
  pub prev_status : Option OrderStatus
  pub reason : Option String
  pub fill : Option OrderFill

-- A field of a parameter object that the manager checks at run time: absent, one of the values of
-- its declared type, or another value.
pub data Given (A : Type 0) : Type 0 where
  missing other : Given A
  valid : A → Given A

pub record OrderParams : Type 0 where
  pub symbol : Option String
  pub side : Given OrderSide
  pub order_type : Given OrderType
  pub quantity : Number
  pub price : Number
  pub stop_price : Option ℕ
  pub strategy : Option String
  pub agent : Option String
  pub execution_mode : ExecutionMode
  pub client_order_id : Option String
  pub correlation_id : Option String
  pub idempotency_key : Option String

-- What a call takes from the runtime: the clock and the next results of `uuidv4()`.
pub record Env : Type 0 where
  pub now : ℕ
  pub order_uuid : String
  pub client_uuid : String
  pub correlation_uuid : String

-- The two secondary maps to orders hold references to the objects of `orders`; a reference is the
-- object's id. `persists` is `autoPersist && persistPath !== ":memory:"`, `disk` the last snapshot
-- written, `published` the events in the order of their publication.
pub record OrderManager : Type 0 where
  pub orders : Dict ManagedOrder
  pub orders_by_client : Dict String
  pub orders_by_correlation : Dict (List String)
  pub orders_by_idempotency : Dict String
  pub fill_dedup : List String
  pub persists : Bool
  pub disk : List ManagedOrder
  pub published : List OrderEvent

pub data CreateError : Type 0 where
  symbol_required bad_side bad_quantity bad_price bad_type : CreateError

-- The checked values of the parameters.
pub record Fields : Type 0 where
  pub symbol : String
  pub side : OrderSide
  pub order_type : Option OrderType
  pub quantity : ℕ
  pub price : ℕ
