-- ===== src/Pipeline/Signal.antt =====
-- Signals and their validation: apps/server/src/execution-pipeline/types.ts and validation.ts.
use finance_agent_os.Base.{
  ℕ, ◌*◌, pos, negsuc, Bool, true, false, ◌&&◌, ◌||◌, not, String, ◌==◌, trim, to_upper, to_lower,
  codes, Option, none, some, List, [], ◌∷◌, Number, absent, nan, infinite, negative_infinite,
  finite, positive_finite, length, drop, ltb, leb, eqb, if◌then◌else◌, or_default, Result, ok, err,
  ◌-◌,
}
use finance_agent_os.Order.Status.{OrderSide, buy, sell, OrderType, market, limit}

-- A signal as it comes in. A text field is `none` where it is absent; the values of a wrong type are
-- not modelled, but for the numbers.
pub record RawSignal : Type 0 where
  pub id : Option String
  pub symbol : Option String
  pub side : Option String
  pub quantity : Number
  pub price : Number
  pub order_type : Option String
  pub strategy : Option String
  pub agent_id : Option String
  pub correlation_id : Option String
  pub idempotency_key : Option String
  pub confidence : Number
  pub timestamp : Option ℕ

pub record PipelineSignal : Type 0 where
  pub id : Option String
  pub symbol : String
  pub side : OrderSide
  pub quantity : ℕ
  pub price : ℕ
  pub order_type : OrderType
  pub strategy : Option String
  pub agent_id : String
  pub correlation_id : Option String
  pub confidence : Option ℕ
  pub timestamp : ℕ

pub data ValidationError : Type 0 where
  no_signal symbol_required symbol_invalid bad_side bad_quantity bad_price : ValidationError
  agent_required bad_type bad_confidence : ValidationError

-- [A-Z0-9]
abbrev is_alnum : ℕ → Bool
is_alnum c = (leb b'A' c && leb c b'Z') || (leb b'0' c && leb c b'9')

abbrev all_alnum : List ℕ → Bool
all_alnum [] = true
all_alnum (c ∷ cs) = is_alnum c && all_alnum cs

abbrev same_codes : List ℕ → List ℕ → Bool
same_codes [] [] = true
same_codes (a ∷ as') (b ∷ bs) = eqb a b && same_codes as' bs
same_codes _ _ = false

-- /^[A-Z0-9]{2,12}USDT$|^[A-Z0-9]{2,12}$/
unfoldable pub valid_symbol : String → Bool
unfolding codes
valid_symbol s =
    let cs = codes s in
    let n = length cs in
    all_alnum cs
    && ((leb 2 n && leb n 12)
        || (leb 6 n && leb n 16 && same_codes (drop (n - 4) cs) (codes "USDT")))

infixl 5 ◌>>=◌
abbrev ◌>>=◌ :
    {A B : Type 0}
    → Result ValidationError A
    → (A → Result ValidationError B)
    → Result ValidationError B
ok a >>= f = f a
err e >>= f = err e

abbrev required : ValidationError → Option String → Result ValidationError String
required e none = err e
required e (some s) = if trim s == "" then err e else ok (trim s)

abbrev symbol_of : Option String → Result ValidationError String
symbol_of o = do
  s ← required symbol_required o
  if valid_symbol (to_upper s) then ok (to_upper s) else err symbol_invalid

abbrev side_of : Option String → Result ValidationError OrderSide
side_of none = err bad_side
side_of (some s) =
    if to_lower s == "buy" then ok buy else if to_lower s == "sell" then ok sell else err bad_side

abbrev positive_or : ValidationError → Number → Result ValidationError ℕ
positive_or e n = elim (positive_finite n) [ none ↦ err e | some q ↦ ok q ]

abbrev type_of : Option String → Result ValidationError OrderType
type_of none = ok market
type_of (some t) =
    if to_lower t == "market"
    then ok market
    else if to_lower t == "limit"
    then ok limit
    else err bad_type

-- A confidence of 1.0, in its unit.
abbrev pub full_confidence : ℕ
full_confidence = 1000000000

abbrev confidence_of : Number → Result ValidationError (Option ℕ)
confidence_of absent = ok none
confidence_of nan = err bad_confidence
confidence_of infinite = err bad_confidence
confidence_of negative_infinite = err bad_confidence
confidence_of (finite (pos n)) = if ltb full_confidence n then err bad_confidence else ok (some n)
confidence_of (finite (negsuc n)) = err bad_confidence

-- `typeof s.id === "string" && s.id.trim() !== "" ? s.id.trim() : undefined`
abbrev trimmed : Option String → Option String
trimmed none = none
trimmed (some s) = if trim s == "" then none else some (trim s)

unfoldable pub validate_signal : ℕ → Option RawSignal → Result ValidationError PipelineSignal
validate_signal now none = err no_signal
validate_signal now (some s) = do
  symbol ← symbol_of s.symbol
  side ← side_of s.side
  quantity ← positive_or bad_quantity s.quantity
  price ← positive_or bad_price s.price
  agent ← required agent_required s.agent_id
  order_type ← type_of s.order_type
  confidence ← confidence_of s.confidence
  ok (record {
    id = trimmed s.id;
    symbol = symbol;
    side = side;
    quantity = quantity;
    price = price;
    order_type = order_type;
    strategy = s.strategy;
    agent_id = agent;
    correlation_id = s.correlation_id;
    confidence = confidence;
    timestamp = or_default s.timestamp now;
  })

-- `validateNotional(...).valid`
unfoldable pub notional_fits : PipelineSignal → Option ℕ → Bool
notional_fits s none = true
notional_fits s (some max) = not (ltb 0 max && ltb max (s.quantity * s.price))
