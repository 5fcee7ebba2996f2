-- ===== src/Safety/HardLimits.antt =====
-- The hard limits on an order: apps/server/src/safety/hard-limits.ts. Quantities are in units of
-- 1e-9, prices in a money unit, values in the product of the two; the leverage is a quotient.
use finance_agent_os.Base.{
  ℕ, ◌+◌, ◌*◌, ℤ, pos, negsuc, ◌+ℤ◌, ◌-ℤ◌, abs, ltb_ℤ, leb_ℤ, Bool, true, false, ◌&&◌, not, String,
  ◌==◌, to_upper, Option, none, some, List, [], ◌∷◌, ◌++◌, ltb, leb, if◌then◌else◌, Number,
  positive_finite, Result, ok, err,
}
use finance_agent_os.Order.Status.{OrderSide, buy, sell}

pub record HardLimitsConfig : Type 0 where
  pub max_single_order_notional : ℕ
  pub max_position_notional_per_symbol : ℕ
  pub max_total_portfolio_exposure : ℕ
  pub max_daily_loss : ℤ
  pub max_open_orders : ℕ
  pub max_daily_orders : ℕ
  pub allow_shorting : Bool
  pub leverage_num : ℕ
  pub leverage_den : ℕ

-- DEFAULT_HARD_LIMITS, with the money unit of one cent.
abbrev pub default_hard_limits : HardLimitsConfig
default_hard_limits = record {
  max_single_order_notional = 2500000 * 1000000000;
  max_position_notional_per_symbol = 5000000 * 1000000000;
  max_total_portfolio_exposure = 10000000 * 1000000000;
  max_daily_loss = pos (250000 * 1000000000);
  max_open_orders = 20;
  max_daily_orders = 200;
  allow_shorting = false;
  leverage_num = 1;
  leverage_den = 1;
}

pub record Position : Type 0 where
  pub symbol : String
  pub quantity : ℤ
  pub current_price : ℤ

pub record OrderRequest : Type 0 where
  pub symbol : String
  pub side : OrderSide
  pub quantity : Number
  pub price : Number
  pub current_positions : List Position
  pub current_open_orders : ℕ
  pub current_daily_loss : ℤ
  pub current_daily_orders : ℕ
  pub account_equity : ℤ

pub data Violation : Type 0 where
  invalid_quantity_or_price single_order_notional daily_loss open_orders daily_orders : Violation
  unauthorized_shorting symbol_position total_exposure leverage : Violation

pub record CheckResult : Type 0 where
  pub allowed : Bool
  pub violations : List Violation

abbrev pub same_symbol : String → String → Bool
same_symbol s t = to_upper s == to_upper t

-- `currentPositions.find(...)`
unfoldable pub find_position : String → List Position → Option Position
find_position symbol [] = none
find_position symbol (p ∷ ps) =
    if same_symbol p.symbol symbol then some p else find_position symbol ps

unfoldable pub projected_quantity : OrderSide → ℕ → ℤ → ℤ
projected_quantity buy q current = current +ℤ pos q
projected_quantity sell q current = current -ℤ pos q

abbrev pub notional : Position → ℕ
notional p = abs p.quantity * abs p.current_price

-- The loop over the positions: a position in the symbol counts with the projected value.
unfoldable pub gross_exposure : String → ℕ → List Position → ℕ
gross_exposure symbol projected [] = 0
gross_exposure symbol projected (p ∷ ps) =
    (if same_symbol p.symbol symbol then projected else notional p)
    + gross_exposure symbol projected ps

-- What the checks compute of an order with a valid quantity and price.
pub record Projection : Type 0 where
  pub order_notional : ℕ
  pub quantity : ℤ
  pub symbol_notional : ℕ
  pub exposure : ℕ

-- `currentPos?.quantity ?? 0`
abbrev pub held : Option Position → ℤ
held none = pos 0
held (some p) = p.quantity

-- `currentPos?.currentPrice ?? req.price`
abbrev pub price_of : Option Position → ℕ → ℤ
price_of none price = pos price
price_of (some p) price = p.current_price

-- `if (!foundSymbol) totalGrossExposure += projectedSymbolNotional`
abbrev pub add_missing : Option Position → ℕ → ℕ → ℕ
add_missing none listed value = listed + value
add_missing (some p) listed value = listed

unfoldable pub project_at : Option Position → OrderRequest → ℕ → ℕ → Projection
unfolding projected_quantity gross_exposure
project_at current req q price =
    let projected = projected_quantity req.side q (held current) in
    let value = abs projected * abs (price_of current price) in
    record {
      order_notional = q * price;
      quantity = projected;
      symbol_notional = value;
      exposure = add_missing current (gross_exposure req.symbol value req.current_positions) value;
    }

unfoldable pub project : OrderRequest → ℕ → ℕ → Projection
unfolding find_position project_at
project req = project_at (find_position req.symbol req.current_positions) req

-- `if (test) violations.push(v)`
abbrev pub push_if : Bool → Violation → List Violation → List Violation
push_if test v vs = if test then vs ++ v ∷ [] else vs

-- `equity > 0 && exposure / equity > maxLeverage`
abbrev pub over_leverage : HardLimitsConfig → ℕ → ℤ → Bool
over_leverage c exposure (pos e) = ltb 0 e && ltb (c.leverage_num * e) (exposure * c.leverage_den)
over_leverage c exposure (negsuc e) = false

-- `projectedQty < -1e-6`
abbrev pub is_short : ℤ → Bool
is_short q = ltb_ℤ q (negsuc 999)

unfoldable pub violations : HardLimitsConfig → OrderRequest → Projection → List Violation
violations c req p = push_if (over_leverage c p.exposure req.account_equity) leverage (
    push_if (ltb c.max_total_portfolio_exposure p.exposure) total_exposure (
      push_if (ltb c.max_position_notional_per_symbol p.symbol_notional) symbol_position (
        push_if (not c.allow_shorting && is_short p.quantity) unauthorized_shorting (
          push_if (leb c.max_daily_orders req.current_daily_orders) daily_orders (
            push_if (leb c.max_open_orders req.current_open_orders) open_orders (
              push_if (leb_ℤ c.max_daily_loss req.current_daily_loss) daily_loss (
                push_if (ltb c.max_single_order_notional p.order_notional) single_order_notional
                  [])))))))

abbrev pub is_nil : List Violation → Bool
is_nil [] = true
is_nil (v ∷ vs) = false

unfoldable pub evaluate : HardLimitsConfig → OrderRequest → CheckResult
unfolding violations
evaluate c req =
    let refuse : CheckResult = record {
      allowed = false;
      violations = invalid_quantity_or_price ∷ [];
    } in
    elim (positive_finite req.quantity) [
      | none ↦ refuse
      | some q ↦ elim (positive_finite req.price) [
        | none ↦ refuse
        | some price ↦
            let vs = violations c req (project req q price) in
            record { allowed = is_nil vs; violations = vs }
      ]
    ]

-- `evaluate(req, assertAllowed)`. The refusal of an invalid quantity or price returns before the
-- throw.
unfoldable pub evaluate_or_throw :
    HardLimitsConfig → OrderRequest → Bool → Result (List Violation) CheckResult
unfolding evaluate
evaluate_or_throw c req assert_allowed =
    let r = evaluate c req in
    elim (positive_finite req.quantity) [
      | none ↦ ok r
      | some q ↦ elim (positive_finite req.price) [
        | none ↦ ok r
        | some price ↦ if assert_allowed && not r.allowed then err r.violations else ok r
      ]
    ]
