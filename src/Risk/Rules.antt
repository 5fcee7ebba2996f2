-- ===== src/Risk/Rules.antt =====
-- The risk engine's state and tests: apps/server/src/risk-engine/risk-engine.ts. Quantities are in units of 1e-9, prices
-- in a money unit, values in the product of the two, and percentages in thousandths.
use finance_agent_os.Base.{
  ℕ, ◌+◌, ◌*◌, ◌/◌, ℤ, pos, ◌+ℤ◌, scale, ltb_ℤ, Bool, false, ◌&&◌, not, String, ◌==◌, to_upper,
  Option, none, some, or_default, List, [], ◌∷◌, any, Dict, lookup, ltb, if◌then◌else◌, Number,
}
use finance_agent_os.Order.Status.{OrderSide}
use finance_agent_os.Risk.Ticket.{RiskApprovalTicket}

pub record RiskEngineConfig : Type 0 where
  pub max_position_size : ℕ
  pub max_order_size : ℕ
  pub max_portfolio_exposure : ℕ
  pub max_symbol_exposure : ℕ
  pub max_daily_loss : ℕ
  pub max_drawdown : ℕ
  pub max_position_pct : ℕ
  pub max_open_positions : ℕ
  pub leverage_num : ℕ
  pub leverage_den : ℕ
  pub cooldown_ms : ℕ
  pub confidence_threshold : ℤ
  pub stale_threshold_ms : ℕ
  pub allowed_symbols : List String
  pub blocked_symbols : List String
  pub require_stop_loss : Bool

pub record TradeRequest : Type 0 where
  pub symbol : String
  pub side : OrderSide
  pub quantity : Number
  pub price : Number
  pub confidence : ℤ
  pub strategy : String
  pub agent_id : String
  pub timestamp : ℕ
  pub correlation_id : String
  pub stop_loss : Option ℤ
  pub quote_timestamp : Option ℕ

pub record HeldPosition : Type 0 where
  pub symbol : String
  pub quantity : ℤ
  pub current_price : ℕ

pub record PortfolioSnapshot : Type 0 where
  pub cash : ℤ
  pub equity : ℤ
  pub positions : List HeldPosition
  pub peak_equity : ℤ

pub data Rule : Type 0 where
  quantity_validity stale_data symbol_restrictions stop_loss_requirement : Rule
  confidence_threshold order_size position_size margin_check cooldown open_positions : Rule
  symbol_exposure portfolio_exposure daily_loss drawdown leverage : Rule

pub data Reason : Type 0 where
  invalid_quantity invalid_price stale restricted not_allowed no_stop_loss low_confidence : Reason
  position_too_large insufficient_margin cooling too_many_positions symbol_exposed : Reason
  portfolio_exposed too_much_lost drawn_down over_leverage : Reason

-- A decision is a rejection with its reason, or an approval. Its metrics are left out.
pub record RiskDecision : Type 0 where
  pub id : String
  pub rejected : Option Reason
  pub rules_checked : List Rule
  pub requested_quantity : Number
  pub approved_quantity : ℕ
  pub ticket : Option RiskApprovalTicket
  pub timestamp : ℕ
  pub correlation_id : String

-- `published` are the decisions of the risk.approved events.
pub record RiskEngine : Type 0 where
  pub config : RiskEngineConfig
  pub last_trade_time : Dict ℕ
  pub daily_trades : ℕ
  pub daily_pnl : ℤ
  pub peak_equity : ℤ
  pub published : List RiskDecision

-- DEFAULT_CONFIG, with the money unit of one cent and a confidence in hundredths.
abbrev pub default_config : RiskEngineConfig
default_config = record {
  max_position_size = 100 * 1000000000;
  max_order_size = 10000 * 100 * 1000000000;
  max_portfolio_exposure = 80000;
  max_symbol_exposure = 25000;
  max_daily_loss = 5000;
  max_drawdown = 15000;
  max_position_pct = 20000;
  max_open_positions = 10;
  leverage_num = 3;
  leverage_den = 1;
  cooldown_ms = 15000;
  confidence_threshold = pos 60;
  stale_threshold_ms = 30000;
  allowed_symbols = [];
  blocked_symbols = [];
  require_stop_loss = false;
}

unfoldable pub new_risk_engine : RiskEngineConfig → RiskEngine
new_risk_engine c = record {
  config = c;
  last_trade_time = [];
  daily_trades = 0;
  daily_pnl = pos 0;
  peak_equity = pos 0;
  published = [];
}

-- 1.0 of a quantity
abbrev pub whole : ℕ
whole = 1000000000

-- A percentage of `total`, where `hundred` stands for the whole.
abbrev pub hundred : ℕ
hundred = 100000

-- `part / total * 100 > limit`, for a positive total
unfoldable pub exceeds : ℤ → ℤ → ℕ → Bool
exceeds part total limit = ltb_ℤ (scale total limit) (scale part hundred)

abbrev pub is_positive : ℤ → Bool
is_positive x = ltb_ℤ (pos 0) x

abbrev pub is_listed : String → List String → Bool
is_listed symbol symbols = any (λ s. to_upper s == symbol) symbols

unfoldable pub find_held : String → List HeldPosition → Option HeldPosition
find_held symbol [] = none
find_held symbol (p ∷ ps) = if to_upper p.symbol == symbol then some p else find_held symbol ps

abbrev pub value_of : HeldPosition → ℤ
value_of p = scale p.quantity p.current_price

unfoldable pub positions_value : List HeldPosition → ℤ
positions_value [] = pos 0
positions_value (p ∷ ps) = value_of p +ℤ positions_value ps

-- `portfolio.equity > 0 ? portfolio.equity : portfolio.cash`
abbrev pub total_value : PortfolioSnapshot → ℤ
total_value f = if is_positive f.equity then f.equity else f.cash

-- The quantity that the order-size check leaves.
unfoldable pub approved_quantity : RiskEngineConfig → ℕ → ℕ → ℕ
approved_quantity c q price =
    if ltb c.max_order_size (q * price) then c.max_order_size / (price * whole) * whole else q

-- `quoteTime && now - quoteTime > staleThresholdMs`
unfoldable pub is_stale : ℕ → RiskEngineConfig → TradeRequest → Bool
is_stale now c r =
    let quoted = or_default r.quote_timestamp r.timestamp in
    ltb 0 quoted && ltb (quoted + c.stale_threshold_ms) now

unfoldable pub lacks_stop_loss : RiskEngineConfig → TradeRequest → Bool
lacks_stop_loss c r = c.require_stop_loss && not (is_positive (or_default r.stop_loss (pos 0)))

-- `requiredMargin > portfolio.cash`
unfoldable pub lacks_margin : RiskEngineConfig → ℕ → ℤ → Bool
lacks_margin c value cash =
    if ltb c.leverage_den c.leverage_num
    then ltb_ℤ (scale cash c.leverage_num) (pos (value * c.leverage_den))
    else ltb_ℤ cash (pos value)

-- `now - lastTrade < cooldownMs`
unfoldable pub is_cooling : ℕ → String → RiskEngine → Bool
is_cooling now symbol s =
    ltb now (or_default (lookup symbol s.last_trade_time) 0 + s.config.cooldown_ms)

unfoldable pub over_symbol : RiskEngineConfig → ℤ → ℤ → Bool
unfolding exceeds
over_symbol c value total =
    if is_positive total
    then exceeds value total c.max_symbol_exposure
    else ltb c.max_symbol_exposure hundred

-- `totalValue > 0 ? part / totalValue * 100 : 0` is over the limit.
unfoldable pub over_total : ℤ → ℤ → ℕ → Bool
unfolding exceeds
over_total part total limit = is_positive total && exceeds part total limit

-- `cash > 0 ? value / cash : 999` is over the limit.
unfoldable pub over_leveraged : RiskEngineConfig → ℤ → ℤ → Bool
over_leveraged c value cash =
    if is_positive cash
    then ltb_ℤ (scale cash c.leverage_num) (scale value c.leverage_den)
    else ltb c.leverage_num (999 * c.leverage_den)

abbrev pub held_quantity : Option HeldPosition → ℤ
held_quantity none = pos 0
held_quantity (some p) = p.quantity

abbrev pub held_value : Option HeldPosition → ℤ
held_value none = pos 0
held_value (some p) = value_of p

-- The engine's peak behind the drawdown check.
unfoldable pub peak_of : RiskEngine → PortfolioSnapshot → ℤ
peak_of s f =
    let total = total_value f in
    let peak =
      if is_positive f.peak_equity
      then f.peak_equity
      else if is_positive s.peak_equity
      then s.peak_equity
      else total in
    if ltb_ℤ peak total then total else peak
