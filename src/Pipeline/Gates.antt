-- ===== src/Pipeline/Gates.antt =====
-- The permission check: apps/server/src/execution-pipeline/permission.ts.
use finance_agent_os.Base.{
  ℕ, ◌*◌, Bool, true, false, ◌&&◌, ◌||◌, not, String, ◌==◌, to_upper, includes, Option, none, some,
  List, [], ◌∷◌, ltb, leb, if◌then◌else◌, or_default,
}
use finance_agent_os.Pipeline.Signal.{PipelineSignal}

pub record PermissionInput : Type 0 where
  pub can_trade : Bool
  pub can_submit_orders : Bool
  pub max_order_size : ℕ
  pub max_daily_orders : ℕ
  pub allowed_symbols : List String
  pub allowed_strategies : List String

-- DEFAULT_PERMISSION, the size of 50 000 in cents times units
abbrev pub default_permission : PermissionInput
default_permission = record {
  can_trade = true;
  can_submit_orders = true;
  max_order_size = 5000000 * 1000000000;
  max_daily_orders = 100;
  allowed_symbols = [];
  allowed_strategies = [];
}

pub data Denial : Type 0 where
  no_trading no_submission order_too_large daily_limit symbol_not_allowed strategy_not_allowed :
      Denial

abbrev is_empty : List String → Bool
is_empty [] = true
is_empty (x ∷ xs) = false

abbrev upper_includes : List String → String → Bool
upper_includes [] s = false
upper_includes (x ∷ xs) s = to_upper x == s || upper_includes xs s

abbrev pub strategy_allowed : List String → Option String → Bool
strategy_allowed allowed none = true
strategy_allowed allowed (some s) = is_empty allowed || s == "" || includes allowed s

abbrev pub symbol_allowed : List String → String → Bool
symbol_allowed allowed s = is_empty allowed || upper_includes allowed (to_upper s)

-- `none` is `{ allowed: true }`.
unfoldable pub check_permission : PipelineSignal → Option PermissionInput → ℕ → Option Denial
check_permission signal perms daily_count =
    let p = or_default perms default_permission in
    if not p.can_trade
    then some no_trading
    else if not p.can_submit_orders
    then some no_submission
    else if ltb 0 p.max_order_size && ltb p.max_order_size (signal.quantity * signal.price)
    then some order_too_large
    else if ltb 0 p.max_daily_orders && leb p.max_daily_orders daily_count
    then some daily_limit
    else if not (symbol_allowed p.allowed_symbols signal.symbol)
    then some symbol_not_allowed
    else if not (strategy_allowed p.allowed_strategies signal.strategy)
    then some strategy_not_allowed
    else none
