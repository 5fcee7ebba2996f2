-- ===== src/Safety/Limits.antt =====
-- The limits as a predicate on the projected position: apps/server/src/safety/hard-limits.ts.
use finance_agent_os.Base.{
  ℕ, ◌*◌, ◌≤◌, ◌<◌, ◌≡◌, ◌⊎◌, ◌↔◌, refl, ℤ, pos, negsuc, ◌≤ℤ◌, true, false, arith,
}
use finance_agent_os.Safety.HardLimits.{
  HardLimitsConfig, OrderRequest, Projection, violations, over_leverage, is_nil,
}

-- `exposure / equity ≤ max`, for an equity above zero
abbrev pub LeverageFits : HardLimitsConfig → ℕ → ℤ → Type 0
LeverageFits c exposure (pos e) = 0 < e → exposure * c.leverage_den ≤ c.leverage_num * e
LeverageFits c exposure (negsuc e) = Unit

-- Every limit, said of the projected position.
pub record Within (c : HardLimitsConfig) (req : OrderRequest) (p : Projection) : Type 0 where
  pub order_fits : p.order_notional ≤ c.max_single_order_notional
  pub loss_fits : ¬ (c.max_daily_loss ≤ℤ req.current_daily_loss)
  pub open_fits : req.current_open_orders < c.max_open_orders
  pub daily_fits : req.current_daily_orders < c.max_daily_orders
  pub long_enough : (c.allow_shorting ≡ true) ⊎ (negsuc 999 ≤ℤ p.quantity)
  pub symbol_fits : p.symbol_notional ≤ c.max_position_notional_per_symbol
  pub total_fits : p.exposure ≤ c.max_total_portfolio_exposure
  pub leverage_fits : LeverageFits c p.exposure req.account_equity

leverage_test :
    (c : HardLimitsConfig) (x : ℕ) (e : ℤ) → (over_leverage c x e ≡ false) ↔ LeverageFits c x e
leverage_test c x (pos e) = (λ h. ground arith, λ h. ground arith)
leverage_test c x (negsuc e) = (λ h. tt, λ h. refl)

pub no_violation :
    (c : HardLimitsConfig) (req : OrderRequest) (p : Projection)
    → is_nil (violations c req p) ≡ true
    → Within c req p
unfolding violations
no_violation c req p h = record {
  order_fits = ground arith;
  loss_fits = ground arith;
  open_fits = ground arith;
  daily_fits = ground arith;
  long_enough = ground arith;
  symbol_fits = ground arith;
  total_fits = ground arith;
  leverage_fits = (leverage_test c p.exposure req.account_equity).0 (ground arith);
}

pub Within-clean :
    (c : HardLimitsConfig) (req : OrderRequest) (p : Projection)
    → Within c req p
    → is_nil (violations c req p) ≡ true
unfolding violations
Within-clean c req p w =
    ground (arith, (leverage_test c p.exposure req.account_equity).1 w.leverage_fits)
