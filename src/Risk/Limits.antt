-- ===== src/Risk/Limits.antt =====
-- The limits of the risk engine: apps/server/src/risk-engine/risk-engine.ts.
use finance_agent_os.Base.{
  Number, ◌≢◌, Any, eq_iff, ℕ, ◌+◌, ◌*◌, ◌≤◌, ◌<◌, ◌≡◌, refl, arith, ℤ, pos, ◌+ℤ◌, ◌-ℤ◌, ◌≤ℤ◌,
  scale, true, false, String, to_upper, none, some, Bool-cases, or_default, ◌⊎◌, inl, inr, ◌↔◌,
  List, [], ◌∷◌, ◌++◌, All, length, lookup, positive_finite,
}
use finance_agent_os.Risk.Figures.{Figures, IsMeasured, units_of, worth_of}
use finance_agent_os.Risk.Rules.{
  RiskEngineConfig, TradeRequest, PortfolioSnapshot, RiskEngine, Rule, is_positive, is_listed,
  is_stale, lacks_stop_loss, lacks_margin, is_cooling, over_symbol, over_total, over_leveraged,
  exceeds,
}
use finance_agent_os.Risk.Engine.{Check, run_checks}

abbrev pub Passes : Check → Type 0
Passes k = k.fails ≡ false

pub run_checks-Passes :
    (ks : List Check) (rules : List Rule) → ((run_checks ks rules).0 ≡ none) ↔ All Passes ks
unfolding run_checks
run_checks-Passes [] rules = (λ h. tt, λ h. refl)
run_checks-Passes (k ∷ ks) rules =
    let rest = run_checks-Passes ks (rules ++ k.before ++ k.behind) in
    elim (Bool-cases k.fails) [
      | inl e ↦ (λ h. absurd (ground (arith, e, h)), λ h. absurd (ground (arith, e, h.0)))
      | inr e ↦ (λ h. (e, rest.0 (ground (arith, e, h))), λ h. ground (arith, e, rest.1 h.1))
    ]

-- The part of the total is at most the limit in thousandths of a percent, where the total is positive.
abbrev Share : ℤ → ℤ → ℕ → Type 0
Share part total limit = pos 1 ≤ℤ total → scale part 100000 ≤ℤ scale total limit

-- The conditions on an order of `q` units at `price`, given the figures that they are about.
pub record IsPermitted (now : ℕ) (s : RiskEngine) (r : TradeRequest) (f : PortfolioSnapshot)
    (q price : ℕ) (x : Figures) : Type 0 where
  pub fresh :
      (or_default r.quote_timestamp r.timestamp ≡ 0)
      ⊎ (now ≤ or_default r.quote_timestamp r.timestamp + s.config.stale_threshold_ms)
  pub unblocked : ¬ (Any (λ b. to_upper b ≡ to_upper r.symbol) s.config.blocked_symbols)
  pub listed :
      (length s.config.allowed_symbols ≡ 0)
      ⊎ Any (λ b. to_upper b ≡ to_upper r.symbol) s.config.allowed_symbols
  pub stop_given : s.config.require_stop_loss ≡ true → pos 1 ≤ℤ or_default r.stop_loss (pos 0)
  pub confident : s.config.confidence_threshold ≤ℤ r.confidence
  pub size_kept : units_of x.held +ℤ pos x.capped ≤ℤ pos s.config.max_position_size
  pub margin_kept :
      ((s.config.leverage_den < s.config.leverage_num)
        × (pos (q * price * s.config.leverage_den) ≤ℤ scale f.cash s.config.leverage_num))
      ⊎ ((s.config.leverage_num ≤ s.config.leverage_den) × (pos (q * price) ≤ℤ f.cash))
  pub cooled : or_default (lookup r.symbol s.last_trade_time) 0 + s.config.cooldown_ms ≤ now
  pub room : (x.held ≢ none) ⊎ (length f.positions < s.config.max_open_positions)
  pub symbol_kept : Share (worth_of x.held +ℤ pos (q * price)) x.total s.config.max_symbol_exposure
  pub symbol_total : (pos 1 ≤ℤ x.total) ⊎ (100000 ≤ s.config.max_symbol_exposure)
  pub portfolio_kept : Share (x.worth +ℤ pos (q * price)) x.total s.config.max_portfolio_exposure
  pub loss_kept : Share (pos 0 -ℤ s.daily_pnl) x.total s.config.max_daily_loss
  pub drawdown_kept : Share (x.peak -ℤ x.total) x.peak s.config.max_drawdown
  pub leverage_kept :
      ((pos 1 ≤ℤ f.cash)
        × (scale (x.worth +ℤ pos (q * price)) s.config.leverage_den
            ≤ℤ scale f.cash s.config.leverage_num))
      ⊎ ((f.cash ≤ℤ pos 0) × (999 * s.config.leverage_den ≤ s.config.leverage_num))

pub record IsApproved (now : ℕ) (s : RiskEngine) (r : TradeRequest) (f : PortfolioSnapshot)
    : Type 0 where
  pub units : ℕ
  pub price : ℕ
  pub units_given : positive_finite r.quantity ≡ some units
  pub price_given : positive_finite r.price ≡ some price
  pub figures : Figures
  pub measured : IsMeasured s r f units price figures
  pub permitted : IsPermitted now s r f units price figures

pub is_stale-false :
    (now : ℕ) (c : RiskEngineConfig) (r : TradeRequest)
    → (is_stale now c r ≡ false) ↔ (
        (or_default r.quote_timestamp r.timestamp ≡ 0)
        ⊎ (now ≤ or_default r.quote_timestamp r.timestamp + c.stale_threshold_ms))
unfolding is_stale
is_stale-false now c r = (λ h. ground arith, λ h. ground arith)

pub is_cooling-false :
    (now : ℕ) (symbol : String) (s : RiskEngine)
    → (is_cooling now symbol s ≡ false)
      ↔ (or_default (lookup symbol s.last_trade_time) 0 + s.config.cooldown_ms ≤ now)
unfolding is_cooling
is_cooling-false now symbol s = (λ h. ground arith, λ h. ground arith)

pub lacks_stop_loss-false :
    (c : RiskEngineConfig) (r : TradeRequest)
    → (lacks_stop_loss c r ≡ false)
      ↔ (c.require_stop_loss ≡ true → pos 1 ≤ℤ or_default r.stop_loss (pos 0))
unfolding lacks_stop_loss
lacks_stop_loss-false c r = (λ h e. ground arith, λ h. ground arith)

pub lacks_margin-false :
    (c : RiskEngineConfig) (value : ℕ) (cash : ℤ)
    → (lacks_margin c value cash ≡ false) ↔ (
        ((c.leverage_den < c.leverage_num)
          × (pos (value * c.leverage_den) ≤ℤ scale cash c.leverage_num))
        ⊎ ((c.leverage_num ≤ c.leverage_den) × (pos value ≤ℤ cash)))
unfolding lacks_margin
lacks_margin-false c value cash = (λ h. ground arith, λ h. ground arith)

pub over_symbol-false :
    (c : RiskEngineConfig) (value total : ℤ)
    → (over_symbol c value total ≡ false) ↔ (
        Share value total c.max_symbol_exposure
        × ((pos 1 ≤ℤ total) ⊎ (100000 ≤ c.max_symbol_exposure)))
unfolding over_symbol exceeds
over_symbol-false c value total = (
  λ h. (λ e. ground arith, ground arith),
  λ h. elim (Bool-cases (is_positive total)) [
    | inl e ↦ ground (arith, e, h.0 (ground (arith, e)))
    | inr e ↦ ground (arith, e, h.1)
  ],
)

pub over_total-false :
    (part total : ℤ) (limit : ℕ) → (over_total part total limit ≡ false) ↔ Share part total limit
unfolding over_total exceeds
over_total-false part total limit = (
  λ h e. ground arith,
  λ h. elim (Bool-cases (is_positive total)) [
    | inl e ↦ ground (arith, e, h (ground (arith, e)))
    | inr e ↦ ground (arith, e)
  ],
)

pub over_leveraged-false :
    (c : RiskEngineConfig) (value cash : ℤ)
    → (over_leveraged c value cash ≡ false) ↔ (
        ((pos 1 ≤ℤ cash) × (scale value c.leverage_den ≤ℤ scale cash c.leverage_num))
        ⊎ ((cash ≤ℤ pos 0) × (999 * c.leverage_den ≤ c.leverage_num)))
unfolding over_leveraged
over_leveraged-false c value cash = (λ h. ground arith, λ h. ground arith)

pub is_listed-Any :
    (symbol : String) (symbols : List String)
    → (is_listed symbol symbols ≡ true) ↔ Any (λ b. to_upper b ≡ symbol) symbols
is_listed-Any symbol [] = (λ h. absurd (ground (arith, h)), λ a. absurd a)
is_listed-Any symbol (x ∷ xs) =
    let rest = is_listed-Any symbol xs in
    let e = eq_iff (to_upper x) symbol in
    (λ h. ground (arith, h, rest, e), λ a. ground (arith, a, rest, e))

pub positive_finite-positive : (x : Number) (n : ℕ) → positive_finite x ≡ some n → 1 ≤ n
unfolding positive_finite
positive_finite-positive x n h = ground arith
