-- ===== src/Risk/Engine.antt =====
-- `evaluate`: apps/server/src/risk-engine/risk-engine.ts.
use finance_agent_os.Base.{
  ℕ, ◌+◌, ◌*◌, ℤ, pos, ◌+ℤ◌, ◌-ℤ◌, ltb_ℤ, Bool, ◌&&◌, not, String, to_upper, Option, none, some,
  is_some, List, [], ◌∷◌, ◌++◌, length, insert, ltb, leb, if◌then◌else◌, positive_finite,
}
use finance_agent_os.Risk.Ticket.{Crypto, issue_risk_ticket}
use finance_agent_os.Risk.Rules.{
  RiskEngineConfig, TradeRequest, PortfolioSnapshot, RiskEngine, RiskDecision, Rule,
  quantity_validity, stale_data, symbol_restrictions, stop_loss_requirement, confidence_threshold,
  order_size, position_size, margin_check, cooldown, open_positions, symbol_exposure,
  portfolio_exposure, daily_loss, drawdown, leverage, Reason, invalid_quantity, invalid_price,
  stale, restricted, not_allowed, no_stop_loss, low_confidence, position_too_large,
  insufficient_margin, cooling, too_many_positions, symbol_exposed, portfolio_exposed,
  too_much_lost, drawn_down, over_leverage, is_listed, find_held, positions_value, total_value,
  approved_quantity, is_stale, lacks_stop_loss, lacks_margin, is_cooling, over_symbol, over_total,
  over_leveraged, held_quantity, held_value, peak_of,
}

-- A check: whether it fails, with the reason, and the rules that it notes before and behind.
pub record Check : Type 0 where
  pub before : List Rule
  pub fails : Bool
  pub reason : Reason
  pub behind : List Rule

-- The reason of the first check that fails, and the rules noted so far.
unfoldable pub run_checks : List Check → List Rule → Option Reason × List Rule
run_checks [] rules = (none, rules)
run_checks (k ∷ ks) rules =
    let rest = run_checks ks (rules ++ k.before ++ k.behind) in
    if k.fails then (some k.reason, rules ++ k.before) else rest

-- The checks 1 to 12 on a valid quantity and price.
unfoldable pub early_checks : ℕ → RiskEngine → TradeRequest → PortfolioSnapshot → ℕ → ℕ → List Check
unfolding is_stale lacks_stop_loss approved_quantity find_held lacks_margin is_cooling over_symbol
    over_total positions_value
early_checks now s r f q price =
    let c = s.config in
    let symbol = to_upper r.symbol in
    let current = find_held symbol f.positions in
    let value = q * price in
    let total = total_value f in
    record { before = stale_data ∷ []; fails = is_stale now c r; reason = stale; behind = [] }
    ∷ record {
      before = symbol_restrictions ∷ [];
      fails = is_listed symbol c.blocked_symbols;
      reason = restricted;
      behind = [];
    }
    ∷ record {
      before = [];
      fails = ltb 0 (length c.allowed_symbols) && not (is_listed symbol c.allowed_symbols);
      reason = not_allowed;
      behind = [];
    }
    ∷ record {
      before = stop_loss_requirement ∷ [];
      fails = lacks_stop_loss c r;
      reason = no_stop_loss;
      behind = [];
    }
    ∷ record {
      before = confidence_threshold ∷ [];
      fails = ltb_ℤ r.confidence c.confidence_threshold;
      reason = low_confidence;
      behind = order_size ∷ [];
    }
    ∷ record {
      before = [];
      fails =
          ltb_ℤ (pos c.max_position_size)
            (held_quantity current +ℤ pos (approved_quantity c q price));
      reason = position_too_large;
      behind = position_size ∷ [];
    }
    ∷ record {
      before = margin_check ∷ [];
      fails = lacks_margin c value f.cash;
      reason = insufficient_margin;
      behind = [];
    }
    ∷ record {
      before = [];
      fails = is_cooling now r.symbol s;
      reason = cooling;
      behind = cooldown ∷ [];
    }
    ∷ record {
      before = [];
      fails = not (is_some current) && leb c.max_open_positions (length f.positions);
      reason = too_many_positions;
      behind = open_positions ∷ [];
    }
    ∷ record {
      before = [];
      fails = over_symbol c (held_value current +ℤ pos value) total;
      reason = symbol_exposed;
      behind = symbol_exposure ∷ [];
    }
    ∷ record {
      before = [];
      fails = over_total (positions_value f.positions +ℤ pos value) total c.max_portfolio_exposure;
      reason = portfolio_exposed;
      behind = portfolio_exposure ∷ [];
    }
    ∷ record {
      before = [];
      fails = over_total (pos 0 -ℤ s.daily_pnl) total c.max_daily_loss;
      reason = too_much_lost;
      behind = daily_loss ∷ [];
    }
    ∷ []

-- The checks 13 and 14, behind the update of the peak.
unfoldable pub late_checks : RiskEngine → PortfolioSnapshot → ℕ → ℕ → List Check
unfolding over_leveraged over_total positions_value
late_checks s f q price =
    record {
      before = [];
      fails = over_total (s.peak_equity -ℤ total_value f) s.peak_equity s.config.max_drawdown;
      reason = drawn_down;
      behind = drawdown ∷ [];
    }
    ∷ record {
      before = [];
      fails = over_leveraged s.config (positions_value f.positions +ℤ pos (q * price)) f.cash;
      reason = over_leverage;
      behind = leverage ∷ [];
    }
    ∷ []

module _ (crypto : Crypto) (secret : String) where
  -- `makeDecision`, with the decision's id and the id of a ticket.
  unfoldable pub make_decision :
      ℕ → String → String → TradeRequest → Option Reason → List Rule → ℕ → ℕ → RiskDecision
  unfolding issue_risk_ticket
  make_decision now id uuid r rejected rules q price = record {
    id = id;
    rejected = rejected;
    rules_checked = rules;
    requested_quantity = r.quantity;
    approved_quantity = q;
    ticket =
        if not (is_some rejected) && ltb 0 q
        then some (
            issue_risk_ticket crypto secret now uuid (record {
              correlation_id = r.correlation_id;
              risk_decision_id = id;
              symbol = r.symbol;
              side = r.side;
              max_quantity = q;
              max_price = price;
              agent_id = r.agent_id;
              strategy = some r.strategy;
              ttl_ms = none;
            }))
        else none;
    timestamp = now;
    correlation_id = r.correlation_id;
  }

  -- The checks in turn on a valid quantity and price.
  unfoldable pub evaluate_valid :
      ℕ
      → String
      → String
      → TradeRequest
      → PortfolioSnapshot
      → ℕ
      → ℕ
      → RiskEngine
      → RiskDecision × RiskEngine
  unfolding make_decision run_checks early_checks late_checks peak_of approved_quantity
  evaluate_valid now id uuid r f q price s =
      let (early, rules) = run_checks (early_checks now s r f q price) (quantity_validity ∷ []) in
      let s' : RiskEngine = record s { peak_equity = peak_of s f } in
      let (late, rules') = run_checks (late_checks s' f q price) rules in
      let decision =
        make_decision now id uuid r none rules' (approved_quantity s.config q price) price in
      let approved : RiskEngine = record s' {
        last_trade_time = insert r.symbol now s'.last_trade_time;
        daily_trades = s'.daily_trades + 1;
        published = s'.published ++ decision ∷ [];
      } in
      elim early [
        | some e ↦ (make_decision now id uuid r (some e) rules 0 price, s)
        | none ↦ elim late [
          | some e ↦ (make_decision now id uuid r (some e) rules' 0 price, s')
          | none ↦ (decision, approved)
        ]
      ]

  unfoldable pub evaluate :
      ℕ
      → String
      → String
      → TradeRequest
      → PortfolioSnapshot
      → RiskEngine
      → RiskDecision × RiskEngine
  unfolding evaluate_valid make_decision
  evaluate now id uuid r f s = elim (positive_finite r.quantity) [
    | none ↦ (make_decision now id uuid r (some invalid_quantity) (quantity_validity ∷ []) 0 0, s)
    | some q ↦ elim (positive_finite r.price) [
      | none ↦ (make_decision now id uuid r (some invalid_price) (quantity_validity ∷ []) 0 0, s)
      | some price ↦ evaluate_valid now id uuid r f q price s
    ]
  ]

unfoldable pub update_daily_pnl : ℤ → RiskEngine → RiskEngine
update_daily_pnl pnl s = record s { daily_pnl = s.daily_pnl +ℤ pnl }

unfoldable pub reset_daily : RiskEngine → RiskEngine
reset_daily s = record s { daily_pnl = pos 0; daily_trades = 0 }

unfoldable pub update_config : RiskEngineConfig → RiskEngine → RiskEngine
update_config c s = record s { config = c }
