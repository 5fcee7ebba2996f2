-- ===== src/Risk/Verdict.antt =====
-- When the risk engine approves: apps/server/src/risk-engine/risk-engine.ts.
use finance_agent_os.Base.{
  sym, ◌∙◌, ℕ, ◌*◌, ◌≡◌, refl, arith, ℤ, pos, ◌+ℤ◌, ◌-ℤ◌, false, String, to_upper, Option, none,
  some, Option-cases, inl, inr, ◌↔◌, List, [], ◌∷◌, All, positive_finite, Any, subst, Bool-cases,
}
use finance_agent_os.Risk.Figures.{worth_of, computed, computed-IsMeasured, IsMeasured-computed}
use finance_agent_os.Risk.Ticket.{Crypto}
use finance_agent_os.Risk.Rules.{
  TradeRequest, PortfolioSnapshot, RiskEngine, Rule, quantity_validity, Reason, find_held,
  positions_value, total_value, is_cooling, is_listed, peak_of,
}
use finance_agent_os.Risk.Engine.{
  run_checks, early_checks, late_checks, make_decision, evaluate_valid, evaluate,
}
use finance_agent_os.Risk.Limits.{
  Passes, run_checks-Passes, IsPermitted, IsApproved, is_stale-false, is_cooling-false,
  lacks_stop_loss-false, lacks_margin-false, over_symbol-false, over_total-false,
  over_leveraged-false, is_listed-Any, positive_finite-positive,
}

not_listed :
    (symbol : String) (symbols : List String)
    → ¬ (Any (λ b. to_upper b ≡ symbol) symbols)
    → is_listed symbol symbols ≡ false
not_listed symbol symbols n = elim (Bool-cases (is_listed symbol symbols)) [
  | inl e ↦ absurd (n ((is_listed-Any symbol symbols).0 e))
  | inr e ↦ e
]

module _ (now : ℕ) (s : RiskEngine) (r : TradeRequest) (f : PortfolioSnapshot) (q price : ℕ) where
  abbrev peaked : RiskEngine
  peaked = record s { peak_equity = peak_of s f }

  abbrev symbol_value : ℤ
  symbol_value = worth_of (find_held (to_upper r.symbol) f.positions) +ℤ pos (q * price)

  abbrev all_value : ℤ
  all_value = positions_value f.positions +ℤ pos (q * price)

  abbrev lost : ℤ
  lost = pos 0 -ℤ s.daily_pnl

  abbrev fallen : ℤ
  fallen = peak_of s f -ℤ total_value f

  checks-IsPermitted :
      All Passes (early_checks now s r f q price)
      → All Passes (late_checks peaked f q price)
      → IsPermitted now s r f q price (computed s r f q price)
  unfolding early_checks late_checks
  checks-IsPermitted
        (
          stale,
          (
            blocked,
            (
              listed,
              (stop, (confident, (size, (margin, (cool, (room, (symbol, (all, (loss, end))))))))),
            ),
          ),
        )
        (drawdown, (leverage, last)) =
      record {
        fresh = (is_stale-false now s.config r).0 stale;
        unblocked = λ a. absurd (
            ground
              (arith, (is_listed-Any (to_upper r.symbol) s.config.blocked_symbols).1 a, blocked));
        listed = ground (arith, listed, is_listed-Any (to_upper r.symbol) s.config.allowed_symbols);
        stop_given = (lacks_stop_loss-false s.config r).0 stop;
        confident = ground (arith, confident);
        size_kept = ground (arith, size);
        margin_kept = (lacks_margin-false s.config (q * price) f.cash).0 margin;
        cooled = (is_cooling-false now r.symbol s).0 cool;
        room = ground (arith, room);
        symbol_kept = ((over_symbol-false s.config symbol_value (total_value f)).0 symbol).0;
        symbol_total = ((over_symbol-false s.config symbol_value (total_value f)).0 symbol).1;
        portfolio_kept =
            (over_total-false all_value (total_value f) s.config.max_portfolio_exposure).0 all;
        loss_kept = (over_total-false lost (total_value f) s.config.max_daily_loss).0 loss;
        drawdown_kept = (over_total-false fallen (peak_of s f) s.config.max_drawdown).0 drawdown;
        leverage_kept = (over_leveraged-false s.config all_value f.cash).0 leverage;
      }

  IsPermitted-checks :
      IsPermitted now s r f q price (computed s r f q price)
      → All Passes (early_checks now s r f q price) × All Passes (late_checks peaked f q price)
  unfolding early_checks late_checks
  IsPermitted-checks p =
      let cool : is_cooling now r.symbol s ≡ false = (is_cooling-false now r.symbol s).1 p.cooled in
      (
        (
          (is_stale-false now s.config r).1 p.fresh,
          (
            not_listed (to_upper r.symbol) s.config.blocked_symbols p.unblocked,
            (
              elim p.listed [
                | inl e ↦ ground (arith, e)
                | inr e ↦
                    ground (arith, (is_listed-Any (to_upper r.symbol) s.config.allowed_symbols).1 e)
              ],
              (
                (lacks_stop_loss-false s.config r).1 p.stop_given,
                (
                  ground (arith, p.confident),
                  (
                    ground (arith, p.size_kept),
                    (
                      (lacks_margin-false s.config (q * price) f.cash).1 p.margin_kept,
                      (
                        cool,
                        (
                          elim p.room [ inl e ↦ ground (arith, e) | inr e ↦ ground (arith, e) ],
                          (
                            (over_symbol-false s.config symbol_value (total_value f)).1
                                (p.symbol_kept, p.symbol_total),
                            (
                              (over_total-false all_value (total_value f)
                                    s.config.max_portfolio_exposure).1
                                  p.portfolio_kept,
                              (
                                (over_total-false lost (total_value f) s.config.max_daily_loss).1
                                    p.loss_kept,
                                tt,
                              ),
                            ),
                          ),
                        ),
                      ),
                    ),
                  ),
                ),
              ),
            ),
          ),
        ),
        (
          (over_total-false fallen (peak_of s f) s.config.max_drawdown).1 p.drawdown_kept,
          ((over_leveraged-false s.config all_value f.cash).1 p.leverage_kept, tt),
        ),
      )

module _ (crypto : Crypto) (secret : String) (now : ℕ) (id uuid : String) (r : TradeRequest)
    (f : PortfolioSnapshot) (s : RiskEngine) (q price : ℕ) where
  abbrev pub early_answer : Option Reason × List Rule
  early_answer = run_checks (early_checks now s r f q price) (quantity_validity ∷ [])

  abbrev pub late_answer : Option Reason × List Rule
  late_answer =
      run_checks (late_checks (record s { peak_equity = peak_of s f }) f q price) early_answer.1

  abbrev verdict : Option Reason
  verdict = (evaluate_valid crypto secret now id uuid r f q price s).0.rejected

  -- The verdict is the first check's that fails.
  verdict-early : (e : Reason) → early_answer.0 ≡ some e → verdict ≡ some e
  unfolding evaluate_valid make_decision
  verdict-early e early = rw (early, verdict, evaluate_valid) refl

  verdict-late : (e : Option Reason) → early_answer.0 ≡ none → late_answer.0 ≡ e → verdict ≡ e
  unfolding evaluate_valid make_decision
  verdict-late none early late = rw (early, verdict, evaluate_valid, late) refl
  verdict-late (some e) early late = rw (early, verdict, evaluate_valid, late) refl

  pub approved_both : verdict ≡ none → (early_answer.0 ≡ none) × (late_answer.0 ≡ none)
  approved_both h = elim (Option-cases early_answer.0) [
    | inr (e, early) ↦ absurd (ground (arith, sym h ∙ verdict-early e early))
    | inl early ↦ (early, sym (verdict-late late_answer.0 early refl) ∙ h)
  ]

  pub approved-IsPermitted :
      (verdict ≡ none) ↔ IsPermitted now s r f q price (computed s r f q price)
  approved-IsPermitted =
      let early = run_checks-Passes (early_checks now s r f q price) (quantity_validity ∷ []) in
      let late =
        run_checks-Passes (late_checks (peaked now s r f q price) f q price) early_answer.1 in
      (
        λ h.
            checks-IsPermitted now s r f q price (early.0 (approved_both h).0)
              (late.0 (approved_both h).1),
        λ p.
            let c = IsPermitted-checks now s r f q price p in
            verdict-late none (early.1 c.0) (late.1 c.1),
      )

pub computed_permit :
    {now : ℕ} {s : RiskEngine} {r : TradeRequest} {f : PortfolioSnapshot}
    → (a : IsApproved now s r f)
    → IsPermitted now s r f a.units a.price (computed s r f a.units a.price)
computed_permit {now} {s} {r} {f} a =
    subst (IsPermitted now s r f a.units a.price)
      (IsMeasured-computed s r f a.units a.price a.figures a.measured) a.permitted

-- `evaluate` approves an order exactly when its quantity and price are positive and finite and all of
-- its limits hold: fresh data, the lists of symbols, the stop-loss, the confidence, the size of the
-- position, the margin, the cooldown, the number of positions, the exposures, the daily loss, the
-- drawdown and the leverage. The position is the first one in the symbol, and its size is limited with
-- the order's quantity, which is cut to as many whole units as the maximal order value pays for where
-- the order is worth more. Shares are of the equity where it is positive, otherwise of the cash; where
-- that total is not positive, the symbol's share counts as 100% and the other shares hold. The
-- drawdown is from the larger of that total and the peak given with the portfolio, or the engine's
-- where none is given. Where the cash is not positive the leverage counts as 999.
pub evaluate-IsApproved_iff :
    (crypto : Crypto) (secret : String) (now : ℕ) (id uuid : String) (r : TradeRequest)
    (f : PortfolioSnapshot) (s : RiskEngine)
    → ((evaluate crypto secret now id uuid r f s).0.rejected ≡ none) ↔ IsApproved now s r f
unfolding evaluate make_decision
evaluate-IsApproved_iff crypto secret now id uuid r f s = (sound, complete)
  where
    sound : (evaluate crypto secret now id uuid r f s).0.rejected ≡ none → IsApproved now s r f
    sound h = elim (Option-cases (positive_finite r.quantity)) [
      | inl e ↦ absurd (ground arith)
      | inr (q, e) ↦ elim (Option-cases (positive_finite r.price)) [
        | inl g ↦ absurd (ground arith)
        | inr (price, g) ↦ record {
          units = q;
          price = price;
          units_given = e;
          price_given = g;
          figures = computed s r f q price;
          measured = computed-IsMeasured s r f q price (positive_finite-positive r.price price g);
          permitted =
              (approved-IsPermitted crypto secret now id uuid r f s q price).0
                (ground (arith, e, g, h));
        }
      ]
    ]

    complete : IsApproved now s r f → (evaluate crypto secret now id uuid r f s).0.rejected ≡ none
    complete a =
        rw (a.units_given, evaluate, a.price_given)
          ((approved-IsPermitted crypto secret now id uuid r f s a.units a.price).1
            (computed_permit a))
