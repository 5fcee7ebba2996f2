-- ===== src/Risk/Cooling.antt =====
-- The cooldown of the risk engine: apps/server/src/risk-engine/risk-engine.ts.
use finance_agent_os.Base.{
  ℕ, ◌+◌, ◌<◌, ◌≡◌, ◌≢◌, refl, ap, ◌∙◌, arith, String, ◌==◌, eq_iff, eq_refl, none, some,
  Option-cases, Bool-cases, inl, inr, List, [], ◌∷◌, All, lookup, lookup-insert, positive_finite,
}
use finance_agent_os.Risk.Ticket.{Crypto}
use finance_agent_os.Risk.Rules.{TradeRequest, PortfolioSnapshot, RiskEngine, RiskDecision}
use finance_agent_os.Risk.Engine.{make_decision, evaluate_valid, evaluate}
use finance_agent_os.Risk.Verdict.{evaluate-IsApproved_iff, early_answer, late_answer}
use finance_agent_os.Risk.Approval.{evaluate-Approved}

-- A call of `evaluate`, with the clock's reading.
pub record Attempt : Type 0 where
  pub time : ℕ
  pub id : String
  pub uuid : String
  pub request : TradeRequest
  pub portfolio : PortfolioSnapshot

-- How a call may change the engine.
record Kept (d : RiskDecision) (s s' : RiskEngine) : Type 0 where
  same_config : s'.config ≡ s.config
  times : d.rejected ≢ none → s'.last_trade_time ≡ s.last_trade_time

module _ (crypto : Crypto) (secret : String) where
  unfoldable pub evaluate_all : List Attempt → RiskEngine → List (Attempt × RiskDecision)
  evaluate_all [] s = []
  evaluate_all (a ∷ rest) s =
      let (d, s') = evaluate crypto secret a.time a.id a.uuid a.request a.portfolio s in
      (a, d) ∷ evaluate_all rest s'

  module _ (now : ℕ) (id uuid : String) (r : TradeRequest) (f : PortfolioSnapshot)
      (s : RiskEngine) where
    valid-Kept :
        (q price : ℕ)
        → let x = evaluate_valid crypto secret now id uuid r f q price s in Kept x.0 s x.1
    unfolding evaluate_valid make_decision
    valid-Kept q price =
        elim (Option-cases (early_answer crypto secret now id uuid r f s q price).0) [
          | inr (e, h) ↦ rw (h, evaluate_valid) (record { same_config = refl; times = λ _. refl })
          | inl h ↦ elim (Option-cases (late_answer crypto secret now id uuid r f s q price).0) [
            | inr (e, g) ↦
                rw (h, evaluate_valid, g) (record { same_config = refl; times = λ _. refl })
            | inl g ↦
                rw (h, evaluate_valid, g)
                  (record { same_config = refl; times = λ n. absurd (n refl) })
          ]
        ]

    evaluate-Kept : let x = evaluate crypto secret now id uuid r f s in Kept x.0 s x.1
    unfolding evaluate
    evaluate-Kept = elim (Option-cases (positive_finite r.quantity)) [
      | inl e ↦ rw (e, evaluate) (record { same_config = refl; times = λ _. refl })
      | inr (q, e) ↦ elim (Option-cases (positive_finite r.price)) [
        | inl g ↦ rw (e, evaluate, g) (record { same_config = refl; times = λ _. refl })
        | inr (price, g) ↦ rw (e, evaluate, g) (valid-Kept q price)
      ]
    ]

    -- A request in a symbol that is cooling down is rejected.
    cooling_rejected :
        (t : ℕ)
        → lookup r.symbol s.last_trade_time ≡ some t
        → now < t + s.config.cooldown_ms
        → (evaluate crypto secret now id uuid r f s).0.rejected ≢ none
    cooling_rejected t e soon h =
        let a = (evaluate-IsApproved_iff crypto secret now id uuid r f s).0 h in
        ground (arith, a.permitted.cooled, e, soon)

    -- The time of the last trade in a symbol stays while the symbol is cooling down.
    cooling_keeps :
        (symbol : String) (t : ℕ)
        → lookup symbol s.last_trade_time ≡ some t
        → now < t + s.config.cooldown_ms
        → lookup symbol (evaluate crypto secret now id uuid r f s).1.last_trade_time ≡ some t
    cooling_keeps symbol t e soon =
        elim (Option-cases (evaluate crypto secret now id uuid r f s).0.rejected) [
          | inr (x, h) ↦ rw (evaluate-Kept.times (λ n. ground (arith, h, n))) e
          | inl h ↦ elim (Bool-cases (r.symbol == symbol)) [
            | inl same ↦
                let own =
                  ap (λ y. lookup y s.last_trade_time) ((eq_iff r.symbol symbol).0 same) ∙ e in
                absurd (cooling_rejected t own soon h)
            | inr other ↦
                rw
                  (
                    (evaluate-Approved crypto secret now id uuid r f s h).noted,
                    lookup-insert r.symbol symbol now s.last_trade_time,
                    other,
                  )
                  e
          ]
        ]

  abbrev pub RejectedIn : String → Attempt × RiskDecision → Type 0
  RejectedIn symbol x = x.0.request.symbol ≡ symbol → x.1.rejected ≢ none

  cooling_throughout :
      (symbol : String) (t : ℕ) (attempts : List Attempt) (s : RiskEngine)
      → lookup symbol s.last_trade_time ≡ some t
      → All (λ a. a.time < t + s.config.cooldown_ms) attempts
      → All (RejectedIn symbol) (evaluate_all attempts s)
  unfolding evaluate_all
  cooling_throughout symbol t [] s e soon = tt
  cooling_throughout symbol t (a ∷ rest) s e (now, soon) =
      let k = evaluate-Kept a.time a.id a.uuid a.request a.portfolio s in
      (
        λ same. cooling_rejected a.time a.id a.uuid a.request a.portfolio s t (rw (same) e) now,
        cooling_throughout symbol t rest _
            (cooling_keeps a.time a.id a.uuid a.request a.portfolio s symbol t e now)
            (rw (k.same_config) soon),
      )

  -- When an order is approved, every later request in a symbol spelled the same is rejected until the
  -- cooldown is over, whatever other requests come in between.
  pub cooldown_rejects :
      (now : ℕ) (id uuid : String) (r : TradeRequest) (f : PortfolioSnapshot) (s : RiskEngine)
      (attempts : List Attempt)
      → (evaluate crypto secret now id uuid r f s).0.rejected ≡ none
      → All (λ a. a.time < now + s.config.cooldown_ms) attempts
      → All
          (RejectedIn r.symbol)
          (evaluate_all attempts (evaluate crypto secret now id uuid r f s).1)
  cooldown_rejects now id uuid r f s attempts h soon =
      let k = evaluate-Kept now id uuid r f s in
      let noted = (evaluate-Approved crypto secret now id uuid r f s h).noted in
      cooling_throughout r.symbol now attempts _
        (rw (noted, lookup-insert r.symbol r.symbol now s.last_trade_time, eq_refl r.symbol) refl)
        (rw (k.same_config) soon)
