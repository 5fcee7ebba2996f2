-- ===== src/Risk/Approval.antt =====
-- What an approval of the risk engine hands on: apps/server/src/risk-engine/risk-engine.ts and
-- ticket.ts.
use finance_agent_os.Base.{
  ◌↔◌, subst, ℕ, ◌+◌, ◌*◌, ◌/◌, ◌≤◌, ◌<◌, ◌≡◌, refl, sym, ap, ◌∙◌, arith, Bool, true, false, String,
  ◌==◌, none, some, Bool-cases, inl, inr, List, insert, includes, ltb, positive_finite,
  if◌then◌else◌, is_some,
}
use native.Mathlib.Nat.{div-mul-le_self, lt_of_mul-lt-mul_right, div-eq_of_lt}
use finance_agent_os.Risk.Ticket.{
  Crypto, RiskApprovalTicket, TicketInput, UsedTickets, TicketParams, issue_risk_ticket,
  verify_risk_ticket,
}
use finance_agent_os.Risk.Bounds.{Covers, issued_accepted}
use finance_agent_os.Risk.Rules.{
  RiskEngineConfig, TradeRequest, PortfolioSnapshot, RiskEngine, Rule, approved_quantity, whole,
}
use finance_agent_os.Risk.Limits.{positive_finite-positive}
use finance_agent_os.Risk.Engine.{make_decision, evaluate_valid, evaluate}
use finance_agent_os.Risk.Verdict.{
  evaluate-IsApproved_iff, computed_permit, approved-IsPermitted, late_answer, approved_both,
}

-- The decision and the engine behind an approval.
pub record Approved (crypto : Crypto) (secret : String) (now : ℕ) (id uuid : String)
    (r : TradeRequest) (f : PortfolioSnapshot) (s : RiskEngine) : Type 0 where
  units : ℕ
  price : ℕ
  rules : List Rule
  units_given : positive_finite r.quantity ≡ some units
  price_given : positive_finite r.price ≡ some price
  decided :
      (evaluate crypto secret now id uuid r f s).0
      ≡ make_decision crypto secret now id uuid r none rules
          (approved_quantity s.config units price)
          price
  pub noted :
      (evaluate crypto secret now id uuid r f s).1.last_trade_time
      ≡ insert r.symbol now s.last_trade_time

module _ (crypto : Crypto) (secret : String) (now : ℕ) (id uuid : String) (r : TradeRequest)
    (f : PortfolioSnapshot) (s : RiskEngine) where
  pub evaluate-Approved :
      (evaluate crypto secret now id uuid r f s).0.rejected ≡ none
      → Approved crypto secret now id uuid r f s
  unfolding evaluate evaluate_valid
  evaluate-Approved h =
      let a = (evaluate-IsApproved_iff crypto secret now id uuid r f s).0 h in
      let v =
        (approved-IsPermitted crypto secret now id uuid r f s a.units a.price).1
          (computed_permit a) in
      let b = approved_both crypto secret now id uuid r f s a.units a.price v in
      record {
        units = a.units;
        price = a.price;
        rules = (late_answer crypto secret now id uuid r f s a.units a.price).1;
        units_given = a.units_given;
        price_given = a.price_given;
        decided = rw (a.units_given, evaluate, a.price_given, b.0, evaluate_valid, b.1) refl;
        noted = rw (a.units_given, evaluate, a.price_given, b.0, evaluate_valid, b.1) refl;
      }

lt_le : {m n : ℕ} → m < n → m ≤ n
lt_le h = omega (arith, h)

ticket_is : (t k : RiskApprovalTicket) (b : Bool) → some t ≡ (if b then some k else none) → t ≡ k
ticket_is t k true h = ground arith
ticket_is t k false h = absurd (ground arith)

-- The cap leaves no more than the order asks for, and no more than the maximum is worth.
approved_quantity-Bounds :
    (c : RiskEngineConfig) (q price : ℕ)
    → 1 ≤ price
    → (approved_quantity c q price ≤ q) × (approved_quantity c q price * price ≤ c.max_order_size)
unfolding approved_quantity
approved_quantity-Bounds c q price h =
    let k = c.max_order_size / (price * whole) in
    let e : k * (price * whole) ≤ c.max_order_size =
      div-mul-le_self c.max_order_size (price * whole) in
    elim (Bool-cases (ltb c.max_order_size (q * price))) [
      | inr f ↦ rw (f) (omega arith, ground (arith, f))
      | inl f ↦
          rw (f) (lt_le (lt_of_mul-lt-mul_right price (ground (arith, e, f))), omega (arith, e))
    ]

module _ (crypto : Crypto) (secret : String) (now : ℕ) (id uuid : String) (r : TradeRequest)
    (f : PortfolioSnapshot) (s : RiskEngine) where
  -- An approved order's quantity is at most the requested one and, at the requested price, worth at
  -- most the maximum of an order; an order that is worth no more than the maximum is approved in
  -- full. The decision has a ticket exactly where its quantity is positive.
  pub approved_in_bounds :
      (q price : ℕ)
      → positive_finite r.quantity ≡ some q
      → positive_finite r.price ≡ some price
      → (evaluate crypto secret now id uuid r f s).0.rejected ≡ none
      → let n = (evaluate crypto secret now id uuid r f s).0.approved_quantity in
        (n ≤ q)
        × (n * price ≤ s.config.max_order_size)
        × (q * price ≤ s.config.max_order_size → n ≡ q)
        × (is_some (evaluate crypto secret now id uuid r f s).0.ticket ≡ ltb 0 n)
  unfolding make_decision approved_quantity
  approved_in_bounds q price e g h =
      let a = evaluate-Approved crypto secret now id uuid r f s h in
      let qe : a.units ≡ q = ground (arith, e, a.units_given) in
      let pe : a.price ≡ price = ground (arith, g, a.price_given) in
      let b =
        approved_quantity-Bounds s.config q price (positive_finite-positive r.price price g) in
      let n = approved_quantity s.config q price in
      rw (a.decided, qe, pe) (b.0, b.1, λ m. ground (arith, m), ground arith)

  -- Where one whole unit at the requested price is worth more than the maximum of an order, an order
  -- over the maximum that is approved has the quantity 0 and no ticket.
  pub capped_away :
      (q price : ℕ)
      → positive_finite r.quantity ≡ some q
      → positive_finite r.price ≡ some price
      → s.config.max_order_size < q * price
      → s.config.max_order_size < price * whole
      → (evaluate crypto secret now id uuid r f s).0.rejected ≡ none
      → ((evaluate crypto secret now id uuid r f s).0.approved_quantity ≡ 0)
        × ((evaluate crypto secret now id uuid r f s).0.ticket ≡ none)
  unfolding make_decision approved_quantity
  capped_away q price e g over unit h =
      let a = evaluate-Approved crypto secret now id uuid r f s h in
      let qe : a.units ≡ q = ground (arith, e, a.units_given) in
      let pe : a.price ≡ price = ground (arith, g, a.price_given) in
      let none_left : approved_quantity s.config q price ≡ 0 =
        ground (arith, over, div-eq_of_lt unit) in
      rw (a.decided, qe, pe, none_left) (refl, refl)

  abbrev pub granted : ℕ → ℕ → TicketParams
  granted units price = record {
    correlation_id = r.correlation_id;
    risk_decision_id = id;
    symbol = r.symbol;
    side = r.side;
    max_quantity = units;
    max_price = price;
    agent_id = r.agent_id;
    strategy = some r.strategy;
    ttl_ms = none;
  }

  -- The broker's check accepts the ticket of an approval for an order exactly when, within 30 seconds
  -- of the approval, the order is in the request's symbol, up to the case of letters, and side, asks
  -- for at most 1.000001 times the approved quantity, gives no price or, unless it is zero, one of at
  -- most 1.05 times the requested price, and gives no correlation id or, unless one of the two is
  -- empty, the request's. The ticket's id, symbol and signature are taken not to be empty, and its id
  -- not to be redeemed.
  pub approved_accepted :
      (later : ℕ) (order : TicketInput) (u : UsedTickets) (price : ℕ) (t : RiskApprovalTicket)
      → positive_finite r.price ≡ some price
      → (evaluate crypto secret now id uuid r f s).0.rejected ≡ none
      → (evaluate crypto secret now id uuid r f s).0.ticket ≡ some t
      → (t.ticket_id == "") ≡ false
      → (t.symbol == "") ≡ false
      → (t.signature == "") ≡ false
      → includes u.used t.ticket_id ≡ false
      → ((verify_risk_ticket crypto secret later (some t) order false u).0 ≡ none)
        ↔ Covers
            (now + 30000)
            (granted (evaluate crypto secret now id uuid r f s).0.approved_quantity price)
            later
            order
  unfolding make_decision issue_risk_ticket
  approved_accepted later order u price t g h given id_given symbol_given signed unused =
      let a = evaluate-Approved crypto secret now id uuid r f s h in
      let pe : a.price ≡ price = ground (arith, g, a.price_given) in
      let n = approved_quantity s.config a.units a.price in
      let d : (evaluate crypto secret now id uuid r f s).0.approved_quantity ≡ n =
        ap (λ x. x.approved_quantity) a.decided in
      let p = granted n a.price in
      let k = issue_risk_ticket crypto secret now uuid p in
      let ticketed : some t ≡ (if ltb 0 n then some k else none) =
        sym given ∙ ap (λ x. x.ticket) a.decided in
      let same : t ≡ k = ticket_is t k (ltb 0 n) ticketed in
      rw (same, d, ← pe)
        (issued_accepted crypto secret now later uuid p order u
          (subst (λ x. (x.ticket_id == "") ≡ false) same id_given)
          (subst (λ x. (x.symbol == "") ≡ false) same symbol_given)
          (subst (λ x. (x.signature == "") ≡ false) same signed)
          (subst (λ x. includes u.used x.ticket_id ≡ false) same unused))
