-- ===== src/Tests/Engine.antt =====
-- Runs of the risk engine.
use finance_agent_os.Base.{
  ◌+◌, ◌+ℤ◌, ◌-ℤ◌, ◌*◌, ◌≤◌, ◌≡◌, ◌↔◌, refl, arith, false, none, some, is_some, List, [], ◌∷◌, All,
  lookup, ltb, finite, pos, to_upper, positive_finite,
}
use finance_agent_os.Order.Status.{buy}
use finance_agent_os.Risk.Ticket.{
  RiskApprovalTicket, TicketInput, TicketParams, issue_risk_ticket, verify_risk_ticket,
  compute_ticket_signature,
}
use finance_agent_os.Risk.Rules.{
  TradeRequest, PortfolioSnapshot, RiskEngine, default_config, new_risk_engine, exceeds, find_held,
  positions_value, approved_quantity, is_stale, lacks_stop_loss, lacks_margin, is_cooling,
  over_symbol, over_total, over_leveraged, peak_of,
}
use finance_agent_os.Risk.Engine.{
  make_decision, run_checks, early_checks, late_checks, evaluate_valid, evaluate,
}
use finance_agent_os.Risk.Bounds.{Covers}
use finance_agent_os.Risk.Limits.{IsApproved}
use finance_agent_os.Risk.Verdict.{evaluate-IsApproved_iff}
use finance_agent_os.Risk.Approval.{approved_in_bounds, capped_away, approved_accepted}
use finance_agent_os.Risk.Cooling.{Attempt, evaluate_all, RejectedIn, cooldown_rejects}
use finance_agent_os.Tests.Risk.{plain, no_tickets}

-- Half a unit at 6000, of an account of a million.
abbrev request : TradeRequest
request = record {
  symbol = "btcusdt";
  side = buy;
  quantity = finite (pos 500000000);
  price = finite (pos 600000);
  confidence = pos 80;
  strategy = "trend";
  agent_id = "desk";
  timestamp = 100000;
  correlation_id = "r1";
  stop_loss = none;
  quote_timestamp = none;
}

abbrev account : PortfolioSnapshot
account = record {
  cash = pos 100000000000000000;
  equity = pos 100000000000000000;
  positions = [];
  peak_equity = pos 0;
}

abbrev engine : RiskEngine
engine = new_risk_engine default_config

approves : (evaluate plain "key" 100001 "d1" "u1" request account engine).0.rejected ≡ none
unfolding ◌+ℤ◌ ◌-ℤ◌ evaluate evaluate_valid make_decision run_checks early_checks late_checks
    exceeds find_held positions_value approved_quantity is_stale lacks_stop_loss lacks_margin
    is_cooling over_symbol over_total over_leveraged peak_of new_risk_engine lookup positive_finite
    to_upper
approves = refl

evaluate-IsApproved_iff_example :
    ((evaluate plain "key" 100001 "d1" "u1" request account engine).0.rejected ≡ none)
    ↔ IsApproved 100001 engine request account
evaluate-IsApproved_iff_example =
    evaluate-IsApproved_iff plain "key" 100001 "d1" "u1" request account engine

approved_in_bounds_example :
    let n = (evaluate plain "key" 100001 "d1" "u1" request account engine).0.approved_quantity in
    (n ≤ 500000000)
    × (n * 600000 ≤ engine.config.max_order_size)
    × (500000000 * 600000 ≤ engine.config.max_order_size → n ≡ 500000000)
    × (is_some (evaluate plain "key" 100001 "d1" "u1" request account engine).0.ticket ≡ ltb 0 n)
unfolding positive_finite
approved_in_bounds_example =
    approved_in_bounds plain "key" 100001 "d1" "u1" request account engine 500000000 600000 refl
      refl approves

abbrev twice : List Attempt
twice =
    record { time = 100002; id = "d2"; uuid = "u2"; request = request; portfolio = account }
    ∷ record { time = 110000; id = "d3"; uuid = "u3"; request = request; portfolio = account }
    ∷ []

cooldown_rejects_example : All (RejectedIn plain "key" "btcusdt") (
    evaluate_all plain "key" twice (evaluate plain "key" 100001 "d1" "u1" request account engine).1)
unfolding new_risk_engine
cooldown_rejects_example =
    cooldown_rejects plain "key" 100001 "d1" "u1" request account engine twice approves
      (omega arith, (omega arith, tt))

-- A quarter of a unit at 60000.
abbrev dear : TradeRequest
dear = record request { quantity = finite (pos 250000000); price = finite (pos 6000000) }

approves_dear : (evaluate plain "key" 100001 "d1" "u1" dear account engine).0.rejected ≡ none
unfolding ◌+ℤ◌ ◌-ℤ◌ evaluate evaluate_valid make_decision run_checks early_checks late_checks
    exceeds find_held positions_value approved_quantity is_stale lacks_stop_loss lacks_margin
    is_cooling over_symbol over_total over_leveraged peak_of new_risk_engine lookup positive_finite
    to_upper
approves_dear = refl

capped_away_example :
    ((evaluate plain "key" 100001 "d1" "u1" dear account engine).0.approved_quantity ≡ 0)
    × ((evaluate plain "key" 100001 "d1" "u1" dear account engine).0.ticket ≡ none)
unfolding new_risk_engine positive_finite
capped_away_example =
    capped_away plain "key" 100001 "d1" "u1" dear account engine 250000000 6000000 refl refl
      (omega arith) (omega arith) approves_dear

abbrev granted : TicketParams
granted = record {
  correlation_id = "r1";
  risk_decision_id = "d1";
  symbol = "btcusdt";
  side = buy;
  max_quantity = 500000000;
  max_price = 600000;
  agent_id = "desk";
  strategy = some "trend";
  ttl_ms = none;
}

abbrev ticket : RiskApprovalTicket
ticket = issue_risk_ticket plain "key" 100001 "u1" granted

abbrev order : TicketInput
order = record {
  symbol = "BTCUSDT";
  side = buy;
  quantity = 400000000;
  price = some 600000;
  correlation_id = some "r1";
}

tickets : (evaluate plain "key" 100001 "d1" "u1" request account engine).0.ticket ≡ some ticket
unfolding ◌+ℤ◌ ◌-ℤ◌ evaluate evaluate_valid make_decision run_checks early_checks late_checks
    exceeds find_held positions_value approved_quantity is_stale lacks_stop_loss lacks_margin
    is_cooling over_symbol over_total over_leveraged peak_of new_risk_engine lookup positive_finite
    to_upper
tickets = refl

grants :
    (evaluate plain "key" 100001 "d1" "u1" request account engine).0.approved_quantity ≡ 500000000
unfolding ◌+ℤ◌ ◌-ℤ◌ evaluate evaluate_valid make_decision run_checks early_checks late_checks
    exceeds find_held positions_value approved_quantity is_stale lacks_stop_loss lacks_margin
    is_cooling over_symbol over_total over_leveraged peak_of new_risk_engine lookup positive_finite
    to_upper
grants = refl

approved_accepted_example :
    ((verify_risk_ticket plain "key" 120000 (some ticket) order false no_tickets).0 ≡ none)
    ↔ Covers
        (100001 + 30000)
        (record granted {
          max_quantity =
              (evaluate plain "key" 100001 "d1" "u1" request account engine).0.approved_quantity;
        })
        120000
        order
unfolding positive_finite to_upper issue_risk_ticket compute_ticket_signature
approved_accepted_example =
    approved_accepted plain "key" 100001 "d1" "u1" request account engine 120000 order no_tickets
      600000 ticket refl approves tickets refl refl refl refl
