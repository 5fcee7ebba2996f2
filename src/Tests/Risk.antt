-- ===== src/Tests/Risk.antt =====
-- Runs of the risk tickets.
use Prim.Native.String
use finance_agent_os.Base.{
  ◌≡◌, ◌↔◌, ◌+◌, ◌≢◌, refl, to_upper, lookup, none, some, [], ◌∷◌, List, arith, false,
}
use finance_agent_os.Order.Status.{buy}
use finance_agent_os.Risk.Ticket.{
  Crypto, RiskApprovalTicket, TicketInput, TicketParams, UsedTickets, issue_risk_ticket,
  verify_risk_ticket, structure, refusal, compute_ticket_signature,
}
use finance_agent_os.Risk.Cache.{Synced}
use finance_agent_os.Risk.Redemption.{Event, verified, cleaned, handle_all, redeemed_once}
use finance_agent_os.Risk.Bounds.{Covers, Vouched, accepted-Vouched, issued_accepted}

-- A keyed digest that is easy to run, and one digit per number.
abbrev pub plain : Crypto
plain = record { hmac = λ secret payload. String.◌++◌ secret payload; show = λ n. "9" }

abbrev ticket_params : TicketParams
ticket_params = record {
  correlation_id = "r1";
  risk_decision_id = "d1";
  symbol = "btcusdt";
  side = buy;
  max_quantity = 10;
  max_price = 100;
  agent_id = "desk";
  strategy = none;
  ttl_ms = none;
}

abbrev ticket : RiskApprovalTicket
ticket = issue_risk_ticket plain "key" 1000 "u1" ticket_params

abbrev order : TicketInput
order = record {
  symbol = "BTCUSDT";
  side = buy;
  quantity = 10;
  price = some 105;
  correlation_id = some "r1";
}

abbrev pub no_tickets : UsedTickets
no_tickets = record { used = []; timestamps = [] }

no_tickets-Synced : Synced no_tickets
unfolding lookup
no_tickets-Synced id = refl

ticket_passes : (verify_risk_ticket plain "key" 2000 (some ticket) order false no_tickets).0 ≡ none
unfolding verify_risk_ticket structure refusal issue_risk_ticket compute_ticket_signature to_upper
ticket_passes = refl

-- The ticket is tried again, and the cache is cleaned long after its expiry.
abbrev later_events : List Event
later_events = verified 3000 (some ticket) order false ∷ cleaned 90000 ∷ []

redeemed_once_example :
    (verify_risk_ticket plain "key" 90001 (some ticket) order false (
      handle_all plain "key" later_events
        (verify_risk_ticket plain "key" 2000 (some ticket) order false no_tickets).1)).0
    ≢ none
redeemed_once_example =
    redeemed_once plain "key" 2000 90001 ticket order order no_tickets later_events
      no_tickets-Synced ticket_passes (omega arith, (omega arith, omega arith))

accepted-Vouched_example : Vouched plain "key" 2000 ticket order no_tickets
accepted-Vouched_example = accepted-Vouched plain "key" 2000 ticket order no_tickets ticket_passes

issued_accepted_example :
    ((verify_risk_ticket plain "key" 2000 (some ticket) order false no_tickets).0 ≡ none)
    ↔ Covers (1000 + 30000) ticket_params 2000 order
unfolding issue_risk_ticket compute_ticket_signature to_upper
issued_accepted_example =
    issued_accepted plain "key" 1000 2000 "u1" ticket_params order no_tickets refl refl refl refl
