-- ===== src/Risk/Ticket.antt =====
-- Risk approval tickets: apps/server/src/risk-engine/ticket.ts.
use Prim.Native.String.{◌++◌}
use finance_agent_os.Base.{
  ℕ, ◌+◌, ◌*◌, Bool, false, ◌&&◌, ◌||◌, not, String, ◌==◌, to_upper, includes, Option, none, some,
  List, [], ◌∷◌, Dict, insert, remove, filter, ltb, if◌then◌else◌, or_default,
}
use finance_agent_os.Order.Status.{OrderSide, buy, sell}

-- Node's HMAC-SHA256 in hexadecimal, of a secret and a payload, and the decimal print of a number.
pub record Crypto : Type 0 where
  pub hmac : String → String → String
  pub show : ℕ → String

-- A number field is `none` where its `typeof` is not "number"; numbers are in fixed units.
pub record RiskApprovalTicket : Type 0 where
  pub ticket_id : String
  pub correlation_id : String
  pub risk_decision_id : String
  pub symbol : String
  pub side : Option OrderSide
  pub max_quantity : Option ℕ
  pub max_price : ℕ
  pub approved_at : ℕ
  pub expires_at : Option ℕ
  pub agent_id : String
  pub strategy : Option String
  pub signature : String

pub record TicketInput : Type 0 where
  pub symbol : String
  pub side : OrderSide
  pub quantity : ℕ
  pub price : Option ℕ
  pub correlation_id : Option String

pub data Refusal : Type 0 where
  missing malformed expired bad_signature replayed symbol_mismatch side_mismatch : Refusal
  quantity_breach price_breach correlation_mismatch : Refusal

-- The anti-replay cache of the module.
pub record UsedTickets : Type 0 where
  pub used : List String
  pub timestamps : Dict ℕ

pub record TicketParams : Type 0 where
  pub correlation_id : String
  pub risk_decision_id : String
  pub symbol : String
  pub side : OrderSide
  pub max_quantity : ℕ
  pub max_price : ℕ
  pub agent_id : String
  pub strategy : Option String
  pub ttl_ms : Option ℕ

-- DEFAULT_TICKET_TTL_MS
abbrev pub default_ticket_ttl_ms : ℕ
default_ticket_ttl_ms = 30000

abbrev pub side_word : OrderSide → String
side_word buy = "buy"
side_word sell = "sell"

abbrev pub same_side : OrderSide → OrderSide → Bool
same_side a b = side_word a == side_word b

-- `Set.delete`
abbrev pub delete_id : String → List String → List String
delete_id id = filter (λ x. not (x == id))

-- The entries that the loop of `cleanExpiredTickets` meets, each with its expiry.
unfoldable pub clean_entries : ℕ → Dict ℕ → UsedTickets → UsedTickets
clean_entries now [] u = u
clean_entries now ((id, exp) ∷ entries) u = clean_entries now entries (
    if ltb exp now
    then record { used = delete_id id u.used; timestamps = remove id u.timestamps }
    else u)

unfoldable pub clean_expired_tickets : ℕ → UsedTickets → UsedTickets
unfolding clean_entries
clean_expired_tickets now u = clean_entries now u.timestamps u

unfoldable pub mark_ticket_redeemed : String → ℕ → UsedTickets → UsedTickets
mark_ticket_redeemed id exp u = record {
  used = id ∷ u.used;
  timestamps = insert id exp u.timestamps;
}

abbrev pub reset_used_tickets : UsedTickets → UsedTickets
reset_used_tickets u = record { used = []; timestamps = [] }

module _ (c : Crypto) (secret : String) where
  abbrev payload : String → String → String → String → String → ℕ → ℕ → ℕ → ℕ → String
  payload id correlation decision symbol side quantity price approved expires =
      id
      ++ "|"
      ++ correlation
      ++ "|"
      ++ decision
      ++ "|"
      ++ to_upper symbol
      ++ "|"
      ++ side
      ++ "|"
      ++ c.show quantity
      ++ "|"
      ++ c.show price
      ++ "|"
      ++ c.show approved
      ++ "|"
      ++ c.show expires

  unfoldable pub compute_ticket_signature :
      String → String → String → String → String → ℕ → ℕ → ℕ → ℕ → String
  compute_ticket_signature id correlation decision symbol side quantity price approved expires =
      c.hmac secret (payload id correlation decision symbol side quantity price approved expires)

  unfoldable pub issue_risk_ticket : ℕ → String → TicketParams → RiskApprovalTicket
  issue_risk_ticket now uuid p =
      let id = "ticket-" ++ uuid in
      let expires = now + or_default p.ttl_ms default_ticket_ttl_ms in
      let symbol = to_upper p.symbol in
      record {
        ticket_id = id;
        correlation_id = p.correlation_id;
        risk_decision_id = p.risk_decision_id;
        symbol = symbol;
        side = some p.side;
        max_quantity = some p.max_quantity;
        max_price = p.max_price;
        approved_at = now;
        expires_at = some expires;
        agent_id = p.agent_id;
        strategy = p.strategy;
        signature =
            compute_ticket_signature id p.correlation_id p.risk_decision_id symbol
              (side_word p.side) p.max_quantity p.max_price now expires;
      }

  -- The fields that the structure check lets through.
  pub record Checked : Type 0 where
    pub side : OrderSide
    pub max_quantity : ℕ
    pub expires_at : ℕ

  unfoldable pub structure : RiskApprovalTicket → Option Checked
  structure t =
      if t.ticket_id == "" || t.signature == "" || t.symbol == "" then none else elim t.side [
        | none ↦ none
        | some side ↦ elim t.max_quantity [
          | none ↦ none
          | some q ↦ elim t.expires_at [
            | none ↦ none
            | some e ↦ some (record { side = side; max_quantity = q; expires_at = e })
          ]
        ]
      ]

  -- `order.price > 0 && ticket.maxPrice > 0 && order.price > ticket.maxPrice * 1.05`
  abbrev pub over_price : Option ℕ → ℕ → Bool
  over_price none max = false
  over_price (some p) max = ltb 0 p && ltb 0 max && ltb (105 * max) (100 * p)

  -- `order.correlationId && ticket.correlationId && …`
  abbrev pub other_correlation : Option String → String → Bool
  other_correlation none c = false
  other_correlation (some o) c = not (o == "") && not (c == "") && not (o == c)

  -- The checks on a ticket of the right structure, up to the redemption.
  unfoldable pub refusal :
      ℕ → RiskApprovalTicket → Checked → TicketInput → Bool → UsedTickets → Option Refusal
  refusal now t k order allow_replay u =
      if ltb k.expires_at now
      then some expired
      else if not (
          t.signature
          == compute_ticket_signature t.ticket_id t.correlation_id t.risk_decision_id t.symbol
              (side_word k.side) k.max_quantity t.max_price t.approved_at k.expires_at)
      then some bad_signature
      else if not allow_replay && includes u.used t.ticket_id
      then some replayed
      else if not (to_upper t.symbol == to_upper order.symbol)
      then some symbol_mismatch
      else if not (same_side k.side order.side)
      then some side_mismatch
      else if ltb (1000001 * k.max_quantity) (1000000 * order.quantity)
      then some quantity_breach
      else if over_price order.price t.max_price
      then some price_breach
      else if other_correlation order.correlation_id t.correlation_id
      then some correlation_mismatch
      else none

  -- `none` is `{ valid: true }`.
  unfoldable pub verify_risk_ticket :
      ℕ
      → Option RiskApprovalTicket
      → TicketInput
      → Bool
      → UsedTickets
      → Option Refusal × UsedTickets
  unfolding structure refusal mark_ticket_redeemed
  verify_risk_ticket now none order allow_replay u = (some missing, u)
  verify_risk_ticket now (some t) order allow_replay u = elim (structure t) [
    | none ↦ (some malformed, u)
    | some k ↦ elim (refusal now t k order allow_replay u) [
      | some r ↦ (some r, u)
      | none ↦ (none, if allow_replay then u else mark_ticket_redeemed t.ticket_id k.expires_at u)
    ]
  ]
