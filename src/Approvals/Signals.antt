-- ===== src/Approvals/Signals.antt =====
-- The handler that `start` subscribes: apps/server/src/approvals/approval-service.ts, with the
-- coercions of apps/server/src/utils/validation-helpers.ts.
use finance_agent_os.Base.{
  ℕ, ℤ, not, String, ◌==◌, Option, none, some, Number, finite, if◌then◌else◌, or_default,
}
use finance_agent_os.Order.Status.{OrderSide, buy, sell}
use finance_agent_os.Approvals.Service.{ApprovalService, ProposeInput, propose, is_gating}

-- A field of `event.data`: absent, a text, or a number.
pub data Field : Type 0 where
  absent : Field
  text : String → Field
  number : Number → Field

pub record SignalEvent : Type 0 where
  pub event_type : String
  pub symbol : Field
  pub action : Field
  pub side : Field
  pub price : Field
  pub quantity : Field
  pub qty : Field
  pub confidence : Field
  pub reason : Field
  pub strategy : Field
  pub signal_id : Field
  pub data_correlation : Field
  pub correlation_id : Option String
  pub thread_id : Option String

abbrev pub as_string : Field → String
as_string absent = ""
as_string (text s) = s
as_string (number n) = ""

abbrev pub as_number : Field → Option ℤ
as_number absent = none
as_number (text s) = none
as_number (number (finite z)) = some z
as_number (number n) = none

abbrev pub as_side : Field → Option OrderSide
as_side absent = none
as_side (text s) = if s == "buy" then some buy else if s == "sell" then some sell else none
as_side (number n) = none

-- `a ?? b`
abbrev pub or_field : Field → Field → Field
or_field absent b = b
or_field (text s) b = text s
or_field (number n) b = number n

-- `s.length > 0 ? s : undefined`
abbrev pub non_empty : String → Option String
non_empty s = if s == "" then none else some s

abbrev pub given : Option String → Option String
given none = none
given (some s) = non_empty s

-- A confidence that is a number but not finite is kept by the program; here it is dropped.
-- `default_quantity` is 0.05.
unfoldable pub input_of : ℤ → SignalEvent → Option ProposeInput
input_of default_quantity e =
    if as_string e.symbol == "" then none else elim (as_side (or_field e.action e.side)) [
      | none ↦ none
      | some side ↦ elim (as_number e.price) [
        | none ↦ none
        | some price ↦ some (record {
          symbol = as_string e.symbol;
          side = side;
          quantity =
              or_default (as_number e.quantity) (or_default (as_number e.qty) default_quantity);
          price = price;
          confidence = as_number e.confidence;
          reason = non_empty (as_string e.reason);
          strategy = non_empty (as_string e.strategy);
          signal_id = non_empty (as_string e.signal_id);
          thread_id = given e.thread_id;
          plan_id = non_empty (or_default (given e.correlation_id) (as_string e.data_correlation));
          ttl_ms = none;
        })
      ]
    ]

unfoldable pub on_event : ℤ → (ℕ → String) → ℕ → SignalEvent → ApprovalService → ApprovalService
unfolding input_of
on_event default_quantity show now e s =
    if not (e.event_type == "quant.signal")
    then s
    else if not s.started
    then s
    else if not (is_gating s)
    then s
    else elim (input_of default_quantity e) [ none ↦ s | some input ↦ (propose show now input s).1 ]
