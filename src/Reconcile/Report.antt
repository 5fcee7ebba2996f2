-- ===== src/Reconcile/Report.antt =====
-- `reconcile`: apps/server/src/safety/exchange-reconciliation.ts. Quantities are integers of units of
-- 1e-9; the texts for people are left out.
use finance_agent_os.Base.{
  ℕ, ◌*◌, ℤ, pos, ◌-ℤ◌, abs, ltb_ℤ, Bool, true, false, ◌&&◌, ◌||◌, not, String, ◌==◌, to_upper,
  includes, Option, none, some, List, [], ◌∷◌, ◌++◌, length, drop, any, ltb, leb, eqb, max,
  if◌then◌else◌,
}

pub data DiscrepancyType : Type 0 where
  position_mismatch phantom_exchange_order missed_internal_fill stale_internal_order :
      DiscrepancyType

-- `high` is not among the declared severities; the code casts it.
pub data DriftSeverity : Type 0 where
  low medium critical high : DriftSeverity

-- What `expected` and `actual` hold.
pub data Shown : Type 0 where
  amount : ℤ → Shown
  text : String → Shown

pub record Discrepancy : Type 0 where
  pub discrepancy_type : DiscrepancyType
  pub severity : DriftSeverity
  pub symbol : String
  pub expected : Shown
  pub actual : Shown

pub record InternalOrder : Type 0 where
  pub id : String
  pub client_order_id : Option String
  pub symbol : String
  pub status : String

pub record ExchangeOrder : Type 0 where
  pub order_id : String
  pub client_order_id : Option String
  pub symbol : String
  pub status : String

pub record PositionSummary : Type 0 where
  pub symbol : String
  pub quantity : ℤ

pub record ReconciliationInput : Type 0 where
  pub internal_orders : List InternalOrder
  pub internal_positions : List PositionSummary
  pub exchange_orders : List ExchangeOrder
  pub exchange_positions : List PositionSummary

pub data Action : Type 0 where
  no_action cancel_phantom_orders update_internal_state trigger_kill_switch : Action

pub record ReconciliationReport : Type 0 where
  pub timestamp : ℕ
  pub synchronized : Bool
  pub drift_count : ℕ
  pub discrepancies : List Discrepancy
  pub recommended_action : Action

pub record ReconciliationConfig : Type 0 where
  pub position_tolerance : ℕ
  pub critical_mismatch_threshold : ℕ
  pub auto_halt_on_critical_drift : Bool

-- DEFAULT_RECONCILIATION_CONFIG
abbrev pub default_reconciliation_config : ReconciliationConfig
default_reconciliation_config = record {
  position_tolerance = 10000;
  critical_mismatch_threshold = 100000000;
  auto_halt_on_critical_drift = true;
}

pub record Reconciliation : Type 0 where
  pub config : ReconciliationConfig
  pub has_bus : Bool
  pub history : List ReconciliationReport
  pub published : List ReconciliationReport

-- `Set.add`
abbrev pub add_symbol : String → List String → List String
add_symbol s set = if includes set s then set else set ++ s ∷ []

unfoldable pub add_symbols : List PositionSummary → List String → List String
add_symbols [] set = set
add_symbols (p ∷ ps) set = add_symbols ps (add_symbol (to_upper p.symbol) set)

abbrev pub all_symbols : ReconciliationInput → List String
all_symbols input = add_symbols input.exchange_positions (add_symbols input.internal_positions [])

-- `positions.find(...)?.quantity ?? 0`
unfoldable pub held_in : List PositionSummary → String → ℤ
held_in [] sym = pos 0
held_in (p ∷ ps) sym = if to_upper p.symbol == sym then p.quantity else held_in ps sym

abbrev is_positive : ℤ → Bool
is_positive z = ltb_ℤ (pos 0) z

abbrev is_negative : ℤ → Bool
is_negative z = ltb_ℤ z (pos 0)

-- The severity of a mismatch above the tolerance.
unfoldable pub severity_of : ReconciliationConfig → ℤ → ℤ → DriftSeverity
severity_of c internal exchange =
    let diff = abs (internal -ℤ exchange) in
    let larger = max (abs internal) (abs exchange) in
    if leb c.critical_mismatch_threshold diff
      || (is_positive internal && is_negative exchange)
      || (is_negative internal && is_positive exchange)
    then critical
    else if eqb larger 0 || ltb larger (20 * diff)
    then medium
    else low

unfoldable pub position_drift :
    ReconciliationConfig → ReconciliationInput → List String → List Discrepancy
unfolding severity_of
position_drift c input [] = []
position_drift c input (sym ∷ syms) =
    let rest = position_drift c input syms in
    let internal = held_in input.internal_positions sym in
    let exchange = held_in input.exchange_positions sym in
    if ltb c.position_tolerance (abs (internal -ℤ exchange))
    then record {
      discrepancy_type = position_mismatch;
      severity = severity_of c internal exchange;
      symbol = sym;
      expected = amount internal;
      actual = amount exchange;
    }
      ∷ rest
    else rest

-- `a && a === b`
abbrev pub same_client : Option String → Option String → Bool
same_client none b = false
same_client (some a) none = false
same_client (some a) (some b) = not (a == "") && a == b

unfoldable pub find_internal : ExchangeOrder → List InternalOrder → Option InternalOrder
find_internal eo [] = none
find_internal eo (io ∷ ios) =
    if io.id == eo.order_id || same_client io.client_order_id eo.client_order_id
    then some io
    else find_internal eo ios

unfoldable pub find_exchange : InternalOrder → List ExchangeOrder → Option ExchangeOrder
find_exchange io [] = none
find_exchange io (eo ∷ eos) =
    if eo.order_id == io.id || same_client eo.client_order_id io.client_order_id
    then some eo
    else find_exchange io eos

abbrev pub is_closed_status : String → Bool
is_closed_status s = s == "CANCELLED" || s == "FILLED" || s == "REJECTED"

abbrev pub is_active_status : String → Bool
is_active_status s = s == "PENDING" || s == "SUBMITTED" || s == "PARTIALLY_FILLED"

-- A phantom order that is not known internally shows its id, one that is closed there its status.
unfoldable pub phantoms : List InternalOrder → List ExchangeOrder → List Discrepancy
unfolding find_internal
phantoms ios [] = []
phantoms ios (eo ∷ eos) =
    let rest = phantoms ios eos in
    elim (find_internal eo ios) [
      | none ↦
          record {
            discrepancy_type = phantom_exchange_order;
            severity = medium;
            symbol = eo.symbol;
            expected = text "none";
            actual = text eo.order_id;
          }
          ∷ rest
      | some io ↦
          if is_closed_status io.status
          then record {
            discrepancy_type = phantom_exchange_order;
            severity = high;
            symbol = eo.symbol;
            expected = text io.status;
            actual = text eo.status;
          }
            ∷ rest
          else rest
    ]

unfoldable pub stales : List ExchangeOrder → List InternalOrder → List Discrepancy
unfolding find_exchange
stales eos [] = []
stales eos (io ∷ ios) =
    let rest = stales eos ios in
    let stale : Discrepancy = record {
      discrepancy_type = stale_internal_order;
      severity = low;
      symbol = io.symbol;
      expected = text io.status;
      actual = text "missing_on_exchange";
    } in
    if is_active_status io.status
    then elim (find_exchange io eos) [ none ↦ stale ∷ rest | some eo ↦ rest ]
    else rest

unfoldable pub all_discrepancies : ReconciliationConfig → ReconciliationInput → List Discrepancy
all_discrepancies c input =
    position_drift c input (all_symbols input)
    ++ (phantoms input.internal_orders input.exchange_orders
        ++ stales input.exchange_orders input.internal_orders)

abbrev pub is_critical : Discrepancy → Bool
is_critical d = elim d.severity [ low ↦ false | medium ↦ false | critical ↦ true | high ↦ false ]

abbrev pub is_phantom : Discrepancy → Bool
is_phantom d = elim d.discrepancy_type [
  | position_mismatch ↦ false
  | phantom_exchange_order ↦ true
  | missed_internal_fill ↦ false
  | stale_internal_order ↦ false
]

abbrev pub is_stale : Discrepancy → Bool
is_stale d = elim d.discrepancy_type [
  | position_mismatch ↦ false
  | phantom_exchange_order ↦ false
  | missed_internal_fill ↦ false
  | stale_internal_order ↦ true
]

unfoldable pub recommend : List Discrepancy → Action
recommend ds =
    if any is_critical ds
    then trigger_kill_switch
    else if any is_phantom ds
    then cancel_phantom_orders
    else if any is_stale ds
    then update_internal_state
    else no_action

abbrev pub no_drift : List Discrepancy → Bool
no_drift [] = true
no_drift (d ∷ ds) = false

-- `history.push(report)`, then `shift` above fifty reports.
abbrev pub push_report :
    ReconciliationReport → List ReconciliationReport → List ReconciliationReport
push_report r h = let h' = h ++ r ∷ [] in if ltb 50 (length h') then drop 1 h' else h'

unfoldable pub reconcile :
    ℕ → ReconciliationInput → Reconciliation → ReconciliationReport × Reconciliation
unfolding all_discrepancies recommend
reconcile now input r =
    let ds = all_discrepancies r.config input in
    let report : ReconciliationReport = record {
      timestamp = now;
      synchronized = no_drift ds;
      drift_count = length ds;
      discrepancies = ds;
      recommended_action = recommend ds;
    } in
    (
      report,
      record r {
        history = push_report report r.history;
        published =
            if not report.synchronized && r.has_bus
            then r.published ++ report ∷ []
            else r.published;
      },
    )
