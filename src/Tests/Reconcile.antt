-- ===== src/Tests/Reconcile.antt =====
-- Runs of the reconciliation with the exchange.
use finance_agent_os.Base.{◌≡◌, ◌↔◌, true, false, some, [], ◌∷◌, pos}
use finance_agent_os.Reconcile.Report.{
  ReconciliationInput, Reconciliation, default_reconciliation_config, reconcile,
}
use finance_agent_os.Reconcile.Agreement.{Synchronized, synchronized_iff}

-- An order that is active here and unknown to the exchange.
abbrev input : ReconciliationInput
input = record {
  internal_orders =
      record { id = "o1"; client_order_id = some "c1"; symbol = "BTCUSDT"; status = "SUBMITTED" }
      ∷ [];
  internal_positions = record { symbol = "BTCUSDT"; quantity = pos 5 } ∷ [];
  exchange_orders = [];
  exchange_positions = record { symbol = "BTCUSDT"; quantity = pos 5 } ∷ [];
}

abbrev reconciliation : Reconciliation
reconciliation = record {
  config = default_reconciliation_config;
  has_bus = false;
  history = [];
  published = [];
}

synchronized_iff_example :
    ((reconcile 7 input reconciliation).0.synchronized ≡ true)
    ↔ Synchronized reconciliation.config input
synchronized_iff_example = synchronized_iff 7 input reconciliation
