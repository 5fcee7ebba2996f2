-- ===== src/Reconcile/Stale.antt =====
-- What the mitigation does about stale orders: apps/server/src/safety/exchange-reconciliation.ts.
use finance_agent_os.Base.{◌≡◌, ◌⊎◌, true, false, String, none, lookup}
use finance_agent_os.Order.Data.{OrderManager}
use finance_agent_os.Reconcile.Report.{Discrepancy, text, is_stale, is_active_status}

-- A stale order shows its status where the mitigation reads an id.
abbrev ShowsStatus : Discrepancy → Type 0
ShowsStatus d =
    (is_stale d ≡ false) ⊎ ((s : String) × (d.expected ≡ text s) × (is_active_status s ≡ true))

-- No order has one of the three active statuses as its id.
abbrev pub NoStatusId : OrderManager → Type 0
NoStatusId om = (s : String) → is_active_status s ≡ true → lookup s om.orders ≡ none
