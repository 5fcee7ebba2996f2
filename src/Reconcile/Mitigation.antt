-- ===== src/Reconcile/Mitigation.antt =====
-- `autoMitigate`: apps/server/src/safety/exchange-reconciliation.ts. The kill switch, where there is
-- one, is wired to the same order manager and broker as the mitigation.
use finance_agent_os.Base.{
  ℕ, ℤ, Bool, true, false, ◌&&◌, String, none, some, List, [], ◌∷◌, ◌++◌, if◌then◌else◌,
}
use finance_agent_os.Order.Manager.{cancel_order}
use finance_agent_os.Safety.Cancel.{Broker, accepted, refused, threw}
use finance_agent_os.Safety.KillSwitch.{Wired, trigger}
use finance_agent_os.Reconcile.Report.{
  Shown, amount, text, Discrepancy, is_phantom, is_stale, Action, no_action, cancel_phantom_orders,
  update_internal_state, trigger_kill_switch, ReconciliationConfig, ReconciliationReport,
}

pub data Taken : Type 0 where
  already_synchronized triggered_switch : Taken
  cancelled_phantom failed_phantom cleaned_stale : String → Taken

abbrev pub wants_halt : Action → Bool
wants_halt a = elim a [
  | no_action ↦ false
  | cancel_phantom_orders ↦ false
  | update_internal_state ↦ false
  | trigger_kill_switch ↦ true
]

-- `String(value)`, with the print of a number.
abbrev pub to_text : (ℤ → String) → Shown → String
to_text show (amount z) = show z
to_text show (text s) = s

-- `actionsTaken.length > 0`
abbrev pub took_some : List Taken → Bool
took_some [] = false
took_some (t ∷ ts) = true

module _ (b : Broker) (show : ℤ → String) where
  -- The broker cancels a phantom order; a throw is recorded.
  unfoldable pub mitigate_phantom : Discrepancy → List Taken × Wired b → List Taken × Wired b
  mitigate_phantom d (taken, w) = elim w.broker [
    | none ↦ (taken, w)
    | some s ↦
        let id = to_text show d.actual in
        let (answer, s') = b.cancel id "Reconciliation auto-mitigation: Phantom order" s in
        let done : List Taken × Wired b =
          (taken ++ cancelled_phantom id ∷ [], record w { broker = some s' }) in
        elim answer [
          | accepted ↦ done
          | refused ↦ done
          | threw ↦ (taken ++ failed_phantom id ∷ [], record w { broker = some s' })
        ]
  ]

  -- The order manager cancels a stale order; its answer is not read.
  unfoldable pub mitigate_stale : ℕ → Discrepancy → List Taken × Wired b → List Taken × Wired b
  mitigate_stale now d (taken, w) = elim w.orders [
    | none ↦ (taken, w)
    | some om ↦
        let id = to_text show d.expected in
        (
          taken ++ cleaned_stale id ∷ [],
          record w {
            orders =
                some
                  (cancel_order now id (some "Reconciliation auto-mitigation: Stale order") om).1;
          },
        )
  ]

  unfoldable pub mitigate_one : ℕ → Discrepancy → List Taken × Wired b → List Taken × Wired b
  unfolding mitigate_phantom mitigate_stale
  mitigate_one now d s =
      let s' = if is_phantom d then mitigate_phantom d s else s in
      if is_stale d then mitigate_stale now d s' else s'

  unfoldable pub mitigate_all : ℕ → List Discrepancy → List Taken × Wired b → List Taken × Wired b
  unfolding mitigate_one
  mitigate_all now [] s = s
  mitigate_all now (d ∷ ds) s = mitigate_all now ds (mitigate_one now d s)

  -- `has_switch` says whether a kill switch is given; `reason` is the text of its trigger.
  unfoldable pub auto_mitigate :
      ReconciliationConfig
      → ℕ
      → Bool
      → String
      → ReconciliationReport
      → Wired b
      → (Bool × List Taken) × Wired b
  unfolding mitigate_all
  auto_mitigate c now has_switch reason report w =
      if report.synchronized
      then ((true, already_synchronized ∷ []), w)
      else (let halt =
            c.auto_halt_on_critical_drift && wants_halt report.recommended_action && has_switch in
          let start : List Taken × Wired b =
            if halt
            then (triggered_switch ∷ [], (trigger b now reason (some "reconciliation-engine") w).1)
            else ([], w) in
          let (taken, w') = mitigate_all now report.discrepancies start in
          ((took_some taken, taken), w'))
