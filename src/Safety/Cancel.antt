-- ===== src/Safety/Cancel.antt =====
-- The broker as the safety code sees it, and the loops that cancel all open orders:
-- apps/server/src/safety/kill-switch.ts and lifecycle-manager.ts.
use finance_agent_os.Base.{
  ℕ, String, Option, none, some, List, [], ◌∷◌, ◌++◌, includes, if◌then◌else◌,
}
use finance_agent_os.Order.Data.{ManagedOrder, OrderManager}
use finance_agent_os.Order.Manager.{cancel_order}

-- The answer of the broker to a cancellation.
pub data Answer : Type 0 where
  accepted refused threw : Answer

-- The broker is another program: its state, the ids of its open orders (`none` where the call
-- throws), and its cancellation with the text of the reason.
pub record Broker : Type 1 where
  pub State : Type 0
  pub open_ids : State → Option (List String)
  pub cancel : String → String → State → Answer × State

-- The ids of the orders that the order manager agrees to cancel, behind those found before.
unfoldable pub cancel_orders :
    ℕ → String → List ManagedOrder → List String → OrderManager → List String × OrderManager
cancel_orders now reason [] done om = (done, om)
cancel_orders now reason (o ∷ os) done om =
    let (success, om') = cancel_order now o.id (some reason) om in
    cancel_orders now reason os (if success then done ++ o.id ∷ [] else done) om'

-- The same over the broker's orders, less those that are done; a throw ends the loop.
module _ (b : Broker) where
  unfoldable pub cancel_at_broker :
      String → List String → List String → b.State → List String × b.State
  cancel_at_broker reason [] done s = (done, s)
  cancel_at_broker reason (id ∷ ids) done s =
      let (answer, s') = b.cancel id reason s in
      let skipped = cancel_at_broker reason ids done s in
      let cancelled = cancel_at_broker reason ids (done ++ id ∷ []) s' in
      let kept = cancel_at_broker reason ids done s' in
      if includes done id
      then skipped
      else elim answer [ accepted ↦ cancelled | refused ↦ kept | threw ↦ (done, s') ]

  unfoldable pub cancel_broker_orders :
      String → List String → Option b.State → List String × Option b.State
  unfolding cancel_at_broker
  cancel_broker_orders reason done none = (done, none)
  cancel_broker_orders reason done (some s) = elim (b.open_ids s) [
    | none ↦ (done, some s)
    | some ids ↦ let (done', s') = cancel_at_broker reason ids done s in (done', some s')
  ]
