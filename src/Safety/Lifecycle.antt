-- ===== src/Safety/Lifecycle.antt =====
-- Startup and graceful shutdown: apps/server/src/safety/lifecycle-manager.ts.
use finance_agent_os.Base.{
  ℕ, ◌+◌, ◌-◌, Bool, true, false, ◌&&◌, not, String, Option, none, some, List, [], ◌∷◌, ◌++◌,
  filter, length, or_default, if◌then◌else◌,
}
use finance_agent_os.Order.Data.{ManagedOrder, OrderManager}
use finance_agent_os.Order.Manager.{cancel_order}
use finance_agent_os.Order.Fill.{get_open_orders}
use finance_agent_os.Safety.Cancel.{Broker, accepted, refused, threw}
use finance_agent_os.Safety.KillSwitch.{KillSwitch, is_halted}

pub data LifecycleState : Type 0 where
  initialized running draining stopped : LifecycleState

pub record ShutdownReport : Type 0 where
  pub cancelled_orders : ℕ
  pub drained_inflight : ℕ
  pub duration_ms : ℕ

pub data LifecycleEvent : Type 0 where
  lifecycle_started : ℕ → LifecycleEvent
  shutdown_complete : String → ShutdownReport → LifecycleEvent

-- The loop over the order manager's open orders, with the count so far.
unfoldable pub count_cancelled :
    ℕ → String → List ManagedOrder → ℕ → OrderManager → ℕ × OrderManager
count_cancelled now reason [] n om = (n, om)
count_cancelled now reason (o ∷ os) n om =
    let (success, om') = cancel_order now o.id (some reason) om in
    count_cancelled now reason os (if success then n + 1 else n) om'

module _ (b : Broker) where
  -- `inflight` holds the operations that are not settled, by number; `ran` the cleanup handlers that
  -- were called, by number.
  pub record Lifecycle : Type 0 where
    pub state : LifecycleState
    pub auto_cancel : Bool
    pub has_bus : Bool
    pub orders : Option OrderManager
    pub broker : Option b.State
    pub kill_switch : Option KillSwitch
    pub inflight : List ℕ
    pub cleanup_handlers : List ℕ
    pub ran : List ℕ
    pub published : List LifecycleEvent

  unfoldable pub is_accepting_orders : Lifecycle → Bool
  unfolding is_halted
  is_accepting_orders l =
      elim l.state [ initialized ↦ false | running ↦ true | draining ↦ false | stopped ↦ false ]
      && elim l.kill_switch [ none ↦ true | some k ↦ not (is_halted k) ]

  abbrev pub register_cleanup_handler : ℕ → Lifecycle → Lifecycle
  register_cleanup_handler h l = record l { cleanup_handlers = l.cleanup_handlers ++ h ∷ [] }

  abbrev pub track_inflight : ℕ → Lifecycle → Lifecycle
  track_inflight p l = record l { inflight = l.inflight ++ p ∷ [] }

  abbrev announce : LifecycleEvent → Lifecycle → Lifecycle
  announce e l = record l { published = if l.has_bus then l.published ++ e ∷ [] else l.published }

  unfoldable pub start : ℕ → Lifecycle → Lifecycle
  start now l = announce (lifecycle_started now) (record l { state = running })

  unfoldable pub count_at_broker : String → List String → ℕ → b.State → ℕ × b.State
  count_at_broker reason [] n s = (n, s)
  count_at_broker reason (id ∷ ids) n s =
      let (answer, s') = b.cancel id reason s in
      let more = count_at_broker reason ids (n + 1) s' in
      let same = count_at_broker reason ids n s' in
      elim answer [ accepted ↦ more | refused ↦ same | threw ↦ (n, s') ]

  abbrev count_managed : ℕ → String → Option OrderManager → ℕ × Option OrderManager
  count_managed now reason none = (0, none)
  count_managed now reason (some om) =
      let (n, om') = count_cancelled now reason (get_open_orders om) 0 om in (n, some om')

  unfoldable pub count_broker_orders : String → ℕ → Option b.State → ℕ × Option b.State
  unfolding count_at_broker
  count_broker_orders reason n none = (n, none)
  count_broker_orders reason n (some s) = elim (b.open_ids s) [
    | none ↦ (n, some s)
    | some ids ↦ let (n', s') = count_at_broker reason ids n s in (n', some s')
  ]

  -- Step 1 of the shutdown.
  unfoldable pub cancel_open : ℕ → String → Lifecycle → ℕ × Lifecycle
  unfolding count_broker_orders
  cancel_open now reason l =
      if l.auto_cancel
      then (let (n, orders) = count_managed now reason l.orders in
          let (m, broker) = count_broker_orders reason n l.broker in
          (m, record l { orders = orders; broker = broker }))
      else (0, l)

  -- The whole shutdown. `settles` says which operations end before the race with the timeout does;
  -- `ended` is the clock at the end. No operation is added while it runs.
  unfoldable pub graceful_shutdown :
      ℕ → ℕ → Option String → (ℕ → Bool) → Lifecycle → ShutdownReport × Lifecycle
  unfolding cancel_open
  graceful_shutdown started ended given settles l =
      let reason = or_default given "GRACEFUL_SHUTDOWN" in
      let (n, drained) = cancel_open started reason (record l { state = draining }) in
      let left = filter (λ p. not (settles p)) drained.inflight in
      let final = record drained {
        inflight = left;
        ran = drained.ran ++ drained.cleanup_handlers;
        state = stopped;
      } in
      let report : ShutdownReport = record {
        cancelled_orders = n;
        drained_inflight = length drained.inflight - length left;
        duration_ms = ended - started;
      } in
      (report, announce (shutdown_complete reason report) final)
