-- ===== src/Safety/KillSwitch.antt =====
-- The emergency kill switch: apps/server/src/safety/kill-switch.ts.
use Prim.Native.String
use finance_agent_os.Base.{
  ℕ, Bool, true, false, ◌||◌, not, String, ◌==◌, Option, none, some, List, [], ◌∷◌, ◌++◌, Result,
  ok, err, trim, or_default, length, if◌then◌else◌,
}
use finance_agent_os.Order.Data.{OrderManager}
use finance_agent_os.Order.Fill.{get_open_orders}
use finance_agent_os.Safety.Cancel.{Broker, cancel_orders, cancel_broker_orders}

pub data SwitchState : Type 0 where
  armed triggered disarmed : SwitchState

pub data SwitchEvent : Type 0 where
  activated : String → String → ℕ → List String → SwitchEvent
  was_reset : SwitchState → String → String → ℕ → SwitchEvent
  was_disarmed : String → String → ℕ → SwitchEvent

pub record KillSwitch : Type 0 where
  pub state : SwitchState
  pub triggered_at : Option ℕ
  pub triggered_reason : Option String
  pub triggered_by : Option String
  pub override_key : String
  pub has_bus : Bool
  pub published : List SwitchEvent

pub data SwitchError : Type 0 where
  key_required unauthorized reason_required : SwitchError
  halted : String → ℕ → SwitchError

unfoldable pub fresh_switch : Bool → String → KillSwitch
fresh_switch has_bus key = record {
  state = armed;
  triggered_at = none;
  triggered_reason = none;
  triggered_by = none;
  override_key = key;
  has_bus = has_bus;
  published = [];
}

-- The constructor; `provided` is `config.overrideKey ?? KILL_SWITCH_OVERRIDE_KEY`, `random` the end
-- of the ephemeral key.
unfoldable pub new_kill_switch :
    Bool → Bool → Option String → String → Result SwitchError KillSwitch
unfolding fresh_switch
new_kill_switch live has_bus provided random =
    let key = or_default provided "" in
    if key == ""
    then (if live
        then err key_required
        else ok (fresh_switch has_bus (String.◌++◌ "dev-ephemeral-" random)))
    else ok (fresh_switch has_bus key)

unfoldable pub is_halted : KillSwitch → Bool
is_halted k = elim k.state [ armed ↦ false | triggered ↦ true | disarmed ↦ false ]

unfoldable pub assert_not_halted : ℕ → KillSwitch → Result SwitchError (Unit {0})
unfolding is_halted
assert_not_halted now k =
    if is_halted k
    then err (
        halted (or_default k.triggered_reason "Emergency halt activated")
          (or_default k.triggered_at now))
    else ok tt

abbrev announce : SwitchEvent → KillSwitch → KillSwitch
announce e k = record k { published = if k.has_bus then k.published ++ e ∷ [] else k.published }

pub record TriggerResult : Type 0 where
  pub state : SwitchState
  pub reason : String
  pub actor : String
  pub triggered_at : ℕ
  pub cancelled_orders_count : ℕ
  pub cancelled_order_ids : List String

-- `if (this.orderManager) …`: the ids cancelled in the order manager, if there is one.
abbrev cancel_managed : ℕ → String → Option OrderManager → List String × Option OrderManager
cancel_managed now reason none = ([], none)
cancel_managed now reason (some om) =
    let (done, om') = cancel_orders now reason (get_open_orders om) [] om in (done, some om')

module _ (b : Broker) where
  -- The switch with the order manager and the broker that it is wired to.
  pub record Wired : Type 0 where
    pub switch : KillSwitch
    pub orders : Option OrderManager
    pub broker : Option b.State

  unfoldable pub trigger : ℕ → String → Option String → Wired → TriggerResult × Wired
  trigger now reason actor w =
      let who = or_default actor "system" in
      let text = String.◌++◌ "KILL_SWITCH: " reason in
      let (managed, orders) = cancel_managed now text w.orders in
      let (done, broker) = cancel_broker_orders b text managed w.broker in
      let switch = record (w.switch) {
        state = triggered;
        triggered_at = some now;
        triggered_reason = some reason;
        triggered_by = some who;
      } in
      (
        record {
          state = triggered;
          reason = reason;
          actor = who;
          triggered_at = now;
          cancelled_orders_count = length done;
          cancelled_order_ids = done;
        },
        record {
          switch = announce (activated reason who now done) switch;
          orders = orders;
          broker = broker;
        },
      )

pub record Credentials : Type 0 where
  pub override_key : String
  pub reason : String
  pub actor : Option String

abbrev is_authorized : Credentials → KillSwitch → Bool
is_authorized c k = not (c.override_key == "" || not (c.override_key == k.override_key))

-- A throw leaves the switch as it is.
unfoldable pub reset : ℕ → Credentials → KillSwitch → Result SwitchError ℕ × KillSwitch
reset now c k =
    if not (is_authorized c k)
    then (err unauthorized, k)
    else if c.reason == "" || trim c.reason == ""
    then (err reason_required, k)
    else (
      ok now,
      announce (was_reset k.state c.reason (or_default c.actor "operator") now) (record k {
        state = armed;
        triggered_at = none;
        triggered_reason = none;
        triggered_by = none;
      }),
    )

unfoldable pub disarm : ℕ → Credentials → KillSwitch → Result SwitchError (Unit {0}) × KillSwitch
disarm now c k = if not (is_authorized c k) then (err unauthorized, k) else (
  ok tt,
  announce (was_disarmed c.reason (or_default c.actor "operator") now)
      (record k { state = disarmed }),
)
