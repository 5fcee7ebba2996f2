-- ===== src/Safety/Halting.antt =====
-- Sequences of calls on the kill switch: apps/server/src/safety/kill-switch.ts.
use Prim.Native.String
use finance_agent_os.Base.{
  ℕ, ◌≡◌, refl, Bool, true, false, ◌||◌, ◌&&◌, not, String, ◌==◌, lookup, Option, some, List, [],
  ◌∷◌, arith, err,
}
use finance_agent_os.Order.Data.{OrderManager}
use finance_agent_os.Order.Fill.{get_open_orders}
use finance_agent_os.Order.Invariant.{IsValid}
use finance_agent_os.Safety.Cancel.{Broker}
use finance_agent_os.Safety.CancelAll.{
  all_cancelled, all_cancelled-lookup, cancel_orders-IsValid, cancelled_form, map_order,
}
use finance_agent_os.Safety.KillSwitch.{
  KillSwitch, Wired, trigger, is_halted, assert_not_halted, halted, Credentials, reset, disarm,
}

-- The manager's part of a trigger: halted, and every order in its cancelled form.
pub record Halted (now : ℕ) (reason : String) (om : OrderManager) (k : KillSwitch)
    (after : Option OrderManager) : Type 0 where
  pub blocks : (later : ℕ) → assert_not_halted later k ≡ err (halted reason now)
  pub manager : OrderManager
  pub manager_is : after ≡ some manager
  pub valid : IsValid manager
  pub orders :
      (j : String)
      → lookup j manager.orders
        ≡ map_order (cancelled_form now (String.◌++◌ "KILL_SWITCH: " reason)) (lookup j om.orders)

module _ (b : Broker) where
  -- Triggering the switch, with a valid order manager and any broker behind it, blocks trading from
  -- then on with the reason and the time of the trigger. The order manager stays valid, and each of
  -- its orders is cancelled if VALID_TRANSITIONS allows that, and is otherwise as it was, whatever
  -- the broker answers.
  pub trigger-Halted :
      (now : ℕ) (reason : String) (actor : Option String) (w : Wired b) (om : OrderManager)
      → w.orders ≡ some om
      → IsValid om
      → let w' = (trigger b now reason actor w).1 in Halted now reason om w'.switch w'.orders
  unfolding trigger assert_not_halted
  trigger-Halted now reason actor w om e v = record {
    blocks = λ later. refl;
    manager = all_cancelled now (String.◌++◌ "KILL_SWITCH: " reason) om;
    manager_is = ground arith;
    valid =
        cancel_orders-IsValid now (String.◌++◌ "KILL_SWITCH: " reason) (get_open_orders om) [] om v;
    orders = λ j. all_cancelled-lookup now (String.◌++◌ "KILL_SWITCH: " reason) j om v;
  }

  -- The calls that change the switch.
  pub data Act : Type 0 where
    pull : ℕ → String → Option String → Act
    rearm : ℕ → Credentials → Act
    stand_down : ℕ → Credentials → Act

  unfoldable pub act : Act → Wired b → Wired b
  act (pull now reason actor) w = (trigger b now reason actor w).1
  act (rearm now c) w = record w { switch = (reset now c w.switch).1 }
  act (stand_down now c) w = record w { switch = (disarm now c w.switch).1 }

  unfoldable pub acts : List Act → Wired b → Wired b
  acts [] w = w
  acts (a ∷ rest) w = acts rest (act a w)

  -- Whether a call shows the key, and the key is not empty.
  abbrev pub shows_key : String → Act → Bool
  shows_key key (pull now reason actor) = false
  shows_key key (rearm now c) = not (c.override_key == "") && c.override_key == key
  shows_key key (stand_down now c) = not (c.override_key == "") && c.override_key == key

  abbrev pub any_key : String → List Act → Bool
  any_key key [] = false
  any_key key (a ∷ rest) = shows_key key a || any_key key rest

  act_key : (a : Act) (w : Wired b) → (act a w).switch.override_key ≡ w.switch.override_key
  unfolding act trigger reset disarm
  act_key (pull now reason actor) w = ground arith
  act_key (rearm now c) w = ground arith
  act_key (stand_down now c) w = ground arith

  act_halted :
      (a : Act) (w : Wired b)
      → is_halted w.switch ≡ true
      → shows_key w.switch.override_key a ≡ false
      → is_halted (act a w).switch ≡ true
  unfolding act trigger reset disarm is_halted
  act_halted (pull now reason actor) w h k = ground arith
  act_halted (rearm now c) w h k = ground arith
  act_halted (stand_down now c) w h k = ground arith

  -- A halted switch stays halted through every sequence of triggers, resets and disarms in which no
  -- call shows the override key.
  pub halt_holds :
      (calls : List Act) (w : Wired b)
      → is_halted w.switch ≡ true
      → any_key w.switch.override_key calls ≡ false
      → is_halted (acts calls w).switch ≡ true
  unfolding acts
  halt_holds [] w h k = h
  halt_holds (a ∷ rest) w h k =
      halt_holds rest (act a w) (act_halted a w h (ground arith)) (rw (act_key a w) (ground arith))
