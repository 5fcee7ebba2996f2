-- ===== src/Tests/Safety.antt =====
-- Runs of the kill switch, the shutdown and the hard limits.
use finance_agent_os.Base.{
  ℕ, ◌+◌, ◌≡◌, ◌↔◌, refl, ◌++◌, String, ◌==◌, eqb, to_upper, Bool, none, some, List, [], ◌∷◌,
  lookup, insert, true, false, ◌+ℤ◌, ◌-ℤ◌, pos, finite, arith, positive_finite,
}
use finance_agent_os.Order.Status.{
  buy, failed, submitted, is_open, can_transition, is_status, is_terminal,
}
use finance_agent_os.Order.Manager.{register, cancel_order, update_status}
use finance_agent_os.Order.Fill.{get_open_orders}
use finance_agent_os.Safety.Cancel.{Broker, Answer, accepted, threw, cancel_orders}
use finance_agent_os.Safety.CancelAll.{still_open}
use finance_agent_os.Safety.KillSwitch.{Wired, triggered, fresh_switch, trigger, is_halted}
use finance_agent_os.Safety.Halting.{
  Halted, trigger-Halted, Act, pull, rearm, stand_down, acts, halt_holds,
}
use finance_agent_os.Safety.Lifecycle.{
  Lifecycle, running, stopped, graceful_shutdown, is_accepting_orders,
}
use finance_agent_os.Safety.Shutdown.{OrdersAfter, shutdown_stops}
use finance_agent_os.Safety.HardLimits.{
  default_hard_limits, OrderRequest, project, project_at, projected_quantity, gross_exposure,
  violations, evaluate, find_position,
}
use finance_agent_os.Safety.Exposure.{exposure_exact, others}
use finance_agent_os.Safety.Admission.{IsAdmissible, evaluate-IsAdmissible_iff}
use finance_agent_os.Safety.Monotone.{smaller_buy_allowed, IsLong}
use finance_agent_os.Tests.Data.{order_in, holding, holding-IsValid}

-- A broker that counts the cancellations, and fails on the order x.
abbrev pub counting : Broker
counting = record {
  State = ℕ;
  open_ids = λ n. some ("b1" ∷ "x" ∷ "b2" ∷ []);
  cancel = λ id reason n. (if_x id, n + 1);
}
  where
    if_x : String → Answer
    if_x id = elim (id == "x") [ true ↦ threw | false ↦ accepted ]

still_open_example :
    (failed ≡ failed) × (lookup "o1" (holding failed).orders ≡ some (order_in failed))
unfolding cancel_orders get_open_orders cancel_order register lookup insert is_open is_status
    is_terminal update_status can_transition
still_open_example =
    still_open 7 "halt" "o1" (order_in failed) (holding failed) (holding-IsValid failed) refl refl

abbrev pub wired : Wired counting
wired = record {
  switch = fresh_switch true "secret";
  orders = some (holding submitted);
  broker = some 0;
}

trigger-Halted_example :
    let w' = (trigger counting 7 "loss" none wired).1 in
    Halted 7 "loss" (holding submitted) w'.switch w'.orders
trigger-Halted_example =
    trigger-Halted counting 7 "loss" none wired (holding submitted) refl (holding-IsValid submitted)

abbrev halted_wired : Wired counting
halted_wired = record wired { switch = record (fresh_switch true "secret") { state = triggered } }

-- A reset with a wrong key, another trigger, and a disarming without a key.
abbrev wrong_calls : List (Act counting)
wrong_calls =
    rearm 8 (record { override_key = "guess"; reason = "please"; actor = none })
    ∷ pull 9 "again" (some "desk")
    ∷ stand_down 10 (record { override_key = ""; reason = "please"; actor = none })
    ∷ []

halt_holds_example : is_halted (acts counting wrong_calls halted_wired).switch ≡ true
unfolding is_halted fresh_switch
halt_holds_example = halt_holds counting wrong_calls halted_wired refl refl

abbrev started_system : Lifecycle counting
started_system = record {
  state = running;
  auto_cancel = true;
  has_bus = true;
  orders = some (holding submitted);
  broker = some 0;
  kill_switch = none;
  inflight = 1 ∷ 2 ∷ [];
  cleanup_handlers = 1 ∷ 2 ∷ [];
  ran = [];
  published = [];
}

-- Only the first operation in flight settles in time.
abbrev settles : ℕ → Bool
settles n = eqb n 1

shutdown_stops_example :
    let l' = (graceful_shutdown counting 7 9 none settles started_system).1 in
    (is_accepting_orders counting l' ≡ false)
    × (l'.state ≡ stopped)
    × (l'.ran ≡ [] ++ 1 ∷ 2 ∷ [])
    × OrdersAfter 7 "GRACEFUL_SHUTDOWN" true (some (holding submitted)) l'.orders
shutdown_stops_example =
    shutdown_stops counting 7 9 none settles started_system (holding-IsValid submitted)

-- A buy of two units at 100, with a position in another symbol.
abbrev small_buy : OrderRequest
small_buy = record {
  symbol = "btcusdt";
  side = buy;
  quantity = finite (pos 2);
  price = finite (pos 100);
  current_positions = record { symbol = "ETHUSDT"; quantity = pos 3; current_price = pos 50 } ∷ [];
  current_open_orders = 1;
  current_daily_loss = pos 0;
  current_daily_orders = 1;
  account_equity = pos 1000000;
}

evaluate-IsAdmissible_iff_example :
    ((evaluate default_hard_limits small_buy).allowed ≡ true)
    ↔ IsAdmissible default_hard_limits small_buy
evaluate-IsAdmissible_iff_example = evaluate-IsAdmissible_iff default_hard_limits small_buy

exposure_exact_example :
    (project small_buy 2 100).exposure
    ≡ (project small_buy 2 100).symbol_notional + others "btcusdt" small_buy.current_positions
unfolding find_position
exposure_exact_example = exposure_exact small_buy 2 100 (refl, tt)

small_buy-IsLong : IsLong small_buy
unfolding find_position to_upper
small_buy-IsLong p h = absurd (cc)

small_buy_allowed : (evaluate default_hard_limits small_buy).allowed ≡ true
unfolding evaluate violations project project_at projected_quantity gross_exposure find_position
    positive_finite to_upper ◌+ℤ◌ ◌-ℤ◌
small_buy_allowed = refl

smaller_buy_allowed_example :
    (evaluate default_hard_limits (record small_buy { quantity = finite (pos 1) })).allowed ≡ true
unfolding positive_finite
smaller_buy_allowed_example =
    smaller_buy_allowed default_hard_limits small_buy 1 2 (finite (pos 1)) refl small_buy-IsLong
      refl refl (omega arith) small_buy_allowed
