-- ===== src/Safety/Shutdown.antt =====
-- A graceful shutdown: apps/server/src/safety/lifecycle-manager.ts.
use finance_agent_os.Base.{
  ℕ, ◌≡◌, refl, Bool, true, false, String, lookup, Option, none, some, List, [], ◌∷◌, ◌++◌, length,
  length-append, arith, or_default,
}
use finance_agent_os.Order.Data.{ManagedOrder, OrderManager}
use finance_agent_os.Order.Manager.{cancel_order}
use finance_agent_os.Order.Fill.{get_open_orders}
use finance_agent_os.Order.Invariant.{IsValid}
use finance_agent_os.Safety.Cancel.{Broker, cancel_orders}
use finance_agent_os.Safety.CancelAll.{
  all_cancelled, all_cancelled-lookup, cancelled_form, map_order,
}
use finance_agent_os.Safety.Lifecycle.{
  Lifecycle, count_cancelled, graceful_shutdown, is_accepting_orders, draining, stopped,
  cancel_open,
}

-- The shutdown's loop and the kill switch's loop do the same; the one counts, the other lists.
pub count_cancelled-eq-cancel_orders :
    (now : ℕ) (reason : String) (os : List ManagedOrder) (done : List String) (om : OrderManager)
    → count_cancelled now reason os (length done) om
      ≡ (let (ids, om') = cancel_orders now reason os done om in (length ids, om'))
unfolding count_cancelled cancel_orders
count_cancelled-eq-cancel_orders now reason [] done om = refl
count_cancelled-eq-cancel_orders now reason (o ∷ os) done om =
    let om' = (cancel_order now o.id (some reason) om).1 in
    ground (
      arith,
      count_cancelled-eq-cancel_orders now reason os (done ++ o.id ∷ []) om',
      count_cancelled-eq-cancel_orders now reason os done om',
      length-append done (o.id ∷ []),
    )

-- The order manager, where there is one, is valid.
abbrev pub ValidOrders : Option OrderManager → Type 0
ValidOrders none = Unit
ValidOrders (some om) = IsValid om

-- The order manager after a shutdown: the same without automatic cancellation, otherwise with every
-- order cancelled if VALID_TRANSITIONS allows that.
abbrev pub OrdersAfter : ℕ → String → Bool → Option OrderManager → Option OrderManager → Type 0
OrdersAfter now reason false orders orders' = orders' ≡ orders
OrdersAfter now reason true none orders' = orders' ≡ none
OrdersAfter now reason true (some om) orders' =
    (om' : OrderManager) × (orders' ≡ some om')
    × ((j : String)
        → lookup j om'.orders ≡ map_order (cancelled_form now reason) (lookup j om.orders))

module _ (b : Broker) where
  orders_after :
      (now : ℕ) (reason : String) (l : Lifecycle b) (auto : Bool) (orders : Option OrderManager)
      → l.auto_cancel ≡ auto
      → l.orders ≡ orders
      → ValidOrders orders
      → OrdersAfter now reason auto orders (cancel_open b now reason l).1.orders
  unfolding cancel_open
  orders_after now reason l false orders a e v = rw (a, cancel_open) e
  orders_after now reason l true none a e v = rw (a, cancel_open, e) refl
  orders_after now reason l true (some om) a e v =
      let same = count_cancelled-eq-cancel_orders now reason (get_open_orders om) [] om in
      (
        all_cancelled now reason om,
        ground (arith, a, e, same),
        λ j. all_cancelled-lookup now reason j om v,
      )

  -- A graceful shutdown ends STOPPED and refuses orders, whether or not the operations in flight
  -- settle in time; it calls every cleanup handler, in the order of their registration. Without
  -- automatic cancellation the order manager stays as it is. With it every order of the order manager,
  -- if there is one, is cancelled if VALID_TRANSITIONS allows that and is otherwise as it was. The
  -- order manager, if there is one, is taken to be valid.
  pub shutdown_stops :
      (started ended : ℕ) (given : Option String) (settles : ℕ → Bool) (l : Lifecycle b)
      → ValidOrders l.orders
      → let l' = (graceful_shutdown b started ended given settles l).1 in
        (is_accepting_orders b l' ≡ false)
        × (l'.state ≡ stopped)
        × (l'.ran ≡ l.ran ++ l.cleanup_handlers)
        × OrdersAfter started
            (or_default given "GRACEFUL_SHUTDOWN")
            l.auto_cancel
            l.orders
            l'.orders
  unfolding graceful_shutdown is_accepting_orders cancel_open
  shutdown_stops started ended given settles l v = (
    ground arith,
    ground arith,
    ground arith,
    orders_after started (or_default given "GRACEFUL_SHUTDOWN") (record l { state = draining })
        l.auto_cancel l.orders refl refl v,
  )
