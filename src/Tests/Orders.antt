-- ===== src/Tests/Orders.antt =====
-- Runs of the order manager.
use finance_agent_os.Base.{◌≡◌, refl, lookup, insert, trim, positive_finite, none, some, inl, arith}
use finance_agent_os.Order.Status.{
  submitted, filled, failed, pending, is_status, can_transition, is_terminal,
}
use finance_agent_os.Order.Data.{ManagedOrder, OrderManager}
use finance_agent_os.Order.Manager.{
  register, create_order, update_status, reject_order, retry_order,
}
use finance_agent_os.Order.Fill.{apply_fill, apply_quantity}
use finance_agent_os.Order.Invariant.{IsValid}
use finance_agent_os.Order.History.{
  create, cancel, retry, reject, fill, attempt, call, Run, here, step, Run-IsValid, terminal_final,
  duplicate_free,
}
use finance_agent_os.Order.Answers.{Reached, refused_unchanged, answered-Reached}
use finance_agent_os.Order.Fills.{fill_once}
use finance_agent_os.Order.FillEffects.{Filled, apply_fill-Filled}
use finance_agent_os.Order.Retry.{create_order_retry}
use finance_agent_os.Tests.Data.{
  order_in, holding, holding-IsValid, holding-lookup, part_fill, env, params,
}

-- A creation, a fill and a cancellation.
abbrev after_calls : OrderManager
after_calls =
    call (cancel 9 "o1" none)
      (call (fill 6 "o1" part_fill) (call (create env params) (holding submitted)))

abbrev three_calls : Run (holding submitted) after_calls
three_calls =
    step (cancel 9 "o1" none)
      (step (fill 6 "o1" part_fill)
        (step (create env params) (here (holding submitted)) no_order_yet) tt)
      tt
  where
    no_order_yet : lookup "o2" (holding submitted).orders ≡ none
    no_order_yet = unfold register lookup insert in refl

Run-IsValid_example : IsValid after_calls
Run-IsValid_example = Run-IsValid three_calls (holding-IsValid submitted)

-- A fill and a rejection of an order that is FILLED.
abbrev late_calls :
    Run
      (holding filled)
      (call (reject 9 "o1" "late") (call (fill 6 "o1" part_fill) (holding filled)))
late_calls =
    step (reject 9 "o1" "late") (step (fill 6 "o1" part_fill) (here (holding filled)) tt) tt

late_lookup :
    lookup "o1" (call (reject 9 "o1" "late") (call (fill 6 "o1" part_fill) (holding filled))).orders
    ≡ some (order_in filled)
unfolding call attempt apply_fill reject_order register lookup insert is_terminal is_status
late_lookup = refl

terminal_final_example :
    lookup "o1" (call (reject 9 "o1" "late") (call (fill 6 "o1" part_fill) (holding filled))).orders
    ≡ some (order_in filled)
unfolding is_terminal is_status
terminal_final_example =
    terminal_final "o1" (order_in filled) late_calls (holding-IsValid filled)
      (holding-lookup filled) refl

duplicate_free_example : order_in filled ≡ order_in filled
duplicate_free_example =
    duplicate_free "o1" "o1" (order_in filled) (order_in filled) late_calls (holding-IsValid filled)
      late_lookup late_lookup (inl refl)

refused_unchanged_example : (attempt (retry 9 "o1") (holding submitted)).1 ≡ holding submitted
unfolding attempt retry_order register lookup insert is_status
refused_unchanged_example = refused_unchanged (retry 9 "o1") (holding submitted) refl

answered-Reached_example :
    Reached "o1" pending (holding failed) (attempt (retry 9 "o1") (holding failed)).1
unfolding attempt retry_order update_status register lookup insert is_status can_transition
answered-Reached_example =
    answered-Reached (retry 9 "o1") "o1" pending (holding failed) (holding-IsValid failed) refl refl

fill_once_example :
    (apply_fill 8 "o1" part_fill (apply_fill 6 "o1" part_fill (holding submitted)).1).1
    ≡ (apply_fill 6 "o1" part_fill (holding submitted)).1
fill_once_example = fill_once 6 8 "o1" part_fill (holding submitted)

apply_fill-Filled_example :
    (o' : ManagedOrder) × (lookup "o1" (apply_fill 6 "o1" part_fill (holding submitted)).1.orders
      ≡ some o')
    × Filled 4 0 part_fill (order_in submitted) o'
unfolding apply_fill apply_quantity positive_finite register lookup insert is_status trim
apply_fill-Filled_example =
    apply_fill-Filled 6 4 0 "o1" part_fill (order_in submitted) (holding submitted)
      (holding-IsValid submitted) (holding-lookup submitted) refl refl (omega arith) refl refl

create_order_retry_example :
    let r = create_order env params (holding submitted) in create_order env params r.1 ≡ r
unfolding trim
create_order_retry_example = create_order_retry env env params (holding submitted) "c7" refl refl
