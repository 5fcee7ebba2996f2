-- ===== src/Order/FillEdits.antt =====
-- The edits of `applyFill`: apps/server/src/order-manager/order-manager.ts.
use finance_agent_os.Base.{
  ◌<◌, ◌≡◌, refl, String, eq_iff, lookup, lookup-insert, none, some, Option-cases, arith, inl, inr,
  or_default, Number, ℕ, positive_finite, false, if◌then◌else◌, ◌||◌,
}
use finance_agent_os.Order.Status.{
  is_status, can_transition, is_terminal, pending, submitted, filled, cancelled, rejected, failed,
}
use finance_agent_os.Order.Data.{ManagedOrder, OrderManager, OrderFill}
use finance_agent_os.Order.Manager.{moved, update_status, commit_status}
use finance_agent_os.Order.Fill.{
  filled_order, completed, commit_fill, make_executable, apply_quantity, apply_fill, dedup_key,
}
use finance_agent_os.Order.Invariant.{IsSound, IsValid, Keeps}
use finance_agent_os.Order.Edits.{
  Edit, Outcome, same, edited, own_id, update_status-Outcome, Outcome-IsValid,
}

-- The order that a fill finds: a pending one is submitted first.
abbrev pub executable : ℕ → ManagedOrder → ManagedOrder
executable now o = if is_status o.status pending then moved submitted none now o else o

module _ (now q : ℕ) (fill : OrderFill) (o : ManagedOrder) where
  abbrev pub result : ManagedOrder
  result = completed now (filled_order now q fill o)

  result-Keeps : Keeps o result
  unfolding filled_order completed
  result-Keeps = ground arith

  result_newer : o.version < result.version
  unfolding filled_order completed
  result_newer = ground arith

  result_averaged :
      0 < o.average_fill_price.den → 0 < q → 0 < o.quantity → 0 < result.average_fill_price.den
  unfolding filled_order completed
  result_averaged h p a = grind arith

  result-IsSound : 0 < q → IsSound o → IsSound result
  unfolding filled_order completed
  result-IsSound p s = record {
    capped = ground arith;
    asked = ground arith;
    versioned = ground arith;
    averaged = result_averaged s.averaged p s.asked;
  }

  commit_fill-Edit :
      (key : String) (om : OrderManager)
      → 0 < q
      → is_terminal o.status ≡ false
      → lookup o.id om.orders ≡ some o
      → Edit o result om (commit_fill now q key fill o om)
  unfolding commit_fill
  commit_fill-Edit key om p t at = record {
    found = at;
    keeps = result-Keeps;
    newer = result_newer;
    live = t;
    keeps_sound = result-IsSound p;
    orders_edited = refl;
    clients_same = refl;
    keys_same = refl;
  }

executable_live :
    (now : ℕ) (o : ManagedOrder)
    → is_status o.status filled ≡ false
    → (is_status o.status failed || is_status o.status cancelled || is_status o.status rejected)
      ≡ false
    → is_terminal (executable now o).status ≡ false
unfolding is_terminal is_status moved
executable_live now o h k = ground arith

pub make_executable-lookup :
    (now : ℕ) (id : String) (o : ManagedOrder) (om : OrderManager)
    → o.id ≡ id
    → lookup id om.orders ≡ some o
    → lookup id (make_executable now id o om).orders ≡ some (executable now o)
unfolding make_executable update_status commit_status can_transition is_status
make_executable-lookup now id o om e at =
    ground (arith, lookup-insert o.id id (moved submitted none now o) om.orders, eq_iff o.id id)

make_executable-Outcome :
    (now : ℕ) (id : String) (o : ManagedOrder) (om : OrderManager)
    → IsValid om
    → Outcome om (make_executable now id o om)
unfolding make_executable
make_executable-Outcome now id o om v =
    grind (arith, same, update_status-Outcome now id submitted none om v)

pub positive_finite_pos : (x : Number) (q : ℕ) → positive_finite x ≡ some q → 0 < q
unfolding positive_finite
positive_finite_pos x q h = ground arith

-- The checks passed: the order is submitted if it was pending, and then filled.
fill-Outcome :
    (now q : ℕ) (id key : String) (fill : OrderFill) (o : ManagedOrder) (om : OrderManager)
    → IsValid om
    → lookup id om.orders ≡ some o
    → 0 < q
    → is_terminal (executable now o).status ≡ false
    → let om' = make_executable now id o om in
      Outcome om (commit_fill now q key fill (or_default (lookup id om'.orders) o) om')
fill-Outcome now q id key fill o om v at p t =
    let om' = make_executable now id o om in
    let path = make_executable-Outcome now id o om v in
    let now_at = make_executable-lookup now id o om (v.keyed id o at) at in
    rw now_at (
      edited (executable now o) (result now q fill (executable now o)) path (
        commit_fill-Edit now q fill (executable now o) key om' p t
          (own_id id (executable now o) om' (Outcome-IsValid path v) now_at)))

apply_quantity-Outcome :
    (now : ℕ) (id : String) (fill : OrderFill) (o : ManagedOrder) (om : OrderManager)
    → IsValid om
    → lookup id om.orders ≡ some o
    → is_status o.status filled ≡ false
    → Outcome om (apply_quantity now id fill o om).1
unfolding apply_quantity
apply_quantity-Outcome now id fill o om v at f =
    elim (Option-cases (positive_finite fill.quantity)) [
      | inl bad ↦ rw (bad, apply_quantity) (same refl)
      | inr (q, good) ↦
          rw (good, apply_quantity)
            (grind (
              arith,
              same,
              executable_live now o f,
              fill-Outcome now q id (dedup_key id fill) fill o om v at
                  (positive_finite_pos fill.quantity q good),
            ))
    ]

pub apply_fill-Outcome :
    (now : ℕ) (id : String) (fill : OrderFill) (om : OrderManager)
    → IsValid om
    → Outcome om (apply_fill now id fill om).1
unfolding apply_fill
apply_fill-Outcome now id fill om v = elim (Option-cases (lookup id om.orders)) [
  | inl missing ↦ rw (missing, apply_fill) (same refl)
  | inr (o, at) ↦
      rw (at, apply_fill) (grind (arith, same, apply_quantity-Outcome now id fill o om v at))
]
