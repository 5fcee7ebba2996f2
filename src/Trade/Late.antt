-- ===== src/Trade/Late.antt =====
-- Fills that come for a closed trade: apps/server/src/trade-engine/trade-engine.ts.
use finance_agent_os.Base.{
  ℕ, ◌+◌, ◌≤◌, ◌≡◌, sym, ap, subst, arith, ℤ, ◌+ℤ◌, ◌-ℤ◌, scale, true, false, String, ◌==◌, eq_refl,
  none, some, List, [], ◌∷◌, All, lookup-insert,
}
use finance_agent_os.Trade.State.{Trade, TradeEngine}
use finance_agent_os.Trade.Engine.{
  new_trade, get_trade_by_order_id, added, handle_fill, closed_trade, close_trade,
}
use finance_agent_os.Trade.Aggregate.{
  Delivery, handle_fills, total_units, total_cost, total_fees, params_of, added_all, ForOrder,
  HasUnits, Stands, Linked, Linked-found, handle_fill-Linked, handle_fills-Stands,
}
use finance_agent_os.Trade.Closing.{gain, added_all-Grown, Realized, closed_trade-Realized}

close_trade-Linked :
    (now exit : ℕ) (fee : ℤ) (order : String) (t : Trade) (s : TradeEngine)
    → Linked order t s
    → t.is_open ≡ true
    → Linked order (closed_trade now exit fee t) (close_trade now t.id exit fee s).1
unfolding close_trade closed_trade
close_trade-Linked now exit fee order t s l o =
    rw (l.stored, close_trade, o)
      (record {
        by_order = l.by_order;
        named = l.named;
        stored =
            ground
              (arith, lookup-insert t.id t.id (closed_trade now exit fee t) s.trades, eq_refl t.id);
      })

-- The closed trade of the fills `ds`, which has the units of the late fill too.
pub record Unpaid (exit : ℕ) (fee : ℤ) (ds : List Delivery) (late : Delivery) (t : Trade)
    : Type 0 where
  pub closed : t.is_open ≡ false
  pub sized : t.quantity ≡ total_units ds + late.fill.quantity
  pub divided : 1 ≤ t.pnl.den
  pub earned :
      t.pnl.num
      ≡ scale
          (gain t.side exit (total_units ds) (total_cost ds) -ℤ (total_fees ds +ℤ fee))
          t.pnl.den

added-Unpaid :
    (exit : ℕ) (fee : ℤ) (ds : List Delivery) (late : Delivery) (t : Trade)
    → Realized exit fee t.side ds t
    → Unpaid exit fee ds late (added late.fill t)
unfolding added
added-Unpaid exit fee ds late t r = record {
  closed = r.closed;
  sized = ap (λ n. n + late.fill.quantity) r.sized;
  divided = r.divided;
  earned = r.earned;
}

late_found :
    (order : String) (late : Delivery) (t : Trade) (s : TradeEngine)
    → late.fill.order_id ≡ order
    → Linked order t s
    → get_trade_by_order_id order (handle_fill late.time late.uuid late.fill s)
      ≡ some (added late.fill t)
late_found order late t s same l =
    let s' = handle_fill late.time late.uuid late.fill s in
    subst (λ x. get_trade_by_order_id x s' ≡ some (added late.fill t)) same
      (Linked-found late.fill.order_id (added late.fill t) s' (
        handle_fill-Linked late.time late.uuid late.fill t s
          (subst (λ x. Linked x t s) (sym same) l)))

-- A fill of an order that comes when the order's trade was closed is not paid for: the order's trade
-- stays closed and has the units of all the fills, but its profit is what the fills before the
-- closing earned. The order is taken to have no trade before its first fill, the new trade's id not
-- to be empty, and every further fill before the closing to have units.
pub late_fill-Unpaid :
    (now exit : ℕ) (fee : ℤ) (d : Delivery) (ds : List Delivery) (late : Delivery) (s : TradeEngine)
    → get_trade_by_order_id d.fill.order_id s ≡ none
    → (d.uuid == "") ≡ false
    → All (ForOrder d.fill.order_id) (late ∷ ds)
    → All HasUnits ds
    → let s' = (close_trade now d.uuid exit fee (handle_fills (d ∷ ds) s)).1 in
      (t : Trade) × (get_trade_by_order_id d.fill.order_id (handle_fills (late ∷ []) s') ≡ some t)
      × Unpaid exit fee (d ∷ ds) late t
unfolding handle_fills
late_fill-Unpaid now exit fee d ds late s e n (same, o) h =
    let t = added_all ds (new_trade d.time d.uuid (params_of d.fill)) in
    let (l, a) = handle_fills-Stands d ds s e n o h in
    let g = added_all-Grown ds (new_trade d.time d.uuid (params_of d.fill)) in
    let shut : TradeEngine = (close_trade now d.uuid exit fee (handle_fills (d ∷ ds) s)).1 in
    let l' : Linked d.fill.order_id (closed_trade now exit fee t) shut =
      subst
        (λ x.
          Linked d.fill.order_id (closed_trade now exit fee t)
            (close_trade now x exit fee (handle_fills (d ∷ ds) s)).1)
        g.same_id
        (close_trade-Linked now exit fee d.fill.order_id t (handle_fills (d ∷ ds) s) l
          g.same_open) in
    (
      added late.fill (closed_trade now exit fee t),
      late_found d.fill.order_id late (closed_trade now exit fee t) shut same l',
      added-Unpaid exit fee (d ∷ ds) late (closed_trade now exit fee t)
          (kept_side now exit fee d ds t a),
    )
  where
    kept_side :
        (now exit : ℕ) (fee : ℤ) (d : Delivery) (ds : List Delivery) (t : Trade)
        → Stands t (total_units (d ∷ ds)) (total_cost (d ∷ ds)) (total_fees (d ∷ ds))
        → Realized exit fee
            (closed_trade now exit fee t).side
            (d ∷ ds)
            (closed_trade now exit fee t)
    kept_side now exit fee d ds t a =
        unfold closed_trade in closed_trade-Realized now exit fee (d ∷ ds) t a
