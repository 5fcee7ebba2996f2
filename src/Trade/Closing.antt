-- ===== src/Trade/Closing.antt =====
-- What a closed trade has earned: apps/server/src/trade-engine/trade-engine.ts.
use finance_agent_os.Base.{
  ℕ, suc, ◌+◌, ◌*◌, ◌≤◌, ◌≡◌, refl, sym, ap, ◌∙◌, subst, arith, ℤ, pos, negsuc, ◌+ℤ◌, ◌-ℤ◌,
  -ℤ_parts, eq_of_parts, pos_part, neg_part, sub_ℕ, scale, false, ◌==◌, none, some, List, [], ◌∷◌,
  All, lookup,
}
use finance_agent_os.Order.Status.{OrderSide, buy, sell}
use finance_agent_os.Trade.State.{Trade, TradeEngine}
use finance_agent_os.Trade.Engine.{
  new_trade, get_trade_by_order_id, added, pnl_of, closed_trade, close_trade,
}
use finance_agent_os.Trade.Aggregate.{
  Delivery, handle_fills, total_units, total_cost, total_fees, params_of, added_all, ForOrder,
  Stands, HasUnits, handle_fills-Stands,
}

-- What the units bring at the exit price above their cost, or below it for a sale, in thousandths.
abbrev pub gain : OrderSide → ℕ → ℕ → ℕ → ℤ
gain buy exit units cost = sub_ℕ (exit * units * 1000) (cost * 1000)
gain sell exit units cost = sub_ℕ (cost * 1000) (exit * units * 1000)

sub_parts : (a b : ℕ) → pos_part (sub_ℕ a b) + b ≡ neg_part (sub_ℕ a b) + a
sub_parts a b = ground arith

scale_parts :
    (x : ℤ) (k : ℕ) → pos_part (scale x k) + neg_part x * k ≡ neg_part (scale x k) + pos_part x * k
scale_parts (pos n) k = omega arith
scale_parts (negsuc n) k = omega (arith, sub_parts 0 (suc n * k))

scale-sub_ℕ : (a b k : ℕ) → scale (sub_ℕ a b) k ≡ sub_ℕ (a * k) (b * k)
scale-sub_ℕ a b k =
    let e : (pos_part (sub_ℕ a b) + b) * k ≡ (neg_part (sub_ℕ a b) + a) * k =
      ap (λ x. x * k) (sub_parts a b) in
    eq_of_parts (scale (sub_ℕ a b) k) (sub_ℕ (a * k) (b * k))
      (omega (arith, e, scale_parts (sub_ℕ a b) k, sub_parts (a * k) (b * k)))

scale_minus : (x y : ℤ) (k : ℕ) → scale (x -ℤ y) k ≡ scale x k -ℤ scale y k
scale_minus x y k =
    let e = ap (λ n. n * k) (-ℤ_parts x y) in
    eq_of_parts (scale (x -ℤ y) k) (scale x k -ℤ scale y k) (
      omega (
        arith,
        e,
        scale_parts (x -ℤ y) k,
        scale_parts x k,
        scale_parts y k,
        -ℤ_parts (scale x k) (scale y k),
      ))

-- The profit is the gain less the fees, whatever the average price's denominator is.
pnl_of-gain :
    (exit units cost : ℕ) (fees : ℤ) (t : Trade)
    → Stands t units cost fees
    → (pnl_of exit t).num ≡ scale (gain t.side exit units cost -ℤ fees) (pnl_of exit t).den
unfolding pnl_of
pnl_of-gain exit units cost fees t a = go t.side refl
  where
    den : ℕ
    den = t.entry_price.den

    paid : exit * den * (t.quantity * 1000) ≡ exit * units * 1000 * den
    paid = rw (a.sized) (omega arith)

    spent : t.entry_price.num * (t.quantity * 1000) ≡ cost * 1000 * den
    spent = rw (a.sized) (omega (arith, a.averaged))

    bought :
        scale (sub_ℕ (exit * den) t.entry_price.num) (t.quantity * 1000)
        ≡ scale (sub_ℕ (exit * units * 1000) (cost * 1000)) den
    bought =
        scale-sub_ℕ (exit * den) t.entry_price.num (t.quantity * 1000)
        ∙ ap (λ x. sub_ℕ x (t.entry_price.num * (t.quantity * 1000))) paid
        ∙ ap (sub_ℕ (exit * units * 1000 * den)) spent
        ∙ sym (scale-sub_ℕ (exit * units * 1000) (cost * 1000) den)

    sold :
        scale (sub_ℕ t.entry_price.num (exit * den)) (t.quantity * 1000)
        ≡ scale (sub_ℕ (cost * 1000) (exit * units * 1000)) den
    sold =
        scale-sub_ℕ t.entry_price.num (exit * den) (t.quantity * 1000)
        ∙ ap (λ x. sub_ℕ x (exit * den * (t.quantity * 1000))) spent
        ∙ ap (sub_ℕ (cost * 1000 * den)) paid
        ∙ sym (scale-sub_ℕ (cost * 1000) (exit * units * 1000) den)

    go :
        (side : OrderSide)
        → t.side ≡ side
        → (pnl_of exit t).num ≡ scale (gain t.side exit units cost -ℤ fees) (pnl_of exit t).den
    go buy e =
        rw
          (
            e,
            pnl_of,
            bought,
            a.charged,
            scale_minus (sub_ℕ (exit * units * 1000) (cost * 1000)) fees den,
          )
          refl
    go sell e =
        rw
          (
            e,
            pnl_of,
            sold,
            a.charged,
            scale_minus (sub_ℕ (cost * 1000) (exit * units * 1000)) fees den,
          )
          refl

-- What further fills leave of a trade.
pub record Grown (t t' : Trade) : Type 0 where
  pub same_id : t'.id ≡ t.id
  pub same_side : t'.side ≡ t.side
  pub same_open : t'.is_open ≡ t.is_open

pub added_all-Grown : (ds : List Delivery) (t : Trade) → Grown t (added_all ds t)
unfolding added_all added
added_all-Grown [] t = record { same_id = refl; same_side = refl; same_open = refl }
added_all-Grown (d ∷ ds) t =
    let g = added_all-Grown ds (added d.fill t) in
    record { same_id = g.same_id; same_side = g.same_side; same_open = g.same_open }

-- The closed trade, in terms of the fills it was made of.
pub record Realized (exit : ℕ) (fee : ℤ) (side : OrderSide) (ds : List Delivery) (t : Trade)
    : Type 0 where
  pub closed : t.is_open ≡ false
  pub sized : t.quantity ≡ total_units ds
  pub charged : t.fees ≡ total_fees ds +ℤ fee
  pub divided : 1 ≤ t.pnl.den
  pub earned :
      t.pnl.num
      ≡ scale (gain side exit (total_units ds) (total_cost ds) -ℤ (total_fees ds +ℤ fee)) t.pnl.den

pub closed_trade-Realized :
    (now exit : ℕ) (fee : ℤ) (ds : List Delivery) (t : Trade)
    → Stands t (total_units ds) (total_cost ds) (total_fees ds)
    → Realized exit fee t.side ds (closed_trade now exit fee t)
unfolding closed_trade pnl_of
closed_trade-Realized now exit fee ds t a =
    let charged = ap (λ x. x +ℤ fee) a.charged in
    let t' : Trade = record t {
      exit_price = some exit;
      fees = t.fees +ℤ fee;
      closed_at = some now;
      is_open = false;
      version = t.version + 1;
    } in
    let b : Stands t' (total_units ds) (total_cost ds) (total_fees ds +ℤ fee) = record {
      sized = a.sized;
      averaged = a.averaged;
      charged = charged;
      divided = a.divided;
    } in
    record {
      closed = refl;
      sized = a.sized;
      charged = charged;
      divided = a.divided;
      earned = pnl_of-gain exit (total_units ds) (total_cost ds) (total_fees ds +ℤ fee) t' b;
    }

-- An order's fills make one trade of all their units; when it is closed, its profit is what the units
-- bring at the exit price less what they cost, or the reverse for a sale, less the fees of the fills
-- and of the closing. The order is taken to have no trade before, the new trade's id not to be empty,
-- and every further fill to have units.
pub profit_of_fills :
    (now exit : ℕ) (fee : ℤ) (d : Delivery) (ds : List Delivery) (s : TradeEngine)
    → get_trade_by_order_id d.fill.order_id s ≡ none
    → (d.uuid == "") ≡ false
    → All (ForOrder d.fill.order_id) ds
    → All HasUnits ds
    → (t : Trade) × ((close_trade now d.uuid exit fee (handle_fills (d ∷ ds) s)).0 ≡ some t)
      × Realized exit fee d.fill.side (d ∷ ds) t
unfolding close_trade
profit_of_fills now exit fee d ds s e n o h =
    let t0 = new_trade d.time d.uuid (params_of d.fill) in
    let t = added_all ds t0 in
    let (l, a) = handle_fills-Stands d ds s e n o h in
    let g = added_all-Grown ds t0 in
    let at : lookup d.uuid (handle_fills (d ∷ ds) s).trades ≡ some t =
      ap (λ x. lookup x (handle_fills (d ∷ ds) s).trades) (sym g.same_id) ∙ l.stored in
    (
      closed_trade now exit fee t,
      rw (at, close_trade, g.same_open) refl,
      subst (λ x. Realized exit fee x (d ∷ ds) (closed_trade now exit fee t)) g.same_side
          (closed_trade-Realized now exit fee (d ∷ ds) t a),
    )
