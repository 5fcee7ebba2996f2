-- ===== src/Trade/Aggregate.antt =====
-- The fills of one order, in turn: apps/server/src/trade-engine/trade-engine.ts.
use finance_agent_os.Base.{
  ℕ, ◌+◌, ◌*◌, ◌≤◌, ◌≡◌, refl, sym, ap, subst, arith, ℤ, pos, ◌+ℤ◌, +ℤ_parts, eq_of_parts, false,
  String, ◌==◌, eq_refl, none, some, or_default, List, [], ◌∷◌, All, lookup, lookup-insert,
}
use native.Mathlib.Nat.{mul-pos}
use finance_agent_os.Trade.State.{Trade, TradeEngine, AppliedFill, TradeParams}
use finance_agent_os.Trade.Engine.{new_trade, get_trade_by_order_id, open_trade, added, handle_fill}

pub record Delivery : Type 0 where
  pub time : ℕ
  pub uuid : String
  pub fill : AppliedFill

unfoldable pub handle_fills : List Delivery → TradeEngine → TradeEngine
handle_fills [] s = s
handle_fills (d ∷ ds) s = handle_fills ds (handle_fill d.time d.uuid d.fill s)

-- What the fills add up to: the units, what they cost, and the fees.
unfoldable pub total_units : List Delivery → ℕ
total_units [] = 0
total_units (d ∷ ds) = d.fill.quantity + total_units ds

unfoldable pub total_cost : List Delivery → ℕ
total_cost [] = 0
total_cost (d ∷ ds) = d.fill.price * d.fill.quantity + total_cost ds

unfoldable pub total_fees : List Delivery → ℤ
total_fees [] = pos 0
total_fees (d ∷ ds) = or_default d.fill.fee (pos 0) +ℤ total_fees ds

-- The order's trade is known under the order's id.
pub record Linked (order : String) (t : Trade) (s : TradeEngine) : Type 0 where
  pub by_order : lookup order s.trades_by_order ≡ some t.id
  pub named : (t.id == "") ≡ false
  pub stored : lookup t.id s.trades ≡ some t

pub Linked-found :
    (order : String) (t : Trade) (s : TradeEngine)
    → Linked order t s
    → get_trade_by_order_id order s ≡ some t
unfolding get_trade_by_order_id
Linked-found order t s l = ground (arith, l.by_order, l.named, l.stored)

pub handle_fill-Linked :
    (now : ℕ) (uuid : String) (f : AppliedFill) (t : Trade) (s : TradeEngine)
    → Linked f.order_id t s
    → Linked f.order_id (added f t) (handle_fill now uuid f s)
unfolding handle_fill added
handle_fill-Linked now uuid f t s l =
    rw (Linked-found f.order_id t s l, handle_fill)
      (record {
        by_order = l.by_order;
        named = l.named;
        stored = ground (arith, lookup-insert t.id t.id (added f t) s.trades, eq_refl t.id);
      })

abbrev pub params_of : AppliedFill → TradeParams
params_of f = record {
  symbol = f.symbol;
  strategy = "default";
  side = f.side;
  entry_price = f.price;
  quantity = f.quantity;
  fees = or_default f.fee (pos 0);
  order_id = f.order_id;
  client_order_id = f.client_order_id;
  correlation_id = f.correlation_id;
}

first_fill-Linked :
    (now : ℕ) (uuid : String) (f : AppliedFill) (s : TradeEngine)
    → get_trade_by_order_id f.order_id s ≡ none
    → (uuid == "") ≡ false
    → Linked f.order_id (new_trade now uuid (params_of f)) (handle_fill now uuid f s)
unfolding handle_fill open_trade
first_fill-Linked now uuid f s e n =
    let t = new_trade now uuid (params_of f) in
    rw (e, handle_fill)
      (rw (e, open_trade)
        (record {
          by_order = ground (
            arith,
            lookup-insert f.order_id f.order_id uuid s.trades_by_order,
            eq_refl f.order_id,
          );
          named = n;
          stored = ground (arith, lookup-insert uuid uuid t s.trades, eq_refl uuid);
        }))

-- The trade behind further fills.
unfoldable pub added_all : List Delivery → Trade → Trade
added_all [] t = t
added_all (d ∷ ds) t = added_all ds (added d.fill t)

abbrev pub ForOrder : String → Delivery → Type 0
ForOrder order d = d.fill.order_id ≡ order

handle_fills-Linked :
    (order : String) (ds : List Delivery) (t : Trade) (s : TradeEngine)
    → All (ForOrder order) ds
    → Linked order t s
    → Linked order (added_all ds t) (handle_fills ds s)
unfolding added_all handle_fills
handle_fills-Linked order [] t s a l = l
handle_fills-Linked order (d ∷ ds) t s (e, a) l =
    handle_fills-Linked order ds (added d.fill t) _ a (
      subst (λ o. Linked o (added d.fill t) (handle_fill d.time d.uuid d.fill s)) e
        (handle_fill-Linked d.time d.uuid d.fill t s (subst (λ o. Linked o t s) (sym e) l)))

-- The trade stands for `units` bought or sold at a cost of `cost`, with `fees`.
pub record Stands (t : Trade) (units cost : ℕ) (fees : ℤ) : Type 0 where
  pub sized : t.quantity ≡ units
  pub averaged : t.entry_price.num * units ≡ cost * t.entry_price.den
  pub charged : t.fees ≡ fees
  pub divided : 1 ≤ t.entry_price.den

pub added-Stands :
    (f : AppliedFill) (t : Trade) (units cost : ℕ) (fees : ℤ)
    → 1 ≤ f.quantity
    → Stands t units cost fees
    → Stands
        (added f t)
        (units + f.quantity)
        (cost + f.price * f.quantity)
        (fees +ℤ or_default f.fee (pos 0))
unfolding added
added-Stands f t units cost fees some_left a = record {
  sized = ap (λ x. x + f.quantity) a.sized;
  averaged = rw (a.sized, a.averaged) (omega arith);
  charged = ap (λ x. x +ℤ or_default f.fee (pos 0)) a.charged;
  divided = omega (
    arith,
    mul-pos {m = t.entry_price.den} {n = t.quantity + f.quantity} (omega (arith, a.divided))
        (omega (arith, some_left)),
  );
}

+ℤ_assoc : (a b c : ℤ) → a +ℤ b +ℤ c ≡ a +ℤ (b +ℤ c)
+ℤ_assoc a b c =
    eq_of_parts (a +ℤ b +ℤ c) (a +ℤ (b +ℤ c))
      (omega (arith, +ℤ_parts a b, +ℤ_parts (a +ℤ b) c, +ℤ_parts b c, +ℤ_parts a (b +ℤ c)))

+ℤ_pos_0 : (a : ℤ) → a +ℤ pos 0 ≡ a
+ℤ_pos_0 a = eq_of_parts (a +ℤ pos 0) a (omega (arith, +ℤ_parts a (pos 0)))

pub restate :
    {t : Trade} {u v c d : ℕ} {x y : ℤ} → u ≡ v → c ≡ d → x ≡ y → Stands t u c x → Stands t v d y
restate e f g a = rw (← e, ← f, ← g) a

abbrev pub HasUnits : Delivery → Type 0
HasUnits d = 1 ≤ d.fill.quantity

added_all-Stands :
    (ds : List Delivery) (t : Trade) (units cost : ℕ) (fees : ℤ)
    → All HasUnits ds
    → Stands t units cost fees
    → Stands
        (added_all ds t)
        (units + total_units ds)
        (cost + total_cost ds)
        (fees +ℤ total_fees ds)
unfolding added_all total_units total_cost total_fees
added_all-Stands [] t units cost fees h a =
    restate (omega arith) (omega arith) (sym (+ℤ_pos_0 fees)) a
added_all-Stands (d ∷ ds) t units cost fees (h, hs) a =
    let one = added-Stands d.fill t units cost fees h a in
    restate (omega arith) (omega arith) (+ℤ_assoc fees _ _)
      (added_all-Stands ds (added d.fill t) _ _ _ hs one)

new_trade-Stands :
    (now : ℕ) (uuid : String) (f : AppliedFill)
    → Stands
        (new_trade now uuid (params_of f))
        f.quantity
        (f.price * f.quantity)
        (or_default f.fee (pos 0))
new_trade-Stands now uuid f = record {
  sized = refl;
  averaged = omega arith;
  charged = refl;
  divided = omega arith;
}

-- The trade behind the first fill of an order and further fills of it.
pub handle_fills-Stands :
    (d : Delivery) (ds : List Delivery) (s : TradeEngine)
    → get_trade_by_order_id d.fill.order_id s ≡ none
    → (d.uuid == "") ≡ false
    → All (ForOrder d.fill.order_id) ds
    → All HasUnits ds
    → let t = added_all ds (new_trade d.time d.uuid (params_of d.fill)) in
      Linked d.fill.order_id t (handle_fills (d ∷ ds) s)
      × Stands t (total_units (d ∷ ds)) (total_cost (d ∷ ds)) (total_fees (d ∷ ds))
unfolding handle_fills total_units total_cost total_fees
handle_fills-Stands d ds s e n o h = (
  handle_fills-Linked d.fill.order_id ds _ _ o (first_fill-Linked d.time d.uuid d.fill s e n),
  added_all-Stands ds _ d.fill.quantity (d.fill.price * d.fill.quantity)
      (or_default d.fill.fee (pos 0)) h (new_trade-Stands d.time d.uuid d.fill),
)
