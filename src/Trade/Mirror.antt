-- ===== src/Trade/Mirror.antt =====
-- The order manager's fills in the trade engine: apps/server/src/order-manager/order-manager.ts and
-- trade-engine/trade-engine.ts.
use finance_agent_os.Base.{
  ℕ, ◌+◌, ◌*◌, ◌≤◌, ◌≡◌, refl, sym, subst, ◌∙◌, arith, ℤ, pos, or_default, ◌+ℤ◌, true, false,
  String, ◌==◌, includes, some, ◌∷◌, lookup, positive_finite,
}
use finance_agent_os.Order.Data.{ManagedOrder, OrderManager, OrderFill}
use finance_agent_os.Order.Fill.{apply_fill, dedup_key}
use finance_agent_os.Order.Invariant.{IsValid}
use finance_agent_os.Order.Edits.{Outcome-IsValid}
use finance_agent_os.Order.FillEdits.{apply_fill-Outcome, positive_finite_pos}
use finance_agent_os.Order.Fills.{HasCost}
use finance_agent_os.Order.FillEffects.{Filled, apply_fill-Filled}
use finance_agent_os.Trade.State.{Trade, TradeEngine, FillEvent, AppliedFill}
use finance_agent_os.Trade.Engine.{Print, applied_fill, fill_key, added, on_fill_applied}
use finance_agent_os.Trade.Aggregate.{Linked, handle_fill-Linked, Stands, added-Stands, restate}

-- The data that `applyFill` publishes of a fill, on the order behind it.
unfoldable pub fill_event : ManagedOrder → OrderFill → FillEvent
fill_event o f = record {
  order_id = some o.id;
  client_order_id = some o.client_order_id;
  symbol = some o.symbol;
  side = some o.side;
  quantity = positive_finite f.quantity;
  price = some f.price;
  fee = f.fee;
  correlation_id = some o.correlation_id;
  version = some o.version;
  timestamp = some f.timestamp;
}

abbrev pub fill_of : ℕ → ManagedOrder → OrderFill → AppliedFill
fill_of q o f = record {
  order_id = o.id;
  client_order_id = some o.client_order_id;
  symbol = o.symbol;
  side = o.side;
  quantity = q;
  price = f.price;
  fee = f.fee;
  correlation_id = some o.correlation_id;
}

fill_event-applied :
    (q : ℕ) (o : ManagedOrder) (f : OrderFill)
    → (o.id == "") ≡ false
    → (o.symbol == "") ≡ false
    → positive_finite f.quantity ≡ some q
    → applied_fill (fill_event o f) ≡ some (fill_of q o f)
unfolding applied_fill fill_event
fill_event-applied q o f i s e = rw (i, applied_fill, s, e) refl

delivered-Stands :
    (p : Print) (now q units cost : ℕ) (fees : ℤ) (uuid : String) (o : ManagedOrder) (f : OrderFill)
    (t : Trade) (s : TradeEngine)
    → applied_fill (fill_event o f) ≡ some (fill_of q o f)
    → includes s.processed_fills (fill_key p (fill_event o f) (fill_of q o f) s.fill_seq).0 ≡ false
    → 1 ≤ q
    → Linked o.id t s
    → Stands t units cost fees
    → Linked o.id (added (fill_of q o f) t) (on_fill_applied p now uuid (fill_event o f) s)
      × Stands
          (added (fill_of q o f) t)
          (units + q)
          (cost + f.price * q)
          (fees +ℤ or_default f.fee (pos 0))
unfolding on_fill_applied
delivered-Stands p now q units cost fees uuid o f t s e n h l a =
    let (key, seq) = fill_key p (fill_event o f) (fill_of q o f) s.fill_seq in
    let s' : TradeEngine = record s { processed_fills = key ∷ s.processed_fills; fill_seq = seq } in
    let l' : Linked o.id t s' = record {
      by_order = l.by_order;
      named = l.named;
      stored = l.stored;
    } in
    (
      rw (e, on_fill_applied, n) (handle_fill-Linked now uuid (fill_of q o f) t s' l'),
      added-Stands (fill_of q o f) t units cost fees h a,
    )

-- The trade of an order says what the order's fills say: their units, their cost `c` and their fees.
pub record Mirrors (id : String) (c : ℕ) (om : OrderManager) (s : TradeEngine) : Type 0 where
  pub order : ManagedOrder
  pub trade : Trade
  pub stored : lookup id om.orders ≡ some order
  pub cost : HasCost order c
  pub linked : Linked id trade s
  pub stands : Stands trade order.filled_quantity c order.fees

-- A fill that the order manager accepts on a valid state, and whose event the trade engine then gets,
-- keeps the order's trade in step with the order: both have the same units, the same exact cost and
-- the same fees before and after. The fill is new to the order manager and fits into what is left of
-- the order; the event's key is new to the trade engine, and the order's id and symbol are not empty.
pub fill_keeps-Mirrors :
    (p : Print) (now later q c : ℕ) (id uuid : String) (f : OrderFill) (o' : ManagedOrder)
    (om : OrderManager) (s : TradeEngine) (m : Mirrors id c om s)
    → IsValid om
    → includes om.fill_dedup (dedup_key id f) ≡ false
    → positive_finite f.quantity ≡ some q
    → m.order.filled_quantity + q ≤ m.order.quantity
    → (apply_fill now id f om).0 ≡ true
    → lookup id (apply_fill now id f om).1.orders ≡ some o'
    → (id == "") ≡ false
    → (o'.symbol == "") ≡ false
    → includes s.processed_fills (fill_key p (fill_event o' f) (fill_of q o' f) s.fill_seq).0
      ≡ false
    → Mirrors id
        (c + f.price * q)
        (apply_fill now id f om).1
        (on_fill_applied p later uuid (fill_event o' f) s)
fill_keeps-Mirrors p now later q c id uuid f o' om s m v new pf fits yes_answer at i sym_given
      fresh =
    let (o2, at2, r) =
      apply_fill-Filled now q c id f m.order om v m.stored new pf fits m.cost yes_answer in
    let same : o2 ≡ o' = ground (arith, sym at2 ∙ at) in
    let r' : Filled q c f m.order o' = subst (Filled q c f m.order) same r in
    let v' = Outcome-IsValid (apply_fill-Outcome now id f om v) v in
    let own : o'.id ≡ id = v'.keyed id o' at in
    let e = fill_event-applied q o' f (rw (own) i) sym_given pf in
    let d =
      delivered-Stands p later q m.order.filled_quantity c m.order.fees uuid o' f m.trade s e fresh
        (positive_finite_pos f.quantity q pf) (rw (own) m.linked) m.stands in
    record {
      order = o';
      trade = added (fill_of q o' f) m.trade;
      stored = at;
      cost = r'.cost;
      linked =
          subst
            (λ x.
              Linked x (added (fill_of q o' f) m.trade)
                (on_fill_applied p later uuid (fill_event o' f) s))
            own d.0;
      stands = restate (sym r'.units) refl (sym r'.paid) d.1;
    }
