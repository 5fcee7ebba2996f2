-- ===== src/Trade/Engine.antt =====
-- The operations of `TradeEngine`: apps/server/src/trade-engine/trade-engine.ts.
use finance_agent_os.Base.{
  ℕ, ◌+◌, ◌*◌, ℤ, pos, ◌+ℤ◌, ◌-ℤ◌, sub_ℕ, scale, true, false, not, String, ◌==◌, to_upper, includes,
  Option, none, some, or_default, List, [], ◌∷◌, ◌++◌, filter, lookup, insert, values,
  if◌then◌else◌,
}
use Prim.Native.String
use finance_agent_os.Order.Status.{buy, sell}
use finance_agent_os.Trade.State.{Profit, Trade, TradeEngine, FillEvent, AppliedFill, TradeParams}

-- How the runtime prints numbers.
pub record Print : Type 0 where
  pub natural : ℕ → String
  pub integer : ℤ → String

-- A text that is there and not empty.
abbrev pub given : Option String → Option String
given none = none
given (some s) = if s == "" then none else some s

unfoldable pub applied_fill : FillEvent → Option AppliedFill
applied_fill d = elim (given d.order_id) [
  | none ↦ none
  | some order ↦ elim (given d.symbol) [
    | none ↦ none
    | some symbol ↦ elim d.side [
      | none ↦ none
      | some side ↦ elim d.quantity [
        | none ↦ none
        | some q ↦ elim d.price [
          | none ↦ none
          | some price ↦ some (record {
            order_id = order;
            client_order_id = d.client_order_id;
            symbol = symbol;
            side = side;
            quantity = q;
            price = price;
            fee = d.fee;
            correlation_id = d.correlation_id;
          })
        ]
      ]
    ]
  ]
]

abbrev shown : Option String → String → String
shown none absent = absent
shown (some s) absent = s

abbrev mapped : {A : Type 0} → (A → String) → Option A → Option String
mapped f none = none
mapped f (some a) = some (f a)

-- The key of a fill, and the next number of the sequence.
unfoldable pub fill_key : Print → FillEvent → AppliedFill → ℕ → String × ℕ
fill_key p d f seq = elim d.version [
  | some v ↦ (f.order_id ++ˢ ":v" ++ˢ p.natural v, seq)
  | none ↦ (
    f.order_id
        ++ˢ ":"
        ++ˢ p.natural f.quantity
        ++ˢ ":"
        ++ˢ p.natural f.price
        ++ˢ ":"
        ++ˢ shown (mapped p.integer f.fee) "nofee"
        ++ˢ ":"
        ++ˢ shown (mapped p.natural d.timestamp) "nots"
        ++ˢ ":"
        ++ˢ shown f.correlation_id "nocorr"
        ++ˢ ":"
        ++ˢ p.natural seq,
    seq + 1,
  )
]
  where
    infixr 60 ◌++ˢ◌
    ◌++ˢ◌ : String → String → String
    a ++ˢ b = String.◌++◌ a b

abbrev publish : String → String → Trade → TradeEngine → TradeEngine
publish event audit t s = record s {
  published =
      s.published
      ++ record { event_type = event; trade = t } ∷ record { event_type = audit; trade = t } ∷ [];
}

-- `getTradeByOrderId`: the trade that the order's fills go to.
unfoldable pub get_trade_by_order_id : String → TradeEngine → Option Trade
get_trade_by_order_id order s = elim (lookup order s.trades_by_order) [
  | none ↦ none
  | some id ↦ if id == "" then none else lookup id s.trades
]

abbrev pub new_trade : ℕ → String → TradeParams → Trade
new_trade now uuid p = record {
  id = uuid;
  symbol = to_upper p.symbol;
  strategy = p.strategy;
  side = p.side;
  entry_price = record { num = p.entry_price; den = 1 };
  exit_price = none;
  quantity = p.quantity;
  filled_quantity = p.quantity;
  fees = p.fees;
  pnl = record { num = pos 0; den = 1 };
  opened_at = now;
  closed_at = none;
  is_open = true;
  order_id = p.order_id;
  client_order_id = p.client_order_id;
  correlation_id = p.correlation_id;
  version = 1;
}

unfoldable pub open_trade : ℕ → String → TradeParams → TradeEngine → Trade × TradeEngine
unfolding get_trade_by_order_id
open_trade now uuid p s =
    let t = new_trade now uuid p in
    let listed = or_default (lookup t.symbol s.open_by_symbol) [] in
    let s' : TradeEngine = record s {
      trades = insert t.id t s.trades;
      trades_by_order = insert p.order_id t.id s.trades_by_order;
      open_by_symbol = insert t.symbol (listed ++ t.id ∷ []) s.open_by_symbol;
    } in
    elim (get_trade_by_order_id p.order_id s) [
      | some ex ↦ (ex, s)
      | none ↦ (t, publish "trade.opened" "audit.trade_opened" t s')
    ]

-- A further fill of the trade's order: the average entry price over the old one's denominator.
unfoldable pub added : AppliedFill → Trade → Trade
added f t =
    let q = t.quantity + f.quantity in
    record t {
      entry_price = record {
        num = t.entry_price.num * t.quantity + f.price * f.quantity * t.entry_price.den;
        den = t.entry_price.den * q;
      };
      quantity = q;
      filled_quantity = q;
      fees = t.fees +ℤ or_default f.fee (pos 0);
      version = t.version + 1;
    }

unfoldable pub handle_fill : ℕ → String → AppliedFill → TradeEngine → TradeEngine
unfolding get_trade_by_order_id added open_trade
handle_fill now uuid f s = elim (get_trade_by_order_id f.order_id s) [
  | some t ↦
      let t' = added f t in
      publish "trade.updated" "audit.trade_updated" t'
        (record s { trades = insert t'.id t' s.trades })
  | none ↦
      (open_trade now uuid
        (record {
          symbol = f.symbol;
          strategy = "default";
          side = f.side;
          entry_price = f.price;
          quantity = f.quantity;
          fees = or_default f.fee (pos 0);
          order_id = f.order_id;
          client_order_id = f.client_order_id;
          correlation_id = f.correlation_id;
        })
        s).1
]

-- The handler of "order.fill_applied".
unfoldable pub on_fill_applied : Print → ℕ → String → FillEvent → TradeEngine → TradeEngine
unfolding applied_fill fill_key handle_fill
on_fill_applied p now uuid d s = elim (applied_fill d) [
  | none ↦ s
  | some f ↦
      let (key, seq) = fill_key p d f s.fill_seq in
      let s' : TradeEngine = record s {
        processed_fills = key ∷ s.processed_fills;
        fill_seq = seq;
      } in
      if includes s.processed_fills key
      then record s { fill_seq = seq }
      else handle_fill now uuid f s'
]

-- `(exit - entry) * quantity - fees`, over the entry price's denominator
unfoldable pub pnl_of : ℕ → Trade → Profit
pnl_of exit t =
    let paid = exit * t.entry_price.den in
    let difference : ℤ = elim t.side [
      | buy ↦ sub_ℕ paid t.entry_price.num
      | sell ↦ sub_ℕ t.entry_price.num paid
    ] in
    record {
      num = scale difference (t.quantity * 1000) -ℤ scale t.fees t.entry_price.den;
      den = t.entry_price.den;
    }

unfoldable pub closed_trade : ℕ → ℕ → ℤ → Trade → Trade
unfolding pnl_of
closed_trade now exit fees t =
    let t' : Trade = record t {
      exit_price = some exit;
      fees = t.fees +ℤ fees;
      closed_at = some now;
      is_open = false;
      version = t.version + 1;
    } in
    record t' { pnl = pnl_of exit t' }

unfoldable pub close_trade : ℕ → String → ℕ → ℤ → TradeEngine → Option Trade × TradeEngine
unfolding closed_trade
close_trade now id exit fees s = elim (lookup id s.trades) [
  | none ↦ (none, s)
  | some t ↦
      let t' = closed_trade now exit fees t in
      let s' : TradeEngine = record s {
        trades = insert id t' s.trades;
        open_by_symbol = elim (lookup t.symbol s.open_by_symbol) [
          | none ↦ s.open_by_symbol
          | some xs ↦ insert t.symbol (filter (λ x. not (x == id)) xs) s.open_by_symbol
        ];
      } in
      if t.is_open then (some t', publish "trade.closed" "audit.trade_closed" t' s') else (none, s)
]

-- `getOpenTrades`, `getClosedTrades`, `getTradesBySymbol` and `getTradesByStrategy`
unfoldable pub get_open_trades : TradeEngine → List Trade
get_open_trades s = filter (λ t. t.is_open) (values s.trades)

unfoldable pub get_closed_trades : TradeEngine → List Trade
get_closed_trades s = filter (λ t. not t.is_open) (values s.trades)

unfoldable pub get_trades_by_symbol : String → TradeEngine → List Trade
get_trades_by_symbol symbol s = filter (λ t. t.symbol == to_upper symbol) (values s.trades)

unfoldable pub get_trades_by_strategy : String → TradeEngine → List Trade
get_trades_by_strategy strategy s = filter (λ t. t.strategy == strategy) (values s.trades)
