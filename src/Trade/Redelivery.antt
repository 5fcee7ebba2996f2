-- ===== src/Trade/Redelivery.antt =====
-- Fills that come again: apps/server/src/trade-engine/trade-engine.ts.
use finance_agent_os.Base.{
  ap, subst, ℕ, ◌≡◌, refl, arith, ℤ, true, String, eq_refl, includes, none, some, Option-cases,
  Bool-cases, inl, inr, List, [], ◌∷◌, lookup,
}
use finance_agent_os.Trade.State.{TradeEngine, FillEvent, AppliedFill, TradeParams}
use finance_agent_os.Trade.Engine.{
  Print, applied_fill, fill_key, get_trade_by_order_id, open_trade, handle_fill, on_fill_applied,
  close_trade,
}

-- What may happen to the engine.
pub data Happening : Type 0 where
  delivered : ℕ → String → FillEvent → Happening
  opened : ℕ → String → TradeParams → Happening
  closed : ℕ → String → ℕ → ℤ → Happening

unfoldable pub happen : Print → Happening → TradeEngine → TradeEngine
happen p (delivered now uuid d) s = on_fill_applied p now uuid d s
happen p (opened now uuid t) s = (open_trade now uuid t s).1
happen p (closed now id exit fee) s = (close_trade now id exit fee s).1

unfoldable pub happen_all : Print → List Happening → TradeEngine → TradeEngine
unfolding happen
happen_all p [] s = s
happen_all p (h ∷ hs) s = happen_all p hs (happen p h s)

open_trade-processed :
    (now : ℕ) (uuid : String) (t : TradeParams) (s : TradeEngine)
    → (open_trade now uuid t s).1.processed_fills ≡ s.processed_fills
unfolding open_trade
open_trade-processed now uuid t s = elim (Option-cases (get_trade_by_order_id t.order_id s)) [
  | inl e ↦ rw (e, open_trade) refl
  | inr (x, e) ↦ rw (e, open_trade) refl
]

handle_fill-processed :
    (now : ℕ) (uuid : String) (f : AppliedFill) (s : TradeEngine)
    → (handle_fill now uuid f s).processed_fills ≡ s.processed_fills
unfolding handle_fill
handle_fill-processed now uuid f s = elim (Option-cases (get_trade_by_order_id f.order_id s)) [
  | inl e ↦ rw (e, handle_fill) (open_trade-processed now uuid _ s)
  | inr (x, e) ↦ rw (e, handle_fill) refl
]

close_trade-processed :
    (now : ℕ) (id : String) (exit : ℕ) (fee : ℤ) (s : TradeEngine)
    → (close_trade now id exit fee s).1.processed_fills ≡ s.processed_fills
unfolding close_trade
close_trade-processed now id exit fee s = elim (Option-cases (lookup id s.trades)) [
  | inl e ↦ rw (e, close_trade) refl
  | inr (t, e) ↦ elim (Bool-cases t.is_open) [
    | inl o ↦ rw (e, close_trade, o) refl
    | inr o ↦ rw (e, close_trade, o) refl
  ]
]

module _ (p : Print) where
  delivered_noted :
      (now : ℕ) (uuid : String) (d : FillEvent) (f : AppliedFill) (s : TradeEngine)
      → applied_fill d ≡ some f
      → includes (on_fill_applied p now uuid d s).processed_fills (fill_key p d f s.fill_seq).0
        ≡ true
  unfolding on_fill_applied
  delivered_noted now uuid d f s e =
      elim (Bool-cases (includes s.processed_fills (fill_key p d f s.fill_seq).0)) [
        | inl h ↦ rw (e, on_fill_applied, h) h
        | inr h ↦
            rw (e, on_fill_applied, h, handle_fill-processed now uuid f _)
              (ground (arith, eq_refl (fill_key p d f s.fill_seq).0))
      ]

  -- A key that is noted stays noted.
  still_noted :
      (key : String) (h : Happening) (s : TradeEngine)
      → includes s.processed_fills key ≡ true
      → includes (happen p h s).processed_fills key ≡ true
  unfolding happen on_fill_applied
  still_noted key (opened now uuid t) s n = rw (open_trade-processed now uuid t s) n
  still_noted key (closed now id exit fee) s n = rw (close_trade-processed now id exit fee s) n
  still_noted key (delivered now uuid d) s n = elim (Option-cases (applied_fill d)) [
    | inl e ↦ rw (e, on_fill_applied) n
    | inr (f, e) ↦ elim (Bool-cases (includes s.processed_fills (fill_key p d f s.fill_seq).0)) [
      | inl h ↦ rw (e, on_fill_applied, h) n
      | inr h ↦ rw (e, on_fill_applied, h, handle_fill-processed now uuid f _) (ground (arith, n))
    ]
  ]

  all_noted :
      (key : String) (hs : List Happening) (s : TradeEngine)
      → includes s.processed_fills key ≡ true
      → includes (happen_all p hs s).processed_fills key ≡ true
  unfolding happen_all
  all_noted key [] s n = n
  all_noted key (h ∷ hs) s n = all_noted key hs _ (still_noted key h s n)

  fill_key-seq :
      (d : FillEvent) (f : AppliedFill) (v seq : ℕ)
      → d.version ≡ some v
      → (fill_key p d f seq).1 ≡ seq
  unfolding fill_key
  fill_key-seq d f v seq w = rw (w, fill_key) refl

  -- The key of a fill with a version does not read the sequence.
  fill_key-same :
      (d : FillEvent) (f : AppliedFill) (v a b : ℕ)
      → d.version ≡ some v
      → (fill_key p d f a).0 ≡ (fill_key p d f b).0
  unfolding fill_key
  fill_key-same d f v a b w = rw (w, fill_key) refl

  noted_ignored :
      (now : ℕ) (uuid : String) (d : FillEvent) (f : AppliedFill) (v : ℕ) (s : TradeEngine)
      → applied_fill d ≡ some f
      → d.version ≡ some v
      → includes s.processed_fills (fill_key p d f s.fill_seq).0 ≡ true
      → on_fill_applied p now uuid d s ≡ s
  unfolding on_fill_applied fill_key
  noted_ignored now uuid d f v s e w n =
      rw (e, on_fill_applied, n)
        (ap (λ q. record s { fill_seq = q }) (fill_key-seq d f v s.fill_seq w))

  undelivered :
      (now : ℕ) (uuid : String) (d : FillEvent) (s : TradeEngine)
      → applied_fill d ≡ none
      → on_fill_applied p now uuid d s ≡ s
  unfolding on_fill_applied
  undelivered now uuid d s e = rw (e, on_fill_applied) refl

  -- A fill event with a version that comes again, whatever came in between, changes nothing.
  pub redelivery_ignored :
      (now later : ℕ) (uuid uuid' : String) (d : FillEvent) (v : ℕ) (hs : List Happening)
      (s : TradeEngine)
      → d.version ≡ some v
      → let s' = happen_all p hs (on_fill_applied p now uuid d s) in
        on_fill_applied p later uuid' d s' ≡ s'
  redelivery_ignored now later uuid uuid' d v hs s w =
      let s1 = on_fill_applied p now uuid d s in
      let s' = happen_all p hs s1 in
      elim (Option-cases (applied_fill d)) [
        | inl e ↦ undelivered later uuid' d s' e
        | inr (f, e) ↦
            let n =
              all_noted (fill_key p d f s.fill_seq).0 hs s1 (delivered_noted now uuid d f s e) in
            noted_ignored later uuid' d f v s' e w (
              subst (λ k. includes s'.processed_fills k ≡ true)
                (fill_key-same d f v s.fill_seq s'.fill_seq w) n)
      ]
