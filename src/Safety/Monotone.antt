-- ===== src/Safety/Monotone.antt =====
-- Orders of different sizes, and the throwing variant of the check:
-- apps/server/src/safety/hard-limits.ts.
use finance_agent_os.Base.{
  ℕ, ◌*◌, ◌≤◌, ◌≡◌, refl, ℤ, pos, negsuc, ◌+ℤ◌, ◌≤ℤ◌, abs, true, false, Option, none, some, arith,
  inr, positive_finite, Number, ◌⊎◌, ok,
}
use native.Mathlib.Nat.{le_trans}
use finance_agent_os.Order.Status.{buy}
use finance_agent_os.Safety.HardLimits.{
  HardLimitsConfig, OrderRequest, Position, Projection, project, project_at, held, price_of,
  add_missing, gross_exposure, projected_quantity, evaluate, evaluate_or_throw, find_position,
}
use finance_agent_os.Safety.Limits.{LeverageFits}
use finance_agent_os.Safety.Exposure.{evaluate-allowed_iff, gross_exposure_mono}

-- No short position in the order's symbol.
abbrev pub IsLong : OrderRequest → Type 0
IsLong req =
    (p : Position) → find_position req.symbol req.current_positions ≡ some p → pos 0 ≤ℤ p.quantity

-- `p` asks for no more than `r` does, and holds the symbol long.
record Below (p r : Projection) : Type 0 where
  less_notional : p.order_notional ≤ r.order_notional
  is_long : pos 0 ≤ℤ p.quantity
  less_symbol : p.symbol_notional ≤ r.symbol_notional
  less_exposure : p.exposure ≤ r.exposure

abs-add :
    (a : ℤ) (m n : ℕ)
    → pos 0 ≤ℤ a
    → m ≤ n
    → (abs (a +ℤ pos m) ≤ abs (a +ℤ pos n)) × (pos 0 ≤ℤ a +ℤ pos m)
unfolding ◌+ℤ◌
abs-add a m n h k = ground arith

mul_mono : (a b c : ℕ) → a ≤ b → a * c ≤ b * c
mul_mono a b c h = grind arith

at-Below :
    (o : Option Position) (req : OrderRequest) (m n price : ℕ)
    → req.side ≡ buy
    → pos 0 ≤ℤ held o
    → m ≤ n
    → Below (project_at o req m price) (project_at o req n price)
unfolding project_at projected_quantity
at-Below o req m n price b l h =
    let (less, long) = abs-add (held o) m n l h in
    let value =
      mul_mono (abs (held o +ℤ pos m)) (abs (held o +ℤ pos n)) (abs (price_of o price)) less in
    rw b (record {
      less_notional = mul_mono m n price h;
      is_long = long;
      less_symbol = value;
      less_exposure = more o value;
    })
  where
    more :
        (o : Option Position) {v w : ℕ}
        → v ≤ w
        → add_missing o (gross_exposure req.symbol v req.current_positions) v
          ≤ add_missing o (gross_exposure req.symbol w req.current_positions) w
    more none {v} {w} k = omega (arith, gross_exposure_mono req.symbol v w req.current_positions k)
    more (some p) {v} {w} k = gross_exposure_mono req.symbol v w req.current_positions k

held_long :
    (o : Option Position) → ((p : Position) → o ≡ some p → pos 0 ≤ℤ p.quantity) → pos 0 ≤ℤ held o
held_long none h = omega arith
held_long (some p) h = h p refl

leverage-Below :
    (c : HardLimitsConfig) (x y : ℕ) (e : ℤ) → x ≤ y → LeverageFits c y e → LeverageFits c x e
leverage-Below c x y (pos e) h f = λ p. le_trans (mul_mono x y c.leverage_den h) (f p)
leverage-Below c x y (negsuc e) h f = tt

-- A smaller buy is no harder to allow: if the limits allow a buy in a symbol that is not held short,
-- they allow the same buy with any smaller positive quantity.
pub smaller_buy_allowed :
    (c : HardLimitsConfig) (req : OrderRequest) (m n : ℕ) (less : Number)
    → req.side ≡ buy
    → IsLong req
    → positive_finite req.quantity ≡ some n
    → positive_finite less ≡ some m
    → m ≤ n
    → (evaluate c req).allowed ≡ true
    → (evaluate c (record req { quantity = less })).allowed ≡ true
unfolding project
smaller_buy_allowed c req m n less b l qn qm h fits =
    let a = (evaluate-allowed_iff c req).0 fits in
    let w = a.within in
    let same : a.units ≡ n = cc (a.units_given) in
    let o = find_position req.symbol req.current_positions in
    let d = at-Below o req m a.units a.price b (held_long o l) (rw same h) in
    (evaluate-allowed_iff c (record req { quantity = less })).1 (record {
      units = m;
      price = a.price;
      units_given = qm;
      price_given = a.price_given;
      within = record {
        order_fits = omega (arith, d.less_notional, w.order_fits);
        loss_fits = w.loss_fits;
        open_fits = w.open_fits;
        daily_fits = w.daily_fits;
        long_enough = inr (omega (arith, d.is_long));
        symbol_fits = omega (arith, d.less_symbol, w.symbol_fits);
        total_fits = omega (arith, d.less_exposure, w.total_fits);
        leverage_fits = leverage-Below c _ _ req.account_equity d.less_exposure w.leverage_fits;
      };
    })

-- With `assertAllowed` the check throws for a broken limit only: for a quantity or price that is not
-- positive and finite it returns its refusal.
pub invalid_returned :
    (c : HardLimitsConfig) (req : OrderRequest)
    → (positive_finite req.quantity ≡ none) ⊎ (positive_finite req.price ≡ none)
    → (evaluate_or_throw c req true ≡ ok (evaluate c req)) × ((evaluate c req).allowed ≡ false)
unfolding evaluate_or_throw evaluate
invalid_returned c req h = ground arith
