-- ===== src/Safety/Admission.antt =====
-- Which orders the hard limits allow: apps/server/src/safety/hard-limits.ts.
use finance_agent_os.Base.{
  ℕ, ◌+◌, ◌*◌, ◌≡◌, ◌↔◌, inl, inr, refl, sym, ap, ◌∙◌, subst, ℤ, pos, ◌+ℤ◌, ◌-ℤ◌, abs, true, String,
  ◌==◌, eq_iff, to_upper, Option, none, some, Bool-cases, List, [], ◌∷◌, arith, if◌then◌else◌,
  positive_finite, First, nowhere, First-unique, First-step,
}
use finance_agent_os.Order.Status.{OrderSide, buy, sell}
use finance_agent_os.Safety.HardLimits.{
  HardLimitsConfig, OrderRequest, Position, Projection, project, project_at, projected_quantity,
  evaluate, gross_exposure, find_position,
}
use finance_agent_os.Safety.Limits.{Within}
use finance_agent_os.Safety.Exposure.{evaluate-allowed_iff, others, gross_exposure-none}

abbrev pub InSymbol : String → Position → Type 0
InSymbol symbol p = to_upper p.symbol ≡ to_upper symbol

-- What is held before the order, and the price at which it is valued.
abbrev pub units_held : Option Position → ℤ
units_held none = pos 0
units_held (some p) = p.quantity

abbrev pub valued_at : ℕ → Option Position → ℤ
valued_at price none = pos price
valued_at price (some p) = p.current_price

-- A buy adds its units to what is held, a sell takes them away.
abbrev pub Moves : OrderSide → ℕ → ℤ → ℤ → Type 0
Moves buy q before after = after ≡ before +ℤ pos q
Moves sell q before after = after ≡ before -ℤ pos q

-- How often the program counts the projected value: once for each position in the symbol, and once
-- where there is none.
abbrev pub listed : String → List Position → ℕ
listed symbol [] = 0
listed symbol (p ∷ ps) = (if to_upper p.symbol == to_upper symbol then 1 else 0) + listed symbol ps

abbrev pub times : String → List Position → Option Position → ℕ
times symbol ps none = 1
times symbol ps (some p) = listed symbol ps

-- The position that the order leads to, and the values that the limits are about.
pub record Projected (req : OrderRequest) (q price : ℕ) (p : Projection) : Type 0 where
  pub current : Option Position
  pub found : First (InSymbol req.symbol) req.current_positions current
  pub ordered : p.order_notional ≡ q * price
  pub moved : Moves req.side q (units_held current) p.quantity
  pub valued : p.symbol_notional ≡ abs p.quantity * abs (valued_at price current)
  pub exposed :
      p.exposure
      ≡ times req.symbol req.current_positions current * p.symbol_notional
        + others req.symbol req.current_positions

-- A positive quantity and price, and a projected position that keeps every limit.
pub record IsAdmissible (c : HardLimitsConfig) (req : OrderRequest) : Type 0 where
  pub units : ℕ
  pub price : ℕ
  pub units_given : positive_finite req.quantity ≡ some units
  pub price_given : positive_finite req.price ≡ some price
  pub projection : Projection
  pub projected : Projected req units price projection
  pub within : Within c req projection

find_position-First :
    (symbol : String) (ps : List Position) → First (InSymbol symbol) ps (find_position symbol ps)
unfolding find_position
find_position-First symbol [] = nowhere
find_position-First symbol (p ∷ ps) =
    let e = eq_iff (to_upper p.symbol) (to_upper symbol) in
    First-step (InSymbol symbol) (to_upper p.symbol == to_upper symbol) p ps _ e.0
      (λ n h. ground (arith, n, e.1 h)) (find_position-First symbol ps)

gross_exposure-listed :
    (s : String) (v : ℕ) (ps : List Position)
    → gross_exposure s v ps ≡ listed s ps * v + others s ps
unfolding gross_exposure
gross_exposure-listed s v [] = omega arith
gross_exposure-listed s v (p ∷ ps) = elim (Bool-cases (to_upper p.symbol == to_upper s)) [
  | inl e ↦ rw (e) (omega (arith, gross_exposure-listed s v ps))
  | inr e ↦ rw (e) (omega (arith, gross_exposure-listed s v ps))
]

projected_quantity-Moves :
    (side : OrderSide) (q : ℕ) (before : ℤ) → Moves side q before (projected_quantity side q before)
unfolding projected_quantity
projected_quantity-Moves buy q before = refl
projected_quantity-Moves sell q before = refl

project_at-Projected :
    (req : OrderRequest) (q price : ℕ) (o : Option Position)
    → find_position req.symbol req.current_positions ≡ o
    → Projected req q price (project_at o req q price)
unfolding project_at
project_at-Projected req q price none e = record {
  current = none;
  found =
      subst (First (InSymbol req.symbol) req.current_positions) e
        (find_position-First req.symbol req.current_positions);
  ordered = refl;
  moved = projected_quantity-Moves req.side q (pos 0);
  valued = refl;
  exposed =
      let v = abs (projected_quantity req.side q (pos 0)) * abs (pos price) in
      omega (arith, gross_exposure-none req.symbol v req.current_positions e);
}
project_at-Projected req q price (some p) e = record {
  current = some p;
  found =
      subst (First (InSymbol req.symbol) req.current_positions) e
        (find_position-First req.symbol req.current_positions);
  ordered = refl;
  moved = projected_quantity-Moves req.side q p.quantity;
  valued = refl;
  exposed = gross_exposure-listed req.symbol _ req.current_positions;
}

Moves-unique :
    (side : OrderSide) (q : ℕ) (b a a' : ℤ) → Moves side q b a → Moves side q b a' → a ≡ a'
Moves-unique buy q b a a' m n = m ∙ sym n
Moves-unique sell q b a a' m n = m ∙ sym n

-- Two projections that fit the description keep the same limits.
Projected-Within :
    (c : HardLimitsConfig) (req : OrderRequest) (q price : ℕ) (p p' : Projection)
    → Projected req q price p
    → Projected req q price p'
    → Within c req p
    → Within c req p'
Projected-Within c req q price p p' a b w =
    let same = First-unique (InSymbol req.symbol) req.current_positions a.found b.found in
    let ordered = a.ordered ∙ sym b.ordered in
    let moved : p.quantity ≡ p'.quantity =
      Moves-unique req.side q _ _ _
        (subst (λ o. Moves req.side q (units_held o) p.quantity) same a.moved) b.moved in
    let valued : p.symbol_notional ≡ p'.symbol_notional =
      a.valued
      ∙ ap (λ x. abs x * abs (valued_at price a.current)) moved
      ∙ ap (λ o. abs p'.quantity * abs (valued_at price o)) same
      ∙ sym b.valued in
    let exposed : p.exposure ≡ p'.exposure =
      a.exposed
      ∙ ap
          (λ o.
            times req.symbol req.current_positions o * p.symbol_notional
            + others req.symbol req.current_positions)
          same
      ∙ ap
          (λ v.
            times req.symbol req.current_positions b.current * v
            + others req.symbol req.current_positions)
          valued
      ∙ sym b.exposed in
    record {
      order_fits = rw (← ordered) w.order_fits;
      loss_fits = w.loss_fits;
      open_fits = w.open_fits;
      daily_fits = w.daily_fits;
      long_enough = rw (← moved) w.long_enough;
      symbol_fits = rw (← valued) w.symbol_fits;
      total_fits = rw (← exposed) w.total_fits;
      leverage_fits = rw (← exposed) w.leverage_fits;
    }

-- `evaluate` allows an order exactly when its quantity and price are positive and finite and it keeps
-- every limit. The order's value is quantity times price; a buy adds its quantity to the first
-- position in the symbol and a sell takes it away, and the result may be short by at most one
-- millionth unless shorting is allowed; the symbol's value is the size of the result at that
-- position's current price, or at the order's price where there is no position; the exposure is the
-- values of the positions in other symbols and the symbol's value, once for each position in the
-- symbol and once where there is none.
pub evaluate-IsAdmissible_iff :
    (c : HardLimitsConfig) (req : OrderRequest)
    → ((evaluate c req).allowed ≡ true) ↔ IsAdmissible c req
unfolding project
evaluate-IsAdmissible_iff c req = (sound, complete)
  where
    described : (q price : ℕ) → Projected req q price (project req q price)
    described q price =
        project_at-Projected req q price (find_position req.symbol req.current_positions) refl

    sound : (evaluate c req).allowed ≡ true → IsAdmissible c req
    sound h =
        let a = (evaluate-allowed_iff c req).0 h in
        record {
          units = a.units;
          price = a.price;
          units_given = a.units_given;
          price_given = a.price_given;
          projection = project req a.units a.price;
          projected = described a.units a.price;
          within = a.within;
        }

    complete : IsAdmissible c req → (evaluate c req).allowed ≡ true
    complete a = (evaluate-allowed_iff c req).1 (record {
      units = a.units;
      price = a.price;
      units_given = a.units_given;
      price_given = a.price_given;
      within =
          Projected-Within c req a.units a.price a.projection (project req a.units a.price)
            a.projected (described a.units a.price) a.within;
    })
