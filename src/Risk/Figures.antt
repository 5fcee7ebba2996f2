-- ===== src/Risk/Figures.antt =====
-- The figures that the limits of the risk engine are about:
-- apps/server/src/risk-engine/risk-engine.ts.
use finance_agent_os.Base.{
  ℕ, ◌+◌, ◌*◌, ◌/◌, ◌≤◌, ◌<◌, ◌≡◌, refl, ap, ◌∙◌, sym, arith, ℤ, pos, ◌+ℤ◌, ◌≤ℤ◌, scale, Option,
  none, some, ◌⊎◌, inl, inr, List, [], ◌∷◌, First, nowhere, First-unique, First-step, to_upper,
  String, eq_iff, Bool-cases, ltb, ltb_ℤ, ◌==◌, subst, if◌then◌else◌,
}
use native.Mathlib.Nat.{div-mul-le_self, lt-mul-div-succ, div-eq_of_lt-le}
use finance_agent_os.Risk.Rules.{
  RiskEngineConfig, TradeRequest, HeldPosition, PortfolioSnapshot, RiskEngine, find_held,
  positions_value, total_value, approved_quantity, peak_of, whole, is_positive,
}

-- The position held in the symbol, the account's total and its peak, the worth of all positions, and
-- the quantity that the order-size check leaves.
pub record Figures : Type 0 where
  pub held : Option HeldPosition
  pub total : ℤ
  pub peak : ℤ
  pub worth : ℤ
  pub capped : ℕ

abbrev pub units_of : Option HeldPosition → ℤ
units_of none = pos 0
units_of (some p) = p.quantity

abbrev pub worth_of : Option HeldPosition → ℤ
worth_of none = pos 0
worth_of (some p) = scale p.quantity p.current_price

-- The worth of the positions together.
pub data Worth : List HeldPosition → ℤ → Type 0 where
  nothing : Worth [] (pos 0)
  more :
      {p : HeldPosition} {ps : List HeldPosition} {v : ℤ}
      → Worth ps v
      → Worth (p ∷ ps) (worth_of (some p) +ℤ v)

-- The equity where it is positive, otherwise the cash.
abbrev IsTotal : PortfolioSnapshot → ℤ → Type 0
IsTotal f t = ((pos 1 ≤ℤ f.equity) × (t ≡ f.equity)) ⊎ ((f.equity ≤ℤ pos 0) × (t ≡ f.cash))

-- The peak that is given with the portfolio, else the peak that the engine remembers, else the total.
abbrev IsReference : RiskEngine → PortfolioSnapshot → ℤ → ℤ → Type 0
IsReference s f t b =
    ((pos 1 ≤ℤ f.peak_equity) × (b ≡ f.peak_equity))
    ⊎ ((f.peak_equity ≤ℤ pos 0) × (pos 1 ≤ℤ s.peak_equity) × (b ≡ s.peak_equity))
    ⊎ ((f.peak_equity ≤ℤ pos 0) × (s.peak_equity ≤ℤ pos 0) × (b ≡ t))

-- The larger of the reference and the total.
abbrev IsPeak : RiskEngine → PortfolioSnapshot → ℤ → ℤ → Type 0
IsPeak s f t m = (b : ℤ) × IsReference s f t b × (((t ≤ℤ b) × (m ≡ b)) ⊎ ((¬ (t ≤ℤ b)) × (m ≡ t)))

-- The whole order where its value is within the maximum, otherwise as many whole units as the maximum
-- pays for.
abbrev IsCapped : RiskEngineConfig → ℕ → ℕ → ℕ → Type 0
IsCapped c q price n =
    ((q * price ≤ c.max_order_size) × (n ≡ q))
    ⊎ ((c.max_order_size < q * price)
        × ((k : ℕ) × (n ≡ k * 1000000000)
            × (k * (price * 1000000000) ≤ c.max_order_size)
            × (c.max_order_size < (k + 1) * (price * 1000000000))))

pub record IsMeasured (s : RiskEngine) (r : TradeRequest) (f : PortfolioSnapshot) (q price : ℕ)
    (x : Figures) : Type 0 where
  pub held_first : First (λ p. to_upper p.symbol ≡ to_upper r.symbol) f.positions x.held
  pub total_is : IsTotal f x.total
  pub peak_is : IsPeak s f x.total x.peak
  pub worth_is : Worth f.positions x.worth
  pub capped_is : IsCapped s.config q price x.capped

find_held-First :
    (symbol : String) (ps : List HeldPosition)
    → First (λ p. to_upper p.symbol ≡ symbol) ps (find_held symbol ps)
unfolding find_held
find_held-First symbol [] = nowhere
find_held-First symbol (p ∷ ps) =
    let e = eq_iff (to_upper p.symbol) symbol in
    First-step (λ x. to_upper x.symbol ≡ symbol) (to_upper p.symbol == symbol) p ps _ e.0
      (λ n h. ground (arith, n, e.1 h)) (find_held-First symbol ps)

positions_value-Worth : (ps : List HeldPosition) → Worth ps (positions_value ps)
unfolding positions_value
positions_value-Worth [] = nothing
positions_value-Worth (p ∷ ps) = more (positions_value-Worth ps)

Worth-unique : (ps : List HeldPosition) {v w : ℤ} → Worth ps v → Worth ps w → v ≡ w
Worth-unique [] nothing nothing = refl
Worth-unique (p ∷ ps) (more a) (more b) = ap (λ v. worth_of (some p) +ℤ v) (Worth-unique ps a b)

total_value-IsTotal : (f : PortfolioSnapshot) → IsTotal f (total_value f)
total_value-IsTotal f = ground arith

-- `portfolio.peakEquity > 0 ? … : (this.peakEquity > 0 ? … : totalValue)`
abbrev reference : RiskEngine → PortfolioSnapshot → ℤ
reference s f =
    if is_positive f.peak_equity
    then f.peak_equity
    else if is_positive s.peak_equity
    then s.peak_equity
    else total_value f

reference-IsReference :
    (s : RiskEngine) (f : PortfolioSnapshot) → IsReference s f (total_value f) (reference s f)
reference-IsReference s f = elim (Bool-cases (is_positive f.peak_equity)) [
  | inl e ↦ inl (ground (arith, e), rw (e) refl)
  | inr e ↦ elim (Bool-cases (is_positive s.peak_equity)) [
    | inl g ↦ inr (inl (ground (arith, e), ground (arith, g), rw (e, g) refl))
    | inr g ↦ inr (inr (ground (arith, e), ground (arith, g), rw (e, g) refl))
  ]
]

IsReference-unique :
    (s : RiskEngine) (f : PortfolioSnapshot) (t b b' : ℤ)
    → IsReference s f t b
    → IsReference s f t b'
    → b ≡ b'
IsReference-unique s f t b b' h h' = ground (arith, h, h')

peak_of-IsPeak : (s : RiskEngine) (f : PortfolioSnapshot) → IsPeak s f (total_value f) (peak_of s f)
unfolding peak_of
peak_of-IsPeak s f = (
  reference s f,
  reference-IsReference s f,
  elim (Bool-cases (ltb_ℤ (reference s f) (total_value f))) [
    | inl e ↦ inr (λ h. absurd (ground (arith, e, h)), rw (e) refl)
    | inr e ↦ inl (ground (arith, e), rw (e) refl)
  ],
)

IsPeak-unique :
    (s : RiskEngine) (f : PortfolioSnapshot) (t m n : ℤ) → IsPeak s f t m → IsPeak s f t n → m ≡ n
IsPeak-unique s f t m n (b, r, h) (b', r', h') =
    let same = IsReference-unique s f t b b' r r' in
    larger h (subst (λ x. ((t ≤ℤ x) × (n ≡ x)) ⊎ ((¬ (t ≤ℤ x)) × (n ≡ t))) (sym same) h')
  where
    larger :
        {b : ℤ}
        → ((t ≤ℤ b) × (m ≡ b)) ⊎ ((¬ (t ≤ℤ b)) × (m ≡ t))
        → ((t ≤ℤ b) × (n ≡ b)) ⊎ ((¬ (t ≤ℤ b)) × (n ≡ t))
        → m ≡ n
    larger (inl (a, e)) (inl (c, g)) = e ∙ sym g
    larger (inl (a, e)) (inr (c, g)) = absurd (c a)
    larger (inr (a, e)) (inl (c, g)) = absurd (a c)
    larger (inr (a, e)) (inr (c, g)) = e ∙ sym g

IsTotal-unique : (f : PortfolioSnapshot) (t u : ℤ) → IsTotal f t → IsTotal f u → t ≡ u
IsTotal-unique f t u h h' = ground (arith, h, h')

approved_quantity-IsCapped :
    (c : RiskEngineConfig) (q price : ℕ)
    → 1 ≤ price
    → IsCapped c q price (approved_quantity c q price)
unfolding approved_quantity
approved_quantity-IsCapped c q price h = elim (Bool-cases (ltb c.max_order_size (q * price))) [
  | inr e ↦ inl (ground (arith, e), rw (e) refl)
  | inl e ↦ inr (
    ground (arith, e),
    (
      c.max_order_size / (price * whole),
      rw (e) refl,
      div-mul-le_self c.max_order_size (price * whole),
      (let k : c.max_order_size < (price * whole) * (c.max_order_size / (price * whole) + 1) =
            lt-mul-div-succ c.max_order_size (omega (arith, h)) in
          omega (arith, k)),
    ),
  )
]

IsCapped-approved_quantity :
    (c : RiskEngineConfig) (q price n : ℕ) → IsCapped c q price n → n ≡ approved_quantity c q price
unfolding approved_quantity
IsCapped-approved_quantity c q price n (inl (a, e)) = ground (arith, a, e)
IsCapped-approved_quantity c q price n (inr (a, (k, e, lo, hi))) =
    let d : c.max_order_size / (price * whole) ≡ k = div-eq_of_lt-le (price * whole) lo hi in
    ground (arith, a, e, d)

-- The figures that the engine computes.
abbrev pub computed : RiskEngine → TradeRequest → PortfolioSnapshot → ℕ → ℕ → Figures
computed s r f q price = record {
  held = find_held (to_upper r.symbol) f.positions;
  total = total_value f;
  peak = peak_of s f;
  worth = positions_value f.positions;
  capped = approved_quantity s.config q price;
}

module _ (s : RiskEngine) (r : TradeRequest) (f : PortfolioSnapshot) (q price : ℕ) where
  pub computed-IsMeasured : 1 ≤ price → IsMeasured s r f q price (computed s r f q price)
  computed-IsMeasured h = record {
    held_first = find_held-First (to_upper r.symbol) f.positions;
    total_is = total_value-IsTotal f;
    peak_is = peak_of-IsPeak s f;
    worth_is = positions_value-Worth f.positions;
    capped_is = approved_quantity-IsCapped s.config q price h;
  }

  -- There are no other figures.
  pub IsMeasured-computed : (x : Figures) → IsMeasured s r f q price x → x ≡ computed s r f q price
  IsMeasured-computed x m =
      let total : x.total ≡ total_value f =
        IsTotal-unique f x.total (total_value f) m.total_is (total_value-IsTotal f) in
      λ i. record {
        held =
            First-unique (λ p. to_upper p.symbol ≡ to_upper r.symbol) f.positions m.held_first
              (find_held-First (to_upper r.symbol) f.positions) i;
        total = total i;
        peak =
            IsPeak-unique s f (total_value f) x.peak (peak_of s f)
              (subst (λ t. IsPeak s f t x.peak) total m.peak_is) (peak_of-IsPeak s f) i;
        worth = Worth-unique f.positions m.worth_is (positions_value-Worth f.positions) i;
        capped = IsCapped-approved_quantity s.config q price x.capped m.capped_is i;
      }
