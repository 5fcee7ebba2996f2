-- ===== src/Safety/Exposure.antt =====
-- The verdict and the exposure against their descriptions: apps/server/src/safety/hard-limits.ts.
use finance_agent_os.Base.{
  ℕ, ◌+◌, ◌*◌, ◌≤◌, ◌≡◌, ◌≢◌, ◌↔◌, inl, inr, refl, ◌∙◌, sym, pos, abs, true, String, eq_iff,
  to_upper, Option, none, some, Option-cases, List, [], ◌∷◌, arith, if◌then◌else◌, positive_finite,
  Bool-cases,
}
use finance_agent_os.Safety.HardLimits.{
  HardLimitsConfig, OrderRequest, Position, project, project_at, projected_quantity, evaluate,
  gross_exposure, find_position, notional, same_symbol,
}
use finance_agent_os.Safety.Limits.{Within, no_violation, Within-clean}

-- A positive quantity and price, and every limit kept by the projected position.
pub record IsAllowed (c : HardLimitsConfig) (req : OrderRequest) : Type 0 where
  pub units : ℕ
  pub price : ℕ
  pub units_given : positive_finite req.quantity ≡ some units
  pub price_given : positive_finite req.price ≡ some price
  pub within : Within c req (project req units price)

-- The same in terms of the program's own projection.
pub evaluate-allowed_iff :
    (c : HardLimitsConfig) (req : OrderRequest)
    → ((evaluate c req).allowed ≡ true) ↔ IsAllowed c req
unfolding evaluate
evaluate-allowed_iff c req = (sound, complete)
  where
    sound : (evaluate c req).allowed ≡ true → IsAllowed c req
    sound h = elim (Option-cases (positive_finite req.quantity)) [
      | inl e ↦ absurd (ground arith)
      | inr (q, e) ↦ elim (Option-cases (positive_finite req.price)) [
        | inl f ↦ absurd (ground arith)
        | inr (price, f) ↦ record {
          units = q;
          price = price;
          units_given = e;
          price_given = f;
          within = no_violation c req (project req q price) (ground arith);
        }
      ]
    ]

    complete : IsAllowed c req → (evaluate c req).allowed ≡ true
    complete a =
        rw (a.units_given, a.price_given, evaluate)
          (Within-clean c req (project req a.units a.price) a.within)

-- The value of the positions in other symbols.
abbrev pub others : String → List Position → ℕ
others symbol [] = 0
others symbol (p ∷ ps) = (if same_symbol p.symbol symbol then 0 else notional p) + others symbol ps

-- No two positions are in the same symbol.
abbrev pub Distinct : List Position → Type 0
Distinct [] = Unit
Distinct (p ∷ ps) = (find_position p.symbol ps ≡ none) × Distinct ps

find_position-cong :
    (s t : String) (ps : List Position)
    → to_upper s ≡ to_upper t
    → find_position s ps ≡ find_position t ps
unfolding find_position
find_position-cong s t [] e = refl
find_position-cong s t (p ∷ ps) e = rw (e, find_position-cong s t ps e)

pub gross_exposure-none :
    (s : String) (v : ℕ) (ps : List Position)
    → find_position s ps ≡ none
    → gross_exposure s v ps ≡ others s ps
unfolding gross_exposure find_position
gross_exposure-none s v [] h = refl
gross_exposure-none s v (p ∷ ps) h = ground (arith, gross_exposure-none s v ps)

gross_exposure-some :
    (s : String) (v : ℕ) (ps : List Position)
    → Distinct ps
    → find_position s ps ≢ none
    → gross_exposure s v ps ≡ v + others s ps
unfolding gross_exposure find_position
gross_exposure-some s v [] d h = absurd (h refl)
gross_exposure-some s v (p ∷ ps) d h = elim (Bool-cases (same_symbol p.symbol s)) [
  | inl e ↦ ground (
    arith,
    gross_exposure-none s v ps (sym (find_position-cong p.symbol s ps ((eq_iff _ _).0 e)) ∙ d.0),
  )
  | inr e ↦ ground (arith, gross_exposure-some s v ps d.1)
]

exposure_at :
    (o : Option Position) (req : OrderRequest) (q price : ℕ)
    → Distinct req.current_positions
    → find_position req.symbol req.current_positions ≡ o
    → (project_at o req q price).exposure
      ≡ (project_at o req q price).symbol_notional + others req.symbol req.current_positions
unfolding project_at
exposure_at none req q price d e =
    let value = abs (projected_quantity req.side q (pos 0)) * abs (pos price) in
    omega (arith, gross_exposure-none req.symbol value req.current_positions e)
exposure_at (some p) req q price d e =
    gross_exposure-some req.symbol
      (abs (projected_quantity req.side q p.quantity) * abs p.current_price) req.current_positions d
      (λ n. cc)

-- Where no two positions are in the same symbol, the gross exposure that the limits check is the
-- projected value of the order's symbol and the value of every position in another symbol.
pub exposure_exact :
    (req : OrderRequest) (q price : ℕ)
    → Distinct req.current_positions
    → (project req q price).exposure
      ≡ (project req q price).symbol_notional + others req.symbol req.current_positions
unfolding project
exposure_exact req q price d =
    exposure_at (find_position req.symbol req.current_positions) req q price d refl

pub gross_exposure_mono :
    (s : String) (v w : ℕ) (ps : List Position)
    → v ≤ w
    → gross_exposure s v ps ≤ gross_exposure s w ps
unfolding gross_exposure
gross_exposure_mono s v w [] h = omega arith
gross_exposure_mono s v w (p ∷ ps) h = ground (arith, gross_exposure_mono s v w ps h)
