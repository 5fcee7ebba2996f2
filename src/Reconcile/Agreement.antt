-- ===== src/Reconcile/Agreement.antt =====
-- The verdict of `reconcile` against its description:
-- apps/server/src/safety/exchange-reconciliation.ts.
use finance_agent_os.Base.{
  Option, ℤ, First, nowhere, here, later, First-unique, First-step, sym, ap, ℕ, ◌≤◌, ◌≡◌, ◌↔◌, ◌⊎◌,
  inl, inr, refl, subst, ◌≢◌, pos, ◌-ℤ◌, abs, true, false, ◌&&◌, ◌||◌, String, ◌==◌, eq_iff,
  to_upper, includes, none, some, Option-cases, Bool-cases, List, [], ◌∷◌, ◌++◌, any, arith, All,
  Any,
}
use finance_agent_os.Reconcile.Report.{
  InternalOrder, ExchangeOrder, PositionSummary, ReconciliationInput, ReconciliationConfig,
  Reconciliation, Discrepancy, add_symbol, add_symbols, all_symbols, held_in, position_drift,
  same_client, find_internal, find_exchange, is_closed_status, is_active_status, phantoms, stales,
  all_discrepancies, no_drift, reconcile,
}

-- Both give the same client order id, which is not empty.
abbrev pub SameClient : Option String → Option String → Type 0
SameClient a b = (s : String) × (a ≡ some s) × (b ≡ some s) × ((s == "") ≡ false)

-- The two sides name the same order.
abbrev pub SameOrder : ExchangeOrder → InternalOrder → Type 0
SameOrder eo io = (io.id ≡ eo.order_id) ⊎ SameClient io.client_order_id eo.client_order_id

abbrev pub IsClosed : String → Type 0
IsClosed s = (s ≡ "CANCELLED") ⊎ (s ≡ "FILLED") ⊎ (s ≡ "REJECTED")

abbrev pub IsActive : String → Type 0
IsActive s = (s ≡ "PENDING") ⊎ (s ≡ "SUBMITTED") ⊎ (s ≡ "PARTIALLY_FILLED")

-- The first order of the program that is the same is not closed.
abbrev pub IsKnown : List InternalOrder → ExchangeOrder → Type 0
IsKnown ios eo = (io : InternalOrder) × First (SameOrder eo) ios (some io) × ¬ (IsClosed io.status)

-- An order that is active in the program is on the exchange.
abbrev pub IsPresent : List ExchangeOrder → InternalOrder → Type 0
IsPresent eos io = (¬ (IsActive io.status)) ⊎ Any (λ eo. SameOrder eo io) eos

abbrev pub InSymbol : String → PositionSummary → Type 0
InSymbol sym p = to_upper p.symbol ≡ sym

abbrev pub units_of : Option PositionSummary → ℤ
units_of none = pos 0
units_of (some p) = p.quantity

-- The first positions in the symbol differ by no more than the tolerance; a side that has none holds
-- nothing.
abbrev pub IsClose : ReconciliationConfig → ReconciliationInput → String → Type 0
IsClose c input sym =
    (a : Option PositionSummary) × (b : Option PositionSummary) × First (InSymbol sym)
      input.internal_positions a
    × First (InSymbol sym) input.exchange_positions b
    × (abs (units_of a -ℤ units_of b) ≤ c.position_tolerance)

-- The program and the exchange tell the same story.
pub record Synchronized (c : ReconciliationConfig) (input : ReconciliationInput) : Type 0 where
  pub positions : (sym : String) → IsClose c input sym
  pub known : All (IsKnown input.internal_orders) input.exchange_orders
  pub present : All (IsPresent input.exchange_orders) input.internal_orders

held_in-First :
    (ps : List PositionSummary) (sym : String)
    → (o : Option PositionSummary) × First (InSymbol sym) ps o × (held_in ps sym ≡ units_of o)
unfolding held_in
held_in-First [] sym = (none, nowhere, refl)
held_in-First (p ∷ ps) sym =
    let e = eq_iff (to_upper p.symbol) sym in
    elim (Bool-cases (to_upper p.symbol == sym)) [
      | inl h ↦ (some p, here (e.0 h), rw (h) refl)
      | inr h ↦
          let (o, f, g) = held_in-First ps sym in
          (o, later (λ n. ground (arith, h, e.1 n)) f, rw (h) g)
    ]

held_in-IsClose :
    (c : ReconciliationConfig) (input : ReconciliationInput) (sym : String)
    → IsClose c input sym ↔ (
        abs (held_in input.internal_positions sym -ℤ held_in input.exchange_positions sym)
        ≤ c.position_tolerance)
held_in-IsClose c input sym =
    let (a, fa, ea) = held_in-First input.internal_positions sym in
    let (b, fb, eb) = held_in-First input.exchange_positions sym in
    (
      λ (a', b', ga, gb, h).
          rw
            (
              ea,
              eb,
              First-unique (InSymbol sym) input.internal_positions fa ga,
              First-unique (InSymbol sym) input.exchange_positions fb gb,
            )
            h,
      λ h. (a, b, fa, fb, rw (← ea, ← eb) h),
    )

same_client-SameClient : (a b : Option String) → (same_client a b ≡ true) ↔ SameClient a b
same_client-SameClient none b = (λ h. absurd (ground arith), λ h. absurd (ground (arith, h.1)))
same_client-SameClient (some a) none =
    (λ h. absurd (ground arith), λ h. absurd (ground (arith, h.2)))
same_client-SameClient (some a) (some b) = (
  λ h. (a, refl, ap some (sym ((eq_iff a b).0 (ground (arith, h)))), ground (arith, h)),
  λ (s, e, f, n). ground (arith, e, f, n, eq_iff a b),
)

is_closed_status-IsClosed : (s : String) → (is_closed_status s ≡ true) ↔ IsClosed s
is_closed_status-IsClosed s = (
  λ h. ground (arith, h, eq_iff s "CANCELLED", eq_iff s "FILLED", eq_iff s "REJECTED"),
  λ h. ground (arith, h, eq_iff s "CANCELLED", eq_iff s "FILLED", eq_iff s "REJECTED"),
)

is_active_status-IsActive : (s : String) → (is_active_status s ≡ true) ↔ IsActive s
is_active_status-IsActive s = (
  λ h. ground (arith, h, eq_iff s "PENDING", eq_iff s "SUBMITTED", eq_iff s "PARTIALLY_FILLED"),
  λ h. ground (arith, h, eq_iff s "PENDING", eq_iff s "SUBMITTED", eq_iff s "PARTIALLY_FILLED"),
)

same_client-SameOrder :
    (eo : ExchangeOrder) (io : InternalOrder)
    → ((io.id == eo.order_id || same_client io.client_order_id eo.client_order_id) ≡ true)
      ↔ SameOrder eo io
same_client-SameOrder eo io =
    let i = eq_iff io.id eo.order_id in
    let c = same_client-SameClient io.client_order_id eo.client_order_id in
    (λ h. ground (arith, h, i, c), λ h. ground (arith, h, i, c))

find_internal-First :
    (eo : ExchangeOrder) (ios : List InternalOrder)
    → First (SameOrder eo) ios (find_internal eo ios)
unfolding find_internal
find_internal-First eo [] = nowhere
find_internal-First eo (io ∷ ios) =
    let e = same_client-SameOrder eo io in
    First-step (SameOrder eo)
      (io.id == eo.order_id || same_client io.client_order_id eo.client_order_id) io ios _ e.0
      (λ n h. ground (arith, n, e.1 h)) (find_internal-First eo ios)

no_drift-append : (xs ys : List Discrepancy) → no_drift (xs ++ ys) ≡ (no_drift xs && no_drift ys)
no_drift-append [] ys = refl
no_drift-append (x ∷ xs) ys = refl

-- Positions.
module _ (c : ReconciliationConfig) (input : ReconciliationInput) where
  abbrev Close : String → Type 0
  Close s =
      abs (held_in input.internal_positions s -ℤ held_in input.exchange_positions s)
      ≤ c.position_tolerance

  drift-Close :
      (syms : List String) → no_drift (position_drift c input syms) ≡ true → All Close syms
  unfolding position_drift
  drift-Close [] h = tt
  drift-Close (s ∷ syms) h = (ground arith, drift-Close syms (ground arith))

  Close-drift :
      (syms : List String) → All Close syms → no_drift (position_drift c input syms) ≡ true
  unfolding position_drift
  Close-drift [] h = refl
  Close-drift (s ∷ syms) (h, hs) = ground (arith, Close-drift syms hs)

includes-add_symbol :
    (s : String) (set : List String) (j : String)
    → includes (add_symbol s set) j ≡ (includes set j || s == j)
includes-add_symbol s set j = ground (arith, eq_iff s j, grown set)
  where
    grown : (xs : List String) → includes (xs ++ s ∷ []) j ≡ (includes xs j || s == j)
    grown [] = ground arith
    grown (x ∷ xs) = ground (arith, grown xs)

includes-add_symbols :
    (ps : List PositionSummary) (set : List String) (j : String)
    → includes (add_symbols ps set) j ≡ (includes set j || any (λ p. to_upper p.symbol == j) ps)
unfolding add_symbols
includes-add_symbols [] set j = ground arith
includes-add_symbols (p ∷ ps) set j = ground (
  arith,
  includes-add_symbols ps (add_symbol (to_upper p.symbol) set) j,
  includes-add_symbol (to_upper p.symbol) set j,
)

not_held :
    (ps : List PositionSummary) (j : String)
    → any (λ p. to_upper p.symbol == j) ps ≡ false
    → held_in ps j ≡ pos 0
unfolding held_in
not_held [] j h = refl
not_held (p ∷ ps) j h = ground (arith, not_held ps j)

All-includes :
    (P : String → Type 0) (xs : List String) (j : String) → All P xs → includes xs j ≡ true → P j
All-includes P [] j a h = absurd (cc)
All-includes P (x ∷ xs) j (a, rest) h = elim (Bool-cases (x == j)) [
  | inl e ↦ subst P ((eq_iff x j).0 e) a
  | inr e ↦ All-includes P xs j rest (ground arith)
]

-- Where the known symbols are close, all are: the others are held on neither side.
Close-everywhere :
    (c : ReconciliationConfig) (input : ReconciliationInput)
    → All (Close c input) (all_symbols input)
    → (s : String) → Close c input s
unfolding ◌-ℤ◌
Close-everywhere c input a s = elim (Bool-cases (includes (all_symbols input) s)) [
  | inl e ↦ All-includes (Close c input) (all_symbols input) s a e
  | inr e ↦
      let ip = input.internal_positions in
      let ep = input.exchange_positions in
      let e₁ = includes-add_symbols ep (add_symbols ip []) s in
      let e₂ = includes-add_symbols ip [] s in ground (arith, e₁, e₂, not_held ip s, not_held ep s)
]

All-of : {P : String → Type 0} → ((s : String) → P s) → (xs : List String) → All P xs
All-of h [] = tt
All-of h (x ∷ xs) = (h x, All-of h xs)

-- Orders.
phantoms-IsKnown :
    (ios : List InternalOrder) (eos : List ExchangeOrder)
    → no_drift (phantoms ios eos) ≡ true
    → All (IsKnown ios) eos
unfolding phantoms
phantoms-IsKnown ios [] h = tt
phantoms-IsKnown ios (eo ∷ eos) h = elim (Option-cases (find_internal eo ios)) [
  | inl e ↦ absurd (ground (arith, h, e))
  | inr (io, e) ↦
      let still : is_closed_status io.status ≡ false = ground (arith, h, e) in
      (
        (
          io,
          subst (First (SameOrder eo) ios) e (find_internal-First eo ios),
          λ closed. absurd (ground (arith, (is_closed_status-IsClosed io.status).1 closed, still)),
        ),
        phantoms-IsKnown ios eos (ground (arith, h, e, still)),
      )
]

known_phantoms :
    (ios : List InternalOrder) (eos : List ExchangeOrder)
    → All (IsKnown ios) eos
    → no_drift (phantoms ios eos) ≡ true
unfolding phantoms
known_phantoms ios [] h = refl
known_phantoms ios (eo ∷ eos) ((io, e, f), rest) =
    let found : find_internal eo ios ≡ some io =
      First-unique (SameOrder eo) ios (find_internal-First eo ios) e in
    elim (Bool-cases (is_closed_status io.status)) [
      | inl closed ↦ absurd (f ((is_closed_status-IsClosed io.status).0 closed))
      | inr still ↦ ground (arith, found, still, known_phantoms ios eos rest)
    ]

SameClient-sym : {a b : Option String} → SameClient a b → SameClient b a
SameClient-sym (s, e, f, n) = (s, f, e, n)

found-Any :
    (io : InternalOrder) (eos : List ExchangeOrder) (eo : ExchangeOrder)
    → find_exchange io eos ≡ some eo
    → Any (λ x. SameOrder x io) eos
unfolding find_exchange
found-Any io [] eo h = absurd (cc)
found-Any io (x ∷ eos) eo h = elim (Bool-cases (x.order_id == io.id)) [
  | inl e ↦ inl (inl (sym ((eq_iff x.order_id io.id).0 e)))
  | inr e ↦ elim (Bool-cases (same_client x.client_order_id io.client_order_id)) [
    | inl f ↦
        inl
          (inr (SameClient-sym ((same_client-SameClient x.client_order_id io.client_order_id).0 f)))
    | inr f ↦ inr (found-Any io eos eo (ground arith))
  ]
]

Any-found :
    (io : InternalOrder) (eos : List ExchangeOrder)
    → Any (λ x. SameOrder x io) eos
    → find_exchange io eos ≢ none
unfolding find_exchange
Any-found io [] a h = absurd a
Any-found io (x ∷ eos) (inl (inl e)) h =
    let same = (eq_iff x.order_id io.id).1 (sym e) in ground (arith, h, same)
Any-found io (x ∷ eos) (inl (inr e)) h =
    let same = (same_client-SameClient x.client_order_id io.client_order_id).1 (SameClient-sym e) in
    ground (arith, h, same)
Any-found io (x ∷ eos) (inr a) h = Any-found io eos a (ground (arith, h))

stales-IsPresent :
    (eos : List ExchangeOrder) (ios : List InternalOrder)
    → no_drift (stales eos ios) ≡ true
    → All (IsPresent eos) ios
unfolding stales
stales-IsPresent eos [] h = tt
stales-IsPresent eos (io ∷ ios) h = elim (Bool-cases (is_active_status io.status)) [
  | inr e ↦ (
    inl (λ active. absurd (ground (arith, (is_active_status-IsActive io.status).1 active, e))),
    stales-IsPresent eos ios (ground (arith, h, e)),
  )
  | inl e ↦ elim (Option-cases (find_exchange io eos)) [
    | inl f ↦ absurd (ground (arith, h, e, f))
    | inr (eo, f) ↦
        (inr (found-Any io eos eo f), stales-IsPresent eos ios (ground (arith, h, e, f)))
  ]
]

present_stales :
    (eos : List ExchangeOrder) (ios : List InternalOrder)
    → All (IsPresent eos) ios
    → no_drift (stales eos ios) ≡ true
unfolding stales
present_stales eos [] h = refl
present_stales eos (io ∷ ios) (inl e, rest) = elim (Bool-cases (is_active_status io.status)) [
  | inl active ↦ absurd (e ((is_active_status-IsActive io.status).0 active))
  | inr idle ↦ ground (arith, idle, present_stales eos ios rest)
]
present_stales eos (io ∷ ios) (inr a, rest) = elim (Option-cases (find_exchange io eos)) [
  | inl f ↦ absurd (Any-found io eos a f)
  | inr (eo, f) ↦ ground (arith, f, present_stales eos ios rest)
]

-- `reconcile` reports the two sides synchronized exactly when they tell the same story. In every
-- symbol the quantities of the first position of each side differ by no more than the tolerance,
-- where a side without one counts as zero. For every order of the exchange, the first internal order
-- with its id or with its client order id, not empty, exists and is neither CANCELLED, FILLED nor
-- REJECTED. Every internal order that is PENDING, SUBMITTED or PARTIALLY_FILLED has such a match
-- among the orders of the exchange.
pub synchronized_iff :
    (now : ℕ) (input : ReconciliationInput) (r : Reconciliation)
    → ((reconcile now input r).0.synchronized ≡ true) ↔ Synchronized r.config input
unfolding reconcile all_discrepancies
synchronized_iff now input r = (sound, complete)
  where
    split :
        (no_drift (all_discrepancies r.config input) ≡ true)
        → (no_drift (position_drift r.config input (all_symbols input)) ≡ true)
          × (no_drift (phantoms input.internal_orders input.exchange_orders) ≡ true)
          × (no_drift (stales input.exchange_orders input.internal_orders) ≡ true)
    split h =
        let e = no_drift-append (position_drift r.config input (all_symbols input)) (
          phantoms input.internal_orders input.exchange_orders
          ++ stales input.exchange_orders input.internal_orders) in
        let f =
          no_drift-append (phantoms input.internal_orders input.exchange_orders)
            (stales input.exchange_orders input.internal_orders) in
        (ground arith, ground arith, ground arith)

    sound : (reconcile now input r).0.synchronized ≡ true → Synchronized r.config input
    sound h =
        let (p, k, s) = split h in
        record {
          positions = λ sym. (held_in-IsClose r.config input sym).1 (
              Close-everywhere r.config input (drift-Close r.config input (all_symbols input) p)
                sym);
          known = phantoms-IsKnown input.internal_orders input.exchange_orders k;
          present = stales-IsPresent input.exchange_orders input.internal_orders s;
        }

    complete : Synchronized r.config input → (reconcile now input r).0.synchronized ≡ true
    complete a =
        let p = Close-drift r.config input (all_symbols input) (
          All-of {P = Close r.config input}
            (λ sym. (held_in-IsClose r.config input sym).0 (a.positions sym))
            (all_symbols input)) in
        let k = known_phantoms input.internal_orders input.exchange_orders a.known in
        let s = present_stales input.exchange_orders input.internal_orders a.present in
        let e = no_drift-append (position_drift r.config input (all_symbols input)) (
          phantoms input.internal_orders input.exchange_orders
          ++ stales input.exchange_orders input.internal_orders) in
        let f =
          no_drift-append (phantoms input.internal_orders input.exchange_orders)
            (stales input.exchange_orders input.internal_orders) in
        ground arith
