-- ===== src/Risk/Bounds.antt =====
-- The bounds of a ticket against an order: apps/server/src/risk-engine/ticket.ts.
use finance_agent_os.Base.{
  ◌⊎◌, ◌↔◌, subst, ℕ, ◌+◌, ◌*◌, ◌≤◌, ◌<◌, ◌≡◌, inl, inr, refl, true, false, String, ◌==◌, eq_iff,
  eq_refl, to_upper, includes, Option, none, some, Option-cases, arith, or_default,
}
use finance_agent_os.Order.Status.{OrderSide, buy, sell}
use finance_agent_os.Risk.Ticket.{
  Crypto, RiskApprovalTicket, TicketInput, TicketParams, UsedTickets, Checked, structure, refusal,
  verify_risk_ticket, compute_ticket_signature, side_word, issue_risk_ticket, default_ticket_ttl_ms,
  over_price, same_side, other_correlation,
}

-- No price, or one that is at most 1.05 times the maximum unless one of the two is zero.
abbrev pub PriceFits : Option ℕ → ℕ → Type 0
PriceFits none max = Unit
PriceFits (some p) max = (p ≡ 0) ⊎ (max ≡ 0) ⊎ (100 * p ≤ 105 * max)

-- No correlation id, or the ticket's unless one of the two is empty.
abbrev pub CorrelationFits : Option String → String → Type 0
CorrelationFits none id = Unit
CorrelationFits (some o) id = (o ≡ "") ⊎ (id ≡ "") ⊎ (o ≡ id)

-- A ticket that is issued for `p` and expires at `expires` covers the order.
pub record Covers (expires : ℕ) (p : TicketParams) (later : ℕ) (order : TicketInput) : Type 0 where
  pub in_time : later ≤ expires
  pub for_symbol : to_upper (to_upper p.symbol) ≡ to_upper order.symbol
  pub for_side : p.side ≡ order.side
  pub for_quantity : 1000000 * order.quantity ≤ 1000001 * p.max_quantity
  pub for_price : PriceFits order.price p.max_price
  pub for_correlation : CorrelationFits order.correlation_id p.correlation_id

module _ (c : Crypto) (secret : String) where
  -- Everything that the ticket says of the order that it was accepted for.
  pub record Vouched (now : ℕ) (t : RiskApprovalTicket) (order : TicketInput) (u : UsedTickets)
      : Type 0 where
    pub fields : Checked c secret
    pub well_formed : structure c secret t ≡ some fields
    pub in_time : now ≤ fields.expires_at
    pub signed :
        t.signature
        ≡ compute_ticket_signature c secret t.ticket_id t.correlation_id t.risk_decision_id t.symbol
            (side_word fields.side)
            fields.max_quantity
            t.max_price
            t.approved_at
            fields.expires_at
    pub unused : includes u.used t.ticket_id ≡ false
    pub for_symbol : to_upper t.symbol ≡ to_upper order.symbol
    pub for_side : fields.side ≡ order.side
    pub for_quantity : 1000000 * order.quantity ≤ 1000001 * fields.max_quantity
    pub for_price : (p : ℕ) → order.price ≡ some p → 0 < t.max_price → 100 * p ≤ 105 * t.max_price

  sides : (a b : OrderSide) → (same_side a b ≡ true) ↔ (a ≡ b)
  sides a b = (equal a b, λ e. subst (λ x. same_side a x ≡ true) e (itself a))
    where
      equal : (a b : OrderSide) → same_side a b ≡ true → a ≡ b
      equal buy buy h = refl
      equal buy sell h = cc
      equal sell buy h = cc
      equal sell sell h = refl

      itself : (a : OrderSide) → same_side a a ≡ true
      itself buy = refl
      itself sell = refl

  price_bound :
      (o : Option ℕ) (max p : ℕ)
      → over_price c secret o max ≡ false
      → o ≡ some p
      → 0 < max
      → 100 * p ≤ 105 * max
  price_bound none max p h e m = cc
  price_bound (some q) max p h e m = ground arith

  passed-Vouched :
      (now : ℕ) (t : RiskApprovalTicket) (k : Checked c secret) (order : TicketInput)
      (u : UsedTickets)
      → structure c secret t ≡ some k
      → refusal c secret now t k order false u ≡ none
      → Vouched now t order u
  unfolding refusal
  passed-Vouched now t k order u e h =
      let sig =
        compute_ticket_signature c secret t.ticket_id t.correlation_id t.risk_decision_id t.symbol
          (side_word k.side) k.max_quantity t.max_price t.approved_at k.expires_at in
      record {
        fields = k;
        well_formed = e;
        in_time = ground arith;
        signed = (eq_iff t.signature sig).0 (ground arith);
        unused = ground arith;
        for_symbol = (eq_iff (to_upper t.symbol) (to_upper order.symbol)).0 (ground arith);
        for_side = (sides k.side order.side).0 (ground arith);
        for_quantity = ground arith;
        for_price = λ p q m. price_bound order.price t.max_price p (ground arith) q m;
      }

  -- A ticket that is accepted without `allowReplay` is well formed, in time, signed with the secret
  -- over its own fields, and not redeemed before; it is for the order's symbol and side; the order's
  -- quantity is at most 1.000001 times the approved one, and its price, where the order has one and
  -- the ticket's maximal price is positive, at most 1.05 times the maximal price.
  pub accepted-Vouched :
      (now : ℕ) (t : RiskApprovalTicket) (order : TicketInput) (u : UsedTickets)
      → (verify_risk_ticket c secret now (some t) order false u).0 ≡ none
      → Vouched now t order u
  unfolding verify_risk_ticket
  accepted-Vouched now t order u h = elim (Option-cases (structure c secret t)) [
    | inl e ↦ absurd (ground arith)
    | inr (k, e) ↦ passed-Vouched now t k order u e (ground arith)
  ]

  abbrev pub issued : ℕ → String → TicketParams → RiskApprovalTicket
  issued now uuid p = issue_risk_ticket c secret now uuid p

  within_price : (o : Option ℕ) (max : ℕ) → (over_price c secret o max ≡ false) ↔ PriceFits o max
  within_price none max = (λ h. tt, λ h. refl)
  within_price (some p) max = (λ h. ground (arith, h), λ h. ground (arith, h))

  same_correlation :
      (o : Option String) (id : String)
      → (other_correlation c secret o id ≡ false) ↔ CorrelationFits o id
  same_correlation none id = (λ h. tt, λ h. refl)
  same_correlation (some o) id =
      let e = eq_iff o "" in
      let f = eq_iff id "" in
      let g = eq_iff o id in (λ h. ground (arith, h, e, f, g), λ h. ground (arith, h, e, f, g))

  -- An issued ticket whose id, symbol and signature are not empty and whose id is not redeemed is
  -- accepted for an order exactly when it has not expired, the order is in the issued symbol, up to
  -- the case of letters, and side, asks for at most 1.000001 times the approved quantity, gives no
  -- price or, unless one of the two prices is zero, one of at most 1.05 times the approved price, and
  -- gives no correlation id or, unless one of the two is empty, the issued one.
  pub issued_accepted :
      (now later : ℕ) (uuid : String) (p : TicketParams) (order : TicketInput) (u : UsedTickets)
      → ((issued now uuid p).ticket_id == "") ≡ false
      → ((issued now uuid p).symbol == "") ≡ false
      → ((issued now uuid p).signature == "") ≡ false
      → includes u.used (issued now uuid p).ticket_id ≡ false
      → ((verify_risk_ticket c secret later (some (issued now uuid p)) order false u).0 ≡ none)
        ↔ Covers (now + or_default p.ttl_ms default_ticket_ttl_ms) p later order
  unfolding verify_risk_ticket refusal structure issue_risk_ticket
  issued_accepted now later uuid p order u id_given symbol_given signed unused =
      let t = issue_risk_ticket c secret now uuid p in
      let same = eq_refl t.signature in
      let symbols = eq_iff (to_upper t.symbol) (to_upper order.symbol) in
      let price = within_price order.price p.max_price in
      let correlation = same_correlation order.correlation_id p.correlation_id in
      let side = sides p.side order.side in
      (
        λ h. record {
          in_time = ground (arith, h);
          for_symbol = symbols.0 (ground (arith, h, same));
          for_side = side.0 (ground (arith, h, same));
          for_quantity = ground (arith, h, same);
          for_price = price.0 (ground (arith, h, same));
          for_correlation = correlation.0 (ground (arith, h, same));
        },
        λ a. ground (
          arith,
          a.in_time,
          same,
          symbols.1 a.for_symbol,
          side.1 a.for_side,
          a.for_quantity,
          price.1 a.for_price,
          correlation.1 a.for_correlation,
        ),
      )
