-- ===== src/Risk/Redemption.antt =====
-- Events of the anti-replay cache over time: apps/server/src/risk-engine/ticket.ts.
use finance_agent_os.Base.{
  ℕ, ◌≤◌, ◌≡◌, ◌≢◌, inl, inr, refl, ◌∙◌, ap, Bool, true, false, String, ◌==◌, eq_iff, eq_refl,
  includes, Option, none, some, Option-cases, Bool-cases, List, [], ◌∷◌, lookup, is_some, arith,
  if◌then◌else◌,
}
use finance_agent_os.Risk.Cache.{
  Synced, Kept, Spent, mark-Synced, clean_entries-Synced, Expires-none, Expires-insert, clean-Spent,
}
use finance_agent_os.Risk.Ticket.{
  Crypto, RiskApprovalTicket, TicketInput, Refusal, UsedTickets, Checked, clean_expired_tickets,
  mark_ticket_redeemed, structure, refusal, verify_risk_ticket,
}

-- What happens to the cache, with the clock's reading: tickets are verified, and expired ones are
-- cleaned out.
pub data Event : Type 0 where
  verified : ℕ → Option RiskApprovalTicket → TicketInput → Bool → Event
  cleaned : ℕ → Event

abbrev pub time_of : Event → ℕ
time_of (verified now t order replay) = now
time_of (cleaned now) = now

-- The clock does not go back from `start` through the events to `end`.
abbrev pub Ordered : ℕ → List Event → ℕ → Type 0
Ordered start [] end = start ≤ end
Ordered start (e ∷ es) end = (start ≤ time_of e) × Ordered (time_of e) es end

Ordered-le : (start end : ℕ) (es : List Event) → Ordered start es end → start ≤ end
Ordered-le start end [] o = o
Ordered-le start end (e ∷ es) o = omega (arith, o.0, Ordered-le (time_of e) end es o.1)

module _ (c : Crypto) (secret : String) where
  unfoldable pub handle : Event → UsedTickets → UsedTickets
  handle (verified now t order replay) u = (verify_risk_ticket c secret now t order replay u).1
  handle (cleaned now) u = clean_expired_tickets now u

  unfoldable pub handle_all : List Event → UsedTickets → UsedTickets
  handle_all [] u = u
  handle_all (e ∷ es) u = handle_all es (handle e u)

  -- The halves of the cache agree after every event.
  handle-Synced : (e : Event) (u : UsedTickets) → Synced u → Synced (handle e u)
  unfolding handle clean_expired_tickets verify_risk_ticket lookup
  handle-Synced (cleaned now) u s = clean_entries-Synced now u.timestamps u s
  handle-Synced (verified now none order replay) u s = unfold verify_risk_ticket in s
  handle-Synced (verified now (some t) order replay) u s =
      verified_synced (structure c secret t) refl
    where
      redeemed :
          (b : Bool) (k : Checked c secret)
          → Synced (if b then u else mark_ticket_redeemed t.ticket_id k.expires_at u)
      redeemed true k = s
      redeemed false k = mark-Synced t.ticket_id k.expires_at u s

      decided :
          (k : Checked c secret) (r : Option Refusal)
          → structure c secret t ≡ some k
          → refusal c secret now t k order replay u ≡ r
          → Synced (verify_risk_ticket c secret now (some t) order replay u).1
      decided k none e f = rw (e, verify_risk_ticket, f) (redeemed replay k)
      decided k (some r) e f = rw (e, verify_risk_ticket, f) s

      verified_synced :
          (o : Option (Checked c secret))
          → structure c secret t ≡ o
          → Synced (verify_risk_ticket c secret now (some t) order replay u).1
      verified_synced none e = rw (e, verify_risk_ticket) s
      verified_synced (some k) e = decided k (refusal c secret now t k order replay u) e refl

  mark-Kept :
      (id j : String) (exp e : ℕ) (u : UsedTickets)
      → Kept id exp u
      → (j == id) ≡ false
      → Kept id exp (mark_ticket_redeemed j e u)
  unfolding mark_ticket_redeemed
  mark-Kept id j exp e u k n = record {
    in_used = ground (arith, k.in_used);
    expires = Expires-insert id j exp e u.timestamps k.expires (λ p. absurd (cc));
  }

  -- A ticket in the cache is not accepted again.
  refused_if_used :
      (now : ℕ) (t : RiskApprovalTicket) (k : Checked c secret) (order : TicketInput)
      (u : UsedTickets)
      → includes u.used t.ticket_id ≡ true
      → refusal c secret now t k order false u ≢ none
  unfolding refusal
  refused_if_used now t k order u h e = ground arith

  verify-Kept :
      (id : String) (exp now : ℕ) (t : RiskApprovalTicket) (order : TicketInput) (replay : Bool)
      (u : UsedTickets)
      → Kept id exp u
      → Kept id exp (verify_risk_ticket c secret now (some t) order replay u).1
  unfolding verify_risk_ticket
  verify-Kept id exp now t order replay u kept = elim (Option-cases (structure c secret t)) [
    | inl e ↦ rw (e, verify_risk_ticket) kept
    | inr (k, e) ↦ elim (Option-cases (refusal c secret now t k order replay u)) [
      | inr (r, f) ↦ rw (e, verify_risk_ticket, f) kept
      | inl f ↦ rw (e, verify_risk_ticket, f) (accepted replay k f)
    ]
  ]
    where
      accepted :
          (b : Bool) (k : Checked c secret)
          → refusal c secret now t k order b u ≡ none
          → Kept id exp (if b then u else mark_ticket_redeemed t.ticket_id k.expires_at u)
      accepted true k f = kept
      accepted false k f = elim (Bool-cases (t.ticket_id == id)) [
        | inr n ↦ mark-Kept id t.ticket_id exp k.expires_at u kept n
        | inl n ↦ absurd (
            refused_if_used now t k order u
              (ap (includes u.used) ((eq_iff t.ticket_id id).0 n) ∙ kept.in_used) f)
      ]

  handle-Spent :
      (id : String) (exp start : ℕ) (e : Event) (u : UsedTickets)
      → start ≤ time_of e
      → Spent id exp start u
      → Spent id exp (time_of e) (handle e u)
  unfolding handle verify_risk_ticket
  handle-Spent id exp start e u h (inr gone) = inr (omega arith)
  handle-Spent id exp start (verified now none order replay) u h (inl k) = inl k
  handle-Spent id exp start (verified now (some t) order replay) u h (inl k) =
      inl (verify-Kept id exp now t order replay u k)
  handle-Spent id exp start (cleaned now) u h (inl k) = clean-Spent id exp now u k

  handle_all-Spent :
      (id : String) (exp start end : ℕ) (es : List Event) (u : UsedTickets)
      → Ordered start es end
      → Spent id exp start u
      → Spent id exp end (handle_all es u)
  unfolding handle_all
  handle_all-Spent id exp start end [] u o (inl k) = inl k
  handle_all-Spent id exp start end [] u o (inr gone) = inr (omega arith)
  handle_all-Spent id exp start end (e ∷ es) u o s =
      handle_all-Spent id exp (time_of e) end es (handle e u) o.1
        (handle-Spent id exp start e u o.0 s)

  not_listed : (o : Option ℕ) → is_some o ≡ false → o ≡ none
  not_listed none h = refl
  not_listed (some n) h = cc

  fresh :
      (now : ℕ) (t : RiskApprovalTicket) (k : Checked c secret) (order : TicketInput)
      (u : UsedTickets)
      → refusal c secret now t k order false u ≡ none
      → includes u.used t.ticket_id ≡ false
  unfolding refusal
  fresh now t k order u h = ground arith

  mark_fresh :
      (id : String) (exp : ℕ) (u : UsedTickets)
      → lookup id u.timestamps ≡ none
      → Kept id exp (mark_ticket_redeemed id exp u)
  unfolding mark_ticket_redeemed
  mark_fresh id exp u h = record {
    in_used = ground (arith, eq_refl id);
    expires =
        Expires-insert id id exp exp u.timestamps (Expires-none id exp u.timestamps h) (λ p. refl);
  }

  malformed_refused :
      (now : ℕ) (t : RiskApprovalTicket) (order : TicketInput) (u : UsedTickets)
      → structure c secret t ≡ none
      → (verify_risk_ticket c secret now (some t) order false u).0 ≢ none
  unfolding verify_risk_ticket
  malformed_refused now t order u e h = ground arith

  -- An accepted ticket was not in the cache, and now is.
  accepted-Kept :
      (now : ℕ) (t : RiskApprovalTicket) (k : Checked c secret) (order : TicketInput)
      (u : UsedTickets)
      → Synced u
      → structure c secret t ≡ some k
      → (verify_risk_ticket c secret now (some t) order false u).0 ≡ none
      → Kept t.ticket_id k.expires_at (verify_risk_ticket c secret now (some t) order false u).1
  unfolding verify_risk_ticket
  accepted-Kept now t k order u s e accept =
      let passed : refusal c secret now t k order false u ≡ none = ground arith in
      let unused : lookup t.ticket_id u.timestamps ≡ none =
        not_listed (lookup t.ticket_id u.timestamps)
          (s t.ticket_id ∙ fresh now t k order u passed) in
      rw (e, verify_risk_ticket, passed) (mark_fresh t.ticket_id k.expires_at u unused)

  Spent-refused :
      (now : ℕ) (t : RiskApprovalTicket) (k : Checked c secret) (order : TicketInput)
      (u : UsedTickets)
      → structure c secret t ≡ some k
      → Spent t.ticket_id k.expires_at now u
      → (verify_risk_ticket c secret now (some t) order false u).0 ≢ none
  unfolding verify_risk_ticket refusal
  Spent-refused now t k order u e (inl kept) h = ground (arith, kept.in_used)
  Spent-refused now t k order u e (inr gone) h = ground arith

  -- A ticket is redeemed at most once. Say that a cache whose halves agree, as an empty one does,
  -- accepts a ticket without `allowReplay`. Then after any later verifications, of this ticket and of
  -- others, and any cleaning of the cache, with a clock that does not go back, the ticket is refused
  -- for every order.
  pub redeemed_once :
      (now later : ℕ) (t : RiskApprovalTicket) (first second : TicketInput) (u : UsedTickets)
      (es : List Event)
      → Synced u
      → (verify_risk_ticket c secret now (some t) first false u).0 ≡ none
      → Ordered now es later
      → let u' = handle_all es (verify_risk_ticket c secret now (some t) first false u).1 in
        (verify_risk_ticket c secret later (some t) second false u').0 ≢ none
  redeemed_once now later t first second u es s h o = elim (Option-cases (structure c secret t)) [
    | inl e ↦ absurd (malformed_refused now t first u e h)
    | inr (k, e) ↦ Spent-refused later t k second _ e (
        handle_all-Spent t.ticket_id k.expires_at now later es _ o
          (inl (accepted-Kept now t k first u s e h)))
  ]
