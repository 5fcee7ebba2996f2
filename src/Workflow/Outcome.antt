-- ===== src/Workflow/Outcome.antt =====
-- What `approve` does before the pipeline is called: apps/server/src/orchestrator/orchestrator.ts.
use finance_agent_os.Base.{
  none, ◌+◌, ◌≤◌, ◌⊎◌, to_upper, trim, or_default, eq_iff, finite, pos, negsuc, absent, nan,
  infinite, negative_infinite, Number, ℕ, ◌≡◌, refl, arith, Bool, true, false, String, includes,
  Option, some, Option-cases, Bool-cases, inl, inr, [], ◌∷◌, ◌++◌, lookup,
}
use finance_agent_os.Order.Status.{OrderSide, buy, sell}
use finance_agent_os.Pipeline.Signal.{RawSignal}
use finance_agent_os.Workflow.Proposal.{WorkflowProposal}
use finance_agent_os.Workflow.State.{
  WorkflowRun, Orchestrator, confirmation_mismatch, stale_data, approval, is_awaiting, save,
}
use finance_agent_os.Workflow.Start.{fail_at}
use finance_agent_os.Workflow.Approve.{
  Confirmation, same_side, same_quantity, Begun, not_found, returned, executing, confirms, is_stale,
  signal_of, approved_run, begin_approve,
}

-- The state in which the pipeline is called.
abbrev pub handed : String → RawSignal → WorkflowRun → Orchestrator → Orchestrator
handed key s r w =
    let w' = save r w in
    record w' { in_flight = w'.in_flight ++ key ∷ []; executions = w'.executions ++ (key, s) ∷ [] }

-- What holds of a run when its signal is given to the pipeline.
pub record Cleared (max_age now : ℕ) (last : Option (Option ℕ)) (id : String) (c : Confirmation)
    (w : Orchestrator) : Type 0 where
  pub run : WorkflowRun
  pub proposal : WorkflowProposal
  pub stored : lookup id w.runs ≡ some run
  pub proposed : run.proposal ≡ some proposal
  pub waiting : is_awaiting run.status ≡ true
  pub idle : includes w.in_flight id ≡ false
  pub same_symbol : to_upper (trim (or_default c.symbol "")) ≡ proposal.symbol
  pub same_side : c.side ≡ some proposal.side
  pub same_quantity : c.quantity ≡ finite (pos proposal.quantity)
  pub fresh : (last ≡ none) ⊎ ((t : ℕ) × (last ≡ some (some t)) × (now ≤ t + max_age))

sides : (s : Option OrderSide) (t : OrderSide) → same_side s t ≡ true → s ≡ some t
sides (some buy) buy h = refl
sides (some sell) sell h = refl
sides (some buy) sell h = absurd (ground (arith, h))
sides (some sell) buy h = absurd (ground (arith, h))
sides none t h = absurd (ground (arith, h))

quantities : (n : Number) (q : ℕ) → same_quantity n q ≡ true → n ≡ finite (pos q)
quantities (finite (pos n)) q h = ground (arith, h)
quantities (finite (negsuc n)) q h = absurd (ground (arith, h))
quantities absent q h = absurd (ground (arith, h))
quantities nan q h = absurd (ground (arith, h))
quantities infinite q h = absurd (ground (arith, h))
quantities negative_infinite q h = absurd (ground (arith, h))

confirms-Exact :
    (c : Confirmation) (p : WorkflowProposal)
    → confirms c p ≡ true
    → (to_upper (trim (or_default c.symbol "")) ≡ p.symbol)
      × (c.side ≡ some p.side)
      × (c.quantity ≡ finite (pos p.quantity))
unfolding confirms
confirms-Exact c p h = (
  (eq_iff (to_upper (trim (or_default c.symbol ""))) p.symbol).0 (ground (arith, h)),
  sides c.side p.side (ground (arith, h)),
  quantities c.quantity p.quantity (ground (arith, h)),
)

is_stale-false :
    (max_age now : ℕ) (last : Option (Option ℕ))
    → is_stale max_age now last ≡ false
    → (last ≡ none) ⊎ ((t : ℕ) × (last ≡ some (some t)) × (now ≤ t + max_age))
unfolding is_stale
is_stale-false max_age now none h = inl refl
is_stale-false max_age now (some none) h = absurd (ground (arith, h))
is_stale-false max_age now (some (some t)) h = inr (t, refl, ground (arith, h))

abbrev pub is_executing : Begun → Bool
is_executing not_found = false
is_executing (returned r) = false
is_executing (executing r) = true

-- The ways in which the first part of `approve` can end.
pub data Outcome (max_age now : ℕ) (last : Option (Option ℕ)) (id : String) (c : Confirmation)
    (w : Orchestrator) : Begun → Orchestrator → Type 0 where
  kept : {b : Begun} → is_executing b ≡ false → Outcome max_age now last id c w b w
  unconfirmed :
      (r : WorkflowRun)
      → lookup id w.runs ≡ some r
      → is_awaiting r.status ≡ true
      → Outcome max_age now last id c w
          (returned (record r { error = some confirmation_mismatch; updated_at = now }))
          (save (record r { error = some confirmation_mismatch; updated_at = now }) w)
  stale :
      (r : WorkflowRun)
      → lookup id w.runs ≡ some r
      → Outcome max_age now last id c w
          (returned (fail_at approval stale_data now r))
          (save (fail_at approval stale_data now r) w)
  cleared :
      (x : Cleared max_age now last id c w)
      → Outcome max_age now last id c w
          (executing (approved_run now x.proposal x.run))
          (handed id (signal_of now id x.proposal) (approved_run now x.proposal x.run) w)

module _ (max_age now : ℕ) (last : Option (Option ℕ)) (id : String) (c : Confirmation)
    (w : Orchestrator) where
  -- The last three guards.
  confirmed-Outcome :
      (r : WorkflowRun) (p : WorkflowProposal)
      → lookup id w.runs ≡ some r
      → r.proposal ≡ some p
      → is_awaiting r.status ≡ true
      → includes w.in_flight id ≡ false
      → let b = begin_approve max_age now last id c w in Outcome max_age now last id c w b.0 b.1
  unfolding begin_approve
  confirmed-Outcome r p e f g h = elim (Bool-cases (confirms c p)) [
    | inr i ↦ rw (e, begin_approve, f, g, h, i) (unconfirmed r e g)
    | inl i ↦ elim (Bool-cases (is_stale max_age now last)) [
      | inl j ↦ rw (e, begin_approve, f, g, h, i, j) (stale r e)
      | inr j ↦
          rw (e, begin_approve, f, g, h, i, j)
            (cleared (record {
              run = r;
              proposal = p;
              stored = e;
              proposed = f;
              waiting = g;
              idle = h;
              same_symbol = (confirms-Exact c p i).0;
              same_side = (confirms-Exact c p i).1;
              same_quantity = (confirms-Exact c p i).2;
              fresh = is_stale-false max_age now last j;
            }))
    ]
  ]

  pub begin_approve-Outcome :
      let b = begin_approve max_age now last id c w in Outcome max_age now last id c w b.0 b.1
  unfolding begin_approve
  begin_approve-Outcome = elim (Option-cases (lookup id w.runs)) [
    | inl e ↦ rw (e, begin_approve) (kept refl)
    | inr (r, e) ↦ elim (Option-cases r.proposal) [
      | inl f ↦ rw (e, begin_approve, f) (kept refl)
      | inr (p, f) ↦ elim (Bool-cases (is_awaiting r.status)) [
        | inr g ↦ rw (e, begin_approve, f, g) (kept refl)
        | inl g ↦ elim (Bool-cases (includes w.in_flight id)) [
          | inl h ↦ rw (e, begin_approve, f, g, h) (kept refl)
          | inr h ↦ confirmed-Outcome r p e f g h
        ]
      ]
    ]
  ]

  -- `approve` goes on to the pipeline only for a run that waits for approval and is not in flight, on
  -- a confirmation of the very symbol, side and quantity of its proposal and, where a reader of market
  -- data is given, on an update no older than the maximal age; the signal that the pipeline gets is the
  -- one made of that proposal.
  pub begin_approve-Cleared :
      (r : WorkflowRun)
      → (begin_approve max_age now last id c w).0 ≡ executing r
      → (x : Cleared max_age now last id c w) × ((begin_approve max_age now last id c
            w).1.executions
          ≡ w.executions ++ (id, signal_of now id x.proposal) ∷ [])
  begin_approve-Cleared r h = go begin_approve-Outcome h
    where
      go :
          {b : Begun} {w' : Orchestrator}
          → Outcome max_age now last id c w b w'
          → b ≡ executing r
          → (x : Cleared max_age now last id c w) × (w'.executions
              ≡ w.executions ++ (id, signal_of now id x.proposal) ∷ [])
      go (kept n) h = absurd (ground (arith, n, h))
      go (unconfirmed r e g) h = absurd (ground arith)
      go (stale r e) h = absurd (ground arith)
      go (cleared x) h = (x, refl)
