-- ===== src/Approvals/Final.antt =====
-- Sequences of calls without overlap: apps/server/src/approvals/approval-service.ts.
use finance_agent_os.Base.{
  ℕ, ◌≤◌, ◌≡◌, refl, ◌∙◌, ap, true, false, String, eq_iff, Option, none, some, Option-cases,
  Bool-cases, [], ◌∷◌, lookup, insert, lookup-insert, arith, Result, ok, err, inl, inr,
}
use mathlib.Core.List
use finance_agent_os.Approvals.Service.{
  pending, approved, rejected, failed, has_status, TradeProposal, ProposeInput, ApprovalService,
  ApprovalError, Produced, Thrown, approval_error, other_error, proposal_expired, expire, sweep,
  propose, begin_approve, finish_approve, approve, reject,
}
use finance_agent_os.Approvals.Decisions.{
  Keyed, Call, offer, look, accept, refuse, call, IsFresh, Effect, Effect-refl, Effect-trans,
  sweep-Effect, sweep-Keyed, written-Effect,
}

-- What `begin_approve` has found when it goes on to execute.
record Begun (now : ℕ) (id : String) (s : ApprovalService) (p : TradeProposal)
    (s' : ApprovalService) : Type 0 where
  stored : lookup id s.proposals ≡ some p
  waiting : has_status p.status pending ≡ true
  in_time : now ≤ p.expires_at
  unchanged : s' ≡ s

begin_approve-Begun :
    (swept_at now : ℕ) (id : String) (pl : Option Produced) (s : ApprovalService)
    (p : TradeProposal)
    → (begin_approve swept_at now id pl s).0 ≡ ok p
    → Begun now id (sweep swept_at s) p (begin_approve swept_at now id pl s).1
unfolding begin_approve
begin_approve-Begun swept_at now id pl s p h =
    elim (Option-cases (lookup id (sweep swept_at s).proposals)) [
      | inl e ↦ absurd (ground arith)
      | inr (q, e) ↦ record {
        stored = ground arith;
        waiting = ground arith;
        in_time = ground arith;
        unchanged = ground arith;
      }
    ]

propose-Effect :
    (show : ℕ → String) (now : ℕ) (input : ProposeInput) (s : ApprovalService)
    → Keyed s
    → lookup (propose show now input s).0.id s.proposals ≡ none
    → Effect s (propose show now input s).1
unfolding propose
propose-Effect show now input s k fresh =
    let q = (propose show now input s).0 in
    record {
      keyed = λ id p h. ground (arith, lookup-insert q.id id q s.proposals, eq_iff q.id id, k id p);
      decided =
          λ id p d. (ground (arith, lookup-insert q.id id q s.proposals, eq_iff q.id id, d.0), d.1);
    }

begin_approve-Effect :
    (swept_at now : ℕ) (id : String) (pl : Option Produced) (s : ApprovalService)
    → Keyed s
    → Effect s (begin_approve swept_at now id pl s).1
unfolding begin_approve
begin_approve-Effect swept_at now id pl s k =
    let t = sweep swept_at s in
    let kt = sweep-Keyed swept_at s k in
    Effect-trans (sweep-Effect swept_at s k) (elim (Option-cases (lookup id t.proposals)) [
      | inl e ↦ rw (e, begin_approve) (Effect-refl t kt)
      | inr (p, e) ↦
          rw (e, begin_approve)
            (grind (
              arith,
              Effect-refl t kt,
              written-Effect p (expire now p) t
                  (record t {
                    proposals = insert p.id (expire now p) t.proposals;
                    published = List.◌++◌ t.published (proposal_expired (expire now p) ∷ []);
                  })
                  kt (ap (λ j. lookup j t.proposals) (kt id p e) ∙ e),
            ))
    ])

finish_approve-Effect :
    (now : ℕ) (id : String) (o : Result Thrown String) (s : ApprovalService) (p : TradeProposal)
    → Keyed s
    → lookup id s.proposals ≡ some p
    → has_status p.status pending ≡ true
    → Effect s (finish_approve now id o s).1
unfolding finish_approve
finish_approve-Effect now id (err (approval_error e)) s p k at w =
    rw (at, finish_approve) (Effect-refl s k)
finish_approve-Effect now id (err (other_error m)) s p k at w =
    rw (at, finish_approve)
      (written-Effect p (record p { status = failed; decided_at = some now }) s _ k
        (ap (λ j. lookup j s.proposals) (k id p at) ∙ at) w refl refl)
finish_approve-Effect now id (ok r) s p k at w =
    rw (at, finish_approve)
      (written-Effect p (record p { status = approved; decided_at = some now; result = some r }) s _
        k (ap (λ j. lookup j s.proposals) (k id p at) ∙ at) w refl refl)

reject-Effect :
    (now : ℕ) (id : String) (r : Option String) (s : ApprovalService)
    → Keyed s
    → Effect s (reject now id r s).1
unfolding reject
reject-Effect now id r s k =
    let t = sweep now s in
    let kt = sweep-Keyed now s k in
    Effect-trans (sweep-Effect now s k) (elim (Option-cases (lookup id t.proposals)) [
      | inl e ↦ rw (e, reject) (Effect-refl t kt)
      | inr (p, e) ↦ elim (Bool-cases (has_status p.status pending)) [
        | inr w ↦ rw (e, reject, w) (Effect-refl t kt)
        | inl w ↦
            rw (e, reject, w)
              (written-Effect p (record p { status = rejected; decided_at = some now }) t _ kt
                (ap (λ j. lookup j t.proposals) (kt id p e) ∙ e) w refl refl)
      ]
    ])

approve-Effect :
    (started ended : ℕ) (id : String) (pl : Option Produced) (o : Result Thrown String)
    (s : ApprovalService)
    → Keyed s
    → Effect s (approve started ended id pl o s).1
unfolding approve
approve-Effect started ended id pl o s k = go (begin_approve started started id pl s).0 refl
  where
    begun : Effect s (begin_approve started started id pl s).1
    begun = begin_approve-Effect started started id pl s k

    go :
        (r : Result ApprovalError TradeProposal)
        → (begin_approve started started id pl s).0 ≡ r
        → Effect s (approve started ended id pl o s).1
    go (err e) h = rw (h, approve) begun
    go (ok p) h =
        let b = begin_approve-Begun started started id pl s p h in
        rw (h, approve)
          (Effect-trans begun (
            finish_approve-Effect ended id o _ p begun.keyed
              (ap (λ (x : ApprovalService). lookup id x.proposals) b.unchanged ∙ b.stored)
              b.waiting))

call-Effect : (c : Call) (s : ApprovalService) → Keyed s → IsFresh c s → Effect s (call c s)
unfolding call
call-Effect (offer show now input) s k f = propose-Effect show now input s k f
call-Effect (look now) s k f = sweep-Effect now s k
call-Effect (accept started ended id pl o) s k f = approve-Effect started ended id pl o s k
call-Effect (refuse now id r) s k f = reject-Effect now id r s k

-- Calls in turn, none of which overlaps another.
pub data Run : ApprovalService → ApprovalService → Type 0 where
  here : (s : ApprovalService) → Run s s
  step : {s s' : ApprovalService} (c : Call) → Run s s' → IsFresh c s' → Run s (call c s')

Run-Effect : {s s' : ApprovalService} → Run s s' → Keyed s → Effect s s'
Run-Effect (here s) k = Effect-refl s k
Run-Effect (step {s' = mid} c r f) k =
    let e = Run-Effect r k in Effect-trans e (call-Effect c mid e.keyed f)

-- A decision is final. In a queue that stores each proposal under its id, a proposal that is
-- approved, rejected, expired or failed stays as it is through every sequence of calls that do not
-- overlap, where `propose` makes up an unused id; and the queue goes on to store each proposal under
-- its id.
pub decision_final :
    {s s' : ApprovalService} (id : String) (p : TradeProposal)
    → Run s s'
    → Keyed s
    → lookup id s.proposals ≡ some p
    → has_status p.status pending ≡ false
    → (lookup id s'.proposals ≡ some p) × Keyed s'
decision_final id p r k at d = let e = Run-Effect r k in ((e.decided id p (at, d)).0, e.keyed)

-- `approve` executes only a proposal that is pending after the sweep and not past its expiry, and
-- it changes nothing but by the sweep before it executes.
pub executes_pending :
    (swept_at now : ℕ) (id : String) (pl : Option Produced) (s : ApprovalService)
    (p : TradeProposal)
    → (begin_approve swept_at now id pl s).0 ≡ ok p
    → (lookup id (sweep swept_at s).proposals ≡ some p)
      × (has_status p.status pending ≡ true)
      × (now ≤ p.expires_at)
      × ((begin_approve swept_at now id pl s).1 ≡ sweep swept_at s)
executes_pending swept_at now id pl s p h =
    let b = begin_approve-Begun swept_at now id pl s p h in
    (b.stored, b.waiting, b.in_time, b.unchanged)
