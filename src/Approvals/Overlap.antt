-- ===== src/Approvals/Overlap.antt =====
-- Calls that overlap in the await of `approve`: apps/server/src/approvals/approval-service.ts.
use finance_agent_os.Base.{ℕ, ◌<◌, ◌≡◌, ◌∙◌, ap, true, String, some, lookup, arith, ok}
use finance_agent_os.Approvals.Service.{
  pending, has_status, TradeProposal, ApprovalService, executor, sweep, begin_approve,
}
use finance_agent_os.Approvals.Decisions.{sweep_all-lookup}

module _ (now : ℕ) (id : String) (p : TradeProposal) (s : ApprovalService)
    (at : lookup id s.proposals ≡ some p) (own : p.id ≡ id)
    (waiting : has_status p.status pending ≡ true) (in_time : now < p.expires_at) where
  sweep_keeps : lookup id (sweep now s).proposals ≡ some p
  unfolding sweep
  sweep_keeps = ground (arith, sweep_all-lookup now id s.proposals)

  begins : begin_approve now now id (some executor) s ≡ (ok p, sweep now s)
  unfolding begin_approve
  begins = ground (arith, sweep_keeps)

-- A second approval that starts while the first awaits the pipeline passes every check too: the same
-- proposal, pending and in time, is executed twice.
pub executed_twice :
    (now : ℕ) (id : String) (p : TradeProposal) (s : ApprovalService)
    → lookup id s.proposals ≡ some p
    → p.id ≡ id
    → has_status p.status pending ≡ true
    → now < p.expires_at
    → let (first, s₁) = begin_approve now now id (some executor) s in
      let (second, s₂) = begin_approve now now id (some executor) s₁ in
      (first ≡ ok p) × (second ≡ ok p)
executed_twice now id p s at own w t =
    let a = begins now id p s at own w t in
    let b = begins now id p (sweep now s) (sweep_keeps now id p s at own w t) own w t in
    (
      ap (λ x. x.0) a,
      ap (λ x. (begin_approve now now id (some executor) x.1).0) a ∙ ap (λ x. x.0) b,
    )
