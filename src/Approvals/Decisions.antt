-- ===== src/Approvals/Decisions.antt =====
-- What a call does to the stored proposals: apps/server/src/approvals/approval-service.ts.
use finance_agent_os.Base.{
  ℕ, ◌≡◌, refl, ◌∙◌, ap, sym, true, false, String, eq_iff, Option, none, some, Option-cases, [],
  ◌∷◌, Dict, lookup, insert, lookup-insert, arith, Result, inl, inr,
}
use finance_agent_os.Approvals.Service.{
  pending, has_status, TradeProposal, ProposeInput, ApprovalService, Produced, Thrown, swept,
  sweep_all, sweep, propose, approve, reject,
}

-- Every proposal is stored under its own id.
abbrev pub Keyed : ApprovalService → Type 0
Keyed s = (id : String) (p : TradeProposal) → lookup id s.proposals ≡ some p → p.id ≡ id

abbrev pub map_proposal :
    (TradeProposal → TradeProposal) → Option TradeProposal → Option TradeProposal
map_proposal f none = none
map_proposal f (some p) = some (f p)

pub sweep_all-lookup :
    (now : ℕ) (id : String) (m : Dict TradeProposal)
    → lookup id (sweep_all now m) ≡ map_proposal (swept now) (lookup id m)
unfolding sweep_all lookup
sweep_all-lookup now id [] = refl
sweep_all-lookup now id ((j, p) ∷ m) = ground (arith, sweep_all-lookup now id m)

-- A decided proposal, in the store.
abbrev pub Decided : String → TradeProposal → ApprovalService → Type 0
Decided id p s = (lookup id s.proposals ≡ some p) × (has_status p.status pending ≡ false)

sweep-Decided :
    (now : ℕ) (id : String) (p : TradeProposal) (s : ApprovalService)
    → Decided id p s
    → Decided id p (sweep now s)
unfolding sweep
sweep-Decided now id p s d = (ground (arith, sweep_all-lookup now id s.proposals), d.1)

pub sweep-Keyed : (now : ℕ) (s : ApprovalService) → Keyed s → Keyed (sweep now s)
unfolding sweep
sweep-Keyed now s k id p h = elim (Option-cases (lookup id s.proposals)) [
  | inl e ↦ absurd (ground (arith, sweep_all-lookup now id s.proposals))
  | inr (q, e) ↦ ground (arith, sweep_all-lookup now id s.proposals, k id q e)
]

-- The calls, each without a pause in it; `look` stands for the queries, which sweep.
pub data Call : Type 0 where
  offer : (ℕ → String) → ℕ → ProposeInput → Call
  look : ℕ → Call
  accept : ℕ → ℕ → String → Option Produced → Result Thrown String → Call
  refuse : ℕ → String → Option String → Call

unfoldable pub call : Call → ApprovalService → ApprovalService
call (offer show now input) s = (propose show now input s).1
call (look now) s = sweep now s
call (accept started ended id pipeline outcome) s = (approve started ended id pipeline outcome s).1
call (refuse now id reason) s = (reject now id reason s).1

-- The id that `propose` makes up is not in use.
abbrev pub IsFresh : Call → ApprovalService → Type 0
IsFresh (offer show now input) s = lookup (propose show now input s).0.id s.proposals ≡ none
IsFresh _ s = Unit

-- Writing back a pending proposal leaves the decided ones alone.
put-Decided :
    (id : String) (p q q' : TradeProposal) (m : Dict TradeProposal)
    → lookup id m ≡ some p
    → has_status p.status pending ≡ false
    → lookup q.id m ≡ some q
    → has_status q.status pending ≡ true
    → lookup id (insert q.id q' m) ≡ some p
put-Decided id p q q' m a d b e = ground (arith, lookup-insert q.id id q' m, eq_iff q.id id)

put-Keyed :
    (q : TradeProposal) (s : ApprovalService)
    → Keyed s
    → (id : String) (p : TradeProposal) → lookup id (insert q.id q s.proposals) ≡ some p
    → p.id ≡ id
put-Keyed q s k id p h = ground (arith, lookup-insert q.id id q s.proposals, eq_iff q.id id, k id p)

-- What every call does to the store.
pub record Effect (s s' : ApprovalService) : Type 0 where
  pub keyed : Keyed s'
  pub decided : (id : String) (p : TradeProposal) → Decided id p s → Decided id p s'

pub Effect-refl : (s : ApprovalService) → Keyed s → Effect s s
Effect-refl s k = record { keyed = k; decided = λ id p d. d }

pub Effect-trans : {s t u : ApprovalService} → Effect s t → Effect t u → Effect s u
Effect-trans e f = record { keyed = f.keyed; decided = λ id p d. f.decided id p (e.decided id p d) }

pub sweep-Effect : (now : ℕ) (s : ApprovalService) → Keyed s → Effect s (sweep now s)
sweep-Effect now s k = record {
  keyed = sweep-Keyed now s k;
  decided = λ id p d. sweep-Decided now id p s d;
}

-- A pending proposal is written back, and something is published.
pub written-Effect :
    (q q' : TradeProposal) (s s' : ApprovalService)
    → Keyed s
    → lookup q.id s.proposals ≡ some q
    → has_status q.status pending ≡ true
    → q'.id ≡ q.id
    → s'.proposals ≡ insert q'.id q' s.proposals
    → Effect s s'
written-Effect q q' s s' k at st same e = record {
  keyed = λ id p h. put-Keyed q' s k id p (ap (lookup id) (sym e) ∙ h);
  decided = λ id p d. (
    ap (lookup id) e
        ∙ ap (λ j. lookup id (insert j q' s.proposals)) same
        ∙ put-Decided id p q q' s.proposals d.0 d.1 at st,
    d.1,
  );
}
