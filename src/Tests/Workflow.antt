-- ===== src/Tests/Workflow.antt =====
-- Runs of the workflow.
use finance_agent_os.Base.{
  ◌≤◌, ◌≡◌, refl, none, some, [], ◌∷◌, ◌++◌, All, lookup, insert, finite, pos, ok, trim, to_upper,
  codes, positive_finite,
}
use finance_agent_os.Order.Status.{buy, market}
use finance_agent_os.Order.Data.{missing}
use finance_agent_os.Workflow.Proposal.{
  RawProposal, WorkflowProposal, validate_proposal, is_proposal_symbol, round_8, slice_text,
}
use finance_agent_os.Workflow.State.{WorkflowRun, Orchestrator}
use finance_agent_os.Workflow.Start.{
  Reader, Answers, begin_run, finish_run, finished_run, proposed, reviewed, parse_risk_review,
}
use finance_agent_os.Workflow.Approve.{
  Confirmation, begin_approve, confirms, is_stale, signal_of, executing, approved_run, recover,
}
use finance_agent_os.Workflow.Outcome.{Cleared, begin_approve-Cleared}
use finance_agent_os.Workflow.Events.{start, researched, approve, apply, Reachable, nothing, next}
use finance_agent_os.Workflow.Once.{executed_at_most_once}
use finance_agent_os.Workflow.Spent.{count_executions}
use finance_agent_os.Workflow.Caps.{SizedSignal, executed-SizedSignal}
use finance_agent_os.Workflow.Restart.{settled, recover-settled}

abbrev raw : RawProposal
raw = record {
  symbol = some "btcusdt";
  side = some "buy";
  quantity = finite (pos 500000000);
  price = finite (pos 6000000000000);
  order_type = missing;
  rationale = some "momentum holds";
  assumptions = none;
}

abbrev reader : Reader
reader = record {
  read_proposal = λ s. some raw;
  read_verdict = λ s. none;
  read_concerns = λ s. [];
  read_notes = λ s. none;
}

abbrev answers : Answers
answers = record { research_answer = ok "brief"; quant_answer = ok "{}"; risk_answer = ok "{}" }

abbrev typed : Confirmation
typed = record { symbol = some "BTCUSDT"; side = some buy; quantity = finite (pos 500000000) }

abbrev idle : Orchestrator
idle = record { runs = []; in_flight = []; disk = []; executions = []; published = [] }

abbrev waiting : Orchestrator
waiting = apply (researched reader "wf-1" 1 2 answers) (apply (start "wf-1" 1) idle)

abbrev executed : Orchestrator
executed = apply (approve 300000 9 (some (some 8)) "wf-1" typed) waiting

waiting-Reachable : Reachable waiting
unfolding apply begin_run lookup insert
waiting-Reachable =
    next (researched reader "wf-1" 1 2 answers) (next (start "wf-1" 1) nothing (refl, refl)) refl

executed-Reachable : Reachable executed
executed-Reachable = next (approve 300000 9 (some (some 8)) "wf-1" typed) waiting-Reachable tt

executed_at_most_once_example : count_executions "wf-1" executed.executions ≤ 1
executed_at_most_once_example = executed_at_most_once "wf-1" executed-Reachable

executed-SizedSignal_example : All SizedSignal executed.executions
executed-SizedSignal_example = executed-SizedSignal executed-Reachable

abbrev proposal : WorkflowProposal
proposal = record {
  symbol = "BTCUSDT";
  side = buy;
  quantity = 500000000;
  price = 6000000000000;
  order_type = market;
  rationale = "momentum holds";
  assumptions = none;
}

abbrev run : WorkflowRun
run = finished_run reader "wf-1" 1 2 answers

begins :
    (begin_approve 300000 9 (some (some 8)) "wf-1" typed waiting).0
    ≡ executing (approved_run 9 proposal run)
unfolding begin_approve apply begin_run finish_run finished_run proposed reviewed parse_risk_review
    validate_proposal is_proposal_symbol round_8 slice_text lookup insert confirms is_stale trim
    to_upper codes positive_finite
begins = refl

begin_approve-Cleared_example :
    (x : Cleared 300000 9 (some (some 8)) "wf-1" typed waiting) × ((begin_approve 300000 9
        (some (some 8))
        "wf-1"
        typed
        waiting).1.executions
      ≡ waiting.executions ++ ("wf-1", signal_of 9 "wf-1" x.proposal) ∷ [])
begin_approve-Cleared_example =
    begin_approve-Cleared 300000 9 (some (some 8)) "wf-1" typed waiting
      (approved_run 9 proposal run) begins

stored : lookup "wf-1" waiting.disk ≡ some run
unfolding apply begin_run finish_run finished_run proposed reviewed parse_risk_review
    validate_proposal is_proposal_symbol round_8 slice_text lookup insert trim to_upper codes
    positive_finite
stored = refl

recover-settled_example :
    lookup "wf-1" (recover 50 ("wf-1" ∷ []) waiting).runs ≡ some (settled 50 run)
recover-settled_example = recover-settled "wf-1" 50 ("wf-1" ∷ []) run waiting-Reachable stored refl
