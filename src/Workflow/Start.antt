-- ===== src/Workflow/Start.antt =====
-- `startRun` and the recovery after a restart: apps/server/src/orchestrator/orchestrator.ts.
use finance_agent_os.Base.{
  ℕ, zero, suc, Bool, true, false, String, ◌==◌, Option, none, some, List, [], ◌∷◌, ◌++◌, Dict,
  lookup, insert, if◌then◌else◌, Result, ok, err,
}
use finance_agent_os.Workflow.Proposal.{RawProposal, validate_proposal, slice_text}
use finance_agent_os.Workflow.State.{
  running, awaiting_approval, completed, user_rejected, failed, WorkflowStage, research, proposal,
  risk_review, approval, Verdict, fine, concern, block, RiskReview, WorkflowRun, RunError,
  invalid_proposal, risk_blocked, agent_failed, interrupted, Orchestrator, is_running, publish,
  save,
}

-- What `extractJson` finds in a text: the fields of a proposal, and those of a review. The reading of
-- JSON is the runtime's.
pub record Reader : Type 0 where
  pub read_proposal : String → Option RawProposal
  pub read_verdict : String → Option String
  pub read_concerns : String → List String
  pub read_notes : String → Option String

-- The answers of the three agents, each a text or the message of an error.
pub record Answers : Type 0 where
  pub research_answer : Result String String
  pub quant_answer : Result String String
  pub risk_answer : Result String String

-- `xs.slice(0, n)`
abbrev take_concerns : ℕ → List String → List String
take_concerns n [] = []
take_concerns zero (x ∷ xs) = []
take_concerns (suc n) (x ∷ xs) = x ∷ take_concerns n xs

abbrev verdict_of : Option String → Verdict
verdict_of none = fine
verdict_of (some s) = if s == "concern" then concern else if s == "block" then block else fine

-- `parseRiskReview`
unfoldable pub parse_risk_review : Reader → String → RiskReview
parse_risk_review reader text = record {
  verdict = verdict_of (reader.read_verdict text);
  concerns = take_concerns 10 (reader.read_concerns text);
  notes = elim (reader.read_notes text) [ none ↦ none | some s ↦ some (slice_text 2000 s) ];
}

abbrev pub new_run : String → ℕ → WorkflowRun
new_run id now = record {
  id = id;
  created_at = now;
  updated_at = now;
  status = running;
  stage = research;
  agents = [];
  proposal = none;
  risk_review = none;
  approval_info = none;
  execution = none;
  portfolio_after = none;
  audit_ids = [];
  error = none;
}

-- A step of an agent, with the agent's answer.
abbrev pub add_step : String → WorkflowStage → Result String String → WorkflowRun → WorkflowRun
add_step agent stage answer r = record r {
  agents =
      r.agents
      ++ record {
        agent_id = agent;
        stage = stage;
        succeeded = elim answer [ ok s ↦ true | err e ↦ false ];
        output = elim answer [ ok s ↦ some s | err e ↦ none ];
        error = elim answer [ ok s ↦ none | err e ↦ some e ];
      }
        ∷ [];
}

abbrev pub fail_at : WorkflowStage → RunError → ℕ → WorkflowRun → WorkflowRun
fail_at stage e now r = record r {
  status = failed;
  stage = stage;
  error = some e;
  updated_at = now;
}

abbrev is_block : Verdict → Bool
is_block v = elim v [ fine ↦ false | concern ↦ false | block ↦ true ]

-- The run behind its review.
unfoldable pub reviewed : Reader → ℕ → Result String String → WorkflowRun → WorkflowRun
unfolding parse_risk_review
reviewed reader now answer r =
    let r' = add_step "risk-guardian-agent" risk_review answer r in
    elim answer [
      | err e ↦ fail_at research (agent_failed e) now r'
      | ok text ↦
          let review = parse_risk_review reader text in
          let r'' : WorkflowRun = record r' { risk_review = some review } in
          if is_block review.verdict
          then fail_at risk_review (risk_blocked review.concerns) now r''
          else record r'' { status = awaiting_approval; stage = approval; updated_at = now }
    ]

-- The run behind its proposal.
unfoldable pub proposed : Reader → ℕ → Answers → WorkflowRun → WorkflowRun
unfolding reviewed
proposed reader now a r =
    let r' = add_step "btc-quant-agent" proposal a.quant_answer r in
    elim a.quant_answer [
      | err e ↦ fail_at research (agent_failed e) now r'
      | ok text ↦ elim (validate_proposal (reader.read_proposal text)) [
        | err e ↦ fail_at proposal (invalid_proposal e) now r'
        | ok p ↦ reviewed reader now a.risk_answer (record r' { proposal = some p })
      ]
    ]

-- The run that `startRun` returns.
unfoldable pub finished_run : Reader → String → ℕ → ℕ → Answers → WorkflowRun
unfolding proposed
finished_run reader id started now a =
    let r = add_step "market-research-agent" research a.research_answer (new_run id started) in
    elim a.research_answer [
      | err e ↦ fail_at research (agent_failed e) now r
      | ok text ↦ proposed reader now a r
    ]

-- `startRun` up to its first `await`: the run is known, and running.
unfoldable pub begin_run : String → ℕ → Orchestrator → Orchestrator
begin_run id now w = publish "orchestrator.workflow_started" id (save (new_run id now) w)

abbrev pub event_of : WorkflowRun → Orchestrator → Orchestrator
event_of r w = elim r.status [
  | running ↦ w
  | awaiting_approval ↦ publish "orchestrator.workflow_awaiting_approval" r.id w
  | completed ↦ w
  | user_rejected ↦ w
  | failed ↦ elim r.error [
    | none ↦ w
    | some (agent_failed e) ↦ w
    | some e ↦ publish "orchestrator.workflow_failed" r.id w
  ]
]

-- `startRun` from there to its end. The run is still running: no other call changes it in between.
unfoldable pub finish_run : Reader → String → ℕ → ℕ → Answers → Orchestrator → Orchestrator
finish_run reader id started now a w =
    let r = finished_run reader id started now a in event_of r (save r w)

-- `hydrate` over the ids of the store's index.
unfoldable pub hydrate : List String → Dict WorkflowRun → Dict WorkflowRun → Dict WorkflowRun
hydrate [] disk runs = runs
hydrate (id ∷ ids) disk runs = elim (lookup id disk) [
  | none ↦ hydrate ids disk runs
  | some r ↦ hydrate ids disk (insert r.id r runs)
]

-- `cleanOrphans`
unfoldable pub clean_orphans : ℕ → List WorkflowRun → Orchestrator → Orchestrator
clean_orphans now [] w = w
clean_orphans now (r ∷ rs) w = clean_orphans now rs (
    if is_running r.status
    then save (record r { status = failed; error = some interrupted; updated_at = now }) w
    else w)
