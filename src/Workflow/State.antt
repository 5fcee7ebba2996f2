-- ===== src/Workflow/State.antt =====
-- Runs of the workflow and the orchestrator's state: apps/server/src/orchestrator/types.ts and
-- orchestrator.ts.
use finance_agent_os.Base.{
  ℕ, Bool, true, false, String, Option, List, [], ◌∷◌, ◌++◌, Dict, insert, ℤ,
}
use finance_agent_os.Order.Status.{OrderSide}
use finance_agent_os.Pipeline.Signal.{RawSignal}
use finance_agent_os.Workflow.Proposal.{WorkflowProposal, ProposalError}

pub data WorkflowStatus : Type 0 where
  running awaiting_approval completed user_rejected failed : WorkflowStatus

pub data WorkflowStage : Type 0 where
  research proposal risk_review approval paper_execution portfolio_update audit_record done :
      WorkflowStage

pub data Verdict : Type 0 where
  fine concern block : Verdict

pub record RiskReview : Type 0 where
  pub verdict : Verdict
  pub concerns : List String
  pub notes : Option String

pub record WorkflowAgentStep : Type 0 where
  pub agent_id : String
  pub stage : WorkflowStage
  pub succeeded : Bool
  pub output : Option String
  pub error : Option String

pub record Confirmed : Type 0 where
  pub symbol : String
  pub side : OrderSide
  pub quantity : ℕ

pub data ApprovalInfo : Type 0 where
  was_approved : ℕ → Confirmed → ApprovalInfo
  was_rejected : ℕ → String → ApprovalInfo

pub record PlacedOrder : Type 0 where
  pub status : Option String
  pub quantity : Option ℕ
  pub filled_price : Option ℕ
  pub fee : Option ℤ

-- What the execution pipeline answers.
pub record PipelineAnswer : Type 0 where
  pub success : Bool
  pub stage : String
  pub reason : String
  pub correlation_id : String
  pub signal_id : String
  pub order : Option PlacedOrder
  pub audit_ids : Option (List String)

pub record Execution : Type 0 where
  pub correlation_id : String
  pub signal_id : String
  pub success : Bool
  pub stage : String
  pub reason : String
  pub order : Option PlacedOrder
  pub filled_price : Option ℕ
  pub filled_quantity : Option ℕ
  pub fee : Option ℤ

pub data RunError : Type 0 where
  invalid_proposal : ProposalError → RunError
  risk_blocked : List String → RunError
  agent_failed : String → RunError
  confirmation_mismatch stale_data interrupted : RunError
  execution_rejected : String → String → RunError
  pipeline_error : String → RunError

-- `portfolio_after` is an opaque text.
pub record WorkflowRun : Type 0 where
  pub id : String
  pub created_at : ℕ
  pub updated_at : ℕ
  pub status : WorkflowStatus
  pub stage : WorkflowStage
  pub agents : List WorkflowAgentStep
  pub proposal : Option WorkflowProposal
  pub risk_review : Option RiskReview
  pub approval_info : Option ApprovalInfo
  pub execution : Option Execution
  pub portfolio_after : Option String
  pub audit_ids : List String
  pub error : Option RunError

-- `disk` is what the store holds; `executions` lists the signals that were given to the pipeline, each
-- with the id of its run.
pub record Orchestrator : Type 0 where
  pub runs : Dict WorkflowRun
  pub in_flight : List String
  pub disk : Dict WorkflowRun
  pub executions : List (String × RawSignal)
  pub published : List (String × String)

abbrev pub is_awaiting : WorkflowStatus → Bool
is_awaiting s = elim s [
  | running ↦ false
  | awaiting_approval ↦ true
  | completed ↦ false
  | user_rejected ↦ false
  | failed ↦ false
]

abbrev pub is_running : WorkflowStatus → Bool
is_running s = elim s [
  | running ↦ true
  | awaiting_approval ↦ false
  | completed ↦ false
  | user_rejected ↦ false
  | failed ↦ false
]

abbrev pub publish : String → String → Orchestrator → Orchestrator
publish event id w = record w { published = w.published ++ (event, id) ∷ [] }

-- A change of the run's object, and `saveRun`, on a disk that takes the write.
abbrev pub save : WorkflowRun → Orchestrator → Orchestrator
save r w = record w { runs = insert r.id r w.runs; disk = insert r.id r w.disk }
