-- ===== src/Pipeline/State.antt =====
-- The state of the execution pipeline and of what stands around it:
-- apps/server/src/execution-pipeline/pipeline.ts, types.ts and audit.ts.
use finance_agent_os.Base.{
  ℕ, ℤ, Bool, true, false, ◌&&◌, not, String, ◌==◌, Option, none, some, List, [], ◌∷◌, ◌++◌, Dict,
  keep_last, filter, drop, length, ◌-◌, eqb, if◌then◌else◌, Number, Result, ok, err,
}
use finance_agent_os.Order.Data.{ManagedOrder, OrderManager, Env}
use finance_agent_os.Safety.KillSwitch.{KillSwitch}
use finance_agent_os.Safety.HardLimits.{HardLimitsConfig, Violation}
use finance_agent_os.Risk.Ticket.{RiskApprovalTicket}
use finance_agent_os.Pipeline.Signal.{PipelineSignal, ValidationError}
use finance_agent_os.Pipeline.Gates.{PermissionInput, Denial}

pub data BrokerStatus : Type 0 where
  rejected filled partially_filled other : BrokerStatus

pub record BrokerOrder : Type 0 where
  pub status : BrokerStatus
  pub quantity : Number
  pub filled_price : Option ℕ
  pub fee : Option ℤ
  pub reason : Option String

pub record BrokerPosition : Type 0 where
  pub symbol : String
  pub quantity : ℤ
  pub current_price : Option ℤ
  pub entry_price : Option ℤ

pub record RiskDecision : Type 0 where
  pub approved : Bool
  pub reason : Option String
  pub ticket : Option RiskApprovalTicket

-- The paper broker, the risk agent and the gateway's permissions, which the pipeline is given. A call
-- may throw (`err`) where the pipeline catches that.
pub record Around : Type 1 where
  pub BrokerState : Type 0
  pub RiskState : Type 0
  pub positions : BrokerState → List BrokerPosition
  pub equity : BrokerState → Option ℤ
  pub place :
      PipelineSignal
      → String
      → String
      → Option RiskApprovalTicket
      → BrokerState
      → Result String BrokerOrder × BrokerState
  pub evaluate : PipelineSignal → RiskState → Result String RiskDecision × RiskState
  pub permissions : String → Option PermissionInput

pub data Stage : Type 0 where
  validation risk permission paper live_disabled kill_switch hard_limits completed : Stage

pub data Reason : Type 0 where
  halted : String → Reason
  live_blocked no_ticket over_value executed : Reason
  invalid : ValidationError → Reason
  limits : List Violation → Reason
  risk_refused risk_error broker_rejected failed : String → Reason
  denied : Denial → Reason

-- `PipelineResult`, less its times and its audit ids.
pub record PipelineResult : Type 0 where
  pub success : Bool
  pub stage : Stage
  pub reason : Reason
  pub correlation_id : String
  pub signal_id : String
  pub risk_decision : Option RiskDecision
  pub order : Option BrokerOrder
  pub managed_order : Option ManagedOrder

pub record AuditEntry : Type 0 where
  pub stage : String
  pub event_type : String
  pub approved : Option Bool
  pub correlation_id : String
  pub signal_id : String

-- `live_env` says whether LIVE_TRADING_ENABLED is "true"; `published` lists the types of the events.
pub record Pipeline : Type 0 where
  pub live_enabled : Bool
  pub sandbox : Bool
  pub live_env : Bool
  pub require_risk_approval : Bool
  pub max_order_value : Option ℕ
  pub kill_switch : Option KillSwitch
  pub hard_limits : Option HardLimitsConfig
  pub orders : Option OrderManager
  pub daily_counts : Dict ℕ
  pub done : Dict PipelineResult
  pub order_idempotency : Dict String
  pub audit : List AuditEntry
  pub published : List String

-- What one execution takes from the runtime, and the ids that `execute` has chosen for it.
pub record Context : Type 0 where
  pub env : Env
  pub correlation_id : String
  pub signal_id : String
  pub fill_hash : String

abbrev pub max_entries : ℕ
max_entries = 5000

-- `PipelineAuditLog.record`
unfoldable pub record_audit : AuditEntry → Pipeline → Pipeline
record_audit e p = record p {
  audit = keep_last max_entries (p.audit ++ e ∷ []);
  published = p.published ++ e.event_type ∷ [];
}

abbrev pub push_audit : Context → String → String → Option Bool → Pipeline → Pipeline
push_audit c stage event approved = record_audit (record {
  stage = stage;
  event_type = event;
  approved = approved;
  correlation_id = c.correlation_id;
  signal_id = c.signal_id;
})

abbrev pub publish : String → Pipeline → Pipeline
publish event p = record p { published = p.published ++ event ∷ [] }

abbrev pub result :
    Context → Bool → Stage → Reason → Option RiskDecision → Option BrokerOrder → PipelineResult
result c success stage reason decision order = record {
  success = success;
  stage = stage;
  reason = reason;
  correlation_id = c.correlation_id;
  signal_id = c.signal_id;
  risk_decision = decision;
  order = order;
  managed_order = none;
}

-- The live gate and its switches.
abbrev pub is_live_env_allowed : Pipeline → Bool
is_live_env_allowed p = not p.sandbox && p.live_env

unfoldable pub is_live_enabled : Pipeline → Bool
is_live_enabled p = not p.sandbox && p.live_enabled && p.live_env

-- The end of the constructor: a live pipeline that may not be live becomes a paper one.
unfoldable pub construct : Pipeline → Pipeline
construct p =
    let q = if p.sandbox && p.live_enabled then record p { live_enabled = false } else p in
    if q.live_enabled && not (is_live_env_allowed q) then record q { live_enabled = false } else q

pub data LiveError : Type 0 where
  in_sandbox env_not_set : LiveError

unfoldable pub enable_live_trading : Pipeline → Result LiveError (Unit {0}) × Pipeline
enable_live_trading p =
    if p.sandbox
    then (err in_sandbox, p)
    else if not p.live_env
    then (err env_not_set, p)
    else (ok tt, record p { live_enabled = true })

abbrev pub disable_live_trading : Pipeline → Pipeline
disable_live_trading p = record p { live_enabled = false }

unfoldable pub reset_daily_counts : Pipeline → Pipeline
reset_daily_counts p = record p { daily_counts = []; done = [] }

-- `if (given) out = out.filter(...)` of `PipelineAuditLog.list`; an empty text filters nothing.
abbrev filter_by : Option String → (AuditEntry → String) → List AuditEntry → List AuditEntry
filter_by none field es = es
filter_by (some s) field es = if s == "" then es else filter (λ e. field e == s) es

-- `out.slice(-limit)`, where there is a limit other than 0
abbrev slice_last : Option ℕ → List AuditEntry → List AuditEntry
slice_last none es = es
slice_last (some n) es = if eqb n 0 then es else drop (length es - n) es

unfoldable pub list_audit :
    Option String → Option String → Option String → Option ℕ → Pipeline → List AuditEntry
list_audit correlation signal stage limit p = slice_last limit (
    filter_by stage (λ e. e.stage)
      (filter_by signal (λ e. e.signal_id) (filter_by correlation (λ e. e.correlation_id) p.audit)))
