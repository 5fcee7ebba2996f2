-- ===== src/Pipeline/Run.antt =====
-- The gates in front of the order, `executeInternal` and `execute`: apps/server/src/execution-pipeline/pipeline.ts.
use Prim.Native.String
use finance_agent_os.Base.{
  ℕ, ◌*◌, pos, Bool, true, false, ◌&&◌, not, String, Option, none, some, List, [], map, lookup,
  insert, length, trimmed_or, is_some, if◌then◌else◌, or_default, finite, ok, err,
}
use finance_agent_os.Order.Data.{OrderManager, Env}
use finance_agent_os.Order.Fill.{get_open_orders}
use finance_agent_os.Safety.KillSwitch.{is_halted}
use finance_agent_os.Safety.HardLimits.{OrderRequest, Position, Violation, evaluate}
use finance_agent_os.Pipeline.Signal.{RawSignal, PipelineSignal, validate_signal, notional_fits}
use finance_agent_os.Pipeline.Gates.{check_permission}
use finance_agent_os.Pipeline.State.{
  Around, BrokerPosition, RiskDecision, validation, risk, permission, live_disabled, kill_switch,
  hard_limits, Reason, halted, live_blocked, no_ticket, over_value, invalid, limits, risk_refused,
  risk_error, denied, PipelineResult, Pipeline, Context, push_audit, publish, result,
  is_live_env_allowed,
}
use finance_agent_os.Pipeline.Execute.{World, edit, refuse}
use finance_agent_os.Pipeline.Stages.{order_stage}

module _ (a : Around) where
  unfoldable pub permission_stage :
      Context → PipelineSignal → RiskDecision → World a → PipelineResult × World a
  permission_stage c s d w =
      elim (check_permission s (a.permissions s.agent_id)
        (or_default (lookup s.agent_id w.pipe.daily_counts) 0)) [
          | some x ↦
              refuse a c "permission" "execution.pipeline_permission_denied" true permission
                (denied x) (some d) none w
          | none ↦ order_stage a c s d (
              edit a
                (λ p.
                  publish "execution.pipeline_permission_checked" (
                    push_audit c "permission" "execution.pipeline_permission_checked" (some true)
                      p))
                w)
        ]

  -- `requireRiskApproval` and what it asks of the decision.
  abbrev pub risk_refusal : Pipeline → RiskDecision → Option Reason
  risk_refusal p d =
      if not p.require_risk_approval
      then none
      else if not d.approved
      then some (risk_refused (or_default d.reason "Risk engine rejected"))
      else if not (is_some d.ticket)
      then some no_ticket
      else none

  unfoldable pub risk_stage : Context → PipelineSignal → World a → PipelineResult × World a
  risk_stage c s w =
      let (r, state) = a.evaluate s w.risk in
      let w' : World a = record w { risk = state } in
      elim r [
        | err m ↦
            refuse a c "risk" "execution.pipeline_risk_rejected" false risk (risk_error m) none none
              w'
        | ok d ↦ elim (risk_refusal w.pipe d) [
          | some reason ↦
              refuse a c "risk" "execution.pipeline_risk_rejected" true risk reason (some d) none w'
          | none ↦ permission_stage c s d (
              edit a
                (λ p.
                  publish "execution.pipeline_risk_checked"
                    (push_audit c "risk" "execution.pipeline_risk_checked" (some true) p))
                w')
        ]
      ]

  abbrev position_of : ℕ → BrokerPosition → Position
  position_of price p = record {
    symbol = p.symbol;
    quantity = p.quantity;
    current_price = or_default p.current_price (or_default p.entry_price (pos price));
  }

  abbrev open_count : Option OrderManager → ℕ
  open_count none = 0
  open_count (some om) = length (get_open_orders om)

  -- The request that the hard limits judge: the daily loss is given as 0. The default equity is
  -- 100 000 in cents times units.
  unfoldable pub limits_request : PipelineSignal → World a → OrderRequest
  limits_request s w = record {
    symbol = s.symbol;
    side = s.side;
    quantity = finite (pos s.quantity);
    price = finite (pos s.price);
    current_positions = map (position_of s.price) (a.positions w.broker);
    current_open_orders = open_count w.pipe.orders;
    current_daily_loss = pos 0;
    current_daily_orders = or_default (lookup s.agent_id w.pipe.daily_counts) 0;
    account_equity = or_default (a.equity w.broker) (pos (10000000 * 1000000000));
  }

  -- Whether the hard limits, if there are any, allow the signal.
  abbrev pub within_limits : PipelineSignal → World a → Bool
  within_limits s w = elim w.pipe.hard_limits [
    | none ↦ true
    | some c ↦ (evaluate c (limits_request s w)).allowed
  ]

  abbrev broken : PipelineSignal → World a → List Violation
  broken s w = elim w.pipe.hard_limits [
    | none ↦ []
    | some h ↦ (evaluate h (limits_request s w)).violations
  ]

  unfoldable pub limits_stage : Context → PipelineSignal → World a → PipelineResult × World a
  limits_stage c s w =
      if within_limits s w
      then risk_stage c (record s { id = some c.signal_id; correlation_id = some c.correlation_id })
          (edit a
            (λ p.
              publish "execution.pipeline_validated"
                (push_audit c "validation" "execution.pipeline_validated" (some true) p))
            w)
      else refuse a c "hard_limits" "PIPELINE_HARD_LIMIT_BREACHED" false hard_limits
          (limits (broken s w)) none none w

  unfoldable pub validate_stage : Context → Option RawSignal → World a → PipelineResult × World a
  validate_stage c signal w = elim (validate_signal c.env.now signal) [
    | err e ↦
        refuse a c "validation" "execution.pipeline_validation_failed" true validation (invalid e)
          none none w
    | ok s ↦
        if notional_fits s w.pipe.max_order_value
        then limits_stage c s w
        else refuse a c "validation" "execution.pipeline_validation_failed" true validation
            over_value none none w
  ]

  abbrev pub switch_halted : Pipeline → Bool
  switch_halted p = elim p.kill_switch [ none ↦ false | some k ↦ is_halted k ]

  abbrev halt_reason : Pipeline → String
  halt_reason p = elim p.kill_switch [
    | none ↦ "Emergency halt"
    | some k ↦ or_default k.triggered_reason "Emergency halt"
  ]

  abbrev pub is_live_blocked : Pipeline → Bool
  is_live_blocked p = p.live_enabled && not (is_live_env_allowed p)

  -- `executeInternal`
  unfoldable pub execute_internal : Context → Option RawSignal → World a → PipelineResult × World a
  execute_internal c signal w =
      if switch_halted w.pipe
      then (
        result c false kill_switch (halted (halt_reason w.pipe)) none none,
        edit a (push_audit c "kill_switch" "PIPELINE_KILL_SWITCH_BLOCKED" (some false)) w,
      )
      else if is_live_blocked w.pipe
      then (
        result c false live_disabled live_blocked none none,
        edit a (push_audit c "live_disabled" "execution.pipeline_live_blocked" (some false)) w,
      )
      else validate_stage c signal (
          edit a
            (λ p.
              push_audit c "received" "execution.pipeline_signal_received" none
                (publish "execution.pipeline_signal_received" p))
            w)

  abbrev text_of : (RawSignal → Option String) → Option RawSignal → Option String
  text_of f none = none
  text_of f (some s) = f s

  -- The ids that `execute` chooses, given what the generators would make.
  unfoldable pub context_of : Env → String → String → String → Option RawSignal → Context
  context_of env correlation_uuid signal_uuid fill_hash signal = record {
    env = env;
    correlation_id = trimmed_or (text_of (λ s. s.correlation_id) signal) correlation_uuid;
    signal_id = trimmed_or (text_of (λ s. s.id) signal) signal_uuid;
    fill_hash = fill_hash;
  }

  -- `correlationId:idempotencyKey`
  unfoldable pub inflight_key : Context → Option RawSignal → String
  inflight_key c signal =
      String.◌++◌ c.correlation_id
        (String.◌++◌ ":" (trimmed_or (text_of (λ s. s.idempotency_key) signal) c.signal_id))

  -- `execute`, with nothing in flight.
  unfoldable pub execute : Context → Option RawSignal → World a → PipelineResult × World a
  execute c signal w =
      let key = inflight_key c signal in
      elim (lookup key w.pipe.done) [
        | some prior ↦ (prior, w)
        | none ↦
            let (r, w') = execute_internal c signal w in
            (r, edit a (λ p. record p { done = insert key r p.done }) w')
      ]
