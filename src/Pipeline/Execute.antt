-- ===== src/Pipeline/Execute.antt =====
-- The execution of a signal, stage by stage: apps/server/src/execution-pipeline/pipeline.ts. One
-- execution runs at a time.
use finance_agent_os.Base.{
  ℕ, ◌*◌, ℤ, pos, Bool, false, ◌&&◌, not, String, Option, none, some, lookup, if◌then◌else◌,
  or_default, Number, finite,
}
use finance_agent_os.Order.Status.{is_status, created, pending, submitted, rejected, failed, paper}
use finance_agent_os.Order.Data.{ManagedOrder, OrderManager, OrderParams, OrderFill, valid}
use finance_agent_os.Order.Manager.{update_status}
use finance_agent_os.Pipeline.Signal.{PipelineSignal}
use finance_agent_os.Pipeline.State.{
  Around, BrokerOrder, RiskDecision, Stage, Reason, PipelineResult, Pipeline, Context, push_audit,
  publish, result,
}

module _ (a : Around) where
  -- The pipeline with the broker and the risk agent that it calls.
  pub record World : Type 0 where
    pub pipe : Pipeline
    pub broker : a.BrokerState
    pub risk : a.RiskState

  abbrev pub edit : (Pipeline → Pipeline) → World → World
  edit f w = record w { pipe = f w.pipe }

  -- A rejection: an audit entry, the stage's event where it has one, and the last event.
  abbrev pub refuse :
      Context
      → String
      → String
      → Bool
      → Stage
      → Reason
      → Option RiskDecision
      → Option BrokerOrder
      → World
      → PipelineResult × World
  refuse c stage event announced at reason decision order w = (
    result c false at reason decision order,
    edit
        (λ p.
          let q = push_audit c stage event (some false) p in
          publish "execution.pipeline_rejected" (if announced then publish event q else q))
        w,
  )

  -- The fill that the broker reports; without a fee it pays one thousandth of its value.
  abbrev pub fill_of : Context → PipelineSignal → BrokerOrder → OrderFill
  fill_of c s o = record {
    id = none;
    quantity = o.quantity;
    price = or_default o.filled_price s.price;
    fee = some (or_default o.fee (default_fee o.quantity (or_default o.filled_price s.price)));
    timestamp = c.env.now;
    hash = c.fill_hash;
  }
    where
      default_fee : Number → ℕ → ℤ
      default_fee (finite (pos q)) price = pos (price * q)
      default_fee _ price = pos 0

  -- The parameters that the pipeline gives `createOrder`.
  unfoldable pub order_params : Context → PipelineSignal → OrderParams
  order_params c s = record {
    symbol = some s.symbol;
    side = valid s.side;
    order_type = valid s.order_type;
    quantity = finite (pos s.quantity);
    price = finite (pos s.price);
    stop_price = none;
    strategy = s.strategy;
    agent = some s.agent_id;
    execution_mode = paper;
    client_order_id = some c.signal_id;
    correlation_id = some c.correlation_id;
    idempotency_key = some c.signal_id;
  }

  -- A canonical order of an earlier run, unless it was rejected or failed.
  abbrev pub reusable : Context → Pipeline → OrderManager → Option ManagedOrder
  reusable c p om = elim (lookup c.signal_id p.order_idempotency) [
    | none ↦ none
    | some id ↦ elim (lookup id om.orders) [
      | none ↦ none
      | some o ↦
          if not (is_status o.status rejected) && not (is_status o.status failed)
          then some o
          else none
    ]
  ]

  -- Two transitions for an order that is CREATED.
  abbrev pub submit_created : ℕ → ManagedOrder → OrderManager → OrderManager
  submit_created now o om =
      if is_status o.status created
      then (update_status now o.id submitted none (update_status now o.id pending none om).1).1
      else om
