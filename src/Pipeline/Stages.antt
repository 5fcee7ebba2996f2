-- ===== src/Pipeline/Stages.antt =====
-- The last stage of `executeInternal`, which places the order: apps/server/src/execution-pipeline/pipeline.ts.
use finance_agent_os.Base.{
  ◌+◌, Bool, true, false, String, Option, none, some, lookup, insert, if◌then◌else◌, or_default,
  Result, ok, err,
}
use finance_agent_os.Order.Data.{ManagedOrder, OrderManager}
use finance_agent_os.Order.Manager.{create_order, reject_order}
use finance_agent_os.Order.Fill.{apply_fill}
use finance_agent_os.Pipeline.Signal.{PipelineSignal}
use finance_agent_os.Pipeline.State.{
  Around, BrokerOrder, BrokerStatus, RiskDecision, paper, completed, executed, broker_rejected,
  failed, PipelineResult, Pipeline, Context, push_audit, publish, result,
}
use finance_agent_os.Pipeline.Execute.{
  World, edit, refuse, fill_of, order_params, reusable, submit_created,
}

module _ (a : Around) where
  -- The canonical order of the signal, in the order manager if there is one.
  unfoldable pub canonical :
      Context → PipelineSignal → Pipeline → Result String (Option ManagedOrder × Pipeline)
  unfolding order_params
  canonical c s p = elim p.orders [
    | none ↦ ok (none, p)
    | some om ↦ elim (reusable a c p om) [
      | some o ↦ ok (some o, p)
      | none ↦
          let (r, om') = create_order c.env (order_params a c s) om in
          elim r [
            | err e ↦ err "createOrder refused the parameters"
            | ok o ↦ ok (
              some o,
              record p {
                orders = some (submit_created a c.env.now o om');
                order_idempotency = insert c.signal_id o.id p.order_idempotency;
              },
            )
          ]
    ]
  ]

  -- A change of the canonical order, if there is one.
  abbrev pub on_order :
      (String → OrderManager → Bool × OrderManager) → Option ManagedOrder → Pipeline → Pipeline
  on_order f none p = p
  on_order f (some o) p = elim p.orders [
    | none ↦ p
    | some om ↦ record p { orders = some (f o.id om).1 }
  ]

  abbrev apply_broker_fill :
      Context → PipelineSignal → BrokerOrder → Option ManagedOrder → Pipeline → Pipeline
  apply_broker_fill c s o managed p = elim o.status [
    | BrokerStatus.rejected ↦ p
    | BrokerStatus.filled ↦
        on_order (λ id om. apply_fill c.env.now id (fill_of a c s o) om) managed p
    | BrokerStatus.partially_filled ↦
        on_order (λ id om. apply_fill c.env.now id (fill_of a c s o) om) managed p
    | BrokerStatus.other ↦ p
  ]

  abbrev count_daily : String → Pipeline → Pipeline
  count_daily agent p = record p {
    daily_counts = insert agent (or_default (lookup agent p.daily_counts) 0 + 1) p.daily_counts;
  }

  -- The broker took the order.
  unfoldable pub settle :
      Context
      → PipelineSignal
      → RiskDecision
      → Option ManagedOrder
      → BrokerOrder
      → World a
      → PipelineResult × World a
  settle c s d managed o w = (
    record (result c true completed executed (some d) (some o)) { managed_order = managed },
    edit a
        (λ p. publish "execution.pipeline_completed" (
          publish "execution.pipeline_paper_executed" (
            push_audit c "paper" "execution.pipeline_paper_executed" (some true)
              (count_daily s.agent_id (apply_broker_fill c s o managed p)))))
        w,
  )

  -- The broker refused it.
  unfoldable pub turn_down :
      Context
      → RiskDecision
      → Option ManagedOrder
      → BrokerOrder
      → World a
      → PipelineResult × World a
  turn_down c d managed o w =
      refuse a c "paper" "execution.pipeline_paper_failed" true paper
        (broker_rejected (or_default o.reason "paper broker rejected order")) (some d) (some o)
        (edit a
          (on_order (λ id om. reject_order c.env.now id (or_default o.reason "broker rejected") om)
            managed)
          w)

  abbrev fail_paper : Context → RiskDecision → String → World a → PipelineResult × World a
  fail_paper c d m =
      refuse a c "paper" "execution.pipeline_paper_failed" false paper (failed m) (some d) none

  abbrev is_rejected : BrokerStatus → Bool
  is_rejected BrokerStatus.rejected = true
  is_rejected BrokerStatus.filled = false
  is_rejected BrokerStatus.partially_filled = false
  is_rejected BrokerStatus.other = false

  unfoldable pub order_stage :
      Context → PipelineSignal → RiskDecision → World a → PipelineResult × World a
  unfolding settle turn_down
  order_stage c s d w = elim (canonical c s w.pipe) [
    | err m ↦ fail_paper c d m w
    | ok (managed, p) ↦
        let (r, broker) = a.place s c.signal_id c.correlation_id d.ticket w.broker in
        let w' : World a = record w { pipe = p; broker = broker } in
        elim r [
          | err m ↦ fail_paper c d m w'
          | ok o ↦
              if is_rejected o.status then turn_down c d managed o w' else settle c s d managed o w'
        ]
  ]
