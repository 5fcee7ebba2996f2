-- ===== src/Pipeline/Safety.antt =====
-- The gates that an execution passes: apps/server/src/execution-pipeline/pipeline.ts.
use finance_agent_os.Base.{
  ◌≡◌, refl, true, false, String, Option, none, some, is_some, Option-cases, Bool-cases, or_default,
  lookup, arith, ◌⊎◌, inl, inr, Result, ok, err,
}
use finance_agent_os.Pipeline.Signal.{
  RawSignal, PipelineSignal, ValidationError, validate_signal, notional_fits,
}
use finance_agent_os.Pipeline.Gates.{check_permission}
use finance_agent_os.Pipeline.State.{
  Around, RiskDecision, Reason, Pipeline, Context, push_audit, publish, record_audit,
}
use finance_agent_os.Pipeline.Execute.{World, edit}
use finance_agent_os.Pipeline.Run.{
  permission_stage, risk_refusal, risk_stage, within_limits, limits_request, limits_stage,
  validate_stage, switch_halted, is_live_blocked, execute_internal, execute, inflight_key,
}

module _ (a : Around) where
  -- The broker was not called.
  abbrev pub Idle : World a → World a → Type 0
  Idle w w' = w'.broker ≡ w.broker

  -- The permission check passed.
  abbrev pub Permitted : PipelineSignal → Pipeline → Type 0
  Permitted s p =
      check_permission s (a.permissions s.agent_id)
        (or_default (lookup s.agent_id p.daily_counts) 0)
      ≡ none

  permission_gate :
      (c : Context) (s : PipelineSignal) (d : RiskDecision) (w : World a)
      → Idle w (permission_stage a c s d w).1 ⊎ Permitted s w.pipe
  unfolding permission_stage
  permission_gate c s d w =
      elim (Option-cases (
        check_permission s (a.permissions s.agent_id)
          (or_default (lookup s.agent_id w.pipe.daily_counts) 0))) [
            | inl e ↦ inr e
            | inr (x, e) ↦ inl (rw (e, permission_stage) refl)
          ]

  -- The risk agent decided on the signal; where an approval is required, it approved with a ticket.
  pub record RiskPassed (s : PipelineSignal) (w : World a) : Type 0 where
    pub decision : RiskDecision
    pub decided : (a.evaluate s w.risk).0 ≡ ok decision
    pub approval :
        (w.pipe.require_risk_approval ≡ false)
        ⊎ ((decision.approved ≡ true) × (is_some decision.ticket ≡ true))

  not_refused-approval :
      (p : Pipeline) (d : RiskDecision)
      → risk_refusal a p d ≡ none
      → (p.require_risk_approval ≡ false) ⊎ ((d.approved ≡ true) × (is_some d.ticket ≡ true))
  not_refused-approval p d h = ground (arith, h)

  -- The signal with the ids that the pipeline gives it.
  abbrev pub named : Context → PipelineSignal → PipelineSignal
  named c s = record s { id = some c.signal_id; correlation_id = some c.correlation_id }

  risk_gate :
      (c : Context) (s : PipelineSignal) (w : World a)
      → Idle w (risk_stage a c s w).1 ⊎ (RiskPassed s w × Permitted s w.pipe)
  unfolding risk_stage record_audit
  risk_gate c s w = go (a.evaluate s w.risk).0 refl
    where
      passed :
          (d : RiskDecision) (x : Option Reason)
          → (a.evaluate s w.risk).0 ≡ ok d
          → risk_refusal a w.pipe d ≡ x
          → Idle w (risk_stage a c s w).1 ⊎ (RiskPassed s w × Permitted s w.pipe)
      passed d (some x) e f = inl (ground arith)
      passed d none e f =
          elim (permission_gate c s d (record w {
            pipe =
                publish "execution.pipeline_risk_checked"
                  (push_audit c "risk" "execution.pipeline_risk_checked" (some true) w.pipe);
            risk = (a.evaluate s w.risk).1;
          })) [
            | inl idle ↦ inl (rw (e, risk_stage, f) idle)
            | inr ok_perm ↦ inr (
              record { decision = d; decided = e; approval = not_refused-approval w.pipe d f },
              ok_perm,
            )
          ]

      go :
          (r : Result String RiskDecision)
          → (a.evaluate s w.risk).0 ≡ r
          → Idle w (risk_stage a c s w).1 ⊎ (RiskPassed s w × Permitted s w.pipe)
      go (err m) e = inl (rw (e, risk_stage) refl)
      go (ok d) e = passed d (risk_refusal a w.pipe d) e refl

  -- All that the pipeline checked of a signal before it called the broker.
  pub record Cleared (c : Context) (signal : Option RawSignal) (w : World a) : Type 0 where
    pub not_halted : switch_halted a w.pipe ≡ false
    pub not_live : is_live_blocked a w.pipe ≡ false
    pub normalized : PipelineSignal
    pub validated : validate_signal c.env.now signal ≡ ok normalized
    pub value_fits : notional_fits normalized w.pipe.max_order_value ≡ true
    pub limits_fit : within_limits a normalized w ≡ true
    pub risk_passed : RiskPassed (named c normalized) w
    pub permitted : Permitted (named c normalized) w.pipe

  limits_gate :
      (c : Context) (s : PipelineSignal) (w : World a)
      → Idle w (limits_stage a c s w).1
        ⊎ ((within_limits a s w ≡ true) × RiskPassed (named c s) w × Permitted (named c s) w.pipe)
  unfolding limits_stage record_audit
  limits_gate c s w = elim (Bool-cases (within_limits a s w)) [
    | inr e ↦ inl (ground arith)
    | inl e ↦
        elim (risk_gate c (named c s) (record w {
          pipe =
              publish "execution.pipeline_validated"
                (push_audit c "validation" "execution.pipeline_validated" (some true) w.pipe);
        })) [
          | inl idle ↦ inl (rw (limits_open c s w e) idle)
          | inr (r, p) ↦
              inr
                (e, record { decision = r.decision; decided = r.decided; approval = r.approval }, p)
        ]
  ]
    where
      limits_open :
          (c : Context) (s : PipelineSignal) (w : World a)
          → within_limits a s w ≡ true
          → limits_stage a c s w
            ≡ risk_stage a c (named c s) (record w {
              pipe =
                  publish "execution.pipeline_validated"
                    (push_audit c "validation" "execution.pipeline_validated" (some true) w.pipe);
            })
      limits_open c s w e = ground arith

  validate_gate :
      (c : Context) (signal : Option RawSignal) (w : World a)
      → switch_halted a w.pipe ≡ false
      → is_live_blocked a w.pipe ≡ false
      → Idle w (validate_stage a c signal w).1 ⊎ Cleared c signal w
  unfolding validate_stage
  validate_gate c signal w h l = go (validate_signal c.env.now signal) refl
    where
      go :
          (r : Result ValidationError PipelineSignal)
          → validate_signal c.env.now signal ≡ r
          → Idle w (validate_stage a c signal w).1 ⊎ Cleared c signal w
      go (err e) v = inl (rw (v, validate_stage) refl)
      go (ok s) v = elim (Bool-cases (notional_fits s w.pipe.max_order_value)) [
        | inr n ↦ inl (ground arith)
        | inl n ↦ elim (limits_gate c s w) [
          | inl idle ↦ inl (rw (v, validate_stage, n) idle)
          | inr (fits, r, p) ↦ inr (record {
            not_halted = h;
            not_live = l;
            normalized = s;
            validated = v;
            value_fits = n;
            limits_fit = fits;
            risk_passed = r;
            permitted = p;
          })
        ]
      ]

  -- The state in which validation begins: the receipt of the signal is on record.
  abbrev received : Context → World a → World a
  received c w =
      edit a
        (λ p.
          push_audit c "received" "execution.pipeline_signal_received" none
            (publish "execution.pipeline_signal_received" p))
        w

  internal_gate :
      (c : Context) (signal : Option RawSignal) (w : World a)
      → Idle w (execute_internal a c signal w).1 ⊎ Cleared c signal w
  unfolding execute_internal record_audit limits_request
  internal_gate c signal w = elim (Bool-cases (switch_halted a w.pipe)) [
    | inl h ↦ inl (ground arith)
    | inr h ↦ elim (Bool-cases (is_live_blocked a w.pipe)) [
      | inl l ↦ inl (ground arith)
      | inr l ↦ elim (validate_gate c signal (received c w) h l) [
        | inl idle ↦ inl (ground (arith, idle))
        | inr x ↦ inr (record {
          not_halted = h;
          not_live = l;
          normalized = x.normalized;
          validated = x.validated;
          value_fits = x.value_fits;
          limits_fit = x.limits_fit;
          risk_passed = record {
            decision = x.risk_passed.decision;
            decided = x.risk_passed.decided;
            approval = x.risk_passed.approval;
          };
          permitted = x.permitted;
        })
      ]
    ]
  ]

  -- The broker is called only for a signal that every gate has passed. After an execution the broker
  -- is in the state that it was in, or: the kill switch is not halted, the live gate does not block,
  -- the signal is valid and within the maximal order value, the hard limits (if any) allow it against
  -- the broker's positions, the risk agent decided on it and, where risk approval is required,
  -- approved it with a ticket, and the permissions of its agent allow it at the agent's daily count.
  pub broker_needs_clearance :
      (c : Context) (signal : Option RawSignal) (w : World a)
      → ((execute a c signal w).1.broker ≡ w.broker) ⊎ Cleared c signal w
  unfolding execute
  broker_needs_clearance c signal w =
      elim (Option-cases (lookup (inflight_key a c signal) w.pipe.done)) [
        | inr (r, e) ↦ inl (ground arith)
        | inl e ↦ elim (internal_gate c signal w) [
          | inl idle ↦ inl (ground (arith, idle))
          | inr x ↦ inr x
        ]
      ]
