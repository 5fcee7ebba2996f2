-- ===== src/Workflow/Approve.antt =====
-- `approve`, `reject` and `recoverAfterRestart`: apps/server/src/orchestrator/orchestrator.ts.
use finance_agent_os.Base.{
  ℕ, ◌+◌, Bool, true, false, ◌&&◌, not, String, ◌==◌, includes, trim, to_upper, Option, none, some,
  or_default, List, [], ◌∷◌, ◌++◌, lookup, values, filter, ltb, eqb, if◌then◌else◌, Number, finite,
  absent, pos, Result, ok, err,
}
use Prim.Native.String
use finance_agent_os.Order.Status.{OrderSide, buy, sell, OrderType, market, limit, stop, stop_limit}
use finance_agent_os.Pipeline.Signal.{RawSignal}
use finance_agent_os.Workflow.Proposal.{WorkflowProposal, slice_text}
use finance_agent_os.Workflow.State.{
  running, completed, user_rejected, failed, approval, paper_execution, portfolio_update,
  audit_record, done, was_approved, was_rejected, PipelineAnswer, Execution, WorkflowRun,
  confirmation_mismatch, stale_data, execution_rejected, pipeline_error, Orchestrator, is_awaiting,
  publish, save,
}
use finance_agent_os.Workflow.Start.{fail_at, hydrate, clean_orphans}

-- What the user types to approve. `symbol` is the text of what is there.
pub record Confirmation : Type 0 where
  pub symbol : Option String
  pub side : Option OrderSide
  pub quantity : Number

-- What the first part of `approve` answers: nothing, the run as it stands, or that it waits for the
-- pipeline.
pub data Begun : Type 0 where
  not_found : Begun
  returned executing : WorkflowRun → Begun

abbrev pub same_side : Option OrderSide → OrderSide → Bool
same_side (some buy) buy = true
same_side (some sell) sell = true
same_side _ _ = false

abbrev pub same_quantity : Number → ℕ → Bool
same_quantity (finite (pos n)) q = eqb n q
same_quantity _ q = false

unfoldable pub confirms : Confirmation → WorkflowProposal → Bool
confirms c p =
    to_upper (trim (or_default c.symbol "")) == p.symbol
    && same_side c.side p.side
    && same_quantity c.quantity p.quantity

-- The market's last update is missing, or older than `max_age`. The outer option is the reader's.
unfoldable pub is_stale : ℕ → ℕ → Option (Option ℕ) → Bool
is_stale max_age now none = false
is_stale max_age now (some none) = true
is_stale max_age now (some (some last)) = ltb (last + max_age) now

abbrev side_text : OrderSide → String
side_text buy = "buy"
side_text sell = "sell"

abbrev type_text : OrderType → String
type_text market = "market"
type_text limit = "limit"
type_text stop = "stop"
type_text stop_limit = "stop_limit"

unfoldable pub signal_of : ℕ → String → WorkflowProposal → RawSignal
signal_of now id p = record {
  id = some (String.◌++◌ "sig-" id);
  symbol = some p.symbol;
  side = some (side_text p.side);
  quantity = finite (pos p.quantity);
  price = finite (pos p.price);
  order_type = some (type_text p.order_type);
  strategy = some "orchestrator-workflow";
  agent_id = some "execution-agent";
  correlation_id = none;
  idempotency_key = none;
  confidence = absent;
  timestamp = some now;
}

abbrev pub approved_run : ℕ → WorkflowProposal → WorkflowRun → WorkflowRun
approved_run now p r = record r {
  approval_info =
      some (was_approved now (record { symbol = p.symbol; side = p.side; quantity = p.quantity }));
  status = running;
  stage = paper_execution;
}

-- `approve` up to the call of the pipeline.
unfoldable pub begin_approve :
    ℕ → ℕ → Option (Option ℕ) → String → Confirmation → Orchestrator → Begun × Orchestrator
unfolding confirms is_stale signal_of
begin_approve max_age now last id c w = elim (lookup id w.runs) [
  | none ↦ (not_found, w)
  | some r ↦ elim r.proposal [
    | none ↦ (not_found, w)
    | some p ↦
        let mismatched : WorkflowRun = record r {
          error = some confirmation_mismatch;
          updated_at = now;
        } in
        let stale = fail_at approval stale_data now r in
        let approved = approved_run now p r in
        let w' = save approved w in
        if not (is_awaiting r.status)
        then (returned r, w)
        else if includes w.in_flight id
        then (returned r, w)
        else if not (confirms c p)
        then (returned mismatched, save mismatched w)
        else if is_stale max_age now last
        then (returned stale, save stale w)
        else (
          executing approved,
          record w' {
            in_flight = w'.in_flight ++ id ∷ [];
            executions = w'.executions ++ (id, signal_of now id p) ∷ [];
          },
        )
  ]
]

abbrev execution_of : PipelineAnswer → Execution
execution_of a = record {
  correlation_id = a.correlation_id;
  signal_id = a.signal_id;
  success = a.success;
  stage = a.stage;
  reason = a.reason;
  order = a.order;
  filled_price = elim a.order [ none ↦ none | some o ↦ o.filled_price ];
  filled_quantity = elim a.order [ none ↦ none | some o ↦ o.quantity ];
  fee = elim a.order [ none ↦ none | some o ↦ o.fee ];
}

-- The run behind the pipeline's answer, or behind the message of its error. `portfolio` is the
-- reader's snapshot.
unfoldable pub recorded :
    ℕ → Option (Option String) → Result String PipelineAnswer → WorkflowRun → WorkflowRun
recorded now portfolio (err e) r = fail_at paper_execution (pipeline_error e) now r
recorded now portfolio (ok a) r = record r {
  execution = some (execution_of a);
  audit_ids = r.audit_ids ++ or_default a.audit_ids [];
  status = if a.success then completed else failed;
  stage =
      if a.success
      then elim portfolio [ none ↦ audit_record | some s ↦ portfolio_update ]
      else paper_execution;
  error = if a.success then none else some (execution_rejected a.stage a.reason);
  portfolio_after =
      if a.success
      then elim portfolio [ none ↦ r.portfolio_after | some s ↦ s ]
      else r.portfolio_after;
  updated_at = now;
}

-- `approve` from the pipeline's answer to its end, for the run that it holds.
unfoldable pub finish_approve :
    ℕ
    → Option (Option String)
    → Result String PipelineAnswer
    → WorkflowRun
    → Orchestrator
    → Orchestrator
unfolding recorded
finish_approve now portfolio answer r w =
    let w' : Orchestrator = record w { in_flight = filter (λ x. not (x == r.id)) w.in_flight } in
    publish "orchestrator.workflow_recorded" r.id (save (recorded now portfolio answer r) w')

-- The run that `reject` leaves, and the orchestrator; `none` where nothing is to be rejected.
unfoldable pub reject : ℕ → String → String → Orchestrator → Option WorkflowRun × Orchestrator
reject now id reason w = elim (lookup id w.runs) [
  | none ↦ (none, w)
  | some r ↦
      let clean = slice_text 1000 (trim reason) in
      let audit = String.◌++◌ (String.◌++◌ "audit-" r.id) "-rejected" in
      let r' : WorkflowRun = record r {
        approval_info = some (was_rejected now clean);
        status = user_rejected;
        stage = done;
        updated_at = now;
        audit_ids = r.audit_ids ++ audit ∷ [];
      } in
      if not (is_awaiting r.status) then (none, w) else if clean == "" then (some r, w) else (
        some r',
        publish "orchestrator.workflow_rejected" r.id (save r' (publish "audit.recorded" audit w)),
      )
]

-- `recoverAfterRestart` of a new process, where the store's index has the given ids.
unfoldable pub recover : ℕ → List String → Orchestrator → Orchestrator
recover now ids w =
    let runs = hydrate ids w.disk [] in
    clean_orphans now (values runs) (record w { runs = runs; in_flight = [] })
