-- ===== src/Workflow/Events.antt =====
-- The calls of the orchestrator in any interleaving: apps/server/src/orchestrator/orchestrator.ts.
-- A call with an `await` in its middle is two events, and other events may stand between the two.
use finance_agent_os.Base.{
  ℕ, ◌≡◌, true, String, Option, none, some, List, [], lookup, includes, Result,
}
use finance_agent_os.Workflow.State.{PipelineAnswer, WorkflowRun, Orchestrator}
use finance_agent_os.Workflow.Start.{Reader, Answers, new_run, begin_run, finish_run}
use finance_agent_os.Workflow.Approve.{Confirmation, begin_approve, finish_approve, reject, recover}

pub data Event : Type 0 where
  start : String → ℕ → Event
  researched : Reader → String → ℕ → ℕ → Answers → Event
  approve : ℕ → ℕ → Option (Option ℕ) → String → Confirmation → Event
  answered :
      ℕ → Option (Option String) → Result String PipelineAnswer → String → WorkflowRun → Event
  refuse : ℕ → String → String → Event
  restart : ℕ → List String → Event

unfoldable pub apply : Event → Orchestrator → Orchestrator
apply (start id now) w = begin_run id now w
apply (researched reader id started now a) w = finish_run reader id started now a w
apply (approve max_age now last id c) w = (begin_approve max_age now last id c w).1
apply (answered now portfolio a id r) w = finish_approve now portfolio a r w
apply (refuse now id reason) w = (reject now id reason w).1
apply (restart now ids) w = recover now ids w

-- When an event may come: the id of a new run is unknown; a run that the agents finish has not left
-- its first state; a run that the pipeline answers is in flight.
abbrev pub Enabled : Event → Orchestrator → Type 0
Enabled (start id now) w = (lookup id w.runs ≡ none) × (lookup id w.disk ≡ none)
Enabled (researched reader id started now a) w = lookup id w.runs ≡ some (new_run id started)
Enabled (answered now portfolio a id r) w =
    (lookup id w.runs ≡ some r) × (includes w.in_flight id ≡ true)
Enabled _ w = Unit

pub data Reachable : Orchestrator → Type 0 where
  nothing :
      Reachable (record { runs = []; in_flight = []; disk = []; executions = []; published = [] })
  next : {w : Orchestrator} (e : Event) → Reachable w → Enabled e w → Reachable (apply e w)
