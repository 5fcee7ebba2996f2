-- ===== src/Lib.antt =====
-- A verification library for the trading core of finance-agent-os: how a signal becomes an order, and
-- what may stop it.
--
-- The program's parts, and the files that model them. Paths are from the root of the repository; all
-- of them but those of Core begin with apps/server/src/.
--
-- Base holds what the models share: native numbers and integers, numbers of JavaScript that may be
-- absent or not finite (Number), `Map` as an association list in insertion order (Dict), text
-- functions, and Result for calls that may throw.
--
-- Order: order-manager/canonical.ts (Order/Status, Order/Data) and order-manager/order-manager.ts.
-- `OrderManager` is the record of its maps, of the keys of known fills, of the snapshot last written
-- and of the events published. createOrder is `create_order` (its validation `checked_fields`, the
-- rest `create_checked` and `register`), updateStatus is `update_status`, and cancelOrder,
-- rejectOrder, failOrder and retryOrder are `cancel_order`, `reject_order`, `fail_order` and
-- `retry_order`, all in Order/Manager; applyFill is `apply_fill` in Order/Fill, with the queries. The
-- secondary maps hold references to the objects of the first; the model keeps the object's id.
-- Invariant, Edits, FillEdits, Creation and History hold the invariant, what one call may write, and
-- runs of calls; Answers, Fills, FillEffects and Retry hold what single calls promise.
--
-- Safety: safety/kill-switch.ts (Safety/KillSwitch), safety/lifecycle-manager.ts (Safety/Lifecycle),
-- safety/hard-limits.ts (Safety/HardLimits); Safety/Admission says which orders the hard limits allow.
-- The loops over open orders are in Safety/Cancel, with
-- the broker as a parameter of type `Broker`. The kill switch and the shutdown call the order manager.
--
-- Risk: risk-engine/ticket.ts (Risk/Ticket). The anti-replay cache is `UsedTickets`; its two halves
-- are related in Risk/Cache.
--
-- The engine that issues the tickets is risk-engine/risk-engine.ts: its state and tests are in
-- Risk/Rules, `evaluate` with `makeDecision` in Risk/Engine. The checks stand in two lists, since the
-- engine's peak is written between them; a check says which rules it notes before it and behind it.
-- Risk/Figures describes what the limits are measured against, Risk/Limits and Risk/Verdict relate the
-- checks to the limits, Risk/Approval is about the quantity
-- and the ticket of an approval, Risk/Cooling about the cooldown.
--
-- Guard: core/loop-guard.ts (Guard/LoopGuard), with its depths, cooldowns and retries in a file each.
--
-- Core: packages/core/src/lifecycle.ts (Core/Phases), with the order of its phases in Core/Forward.
--
-- Approvals: approvals/approval-service.ts with approvals/types.ts (Approvals/Service), and the
-- handler of signals with utils/validation-helpers.ts (Approvals/Signals). `approve` is cut at its
-- await into `begin_approve` and `finish_approve`, so that other calls can come between them.
--
-- Pipeline: execution-pipeline/validation.ts and types.ts (Pipeline/Signal), permission.ts
-- (Pipeline/Gates), audit.ts and the state of pipeline.ts (Pipeline/State), and the stages of
-- executeInternal (Pipeline/Execute, Pipeline/Stages, Pipeline/Run). It calls the kill switch, the
-- hard limits and the order manager of this library; the paper broker, the risk agent and the
-- gateway's permissions are parameters in the record `Around`.
--
-- Reconcile: safety/exchange-reconciliation.ts. `reconcile` is in Reconcile/Report, `autoMitigate`,
-- which calls the broker, the kill switch and the order manager, in Reconcile/Mitigation.
--
-- Workflow: orchestrator/types.ts (Workflow/Proposal, Workflow/State) and orchestrator/orchestrator.ts
-- (Workflow/Start, Workflow/Approve). `startRun` and `approve` are cut at the awaits of the agents and
-- of the pipeline into `begin_run` and `finish_run`, `begin_approve` and `finish_approve`;
-- Workflow/Events lets every other call and a restart of the server come in between. The state holds
-- the runs in memory, the runs on the disk, and the signals given to the pipeline. Spent, Steps,
-- Outcome, Once, Caps and Restart are about all orders of these events.
--
-- Trade: trade-engine/trade-engine.ts (Trade/State, Trade/Engine). The profit of a trade is kept as a quotient over
-- the denominator of its entry price. Trade/Aggregate is about the fills of one order, Trade/Closing
-- about the profit, Trade/Redelivery about fills that come again, Trade/Late about
-- fills that come for a closed trade. Trade/Mirror puts the order
-- manager and the trade engine together: `fill_event` is the data of the event that the one publishes
-- and the other handles.
--
-- Units. A quantity is a number of units of 1e-9, the tolerance of the order manager; a price is a
-- number of a fixed money unit, a value is their product, and a fee is in thousandths of it in the
-- order manager and in the trade engine. A percentage is in thousandths. Arithmetic is exact: rounding of floating-point numbers is not modelled, and an
-- average price is kept as the quotient that the program computes.
--
-- All loops of the program are over finite lists, so that their models are structural recursion and
-- no fuel is used. The clock and the results of random generators are arguments.
--
-- Not modelled: the reading of the order file, console output, texts for people, the ids and times of
-- audit entries, executions of the pipeline that overlap, and letters outside ASCII in changes of
-- case; what cleanup handlers do, of which the model keeps the order of the calls; and orders shown to
-- the ticket's verification with NaN or a negative number. A write of the snapshot, and one of a run of the workflow, is taken to succeed. HMAC-SHA256 is
-- a parameter, and so are the answers of the agents and what is read from their JSON. The steps that
-- `startRun` saves on its way are one with its end, since they all leave the run running. The metrics
-- in a decision of the risk engine are floating-point numbers for display.
pub mod Base
pub mod Order
pub mod Safety
pub mod Risk
pub mod Guard
pub mod Core
pub mod Approvals
pub mod Pipeline
pub mod Reconcile
pub mod Trade
pub mod Workflow
pub mod Tests
