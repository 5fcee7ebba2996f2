-- ===== src/Workflow/Caps.antt =====
-- The proposals of the runs, and the signals made of them: apps/server/src/orchestrator/types.ts and
-- orchestrator.ts.
use finance_agent_os.Base.{
  ℕ, ◌≤◌, ◌≡◌, refl, arith, true, not, String, ◌==◌, Option, some, Option-cases, Bool-cases, inl,
  inr, List, [], ◌∷◌, All, All-append, Dict, lookup, insert, values, filter, Result, ok, err, trim,
  subst,
}
use finance_agent_os.Pipeline.Signal.{RawSignal}
use finance_agent_os.Workflow.Proposal.{
  RawProposal, WorkflowProposal, validate_proposal, is_proposal_symbol, quantity_cap, price_cap,
  round_8, slice_text,
}
use finance_agent_os.Workflow.State.{
  WorkflowRun, Orchestrator, PipelineAnswer, save, is_awaiting, is_running, publish,
}
use finance_agent_os.Workflow.Start.{
  Reader, Answers, new_run, event_of, begin_run, finished_run, finish_run, proposed, reviewed,
  hydrate, clean_orphans,
}
use finance_agent_os.Workflow.Approve.{
  Confirmation, Begun, signal_of, approved_run, begin_approve, recorded, finish_approve, reject,
  recover,
}
use finance_agent_os.Workflow.Outcome.{
  Outcome, kept, unconfirmed, stale, cleared, begin_approve-Outcome,
}
use finance_agent_os.Workflow.Events.{
  Event, start, researched, approve, answered, refuse, restart, apply, Enabled, Reachable, nothing,
  next,
}
use Prim.Native.String

-- The symbol is one of A-Z and 0-9, and the caps hold.
abbrev pub Caps : WorkflowProposal → Type 0
Caps p = (is_proposal_symbol p.symbol ≡ true) × (p.quantity ≤ quantity_cap) × (p.price ≤ price_cap)

-- A proposal that is accepted has a valid symbol and keeps the caps behind the rounding.
pub validate_proposal-Caps :
    (raw : Option RawProposal) (p : WorkflowProposal) → validate_proposal raw ≡ ok p → Caps p
unfolding validate_proposal round_8
validate_proposal-Caps raw p h = ground arith

-- Every proposal that a run has keeps the caps.
abbrev pub Sized : WorkflowRun → Type 0
Sized r = (p : WorkflowProposal) → r.proposal ≡ some p → Caps p

abbrev pub SizedSignal : String × RawSignal → Type 0
SizedSignal e = (now : ℕ) × (p : WorkflowProposal) × (e.1 ≡ signal_of now e.0 p) × Caps p

record AllSized (w : Orchestrator) : Type 0 where
  in_memory : All Sized (values w.runs)
  on_disk : All Sized (values w.disk)
  signals : All SizedSignal w.executions

insert-All :
    (P : WorkflowRun → Type 0) (key : String) (r : WorkflowRun) (m : Dict WorkflowRun)
    → P r
    → All P (values m)
    → All P (values (insert key r m))
unfolding insert
insert-All P key r [] h a = (h, tt)
insert-All P key r ((own, old) ∷ m) h (o, a) = elim (Bool-cases (own == key)) [
  | inl e ↦ rw (e, insert) (h, a)
  | inr e ↦ rw (e, insert) (o, insert-All P key r m h a)
]

lookup-All :
    (P : WorkflowRun → Type 0) (key : String) (r : WorkflowRun) (m : Dict WorkflowRun)
    → lookup key m ≡ some r
    → All P (values m)
    → P r
unfolding lookup
lookup-All P key r [] e a = absurd (ground arith)
lookup-All P key r ((own, old) ∷ m) e (o, a) = elim (Bool-cases (own == key)) [
  | inl s ↦ subst P (ground (arith, s)) o
  | inr d ↦ lookup-All P key r m (ground (arith, d)) a
]

save-AllSized : (r : WorkflowRun) (w : Orchestrator) → Sized r → AllSized w → AllSized (save r w)
save-AllSized r w h a = record {
  in_memory = insert-All Sized r.id r w.runs h a.in_memory;
  on_disk = insert-All Sized r.id r w.disk h a.on_disk;
  signals = a.signals;
}

reread :
    {w w' : Orchestrator}
    → w'.runs ≡ w.runs
    → w'.disk ≡ w.disk
    → w'.executions ≡ w.executions
    → AllSized w
    → AllSized w'
reread r d e a = record {
  in_memory = rw (r) a.in_memory;
  on_disk = rw (d) a.on_disk;
  signals = rw (e) a.signals;
}

finished_run-Sized :
    (reader : Reader) (id : String) (started now : ℕ) (a : Answers)
    → Sized (finished_run reader id started now a)
unfolding finished_run proposed reviewed
finished_run-Sized reader id started now a = go a.research_answer a.quant_answer refl refl
  where
    go :
        (x y : Result String String)
        → a.research_answer ≡ x
        → a.quant_answer ≡ y
        → Sized (finished_run reader id started now a)
    go (err e) y ex ey p h = absurd (ground arith)
    go (ok x) (err e) ex ey p h = absurd (ground arith)
    go (ok x) (ok text) ex ey p h =
        ground (arith, validate_proposal-Caps (reader.read_proposal text) p)

recorded-Sized :
    (now : ℕ) (p : Option (Option String)) (a : Result String PipelineAnswer) (r : WorkflowRun)
    → Sized r
    → Sized (recorded now p a r)
unfolding recorded
recorded-Sized now p (ok a) r h = h
recorded-Sized now p (err e) r h = h

event_of-Reads :
    (r : WorkflowRun) (w : Orchestrator)
    → ((event_of r w).runs ≡ w.runs)
      × ((event_of r w).disk ≡ w.disk)
      × ((event_of r w).executions ≡ w.executions)
event_of-Reads r w = ground arith

pub hydrate-All :
    (P : WorkflowRun → Type 0) (ids : List String) (disk runs : Dict WorkflowRun)
    → ((id : String) (r : WorkflowRun) → lookup id disk ≡ some r → P r)
    → All P (values runs)
    → All P (values (hydrate ids disk runs))
unfolding hydrate
hydrate-All P [] disk runs d a = a
hydrate-All P (id ∷ ids) disk runs d a = elim (Option-cases (lookup id disk)) [
  | inl e ↦ rw (e, hydrate) (hydrate-All P ids disk runs d a)
  | inr (r, e) ↦
      rw (e, hydrate) (hydrate-All P ids disk _ d (insert-All P r.id r runs (d id r e) a))
]

clean-AllSized :
    (now : ℕ) (rs : List WorkflowRun) (w : Orchestrator)
    → All Sized rs
    → AllSized w
    → AllSized (clean_orphans now rs w)
unfolding clean_orphans
clean-AllSized now [] w h a = a
clean-AllSized now (r ∷ rs) w (o, h) a = elim (Bool-cases (is_running r.status)) [
  | inl e ↦ rw (e, clean_orphans) (clean-AllSized now rs _ h (save-AllSized _ w o a))
  | inr e ↦ rw (e, clean_orphans) (clean-AllSized now rs w h a)
]

reject-AllSized :
    (now : ℕ) (key reason : String) (w : Orchestrator)
    → AllSized w
    → AllSized (reject now key reason w).1
unfolding reject
reject-AllSized now key reason w a = elim (Option-cases (lookup key w.runs)) [
  | inl e ↦ rw (e, reject) a
  | inr (r, e) ↦ elim (Bool-cases (is_awaiting r.status)) [
    | inr b ↦ rw (e, reject, b) a
    | inl b ↦ elim (Bool-cases (slice_text 1000 (trim reason) == "")) [
      | inl c ↦ rw (e, reject, b, c) a
      | inr c ↦
          let audit = String.◌++◌ (String.◌++◌ "audit-" r.id) "-rejected" in
          rw (e, reject, b, c)
            (reread refl refl refl (
              save-AllSized _ (publish "audit.recorded" audit w)
                (lookup-All Sized key r w.runs e a.in_memory) (reread refl refl refl a)))
    ]
  ]
]

approve-AllSized :
    (max_age now : ℕ) (last : Option (Option ℕ)) (key : String) (c : Confirmation)
    (w : Orchestrator)
    → AllSized w
    → AllSized (begin_approve max_age now last key c w).1
approve-AllSized max_age now last key c w a = go (begin_approve-Outcome max_age now last key c w)
  where
    stored : (r : WorkflowRun) → lookup key w.runs ≡ some r → Sized r
    stored r e = lookup-All Sized key r w.runs e a.in_memory

    go : {b : Begun} {w' : Orchestrator} → Outcome max_age now last key c w b w' → AllSized w'
    go (kept n) = a
    go (unconfirmed r e g) = save-AllSized _ w (stored r e) a
    go (stale r e) = save-AllSized _ w (stored r e) a
    go (cleared x) =
        let t = save-AllSized (approved_run now x.proposal x.run) w (stored x.run x.stored) a in
        record {
          in_memory = t.in_memory;
          on_disk = t.on_disk;
          signals =
              All-append SizedSignal w.executions _ t.signals
                ((now, x.proposal, refl, stored x.run x.stored x.proposal x.proposed), tt);
        }

apply-AllSized : (ev : Event) (w : Orchestrator) → Enabled ev w → AllSized w → AllSized (apply ev w)
unfolding apply begin_run finish_run finish_approve recover
apply-AllSized (start key now) w en a =
    reread refl refl refl (save-AllSized (new_run key now) w (λ p h. absurd (ground arith)) a)
apply-AllSized (researched reader key started now an) w en a =
    let r = finished_run reader key started now an in
    let e = event_of-Reads r (save r w) in
    reread e.0 e.1 e.2 (save-AllSized r w (finished_run-Sized reader key started now an) a)
apply-AllSized (approve max_age now last key c) w en a = approve-AllSized max_age now last key c w a
apply-AllSized (answered now p an key r) w en a =
    let flown : Orchestrator = record w { in_flight = filter (λ x. not (x == r.id)) w.in_flight } in
    reread refl refl refl (
      save-AllSized _ flown
        (recorded-Sized now p an r (lookup-All Sized key r w.runs en.0 a.in_memory))
        (reread refl refl refl a))
apply-AllSized (refuse now key reason) w en a = reject-AllSized now key reason w a
apply-AllSized (restart now ids) w en a =
    let h =
      hydrate-All Sized ids w.disk [] (λ id r e. lookup-All Sized id r w.disk e a.on_disk) tt in
    clean-AllSized now _ _ h (record { in_memory = h; on_disk = a.on_disk; signals = a.signals })

Reachable-AllSized : {w : Orchestrator} → Reachable w → AllSized w
Reachable-AllSized nothing = record { in_memory = tt; on_disk = tt; signals = tt }
Reachable-AllSized (next ev r en) = apply-AllSized ev _ en (Reachable-AllSized r)

-- In every order of the events, each signal that the pipeline gets is made of a proposal whose symbol
-- has 2 to 20 characters of A-Z and 0-9 and whose quantity and price keep the caps.
pub executed-SizedSignal : {w : Orchestrator} → Reachable w → All SizedSignal w.executions
executed-SizedSignal r = (Reachable-AllSized r).signals
